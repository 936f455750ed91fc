-- ===== src/Audit/Worker.antt =====
-- `dispatch_pending_events` of app/modules/audit/worker.py with the outbox of its repository.
use regnova.Prelude.{
  ℕ, zero, suc, String, Bool, Option, some, List, [], ◌∷◌, ◌+◌, filter, not, is_some, ◌==◌,
}
use regnova.Prelude.Results.{Result, ok, raise, ◌>>=◌}
use regnova.Prelude.Rows.{modify_first}
use regnova.Audit.Model.{OutboxEvent, Db, Error}
use regnova.Audit.Log.{record_for_event, notify}

-- At most `limit` of the items.
abbrev pub take : {A : Type 0} → ℕ → List A → List A
take zero xs = []
take (suc limit) [] = []
take (suc limit) (x ∷ xs) = x ∷ take limit xs

abbrev pub is_event : ℕ → OutboxEvent → Bool
is_event id e = e.id == id

-- `get_unpublished`.
unfoldable pub get_unpublished : ℕ → Db → List OutboxEvent
get_unpublished limit db = take limit (filter (λ e. not (is_some e.published_at)) db.outbox)

-- `mark_published` and `mark_failed`.
unfoldable pub mark_published : ℕ → ℕ → Db → Db
unfolding modify_first
mark_published now event_id db = record db {
  outbox = modify_first (is_event event_id) (λ e. record e { published_at = some now }) db.outbox;
}

unfoldable pub mark_failed : ℕ → String → Db → Db
unfolding modify_first
mark_failed event_id message db = record db {
  outbox =
      modify_first (is_event event_id)
        (λ e. record e { attempts = e.attempts + 1; last_error = some message }) db.outbox;
}

module _ (uuid : String → Option ℕ) where
  -- `_publish`.
  unfoldable pub publish : OutboxEvent → Db → Result Error Db
  unfolding record_for_event notify
  publish event db = record_for_event uuid event db >>= λ db. ok (notify event db)

-- `message_of` is `str(exc)`.
module _ (uuid : String → Option ℕ) (message_of : Error → String) (now : ℕ) where
  -- One event, with its commit, and how many were dispatched. A failure marks the event.
  abbrev pub settled : OutboxEvent → Db → Result Error Db → Db × ℕ
  settled event db (ok db') = (mark_published now event.id db', 1)
  settled event db (raise e) = (mark_failed event.id (message_of e) db, 0)

  unfoldable pub dispatch_all : List OutboxEvent → Db → Db × ℕ
  unfolding publish mark_published mark_failed
  dispatch_all [] db = (db, 0)
  dispatch_all (event ∷ events) db =
      let (db', n) = settled event db (publish uuid event db) in
      let (db'', m) = dispatch_all events db' in (db'', n + m)

  unfoldable pub dispatch_pending_events : ℕ → Db → Db × ℕ
  unfolding dispatch_all get_unpublished
  dispatch_pending_events limit db = dispatch_all (get_unpublished limit db) db
