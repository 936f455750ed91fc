-- ===== src/Assignment/History.antt =====
-- Any sequence of the requests of app/modules/internal_role_assignment/service.py.
use regnova.Prelude.{◌≡◌, ℕ, ◌≤◌, String, Bool, Option, List}
use regnova.Access.{InternalRoleCode}
use regnova.Assignment.Model.{Db, Result, ok}
use regnova.Assignment.Service.{Request, is_active, propose, decide}
use regnova.Assignment.Revocation.{propose_revocation, decide_revocation, revoke}
use regnova.Prelude.Rows.{count}
use regnova.Assignment.Single.{
  OnOk, OnOk_apply, IsValid, propose-IsValid, propose_revocation-IsValid, decide_revocation-IsValid,
  revoke-IsValid,
}
use regnova.Assignment.Approval.{decide-IsValid}

-- The write requests with their arguments.
pub data Operation : Type 0 where
  propose_ : ℕ → String → Option (List String) → String → Operation
  decide_ : ℕ → Bool → Option String → Operation
  propose_revocation_ : ℕ → String → Operation
  decide_revocation_ : ℕ → Bool → Option String → Operation
  revoke_ : ℕ → String → Operation

module _ (content_hash : ℕ → InternalRoleCode → Option (List String) → String) where
  unfoldable pub perform : Operation → Request → Db → Result Db
  unfolding propose decide propose_revocation decide_revocation revoke
  perform (propose_ user_id role_code scope rationale) q db =
      propose content_hash q user_id role_code scope rationale db
  perform (decide_ id approve rationale) q db = decide q id approve rationale db
  perform (propose_revocation_ id rationale) q db = propose_revocation q id rationale db
  perform (decide_revocation_ id approve rationale) q db =
      decide_revocation q id approve rationale db
  perform (revoke_ id reason) q db = revoke q id reason db

  -- The tables that a sequence of requests leads to; one that raises changes nothing.
  pub data Reach : Db → Db → Type 0 where
    here : (db : Db) → Reach db db
    next :
        {start db db' : Db} (op : Operation) (q : Request)
        → Reach start db
        → perform op q db ≡ ok db'
        → Reach start db'

  perform-IsValid :
      (op : Operation) (q : Request) (db : Db) → IsValid db → OnOk IsValid (perform op q db)
  unfolding perform
  perform-IsValid (propose_ user_id role_code scope rationale) q db h =
      propose-IsValid content_hash q user_id role_code scope rationale db h
  perform-IsValid (decide_ id approve rationale) q db h = decide-IsValid q id approve rationale db h
  perform-IsValid (propose_revocation_ id rationale) q db h =
      propose_revocation-IsValid q id rationale db h
  perform-IsValid (decide_revocation_ id approve rationale) q db h =
      decide_revocation-IsValid q id approve rationale db h
  perform-IsValid (revoke_ id reason) q db h = revoke-IsValid q id reason db h

  Reach-IsValid : {start db : Db} → Reach start db → IsValid start → IsValid db
  Reach-IsValid (here db) h = h
  Reach-IsValid (next {start} {db} op q r e) h =
      OnOk_apply IsValid e (perform-IsValid op q db (Reach-IsValid r h))

  -- After any sequence of requests at most one grant is in force for each user and role, if that
  -- was so at the start and the rows' identifiers fell from below the next one.
  pub Reach-one_active :
      {start db : Db}
      → Reach start db
      → IsValid start
      → (user_id : ℕ) (code : InternalRoleCode) → count (is_active user_id code) db.assignments ≤ 1
  Reach-one_active r h user_id code = (Reach-IsValid r h).1 user_id code
