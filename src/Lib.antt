-- ===== src/Lib.antt =====
-- Regnova: a regulatory-readiness service (FastAPI and SQLAlchemy).
--
-- The library models the decisions that the service makes about a product in a market.
--
-- Prelude: shared names, Boolean tests, lists, and Python's text methods.
-- Engine: app/engine/condition_evaluator.py. A rule's condition tree is evaluated against one
-- subject's facts. Value holds the JSON values and the lookups in them, Compare the comparisons
-- of Python on them, Leaf, Combine and Walk the functions `_walk_leaf`, `_walk_combinator`,
-- `_walk` and `evaluate_condition`. Numbers (int and float) and `str.lower` are parameters, the
-- record Python; the other text methods are defined.
-- Access: the permission checks of app/modules/rbac and app/modules/internal_role_assignment
-- that the services call.
-- Finding: app/modules/finding/service.py with its repository and models. A request is a
-- transaction: it returns the new tables, or raises and leaves none of its writes. Tables are
-- lists with the newest row first, identifiers and times are numbers, a JSON location is its
-- text. Identifiers that the database generates are arguments.
-- Assessment: app/modules/assessment_run/service.py. Model holds the rows, Text the rationales,
-- Output `_apply_output`, which uses Finding to propose findings, Step `_run_step`, which uses
-- Engine to evaluate a rule's condition, and the loops over rules and subjects, and State
-- `_derive_dimension_state` with its queries. Services holds what is called and not defined: fresh
-- identifiers, SHA-256, `json.dumps` and formats. The format of a confidence to two digits always
-- gives a text there; Python's raises if the confidence is not a number, and that is left out.
-- Safety, Attempts, Count and Results are about a run of all rules on all subjects. The documents
-- dimension, the semantic hop and the creation of a run are not modelled.
-- Readiness: app/modules/market_readiness/service.py and app/modules/product_market_state/service.py.
-- Gate holds `_compute_gate`, Open `_open_findings` and the counts of severities, Snapshot
-- `_build_snapshot`, which reads the findings and the states of the dimensions and writes the
-- snapshot, the gate of the market state and two events. Market holds `create` and Update `update`
-- of ProductMarketStateService; a change of a pin makes the current snapshot stale, and an update
-- can send any text as the gate. Writers is any sequence of the three, which are all that write the
-- two tables. Python's `float` is the parameter Floats; products, their versions and the releases
-- are arguments of each call. A state without pins can be given to `_build_snapshot` here, which
-- the preflight refuses. The score of a dimension, the reuse of dimensions and the preflight are
-- not modelled.
-- Assignment: app/modules/internal_role_assignment/service.py. Service holds `propose` and
-- `decide`, Revocation the three requests that withdraw a grant, and History any sequence of
-- requests. The content hash is a parameter.
-- Content: app/modules/content_review/service.py. Workflow holds the transitions of
-- ContentReviewWorkflow on a loaded version, Bulk the two bulk requests, Perform a transition by
-- its kind, and History any sequence of drafts, transitions and bulk requests.
-- Document: app/modules/document_version/service.py, evidence/service.py and their repositories.
-- Sniff holds `sniff_content_type`, Fields DocumentFieldService, Scan `_run_scan_and_transition` and
-- `_run_extraction`, Upload the other calls of DocumentVersionService, Evidence EvidenceService
-- (`create` is link, `delete` unlink). A call returns the new tables or raises. Perform runs any
-- sequence of calls; a call may also stop after its first commit, which leaves what was committed.
-- Clam holds ClamAVScanner of app/scanning, whose daemon is a parameter.
-- SHA-256, the decoding of UTF-8, the settings, the scanner and the extractor are parameters.
-- Audit: app/modules/audit and app/modules/notification. Builders holds AUDIT_BUILDERS, Log
-- `record_for_event` of both services, Worker `dispatch_pending_events`, Reading the queries of
-- AuditService and the row that a query across organizations leaves. `UUID(...)`, the texts of
-- exceptions and the payload of that row are parameters.
-- Basis: app/modules/regulatory_basis_release. Service holds `create` and `update` with their
-- checks, Calls any sequence of them. The content hash is a parameter.
--
-- Every loop of the models is a structural recursion, so no fuel is used. Left out are routing,
-- serialization, the database driver and concurrent transactions.
pub mod Prelude
pub mod Engine
pub mod Access
pub mod Finding
pub mod Assessment
pub mod Readiness
pub mod Assignment
pub mod Content
pub mod Document
pub mod Audit
pub mod Basis
