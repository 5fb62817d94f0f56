-- ===== src/Witness/Issue.antt =====
-- When `issue` saves a receipt, and what it does otherwise.
use spurline.Prelude.{
  ℕ, ◌+◌, ◌*◌, ◌≤◌, ◌<◌, max, Bool, true, false, ◌&&◌, ◌≡◌, ◌⊎◌, inl, inr, refl, ap, ◌∙◌, Option,
  none, some, List, [], ◌∷◌, filter, arith, Outcome, ok, err, if◌then◌else◌,
}
use spurline.Prelude.Text.{Text, text_eq}
use spurline.Prelude.Int.{pos_part}
use spurline.Json.{Json, value}
use spurline.Events.{Crypto, StoredEvent, Raised, validate_event}
use spurline.Receipts.{Codec, ReceiptError, verify_receipt}
use spurline.Store.{
  Database, Connection, StoreError, execute, transaction, JobState, JobRow, JobInputs, is_pending,
  pending, save, update_jobs, witness_rows, witness_update, unavailable,
}
use spurline.Store.Effects.{committed}
use spurline.Store.Atomic.{save_cases}
use spurline.Witness.{
  View, WitnessSettings, Conditions, IssueError, issue_time, receipt_for, receipt_subject,
  lift_store, done, save_receipt, if_verified, conclude, issue_row, with_rows, issue, within_grant,
}

pending_of : (s : JobState) → is_pending s ≡ true → s ≡ pending
pending_of s h = ground arith

-- the table after a job is given up
abbrev pub given_up : Text → Database → Database
given_up digest db =
    (update_jobs (λ j. text_eq j.digest digest && is_pending j.state)
      (λ j. record j { state = unavailable }) db).1

-- the rows of a digest
abbrev pub rows_of : Text → Database → List JobRow
rows_of digest db = filter (λ j. text_eq j.digest digest) db.witness_jobs

module _ (lib : Crypto) (codec : Codec) (sign : ℕ → Text → List (List Text) → Json)
    (settings : WitnessSettings) (now : ℕ) (digest : Text) where
  -- a receipt of the job at the time `at`, which was verified and saved as the event `e`
  pub record IsIssued (db db' : Database) (job : JobInputs) (at : ℕ) : Type 0 where
    pub event : StoredEvent
    pub body : Json
    pub verified :
        verify_receipt lib codec now
          (receipt_for lib codec sign settings job at (pos_part (value job.subject.kind)))
          (receipt_subject job.subject)
        ≡ ok body
    pub validated :
        validate_event lib now true
          (receipt_for lib codec sign settings job at (pos_part (value job.subject.kind)))
        ≡ ok event
    pub saved : db' ≡ (committed event none 1000 (some digest) db).1

  -- the database after `issue`
  abbrev pub AfterIssue : Conditions → List JobRow → Database → Database → Type 0
  AfterIssue conds [] db db' = db' ≡ db
  AfterIssue conds (row ∷ rows) db db' =
      (db' ≡ db)
      ⊎ ((row.state ≡ pending)
          × (((issue_time settings conds row.inputs ≡ none) × (db' ≡ given_up digest db))
              ⊎ ((at : ℕ) × (issue_time settings conds row.inputs ≡ some at)
                  × IsIssued db db' row.inputs at)))

  save_db :
      (e : StoredEvent) (c : Connection)
      → ((save e none 1000 (some digest) c).1.db ≡ (committed e none 1000 (some digest) c.db).1)
        ⊎ ((save e none 1000 (some digest) c).1.db ≡ c.db)
  save_db e c = elim (save_cases e none 1000 (some digest) c) [
    | inl (_, h) ↦ inl h
    | inr (_, _, h, _) ↦ inr h
  ]

  update_db :
      (db : Database) (faults : List Bool)
      → let db' = (witness_update digest true (record { db = db; faults = faults })).1.db in
        (db' ≡ given_up digest db) ⊎ (db' ≡ db)
  unfolding witness_update transaction execute
  update_db db [] = inl refl
  update_db db (true ∷ faults) = inr refl
  update_db db (false ∷ faults) = inl refl

  lift_done_db :
      {A : Type 0} (s : Outcome StoreError A × Connection) → (done (lift_store s)).1 ≡ s.1
  lift_done_db (ok a, c) = refl
  lift_done_db (err e, c) = refl

  pub lift_db : {A : Type 0} (s : Outcome StoreError A × Connection) → (lift_store s).1 ≡ s.1
  lift_db (ok a, c) = refl
  lift_db (err e, c) = refl

  module _ (conds : Conditions) (row : JobRow) (rows : List JobRow) (c : Connection) where
    abbrev receipt_at : ℕ → Json
    receipt_at at =
        receipt_for lib codec sign settings row.inputs at (pos_part (value row.inputs.subject.kind))

    abbrev Ended : Outcome IssueError (Unit {0}) × Connection → Type 0
    Ended s = AfterIssue conds (row ∷ rows) c.db s.1.db

    saved_after :
        (at : ℕ) (body : Json) (o : Outcome Raised StoredEvent)
        → row.state ≡ pending
        → issue_time settings conds row.inputs ≡ some at
        → verify_receipt lib codec now (receipt_at at) (receipt_subject row.inputs.subject)
          ≡ ok body
        → validate_event lib now true (receipt_at at) ≡ o
        → Ended (save_receipt lib codec sign settings digest o c)
    saved_after at body (err e) waits in_time verified validated = inl refl
    saved_after at body (ok e) waits in_time verified validated = elim (save_db e c) [
      | inl h ↦ inr (
        waits,
        inr (
          at,
          in_time,
          record {
            event = e;
            body = body;
            verified = verified;
            validated = validated;
            saved =
                ap (λ (x : Connection). x.db) (lift_done_db (save e none 1000 (some digest) c)) ∙ h;
          },
        ),
      )
      | inr h ↦
          inl (ap (λ (x : Connection). x.db) (lift_done_db (save e none 1000 (some digest) c)) ∙ h)
    ]

    verified_after :
        (at : ℕ) (o : Outcome ReceiptError Json)
        → row.state ≡ pending
        → issue_time settings conds row.inputs ≡ some at
        → verify_receipt lib codec now (receipt_at at) (receipt_subject row.inputs.subject) ≡ o
        → Ended (if_verified lib codec sign settings now digest (receipt_at at) o c)
    verified_after at (err e) waits in_time h = inl refl
    verified_after at (ok body) waits in_time h =
        saved_after at body (validate_event lib now true (receipt_at at)) waits in_time h refl

    concluded :
        (o : Option ℕ)
        → row.state ≡ pending
        → issue_time settings conds row.inputs ≡ o
        → Ended (conclude lib codec sign settings now digest row.inputs o c)
    concluded none waits h = elim (update_db c.db c.faults) [
      | inl u ↦ inr (
        waits,
        inl (h, ap (λ (x : Connection). x.db) (lift_db (witness_update digest true c)) ∙ u),
      )
      | inr u ↦ inl (ap (λ (x : Connection). x.db) (lift_db (witness_update digest true c)) ∙ u)
    ]
    concluded (some at) waits h =
        verified_after at
          (verify_receipt lib codec now (receipt_at at) (receipt_subject row.inputs.subject)) waits
          h refl

    by_state :
        (b : Bool)
        → is_pending row.state ≡ b
        → Ended (
            if b
            then conclude lib codec sign settings now digest row.inputs
                (issue_time settings conds row.inputs)
                c
            else (ok tt, c))
    by_state true h = concluded (issue_time settings conds row.inputs) (pending_of row.state h) refl
    by_state false h = inl refl

  row_after :
      (conds : Conditions) (rows : List JobRow) (c : Connection)
      → AfterIssue conds rows c.db (issue_row lib codec sign settings now digest conds rows c).1.db
  row_after conds [] c = refl
  row_after conds (row ∷ rows) c = by_state conds row rows c (is_pending row.state) refl

  after_rows :
      (conds : Conditions) (db : Database) (faults : List Bool)
      → AfterIssue conds
          (rows_of digest db)
          db
          (with_rows lib codec sign settings now digest conds
            (witness_rows (some digest) (record { db = db; faults = faults }))).1.db
        ⊎ ((with_rows lib codec sign settings now digest conds
              (witness_rows (some digest) (record { db = db; faults = faults }))).1.db
            ≡ db)
  unfolding witness_rows execute
  after_rows conds db [] =
      inl (row_after conds (rows_of digest db) (record { db = db; faults = [] }))
  after_rows conds db (true ∷ faults) = inr refl
  after_rows conds db (false ∷ faults) =
      inl (row_after conds (rows_of digest db) (record { db = db; faults = faults }))

  -- `issue` leaves the database as it is, or the first job of the digest is pending and one of two
  -- things happens. If the conditions do not allow a receipt at any time, the job is given up. If
  -- they allow it at a time, the signed receipt of that time passes the receipt's checks and the
  -- event's validation, and it is saved in one transaction with the job's completion.
  pub issue_lem :
      (conds : Conditions) (c : Connection)
      → AfterIssue conds
          (rows_of digest c.db)
          c.db
          (issue lib codec sign settings now conds digest c).1.db
        ⊎ ((issue lib codec sign settings now conds digest c).1.db ≡ c.db)
  unfolding issue
  issue_lem conds c = after_rows conds c.db c.faults

-- the uncertainty that is allowed for at both ends of a grant
abbrev pub margin : Option ℕ → ℕ
margin none = 0
margin (some u) = u

pub within_grant-lem :
    (view : View) (now : ℕ) (u : Option ℕ)
    → within_grant view now u ≡ true
    → (max view.issued_at view.not_before * 1000 + margin u ≤ now)
      × (now + margin u < view.not_after * 1000)
unfolding within_grant
within_grant-lem view now none h = (ground arith, ground arith)
within_grant-lem view now (some u) h = (ground arith, ground arith)
