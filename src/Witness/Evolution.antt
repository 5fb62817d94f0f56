-- ===== src/Witness/Evolution.antt =====
-- What a pass of the worker does to the jobs.
use spurline.Prelude.{
  ℕ, Bool, true, false, ◌≡◌, inl, inr, refl, ap, sym, subst, Option, none, some, List, [], ◌∷◌,
  Outcome, ok, err, Bool-cases,
}
use spurline.Prelude.Text.{Text}
use spurline.Json.{Json}
use spurline.Events.{Crypto, StoredEvent}
use spurline.Receipts.{Codec}
use spurline.Store.{Database, Connection, JobRow, is_pending, execute, witness_rows, witness_update}
use spurline.Store.Effects.{committed}
use spurline.Store.Jobs.{Follows, Follows-give_up, Follows-refl}
use spurline.Store.Queue.{committed-Follows, witness_update-Follows}
use spurline.Witness.{WitnessSettings, Conditions, IssueError, issue}
use spurline.Witness.Issue.{AfterIssue, given_up, rows_of, issue_lem, lift_db}
use spurline.Witness.Worker.{Pass, announce_row, process_row, go_on, then_pass, process_rows, work}

-- a sequence of changes, each of which moves every job on at most once
pub data Evolves : List JobRow → List JobRow → Type 0 where
  still : {js : List JobRow} → Evolves js js
  change : {js ks ls : List JobRow} → Follows js ks → Evolves ks ls → Evolves js ls

append : {js ks ls : List JobRow} → Evolves js ks → Evolves ks ls → Evolves js ls
append still f = f
append (change e es) f = change e (append es f)

abbrev Grows : Database → Database → Type 0
Grows db db' = Evolves db.witness_jobs db'.witness_jobs

once :
    (db db' next : Database) → db' ≡ next → Follows db.witness_jobs next.witness_jobs → Grows db db'
once db db' next same f =
    change (subst (λ (d : Database). Follows db.witness_jobs d.witness_jobs) (sym same) f) still

module _ (lib : Crypto) (codec : Codec) (sign : ℕ → Text → List (List Text) → Json)
    (settings : WitnessSettings) (now : ℕ) where
  after_issue :
      (digest : Text) (conds : Conditions) (rows : List JobRow) (db db' : Database)
      → AfterIssue lib codec sign settings now digest conds rows db db'
      → Grows db db'
  after_issue digest conds [] db db' same = once db db' db same (Follows-refl db.witness_jobs)
  after_issue digest conds (row ∷ rows) db db' (inl same) =
      once db db' db same (Follows-refl db.witness_jobs)
  after_issue digest conds (row ∷ rows) db db' (inr (waits, inl (late, same))) =
      once db db' (given_up digest db) same (Follows-give_up digest db.witness_jobs)
  after_issue digest conds (row ∷ rows) db db' (inr (waits, inr (at, in_time, issued))) =
      once db db' (committed issued.event none 1000 (some digest) db).1 issued.saved
        (committed-Follows issued.event none 1000 (some digest) db (inl refl))

  issue-Grows :
      (digest : Text) (conds : Conditions) (c : Connection)
      → Grows c.db (issue lib codec sign settings now conds digest c).1.db
  issue-Grows digest conds c = elim (issue_lem lib codec sign settings now digest conds c) [
    | inl h ↦ after_issue digest conds (rows_of digest c.db) c.db _ h
    | inr same ↦ once c.db _ c.db same (Follows-refl c.db.witness_jobs)
  ]

  module _ (conds : Text → Conditions) where
    announce-Grows :
        (digest : Text) (o : Option StoredEvent) (c : Connection)
        → Grows c.db (announce_row lib codec sign settings now conds digest o c).connection.db
    announce-Grows digest none c = still
    announce-Grows digest (some receipt) c =
        once c.db _ (witness_update digest false c).1.db
          (ap (λ (x : Connection). x.db)
            (lift_db lib codec sign settings now digest (witness_update digest false c)))
          (witness_update-Follows digest false c)

    row-Grows :
        (row : JobRow) (c : Connection)
        → Grows c.db (process_row lib codec sign settings now conds row c).connection.db
    unfolding process_row
    row-Grows row c = elim (Bool-cases (is_pending row.state)) [
      | inl e ↦ rw e (issue-Grows row.digest (conds row.digest) c)
      | inr e ↦ rw e (announce-Grows row.digest row.receipt c)
    ]

    go_on-Grows :
        (db : Database) (p later : Pass) (r : Outcome IssueError (Unit {0}))
        → Grows db p.connection.db
        → Grows p.connection.db later.connection.db
        → Grows db (go_on lib codec sign settings now conds p later r).connection.db
    go_on-Grows db p later (err e) first rest = first
    go_on-Grows db p later (ok u) first rest = append first rest

    then-Grows :
        (db : Database) (p : Pass) (next : Connection → Pass)
        → Grows db p.connection.db
        → ((c : Connection) → Grows c.db (next c).connection.db)
        → Grows db (then_pass lib codec sign settings now conds p next).connection.db
    then-Grows db p next first rest =
        go_on-Grows db p (next p.connection) p.result first (rest p.connection)

    rows-Grows :
        (rows : List JobRow) (c : Connection)
        → Grows c.db (process_rows lib codec sign settings now conds rows c).connection.db
    unfolding process_rows
    rows-Grows [] c = still
    rows-Grows (row ∷ rows) c =
        then-Grows c.db (process_row lib codec sign settings now conds row c)
          (process_rows lib codec sign settings now conds rows) (row-Grows row c) (rows-Grows rows)

    work_from :
        (db : Database) (faults : List Bool)
        → Grows db
            (work lib codec sign settings now conds
              (record { db = db; faults = faults })).connection.db
    unfolding work witness_rows execute
    work_from db [] = rows-Grows _ (record { db = db; faults = [] })
    work_from db (true ∷ faults) = still
    work_from db (false ∷ faults) = rows-Grows _ (record { db = db; faults = faults })

    -- A pass of the worker, however it ends, changes the jobs by a sequence of steps. Each step keeps
    -- the jobs in their order, and changes each at most by one move: a pending one gets a receipt or is
    -- given up, an issued one is marked as broadcast.
    pub work-Evolves :
        (c : Connection)
        → Evolves c.db.witness_jobs
            (work lib codec sign settings now conds c).connection.db.witness_jobs
    work-Evolves c = work_from c.db c.faults
