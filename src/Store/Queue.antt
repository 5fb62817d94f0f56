-- ===== src/Store/Queue.antt =====
-- What `save` and `witness_update` do to the queue of witness jobs.
use spurline.Prelude.{
  ℕ, ◌+◌, ◌≤◌, Bool, true, false, ◌&&◌, ◌≡◌, ◌⊎◌, inl, inr, refl, ◌∙◌, Option, none, some, List, [],
  ◌∷◌, ◌++◌, map, ltb, arith, if◌then◌else◌, Bool-cases,
}
use spurline.Prelude.Text.{Text, text_eq}
use spurline.Events.{StoredEvent}
use spurline.Store.{
  Database, Connection, JobRow, JobInputs, pending, issued, unavailable, is_pending, new_job,
  has_job, row_of, insert_event, insert_tag, insert_job, replace_deletion, complete_job,
  count_pending, deletion_target, execute, transaction, save, witness_update,
}
use spurline.Store.Effects.{indexed, deleted, deleted_target, enqueued, completed_with, committed}
use spurline.Store.Atomic.{save_cases}
use spurline.Store.Jobs.{
  Follows, Follows-refl, Follows-append, Follows-complete, Follows-give_up, Follows-announce,
}

-- The writes of events, tags and deletions leave the queue alone.
jobs-indexed :
    (own : Text) (tags : List (List Text)) (db : Database)
    → (indexed own tags db).1.witness_jobs ≡ db.witness_jobs
unfolding insert_tag
jobs-indexed own [] db = refl
jobs-indexed own ([] ∷ tags) db = jobs-indexed own tags db
jobs-indexed own ((k ∷ []) ∷ tags) db = jobs-indexed own tags db
jobs-indexed own ((k ∷ w ∷ more) ∷ tags) db =
    jobs-indexed own tags (insert_tag (record { event_id = own; name = k; val = w }) db).1
    ∙ ground arith

jobs-deleted :
    (e : StoredEvent) (tags : List (List Text)) (db : Database)
    → (deleted e tags db).1.witness_jobs ≡ db.witness_jobs
unfolding replace_deletion
jobs-deleted e [] db = refl
jobs-deleted e (t ∷ tags) db =
    jobs-deleted e tags (deleted_target e (deletion_target e.id t) db) ∙ ground arith

-- the queue with the update of a completed job
abbrev completed_jobs : StoredEvent → Option Text → List JobRow → List JobRow
completed_jobs e none js = js
completed_jobs e (some digest) js =
    map
      (λ j.
        if text_eq j.digest digest && is_pending j.state
        then record j { state = issued; receipt = some e; broadcast = false }
        else j)
      js

jobs-completed :
    (e : StoredEvent) (o : Option Text) (db : Database)
    → (completed_with e o db).1.witness_jobs ≡ completed_jobs e o db.witness_jobs
unfolding complete_job
jobs-completed e none db = refl
jobs-completed e (some d) db = refl

jobs-committed :
    (e : StoredEvent) (job : Option JobInputs) (limit : ℕ) (completed : Option Text) (db : Database)
    → (committed e job limit completed db).1.witness_jobs
      ≡ completed_jobs e completed (enqueued job limit db).1.witness_jobs
unfolding committed insert_event
jobs-committed e job limit completed db =
    let queued = (enqueued job limit db).1 in
    let tagged = record queued { events = queued.events ++ row_of e ∷ [] } in
    ground (
      arith,
      jobs-completed e completed (deleted e e.tags (indexed e.id e.tags tagged).1).1,
      jobs-completed e completed (deleted e e.tags queued).1,
      jobs-completed e completed (indexed e.id e.tags tagged).1,
      jobs-completed e completed queued,
      jobs-deleted e e.tags (indexed e.id e.tags tagged).1,
      jobs-deleted e e.tags queued,
      jobs-indexed e.id e.tags tagged,
    )

queued_state :
    (room : Bool)
    → ((if room then pending else unavailable) ≡ pending)
      ⊎ ((if room then pending else unavailable) ≡ unavailable)
queued_state true = inl refl
queued_state false = inr refl

enqueued-Follows :
    (job : JobInputs) (limit : ℕ) (db : Database)
    → Follows db.witness_jobs (enqueued (some job) limit db).1.witness_jobs
unfolding insert_job
enqueued-Follows job limit db =
    elim (Bool-cases (has_job job.signed_event_digest db.witness_jobs)) [
      | inl old ↦ rw old (Follows-refl db.witness_jobs)
      | inr new ↦ rw new (
          Follows-append db.witness_jobs _ (record {
            state = queued_state (ltb (count_pending db.witness_jobs) limit);
            digest = refl;
            receipt = refl;
            broadcast = refl;
          }))
    ]

-- A `save` that commits, with no job to queue or none to complete, keeps the jobs in their order and
-- changes each at most by one move: a pending one gets a receipt or is given up, an issued one is
-- marked as broadcast. The jobs it adds, after these, are pending or given up and have no receipt.
pub committed-Follows :
    (e : StoredEvent) (job : Option JobInputs) (limit : ℕ) (completed : Option Text) (db : Database)
    → (job ≡ none) ⊎ (completed ≡ none)
    → Follows db.witness_jobs (committed e job limit completed db).1.witness_jobs
committed-Follows e none limit none db h =
    rw (jobs-committed e none limit none db) (Follows-refl db.witness_jobs)
committed-Follows e (some job) limit none db h =
    rw (jobs-committed e (some job) limit none db) (enqueued-Follows job limit db)
committed-Follows e none limit (some digest) db h =
    rw (jobs-committed e none limit (some digest) db) (Follows-complete digest e db.witness_jobs)
committed-Follows e (some job) limit (some digest) db (inl h) = absurd (ground arith)
committed-Follows e (some job) limit (some digest) db (inr h) = absurd (ground arith)

updated :
    (digest : Text) (given_up : Bool) (db : Database) (faults : List Bool)
    → Follows db.witness_jobs
        (witness_update digest given_up (record { db = db; faults = faults })).1.db.witness_jobs
unfolding witness_update transaction execute
updated digest true db [] = Follows-give_up digest db.witness_jobs
updated digest true db (true ∷ faults) = Follows-refl db.witness_jobs
updated digest true db (false ∷ faults) = Follows-give_up digest db.witness_jobs
updated digest false db [] = Follows-announce digest db.witness_jobs
updated digest false db (true ∷ faults) = Follows-refl db.witness_jobs
updated digest false db (false ∷ faults) = Follows-announce digest db.witness_jobs

-- `witness_update` moves a pending job to unavailable, or marks an issued one as broadcast, and
-- leaves every other job, also where SQLite fails.
pub witness_update-Follows :
    (digest : Text) (given_up : Bool) (c : Connection)
    → Follows c.db.witness_jobs (witness_update digest given_up c).1.db.witness_jobs
witness_update-Follows digest given_up c = updated digest given_up c.db c.faults

count_pending-append :
    (js : List JobRow) (k : JobRow)
    → count_pending (js ++ k ∷ []) ≡ count_pending js + (if is_pending k.state then 1 else 0)
unfolding count_pending
count_pending-append [] k = omega arith
count_pending-append (j ∷ js) k = omega (arith, count_pending-append js k)

count_pending-completed :
    (e : StoredEvent) (o : Option Text) (js : List JobRow)
    → count_pending (completed_jobs e o js) ≤ count_pending js
unfolding count_pending
count_pending-completed e none js = omega arith
count_pending-completed e (some digest) [] = omega arith
count_pending-completed e (some digest) (j ∷ js) =
    ground (arith, count_pending-completed e (some digest) js)

count_pending-enqueued :
    (job : Option JobInputs) (limit : ℕ) (db : Database)
    → count_pending db.witness_jobs ≤ limit
    → count_pending (enqueued job limit db).1.witness_jobs ≤ limit
unfolding insert_job
count_pending-enqueued none limit db h = h
count_pending-enqueued (some job) limit db h = ground (
  arith,
  count_pending-append db.witness_jobs
      (new_job job (if ltb (count_pending db.witness_jobs) limit then pending else unavailable)),
)

count_pending-committed :
    (e : StoredEvent) (job : Option JobInputs) (limit : ℕ) (completed : Option Text) (db : Database)
    → count_pending db.witness_jobs ≤ limit
    → count_pending (committed e job limit completed db).1.witness_jobs ≤ limit
count_pending-committed e job limit completed db h = rw (jobs-committed e job limit completed db) (
    omega (
      arith,
      count_pending-completed e completed (enqueued job limit db).1.witness_jobs,
      count_pending-enqueued job limit db h,
    ))

-- At most `limit` jobs are pending after a `save` under that limit, if no more were before, also where
-- the `save` raises.
pub count_pending-save :
    (e : StoredEvent) (job : Option JobInputs) (limit : ℕ) (completed : Option Text)
    (c : Connection)
    → count_pending c.db.witness_jobs ≤ limit
    → count_pending (save e job limit completed c).1.db.witness_jobs ≤ limit
count_pending-save e job limit completed c h = elim (save_cases e job limit completed c) [
  | inl (_, same) ↦ rw same (count_pending-committed e job limit completed c.db h)
  | inr (_, _, same, _) ↦ rw same h
]
