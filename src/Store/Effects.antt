-- ===== src/Store/Effects.antt =====
-- What a sequence of statements does to the database if none of them fails, and that a failure is
-- one of SQLite's.
use mathlib.Core.Path.{subst₂}
use spurline.Prelude.{
  ℕ, Bool, true, false, ◌≡◌, ◌≢◌, ◌⊎◌, inl, inr, refl, Option, none, some, List, [], ◌∷◌, ltb,
  arith, Outcome, ok, err, if◌then◌else◌,
}
use spurline.Prelude.Int.{pos, eq_ℤ}
use spurline.Prelude.Text.{Text}
use spurline.Json.{value}
use spurline.Events.{StoredEvent}
use spurline.Store.{
  Database, Connection, StoreError, sqlite_error, Action, pure, execute, continue, ◌>>=◌, JobInputs,
  pending, unavailable, insert_event, insert_tag, replace_deletion, insert_job, complete_job,
  count_pending, deletion_target, deletion_row, enqueue, complete, index_tags, record_tag_deletions,
  delete_target,
}

abbrev pub Effect : Type 0 → Type 0
Effect A = Database → A × Database

-- The action has the effect and uses up no fault that is not there, or SQLite fails.
abbrev pub Ran :
    {A : Type 0} → A × Database → List Bool → Outcome StoreError A × Connection → Type 0
Ran (a, db') faults (r, c') =
    ((r ≡ ok a) × (c'.db ≡ db') × (faults ≡ [] → c'.faults ≡ []))
    ⊎ ((r ≡ err sqlite_error) × (faults ≢ []))

pub record Performs {A : Type 0} (m : Action A) (f : Effect A) : Type 0 where
  pub at :
      (db : Database) (faults : List Bool)
      → Ran (f db) faults (m (record { db = db; faults = faults }))

module _ {A : Type 0} where
  pub Performs-pure : (a : A) → Performs (pure a) (λ db. (a, db))
  Performs-pure a = record { at = λ db faults. inl (refl, refl, λ e. e) }

  execute-Ran :
      (f : Effect A) (db : Database) (faults : List Bool)
      → Ran (f db) faults (execute f (record { db = db; faults = faults }))
  unfolding execute
  execute-Ran f db [] = inl (refl, refl, λ e. refl)
  execute-Ran f db (true ∷ faults) = inr (refl, λ e. cc)
  execute-Ran f db (false ∷ faults) = inl (refl, refl, λ e. absurd (cc e))

  pub Performs-execute : (f : Effect A) → Performs (execute f) f
  Performs-execute f = record { at = execute-Ran f }

abbrev pub then_effect : {A B : Type 0} → Effect A → (A → Effect B) → Effect B
then_effect f g db = let (a, db') = f db in g a db'

Ran-weaken :
    {A : Type 0} (x : A × Database) (fewer faults : List Bool)
    (r : Outcome StoreError A × Connection)
    → (faults ≡ [] → fewer ≡ [])
    → Ran x fewer r
    → Ran x faults r
Ran-weaken x fewer faults r f (inl (e, same, kept)) = inl (e, same, λ none_left. kept (f none_left))
Ran-weaken x fewer faults r f (inr (e, some_fault)) = inr (e, λ none_left. some_fault (f none_left))

module _ {A B : Type 0} where
  bind-Ran :
      (g : A → Effect B) (k : A → Action B)
      → ((a : A) → Performs (k a) (g a))
      → (a : A) (db' : Database) (faults : List Bool) (r : Outcome StoreError A × Connection)
      → Ran (a, db') faults r
      → Ran (g a db') faults (continue k r)
  bind-Ran g k pk a db' faults (ok b, c) (inl (e, same, kept)) =
      let value_eq : b ≡ a = ground arith in
      subst₂ (λ x d. Ran (g x d) faults (k b c)) value_eq same
        (Ran-weaken (g b c.db) c.faults faults (k b c) kept ((pk b).at c.db c.faults))
  bind-Ran g k pk a db' faults (err x, c) (inl (e, same, kept)) = absurd (ground arith)
  bind-Ran g k pk a db' faults (ok b, c) (inr (e, some_fault)) = absurd (ground arith)
  bind-Ran g k pk a db' faults (err x, c) (inr (e, some_fault)) = inr (ground arith, some_fault)

  pub Performs-bind :
      (m : Action A) (k : A → Action B) (f : Effect A) (g : A → Effect B)
      → Performs m f
      → ((a : A) → Performs (k a) (g a))
      → Performs (m >>= k) (then_effect f g)
  Performs-bind m k f g pm pk = record {
    at = λ db faults.
        let (a, db') = f db in
        bind-Ran g k pk a db' faults (m (record { db = db; faults = faults })) (pm.at db faults);
  }

-- The effects of the parts of `save`, statement by statement.
abbrev pub indexed : Text → List (List Text) → Effect (Unit {0})
indexed id [] db = (tt, db)
indexed id ((name ∷ v ∷ more) ∷ tags) db =
    indexed id tags (insert_tag (record { event_id = id; name = name; val = v }) db).1
indexed id (_ ∷ tags) db = indexed id tags db

abbrev pub deleted_target : StoredEvent → Option Text → Database → Database
deleted_target e none db = db
deleted_target e (some target) db = (replace_deletion (deletion_row e target) db).1

abbrev pub deleted : StoredEvent → List (List Text) → Effect (Unit {0})
deleted e [] db = (tt, db)
deleted e (t ∷ tags) db = deleted e tags (deleted_target e (deletion_target e.id t) db)

abbrev pub enqueued : Option JobInputs → ℕ → Effect (Unit {0})
enqueued none limit db = (tt, db)
enqueued (some job) limit db =
    insert_job job (if ltb (count_pending db.witness_jobs) limit then pending else unavailable) db

abbrev pub completed_with : StoredEvent → Option Text → Effect (Unit {0})
completed_with e none db = (tt, db)
completed_with e (some digest) db = complete_job digest e db

-- What a `save` that commits has done.
unfoldable pub committed : StoredEvent → Option JobInputs → ℕ → Option Text → Effect Bool
committed e job limit completed db =
    let queued = (enqueued job limit db).1 in
    let (inserted, added) = insert_event e queued in
    let tagged = (if inserted then indexed e.id e.tags added else (tt, added)).1 in
    let removed =
      (if eq_ℤ (value e.kind) (pos 5) then deleted e e.tags tagged else (tt, tagged)).1 in
    (inserted, (completed_with e completed removed).1)

pub Performs-enqueue :
    (job : Option JobInputs) (limit : ℕ) → Performs (enqueue job limit) (enqueued job limit)
unfolding enqueue
Performs-enqueue none limit = Performs-pure tt
Performs-enqueue (some job) limit =
    Performs-bind _ _ (λ db. (count_pending db.witness_jobs, db)) _ (Performs-execute _)
      (λ n. Performs-execute _)

pub Performs-index_tags :
    (id : Text) (tags : List (List Text)) → Performs (index_tags id tags) (indexed id tags)
unfolding index_tags
Performs-index_tags id [] = Performs-pure tt
Performs-index_tags id ([] ∷ tags) = Performs-index_tags id tags
Performs-index_tags id ((name ∷ []) ∷ tags) = Performs-index_tags id tags
Performs-index_tags id ((name ∷ v ∷ more) ∷ tags) =
    Performs-bind _ _ (insert_tag (record { event_id = id; name = name; val = v }))
      (λ _. indexed id tags) (Performs-execute _) (λ _. Performs-index_tags id tags)

Performs-delete_target :
    (e : StoredEvent) (o : Option Text)
    → Performs (delete_target e o) (λ db. (tt, deleted_target e o db))
Performs-delete_target e none = Performs-pure tt
Performs-delete_target e (some t) = Performs-execute _

pub Performs-deletions :
    (e : StoredEvent) (tags : List (List Text))
    → Performs (record_tag_deletions e tags) (deleted e tags)
unfolding record_tag_deletions
Performs-deletions e [] = Performs-pure tt
Performs-deletions e (t ∷ tags) =
    Performs-bind _ _ (λ db. (tt, deleted_target e (deletion_target e.id t) db))
      (λ _. deleted e tags) (Performs-delete_target e (deletion_target e.id t))
      (λ _. Performs-deletions e tags)

pub Performs-if :
    {A : Type 0} (b : Bool) (m n : Action A) (f g : Effect A)
    → Performs m f
    → Performs n g
    → Performs (if b then m else n) (λ db. if b then f db else g db)
Performs-if true m n f g pm pn = pm
Performs-if false m n f g pm pn = pn

pub Performs-complete :
    (e : StoredEvent) (o : Option Text) → Performs (complete e o) (completed_with e o)
unfolding complete
Performs-complete e none = Performs-pure tt
Performs-complete e (some digest) = Performs-execute _
