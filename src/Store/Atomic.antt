-- ===== src/Store/Atomic.antt =====
-- `EventStore.save` is one transaction: it does all that it is to do, or it raises and changes
-- nothing.
use spurline.Prelude.{
  ℕ, Bool, false, ◌&&◌, ◌≡◌, ◌⊎◌, inl, inr, refl, ap, ◌∙◌, Option, none, some, List, [], arith,
  Outcome, ok, err, if◌then◌else◌,
}
use spurline.Prelude.Int.{pos, eq_ℤ}
use spurline.Prelude.Text.{Text}
use spurline.Json.{value}
use spurline.Events.{StoredEvent}
use spurline.Filters.{fits_int64}
use spurline.Store.{
  Database, Connection, StoreError, sqlite_error, overflow_error, encode_error, refusal,
  insert_or_refuse, Action, pure, execute, transaction, settle, continue, ◌>>=◌, ◌>>◌, JobInputs,
  insert_event, enqueue, add_event, add_tags, record_deletions, complete, save,
}
use spurline.Store.Refusal.{Fits, IsEncodable, refusal-storable, refusal-overflow, refusal-Fits}
use spurline.Store.Effects.{
  Ran, Performs, Performs-pure, Performs-execute, Performs-bind, Performs-if, Performs-enqueue,
  Performs-index_tags, Performs-deletions, Performs-complete, indexed, deleted, enqueued,
  completed_with, committed,
}

-- the block of `save`
save_block : StoredEvent → Option JobInputs → ℕ → Option Text → Action Bool
save_block event witness_job queue_limit completed = do
  enqueue witness_job queue_limit
  inserted ← add_event event
  add_tags inserted event
  record_deletions event
  complete event completed
  execute (λ db. (tt, db))
  pure inserted

module _ (e : StoredEvent) where
  Performs-add_event : refusal e ≡ none → Performs (add_event e) (insert_event e)
  unfolding add_event insert_or_refuse
  Performs-add_event fits = rw fits (Performs-execute (insert_event e))

  Performs-add_tags :
      (inserted : Bool)
      → Performs (add_tags inserted e) (λ db. if inserted then indexed e.id e.tags db else (tt, db))
  unfolding add_tags
  Performs-add_tags inserted =
      Performs-if inserted _ _ _ _ (Performs-index_tags e.id e.tags) (Performs-pure tt)

  Performs-record_deletions :
      Performs
        (record_deletions e)
        (λ db. if eq_ℤ (value e.kind) (pos 5) then deleted e e.tags db else (tt, db))
  unfolding record_deletions
  Performs-record_deletions =
      Performs-if (eq_ℤ (value e.kind) (pos 5)) _ _ _ _ (Performs-deletions e e.tags)
        (Performs-pure tt)

  Performs-save_block :
      (job : Option JobInputs) (limit : ℕ) (completed : Option Text)
      → refusal e ≡ none
      → Performs (save_block e job limit completed) (committed e job limit completed)
  unfolding save_block committed
  Performs-save_block job limit completed fits =
      Performs-bind _ _ (enqueued job limit) _ (Performs-enqueue job limit) λ _.
        Performs-bind _ _ (insert_event e) _ (Performs-add_event fits) λ inserted.
          Performs-bind _ _ _ _ (Performs-add_tags inserted) λ _.
            Performs-bind _ _ _ _ Performs-record_deletions λ _.
              Performs-bind _ _ (completed_with e completed) _ (Performs-complete e completed) λ _.
                Performs-bind _ _ (λ db. (tt, db)) _ (Performs-execute _)
                  λ _. Performs-pure inserted

-- the two ways in which a transaction ends, from the database `db`
abbrev pub IsAtomic :
    {A : Type 0} → A × Database → Database → Outcome StoreError A × Connection → Type 0
IsAtomic (a, db') db (r, c') =
    ((r ≡ ok a) × (c'.db ≡ db')) ⊎ ((r ≡ err sqlite_error) × (c'.db ≡ db))

settle-IsAtomic :
    {A : Type 0} (x : A × Database) (db : Database) (faults : List Bool)
    (r : Outcome StoreError A × Connection)
    → Ran x faults r
    → IsAtomic x db (settle db r)
settle-IsAtomic x db faults (ok a, c) (inl (e, same, _)) = inl (e, same)
settle-IsAtomic x db faults (err y, c) (inl (e, same, _)) = absurd (ground arith)
settle-IsAtomic x db faults (ok a, c) (inr (e, _)) = absurd (ground arith)
settle-IsAtomic x db faults (err y, c) (inr (e, _)) = inr (e, refl)

settle-returns :
    {A : Type 0} (x : A × Database) (db : Database) (faults : List Bool)
    (r : Outcome StoreError A × Connection)
    → faults ≡ []
    → Ran x faults r
    → ((settle db r).0 ≡ ok x.0) × ((settle db r).1.db ≡ x.1)
settle-returns x db faults (ok a, c) h (inl (e, same, _)) = (e, same)
settle-returns x db faults (err y, c) h (inl (e, same, _)) = absurd (ground arith)
settle-returns x db faults r h (inr (e, some_fault)) = absurd (some_fault h)

-- a save of an event that is refused: it raises the refusal's error or one of SQLite's
abbrev pub Refuses : {A : Type 0} → StoreError → Outcome StoreError A → Type 0
Refuses {A = A} x r = (r ≡ err x) ⊎ (r ≡ err sqlite_error)

settle-Refuses :
    {A : Type 0} (x : StoreError) (db : Database) (r : Outcome StoreError A × Connection)
    → Refuses x r.0
    → Refuses x (settle db r).0 × ((settle db r).1.db ≡ db)
settle-Refuses x db (ok a, c) (inl e) = absurd (ground arith)
settle-Refuses x db (ok a, c) (inr e) = absurd (ground arith)
settle-Refuses x db (err y, c) h = (h, refl)

Refuses-later :
    {A B : Type 0} (x : StoreError) (k : A → Action B)
    → ((a : A) (c : Connection) → Refuses x (k a c).0)
    → (start : A × Database) (faults : List Bool) (r : Outcome StoreError A × Connection)
    → Ran start faults r
    → Refuses x (continue k r).0
Refuses-later x k h start faults (ok a, c) ran = h a c
Refuses-later x k h start faults (err y, c) (inl (e, _, _)) = absurd (ground arith)
Refuses-later x k h start faults (err y, c) (inr (e, _)) = inr (ground arith)

module _ (e : StoredEvent) (job : Option JobInputs) (limit : ℕ) (completed : Option Text) where
  save_storable :
      (c : Connection)
      → refusal e ≡ none
      → IsAtomic (committed e job limit completed c.db) c.db (save e job limit completed c)
  unfolding save transaction save_block
  save_storable c fits =
      settle-IsAtomic (committed e job limit completed c.db) c.db c.faults
        (save_block e job limit completed c)
        ((Performs-save_block e job limit completed fits).at c.db c.faults)

  save_refused :
      (c : Connection) (x : StoreError)
      → refusal e ≡ some x
      → Refuses x (save e job limit completed c).0 × ((save e job limit completed c).1.db ≡ c.db)
  unfolding save transaction add_event insert_or_refuse
  save_refused c x refused = settle-Refuses x c.db _ (
      Refuses-later x _ (λ _ c'. inl (rw refused)) (enqueued job limit c.db) c.faults
        (enqueue job limit c) ((Performs-enqueue job limit).at c.db c.faults))

  -- how a `save` ends: all is written, or nothing is and it raises
  abbrev pub Ends : Connection → Type 0
  Ends c =
      (((save e job limit completed c).0 ≡ ok (committed e job limit completed c.db).0)
        × ((save e job limit completed c).1.db ≡ (committed e job limit completed c.db).1))
      ⊎ ((x : StoreError) × ((save e job limit completed c).0 ≡ err x)
          × ((save e job limit completed c).1.db ≡ c.db)
          × ((x ≡ sqlite_error) ⊎ (refusal e ≡ some x)))

  Ends-refusal : (c : Connection) (o : Option StoreError) → refusal e ≡ o → Ends c
  Ends-refusal c none h = elim (save_storable c h) [
    | inl done ↦ inl done
    | inr raised ↦ inr (sqlite_error, raised.0, raised.1, inl refl)
  ]
  Ends-refusal c (some x) h =
      let (raises, same) = save_refused c x h in
      elim raises [
        | inl raised ↦ inr (x, raised, same, inr h)
        | inr raised ↦ inr (sqlite_error, raised, same, inl refl)
      ]

  pub save_cases : (c : Connection) → Ends c
  save_cases c = Ends-refusal c (refusal e) refl

  -- A save that returns has written all.
  pub save_ok :
      (c : Connection) (b : Bool)
      → (save e job limit completed c).0 ≡ ok b
      → (save e job limit completed c).1.db ≡ (committed e job limit completed c.db).1
  save_ok c b returned = elim (save_cases c) [
    | inl done ↦ done.1
    | inr failed ↦ absurd (ground (arith, returned, failed.1))
  ]

  -- A `save` of an event whose numbers fit 64 bits either returns with all its writes done, the
  -- event, its tags, its deletions and the witness job, or raises and leaves the database as it was.
  -- It raises an error of SQLite, or, only where a text of the event has a lone surrogate, the error
  -- of the encoding.
  pub save-IsAtomic :
      (c : Connection)
      → Fits e
      → IsAtomic (committed e job limit completed c.db) c.db (save e job limit completed c)
        ⊎ (¬ (IsEncodable e)
            × ((save e job limit completed c).0 ≡ err encode_error)
            × ((save e job limit completed c).1.db ≡ c.db))
  save-IsAtomic c fits = elim (save_cases c) [
    | inl done ↦ inl (inl done)
    | inr (x, raised, same, inl sqlite) ↦ inl (inr (raised ∙ ap err sqlite, same))
    | inr (x, raised, same, inr refused) ↦
        let (encoding, not_encodable) = refusal-Fits e x fits refused in
        inr (not_encodable, raised ∙ ap err encoding, same)
  ]

  -- Where SQLite does not fail, a `save` of an event whose numbers fit 64 bits and whose texts have no
  -- lone surrogate returns, with all its writes done.
  pub save_returns :
      (c : Connection)
      → Fits e
      → IsEncodable e
      → c.faults ≡ []
      → ((save e job limit completed c).0 ≡ ok (committed e job limit completed c.db).0)
        × ((save e job limit completed c).1.db ≡ (committed e job limit completed c.db).1)
  unfolding save transaction save_block
  save_returns c fits texts none_left =
      settle-returns (committed e job limit completed c.db) c.db c.faults
        (save_block e job limit completed c) none_left
        ((Performs-save_block e job limit completed (refusal-storable e fits texts)).at c.db
          c.faults)

  -- An event whose numbers do not fit 64 bits, and whose texts have no lone surrogate, is refused with
  -- one of the errors that the relay handles, an OverflowError or an error of SQLite, and the database
  -- stays as it was.
  pub save_overflow :
      (c : Connection)
      → (fits_int64 e.created_at && fits_int64 e.kind) ≡ false
      → IsEncodable e
      → Refuses overflow_error (save e job limit completed c).0
        × ((save e job limit completed c).1.db ≡ c.db)
  save_overflow c big texts = save_refused c overflow_error (refusal-overflow e big texts)
