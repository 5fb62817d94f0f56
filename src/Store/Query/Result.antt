-- ===== src/Store/Query/Result.antt =====
-- What a call of `EventStore.query` returns, also where SQLite fails.
use spurline.Prelude.{
  all, if◌then◌else◌, Bool, true, false, ℕ, ◌≡◌, ◌≢◌, ◌⊎◌, inl, inr, refl, List, [], ◌∷◌, arith,
  Outcome, ok, err,
}
use spurline.Events.{StoredEvent}
use spurline.Filters.{Filter, FilterError, filter_limit, validate_filter_bounds}
use spurline.Store.{
  Database, Connection, StoreError, sqlite_error, encode_error, invalid_filter, continue, raise,
  execute,
}
use spurline.Store.Invariant.{IsValid}
use spurline.Store.Query.{is_bindable, collect, query, select, put_all}
use spurline.Store.Query.Answer.{answer}
use spurline.Store.Query.Refinement.{gathered, gathered_lem}

-- The call leaves the database alone. It returns `a`, or fails at a statement that SQLite failed, or
-- at one of the filters, which has a text that cannot be bound.
abbrev pub Returns :
    List Filter
    → List StoredEvent
    → Connection
    → Outcome StoreError (List StoredEvent) × Connection
    → Type 0
Returns fs a c (r, c') =
    (c'.db ≡ c.db)
    × ((r ≡ ok a)
        ⊎ (((r ≡ err sqlite_error) × (c.faults ≢ []))
            ⊎ ((r ≡ err encode_error) × (all is_bindable fs ≡ false))))

collect_step :
    (f : Filter) (fs : List Filter) (n : ℕ) (ms : List StoredEvent) (db : Database)
    (faults fewer : List Bool)
    → (faults ≡ [] → fewer ≡ [])
    → Returns fs
        (gathered db n (f ∷ fs) ms)
        (record { db = db; faults = fewer })
        (collect fs n (put_all (select db f n) ms) (record { db = db; faults = fewer }))
    → Returns
        (f ∷ fs)
        (gathered db n (f ∷ fs) ms)
        (record { db = db; faults = faults })
        (collect fs n (put_all (select db f n) ms) (record { db = db; faults = fewer }))
collect_step f fs n ms db faults fewer h (same, inl r) = (same, inl r)
collect_step f fs n ms db faults fewer h (same, inr (inl (r, some_fault))) =
    (same, inr (inl (r, λ none_left. some_fault (h none_left))))
collect_step f fs n ms db faults fewer h (same, inr (inr (r, bad))) =
    (same, inr (inr (r, ground (arith, bad))))

collect_bindable :
    (f : Filter) (fs : List Filter) (n : ℕ) (ms : List StoredEvent) (db : Database)
    (faults : List Bool)
    → ((fewer : List Bool)
        → Returns fs
            (gathered db n (f ∷ fs) ms)
            (record { db = db; faults = fewer })
            (collect fs n (put_all (select db f n) ms) (record { db = db; faults = fewer })))
    → Returns
        (f ∷ fs)
        (gathered db n (f ∷ fs) ms)
        (record { db = db; faults = faults })
        (continue
          (λ rows. collect fs n (put_all rows ms))
          (execute (λ d. (select d f n, d)) (record { db = db; faults = faults })))
unfolding execute
collect_bindable f fs n ms db [] h = collect_step f fs n ms db [] [] (λ e. e) (h [])
collect_bindable f fs n ms db (true ∷ faults) h = (refl, inr (inl (refl, λ e. cc)))
collect_bindable f fs n ms db (false ∷ faults) h =
    collect_step f fs n ms db (false ∷ faults) faults (λ e. absurd (cc e)) (h faults)

collect_by :
    (b : Bool) (f : Filter) (fs : List Filter) (n : ℕ) (ms : List StoredEvent) (db : Database)
    (faults : List Bool)
    → is_bindable f ≡ b
    → ((fewer : List Bool)
        → Returns fs
            (gathered db n (f ∷ fs) ms)
            (record { db = db; faults = fewer })
            (collect fs n (put_all (select db f n) ms) (record { db = db; faults = fewer })))
    → Returns
        (f ∷ fs)
        (gathered db n (f ∷ fs) ms)
        (record { db = db; faults = faults })
        (continue
          (λ rows. collect fs n (put_all rows ms))
          ((if b then execute (λ d. (select d f n, d)) else raise encode_error)
            (record { db = db; faults = faults })))
collect_by true f fs n ms db faults e h = collect_bindable f fs n ms db faults h
collect_by false f fs n ms db faults e h = (refl, inr (inr (refl, ground (arith, e))))

collect_lem :
    (fs : List Filter) (n : ℕ) (ms : List StoredEvent) (db : Database) (faults : List Bool)
    → Returns fs
        (gathered db n fs ms)
        (record { db = db; faults = faults })
        (collect fs n ms (record { db = db; faults = faults }))
unfolding collect
collect_lem [] n ms db faults = (refl, inl refl)
collect_lem (f ∷ fs) n ms db faults =
    collect_by (is_bindable f) f fs n ms db faults refl
      (λ fewer. collect_lem fs n (put_all (select db f n) ms) db fewer)

-- On a valid database, a query whose filters pass the bounds check leaves the database as it is and
-- returns the specification's answer, unless SQLite fails at a statement, or a text of some filter has
-- a lone surrogate, and then the query raises.
pub query_lem :
    (fs : List Filter) (c : Connection)
    → IsValid c.db
    → validate_filter_bounds fs ≡ ok tt
    → Returns fs (answer c.db fs) c (query fs c)
unfolding query answer
query_lem fs c valid passed =
    let n = filter_limit fs 500 5000 in
    ground (arith, passed, collect_lem fs n [] c.db c.faults, gathered_lem c.db valid n fs)

-- A query whose filters do not pass raises that error, with no statement run.
pub query_invalid :
    (fs : List Filter) (c : Connection) (e : FilterError)
    → validate_filter_bounds fs ≡ err e
    → query fs c ≡ (err (invalid_filter e), c)
unfolding query
query_invalid fs c e h = rw h
