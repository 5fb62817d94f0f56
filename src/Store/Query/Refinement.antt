-- ===== src/Store/Query/Refinement.antt =====
-- `EventStore.query` returns the events of its specification.
use mathlib.Core.Path.{fun_ext}
use spurline.Prelude.{
  ℕ, false, ◌&&◌, ◌≡◌, ◌≢◌, refl, ap, ap₂, ◌||◌, ◌∙◌, sym, List, [], ◌∷◌, map, filter, any, take,
  All, All-zip, All-filter, All-take, All-of_map, arith, map-take, any-and,
}
use spurline.Events.{StoredEvent}
use spurline.Filters.{Filter, matches_any_filter, matches_filter}
use spurline.Store.{Database, EventRow}
use spurline.Store.Invariant.{IsValid, IsRow}
use spurline.Store.Query.{event_key, row_key, put_all, select, sort_desc, is_visible, where_clause}
use spurline.Store.Query.Order.{ins_all, ins_all-IsDesc}
use spurline.Store.Query.Sorting.{DistinctKeys, map-sort_desc, All-sort_desc}
use spurline.Store.Query.Merge.{
  keys, sorted_keys, sorted_keys-put_all, row_keys, union_all, union_all-any, take-union_all,
  take-select,
}
use spurline.Store.Query.Where.{answers, filter-where_clause}
use spurline.Store.Query.Answer.{IsStored, IsStored-unique, rows-IsStored, matching}
use spurline.Store.Query.Matches.{
  DistinctMatches, distinct_row_keys, distinct_event_keys, All-put_all, put_all-DistinctMatches,
  puts_agree,
}

event_key-raw_json : (r : EventRow) → IsRow r → event_key r.raw_json ≡ row_key r
event_key-raw_json r h = sym (ap row_key h.columns)

keys-raw_json :
    (rows : List EventRow) → All IsRow rows → keys (map (λ r. r.raw_json) rows) ≡ map row_key rows
keys-raw_json [] h = refl
keys-raw_json (r ∷ rows) h =
    ap₂ (λ k ks. k ∷ ks) (event_key-raw_json r h.0) (keys-raw_json rows h.1)

distinct_raw_keys :
    (rows : List EventRow)
    → All IsRow rows
    → DistinctKeys row_key rows
    → DistinctKeys event_key (map (λ r. r.raw_json) rows)
distinct_raw_keys [] h d = tt
distinct_raw_keys (r ∷ rows) h d = (
  All-of_map (λ e. event_key r.raw_json ≢ event_key e) (λ (q : EventRow). q.raw_json) rows
      (All-zip {P = IsRow} {Q = λ q. row_key r ≢ row_key q}
        {R = λ q. event_key r.raw_json ≢ event_key q.raw_json}
        (λ q row ne same. ne (ap row_key h.0.columns ∙ same ∙ sym (ap row_key row.columns))) rows
        h.1 d.0),
  distinct_raw_keys rows h.1 d.1,
)

-- Two lists of stored events with the same keys are one list.
eq_of_keys :
    (db : Database)
    → IsValid db
    → (xs ys : List StoredEvent) → All (IsStored db.events) xs
    → All (IsStored db.events) ys
    → keys xs ≡ keys ys
    → xs ≡ ys
eq_of_keys db valid [] [] hx hy e = refl
eq_of_keys db valid [] (y ∷ ys) hx hy e = cc
eq_of_keys db valid (x ∷ xs) [] hx hy e = cc
eq_of_keys db valid (x ∷ xs) (y ∷ ys) hx hy e =
    ap₂ (λ z zs. z ∷ zs) (IsStored-unique db.events x y valid.distinct hx.0 hy.0 (ground arith))
      (eq_of_keys db valid xs ys hx.1 hy.1 (ground arith))

filter-false : (rows : List EventRow) → filter (λ r. false) rows ≡ []
filter-false [] = refl
filter-false (r ∷ rows) = filter-false rows

-- the matches of the filters, without the connection
abbrev pub gathered : Database → ℕ → List Filter → List StoredEvent → List StoredEvent
gathered db n [] ms = ms
gathered db n (f ∷ fs) ms = gathered db n fs (put_all (select db f n) ms)

module _ (db : Database) (valid : IsValid db) (n : ℕ) where
  select-IsStored : (f : Filter) → All (IsStored db.events) (select db f n)
  unfolding select
  select-IsStored f =
      All-of_map (IsStored db.events) (λ (r : EventRow). r.raw_json) _
        (All-take (λ r. IsStored db.events r.raw_json) n _
          (All-sort_desc row_key (λ r. IsStored db.events r.raw_json) _
            (All-filter (λ r. IsStored db.events r.raw_json) (where_clause db f) db.events
              (rows-IsStored db valid))))

  gathered-IsStored :
      (fs : List Filter) (ms : List StoredEvent)
      → All (IsStored db.events) ms
      → All (IsStored db.events) (gathered db n fs ms)
  gathered-IsStored [] ms h = h
  gathered-IsStored (f ∷ fs) ms h =
      gathered-IsStored fs (put_all (select db f n) ms)
        (All-put_all (IsStored db.events) (select db f n) ms (select-IsStored f) h)

  gathered-DistinctMatches :
      (fs : List Filter) (ms : List StoredEvent)
      → DistinctMatches ms
      → DistinctMatches (gathered db n fs ms)
  gathered-DistinctMatches [] ms h = h
  gathered-DistinctMatches (f ∷ fs) ms h =
      gathered-DistinctMatches fs (put_all (select db f n) ms)
        (put_all-DistinctMatches (select db f n) ms h)

  -- The SELECT of a filter has the first keys of the rows that answer it.
  keys-select :
      (f : Filter) → keys (select db f n) ≡ take n (ins_all (row_keys (answers db f) db.events) [])
  unfolding select
  keys-select f =
      let kept = filter (where_clause db f) db.events in
      keys-raw_json (take n (sort_desc row_key kept)) (
        All-take IsRow n _ (
          All-sort_desc row_key IsRow kept
            (All-filter IsRow (where_clause db f) db.events valid.rows)))
      ∙ map-take row_key n (sort_desc row_key kept)
      ∙ ap (take n) (
          map-sort_desc row_key kept
            (distinct_row_keys (where_clause db f) db.events valid.distinct))
      ∙ ap (λ rows. take n (ins_all (map row_key rows) [])) (filter-where_clause db f valid)

  take-gathered :
      (fs : List Filter) (ms : List StoredEvent)
      → All (IsStored db.events) ms
      → take n (sorted_keys (gathered db n fs ms))
        ≡ take n (union_all db.events (answers db) fs (sorted_keys ms))
  take-gathered [] ms h = refl
  take-gathered (f ∷ fs) ms h =
      let selected = select db f n in
      take-gathered fs (put_all selected ms)
        (All-put_all (IsStored db.events) selected ms (select-IsStored f) h)
      ∙ take-union_all db.events (answers db) n fs (sorted_keys (put_all selected ms))
          (ins_all (row_keys (answers db f) db.events) (sorted_keys ms))
          (ap (take n) (
              sorted_keys-put_all selected ms
                (puts_agree db valid selected ms (select-IsStored f) h))
            ∙ take-select n (keys selected) (row_keys (answers db f) db.events) (sorted_keys ms)
                (keys-select f) (ins_all-IsDesc (keys ms) [] tt))

  any-answers :
      (fs : List Filter) (r : EventRow)
      → (false || any (λ f. answers db f r) fs)
        ≡ (is_visible db.deletions r && matches_any_filter r.raw_json fs)
  unfolding matches_any_filter
  any-answers fs r = any-and (is_visible db.deletions r) (λ f. matches_filter r.raw_json f) fs

  union_all-matching :
      (fs : List Filter) → union_all db.events (answers db) fs [] ≡ sorted_keys (matching db fs)
  unfolding matching
  union_all-matching fs =
      ap (λ rows. union_all db.events (answers db) fs (ins_all (map row_key rows) []))
        (sym (filter-false db.events))
      ∙ union_all-any db.events (answers db) fs (λ r. false)
      ∙ ap (λ p. ins_all (row_keys p db.events) []) (fun_ext (any-answers fs))
      ∙ ap (λ ks. ins_all ks []) (sym (keys-raw_json _ (All-filter IsRow _ db.events valid.rows)))

  matching-IsStored : (fs : List Filter) → All (IsStored db.events) (matching db fs)
  unfolding matching
  matching-IsStored fs =
      All-of_map (IsStored db.events) (λ (r : EventRow). r.raw_json) _
        (All-filter (λ r. IsStored db.events r.raw_json) _ db.events (rows-IsStored db valid))

  matching-DistinctKeys : (fs : List Filter) → DistinctKeys event_key (matching db fs)
  unfolding matching
  matching-DistinctKeys fs =
      distinct_raw_keys _ (All-filter IsRow _ db.events valid.rows)
        (distinct_row_keys _ db.events valid.distinct)

  -- Merging the first n of each filter gives the first n of all.
  pub gathered_lem :
      (fs : List Filter)
      → take n (sort_desc event_key (gathered db n fs []))
        ≡ take n (sort_desc event_key (matching db fs))
  gathered_lem fs =
      eq_of_keys db valid _ _
        (All-take (IsStored db.events) n _
          (All-sort_desc event_key (IsStored db.events) _ (gathered-IsStored fs [] tt)))
        (All-take (IsStored db.events) n _
          (All-sort_desc event_key (IsStored db.events) _ (matching-IsStored fs)))
        (map-take event_key n _
          ∙ ap (take n) (
              map-sort_desc event_key _ (distinct_event_keys _ (gathered-DistinctMatches fs [] tt)))
          ∙ take-gathered fs [] tt
          ∙ ap (take n) (union_all-matching fs)
          ∙ ap (take n) (sym (map-sort_desc event_key _ (matching-DistinctKeys fs)))
          ∙ sym (map-take event_key n _))
