-- ===== src/Store/Query/Matches.antt =====
-- The dict that `query` fills: distinct ids, and events of the table only.
use spurline.Prelude.{
  Bool, ◌≢◌, inl, inr, ap, List, [], ◌∷◌, filter, All, All-map, All-filter, arith, subst,
  Bool-cases,
}
use spurline.Prelude.Text.{Text, text_eq, text_eq_iff}
use spurline.Events.{StoredEvent}
use spurline.Store.{Database, EventRow}
use spurline.Store.Invariant.{IsValid, DistinctIds}
use spurline.Store.Query.{Key, event_key, row_key, put, put_all}
use spurline.Store.Query.Sorting.{DistinctKeys}
use spurline.Store.Query.Merge.{Agrees, PutsAgree}
use spurline.Store.Query.Answer.{IsStored, IsStored-unique}

-- Distinct ids, of rows and of matches.
abbrev pub DistinctMatches : List StoredEvent → Type 0
DistinctMatches [] = Unit
DistinctMatches (e ∷ es) = All (λ d. e.id ≢ d.id) es × DistinctMatches es

pub distinct_row_keys :
    (p : EventRow → Bool) (rows : List EventRow)
    → DistinctIds rows
    → DistinctKeys row_key (filter p rows)
distinct_row_keys p [] h = tt
distinct_row_keys p (r ∷ rows) h = elim (Bool-cases (p r)) [
  | inl e ↦ rw e (
    All-map (λ q ne same. ne (ap (λ (k : Key). k.1) same)) (filter p rows)
        (All-filter (λ q. r.id ≢ q.id) p rows h.0),
    distinct_row_keys p rows h.1,
  )
  | inr e ↦ rw e (distinct_row_keys p rows h.1)
]

pub distinct_event_keys : (es : List StoredEvent) → DistinctMatches es → DistinctKeys event_key es
distinct_event_keys [] h = tt
distinct_event_keys (e ∷ es) h =
    (All-map (λ q ne same. ne (ap (λ (k : Key). k.1) same)) es h.0, distinct_event_keys es h.1)

fresh-put :
    (id : Text) (e : StoredEvent) (es : List StoredEvent)
    → id ≢ e.id
    → All (λ d. id ≢ d.id) es
    → All (λ d. id ≢ d.id) (put e es)
unfolding put
fresh-put id e [] ne h = (ne, tt)
fresh-put id e (x ∷ es) ne h = ground (arith, ne, h.0, h.1, fresh-put id e es ne h.1)

put-DistinctMatches :
    (e : StoredEvent) (es : List StoredEvent) → DistinctMatches es → DistinctMatches (put e es)
unfolding put
put-DistinctMatches e [] h = (tt, tt)
put-DistinctMatches e (x ∷ es) h = elim (Bool-cases (text_eq x.id e.id)) [
  | inl same ↦
      rw same (
        subst (λ i. All (λ d. i ≢ d.id) es × DistinctMatches es) ((text_eq_iff x.id e.id).0 same) h)
  | inr other ↦ rw other (
    fresh-put x.id e es (λ same. ground (arith, text_eq_iff x.id e.id)) h.0,
    put-DistinctMatches e es h.1,
  )
]

All-put :
    (P : StoredEvent → Type 0) (e : StoredEvent) (es : List StoredEvent)
    → P e
    → All P es
    → All P (put e es)
unfolding put
All-put P e [] h k = (h, tt)
All-put P e (x ∷ es) h k = ground (arith, h, k.0, k.1, All-put P e es h k.1)

pub All-put_all :
    (P : StoredEvent → Type 0) (es ms : List StoredEvent)
    → All P es
    → All P ms
    → All P (put_all es ms)
All-put_all P [] ms h k = k
All-put_all P (e ∷ es) ms h k = All-put_all P es (put e ms) h.1 (All-put P e ms h.0 k)

pub put_all-DistinctMatches :
    (es ms : List StoredEvent) → DistinctMatches ms → DistinctMatches (put_all es ms)
put_all-DistinctMatches [] ms h = h
put_all-DistinctMatches (e ∷ es) ms h =
    put_all-DistinctMatches es (put e ms) (put-DistinctMatches e ms h)

module _ (db : Database) (valid : IsValid db) where
  stored_agree : (e d : StoredEvent) → IsStored db.events e → IsStored db.events d → Agrees e d
  stored_agree e d he hd = IsStored-unique db.events d e valid.distinct hd he

  pub puts_agree :
      (es ms : List StoredEvent)
      → All (IsStored db.events) es
      → All (IsStored db.events) ms
      → PutsAgree es ms
  puts_agree [] ms h k = tt
  puts_agree (e ∷ es) ms h k = (
    All-map (λ d m. stored_agree e d h.0 m) ms k,
    puts_agree es (put e ms) h.1 (All-put (IsStored db.events) e ms h.0 k),
  )
