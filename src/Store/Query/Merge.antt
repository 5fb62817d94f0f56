-- ===== src/Store/Query/Merge.antt =====
-- The merge of the filters' rows: the first events of each are enough for the first of all.
use spurline.Prelude.{
  ℕ, Bool, false, ◌||◌, ◌≡◌, refl, ap, ◌∙◌, sym, List, [], ◌∷◌, map, filter, any, take, All, arith,
  Bool-cases, inl, inr,
}
use mathlib.Core.Path.{fun_ext}
use spurline.Prelude.Text.{text_eq, text_eq_iff}
use spurline.Events.{StoredEvent}
use spurline.Filters.{Filter}
use spurline.Store.{EventRow}
use spurline.Store.Query.{Key, event_key, row_key, put, put_all}
use spurline.Store.Query.Order.{
  ins, ins_all, IsDesc, ins_comm, ins_idem, ins-ins_all, ins_all_swap, ins_all_of_IsDesc,
  ins_all-IsDesc, take-ins_all, take-ins_all-take,
}

-- the keys of a list of events as a descending list
abbrev pub keys : List StoredEvent → List Key
keys es = map event_key es

abbrev pub sorted_keys : List StoredEvent → List Key
sorted_keys es = ins_all (keys es) []

-- `e` is the only event of its id among the events.
abbrev pub Agrees : StoredEvent → StoredEvent → Type 0
Agrees e d = d.id ≡ e.id → d ≡ e

abbrev pub PutsAgree : List StoredEvent → List StoredEvent → Type 0
PutsAgree [] matches = Unit
PutsAgree (e ∷ es) matches = All (Agrees e) matches × PutsAgree es (put e matches)

pub sorted_keys-put :
    (e : StoredEvent) (matches : List StoredEvent)
    → All (Agrees e) matches
    → sorted_keys (put e matches) ≡ ins (event_key e) (sorted_keys matches)
unfolding put
sorted_keys-put e [] h = refl
sorted_keys-put e (d ∷ matches) h = elim (Bool-cases (text_eq d.id e.id)) [
  | inl same ↦ rw same (
      sym (ins_idem (event_key e) (sorted_keys matches))
      ∙ ap (λ k. ins (event_key e) (ins k (sorted_keys matches)))
          (ap event_key (sym (h.0 ((text_eq_iff d.id e.id).0 same)))))
  | inr other ↦ rw other (
      ap (ins (event_key d)) (sorted_keys-put e matches h.1)
      ∙ ins_comm (event_key d) (event_key e) (sorted_keys matches))
]

-- the keys of the rows that pass a test
abbrev pub row_keys : (EventRow → Bool) → List EventRow → List Key
row_keys p rows = map row_key (filter p rows)

-- Inserting the rows that pass `p` and those that pass `q` is inserting those that pass either.
union :
    (p q : EventRow → Bool) (rows : List EventRow)
    → ins_all (row_keys p rows) (ins_all (row_keys q rows) [])
      ≡ ins_all (row_keys (λ r. q r || p r) rows) []
union p q [] = refl
union p q (r ∷ rows) =
    let old = ins_all (row_keys q rows) [] in
    let push = ins-ins_all (row_key r) (row_keys p rows) old in
    ground (
      arith,
      push,
      ap (ins (row_key r)) push,
      union p q rows,
      ins_idem (row_key r) (ins_all (row_keys (λ r'. q r' || p r') rows) []),
    )

or-false : (b : Bool) → b ≡ (b || false)
or-false b = ground arith

or_assoc : (a b c : Bool) → ((a || b) || c) ≡ (a || (b || c))
or_assoc a b c = ground arith

module _ (rows : List EventRow) (p : Filter → EventRow → Bool) where
  -- all rows of the filters, without a limit
  abbrev pub union_all : List Filter → List Key → List Key
  union_all [] s = s
  union_all (f ∷ fs) s = union_all fs (ins_all (row_keys (p f) rows) s)

  pub union_all-any :
      (fs : List Filter) (q : EventRow → Bool)
      → union_all fs (ins_all (row_keys q rows) [])
        ≡ ins_all (row_keys (λ r. q r || any (λ f. p f r) fs) rows) []
  union_all-any [] q = ap (λ t. ins_all (row_keys t rows) []) (fun_ext λ r. or-false (q r))
  union_all-any (f ∷ fs) q =
      ap (union_all fs) (union (p f) q rows)
      ∙ union_all-any fs (λ r. q r || p f r)
      ∙ ap (λ t. ins_all (row_keys t rows) [])
          (fun_ext λ r. or_assoc (q r) (p f r) (any (λ g. p g r) fs))

  -- The first n of the union depend on the first n of what was there.
  pub take-union_all :
      (n : ℕ) (fs : List Filter) (s t : List Key)
      → take n s ≡ take n t
      → take n (union_all fs s) ≡ take n (union_all fs t)
  take-union_all n [] s t h = h
  take-union_all n (f ∷ fs) s t h =
      take-union_all n fs (ins_all (row_keys (p f) rows) s) (ins_all (row_keys (p f) rows) t) (
        sym (take-ins_all n (row_keys (p f) rows) s)
        ∙ ap (λ k. take n (ins_all (row_keys (p f) rows) k)) h
        ∙ take-ins_all n (row_keys (p f) rows) t)

-- The rows one by one, and the descending list of them.
spread : (ks s : List Key) → IsDesc s → ins_all (ins_all ks []) s ≡ ins_all ks s
spread ks s h =
    ap (ins_all (ins_all ks [])) (sym (ins_all_of_IsDesc s h))
    ∙ ins_all_swap (ins_all ks []) s
    ∙ ap (ins_all s) (ins_all_of_IsDesc (ins_all ks []) (ins_all-IsDesc ks [] tt))
    ∙ ins_all_swap s ks
    ∙ ap (ins_all ks) (ins_all_of_IsDesc s h)

-- What a list with these keys adds to the matches, up to the limit, is what all the rows add.
pub take-select :
    (n : ℕ) (selected : List Key) (all_rows s : List Key)
    → selected ≡ take n (ins_all all_rows [])
    → IsDesc s
    → take n (ins_all selected s) ≡ take n (ins_all all_rows s)
take-select n selected all_rows s e h =
    ap (λ k. take n (ins_all k s)) e
    ∙ take-ins_all-take n (ins_all all_rows []) s (ins_all-IsDesc all_rows [] tt) h
    ∙ ap (take n) (spread all_rows s h)

pub sorted_keys-put_all :
    (es matches : List StoredEvent)
    → PutsAgree es matches
    → sorted_keys (put_all es matches) ≡ ins_all (keys es) (sorted_keys matches)
sorted_keys-put_all [] matches h = refl
sorted_keys-put_all (e ∷ es) matches h =
    sorted_keys-put_all es (put e matches) h.1
    ∙ ap (ins_all (keys es)) (sorted_keys-put e matches h.0)
    ∙ sym (ins-ins_all (event_key e) (keys es) (sorted_keys matches))
