-- ===== src/Filters/Clean.antt =====
-- What `normalize_filters` keeps of a dict, and under which keys.
use spurline.Prelude.{◌≡◌, ◌≢◌, some, [], ◌∷◌, All, arith, inl, inr, Option-cases}
use spurline.Prelude.Text.{Text, codes, text_eq_iff}
use spurline.Json.{Json, Fields, end, field, entries}
use spurline.Filters.{Entry, clean, clean_entry, tag_entry}
use spurline.Filters.Matching.{key_of, HasDistinctKeys}

-- The keys of a JSON object are distinct.
abbrev pub HasDistinctFields : Fields → Type 0
HasDistinctFields end = Unit
HasDistinctFields (field k v d) = All (λ e. k ≢ e.0) (entries d) × HasDistinctFields d

key_of-tag_entry : (key : Text) (v : Json) (e : Entry) → tag_entry key v ≡ some e → key_of e ≡ key
key_of-tag_entry [] v e h = ground arith
key_of-tag_entry (c ∷ []) v e h = ground arith
key_of-tag_entry (h ∷ c ∷ []) v e eq = ground arith
key_of-tag_entry (_ ∷ _ ∷ _ ∷ _) v e h = ground arith

-- An entry is kept under its own key.
key_of-clean_entry :
    (key : Text) (v : Json) (e : Entry) → clean_entry key v ≡ some e → key_of e ≡ key
unfolding clean_entry
key_of-clean_entry key v e h = ground (
  arith,
  text_eq_iff key (codes "ids"),
  text_eq_iff key (codes "authors"),
  text_eq_iff key (codes "kinds"),
  text_eq_iff key (codes "since"),
  text_eq_iff key (codes "until"),
  text_eq_iff key (codes "limit"),
  key_of-tag_entry key v e,
)

-- A key that the dict lacks is a key that the filter lacks.
fresh-clean :
    (k : Text) (d : Fields) → All (λ e. k ≢ e.0) (entries d) → All (λ e. k ≢ key_of e) (clean d)
unfolding clean
fresh-clean k end h = tt
fresh-clean k (field j v d) h = elim (Option-cases (clean_entry j v)) [
  | inl e ↦ rw e (fresh-clean k d h.1)
  | inr (entry, e) ↦ rw e (rw (key_of-clean_entry j v entry e) h.0, fresh-clean k d h.1)
]

-- What is kept of a dict is a filter with distinct keys.
pub clean-HasDistinctKeys : (d : Fields) → HasDistinctFields d → HasDistinctKeys (clean d)
unfolding clean
clean-HasDistinctKeys end h = tt
clean-HasDistinctKeys (field k v d) h = elim (Option-cases (clean_entry k v)) [
  | inl e ↦ rw e (clean-HasDistinctKeys d h.1)
  | inr (entry, e) ↦
      rw e (rw (key_of-clean_entry k v entry e) (fresh-clean k d h.0), clean-HasDistinctKeys d h.1)
]
