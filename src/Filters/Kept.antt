-- ===== src/Filters/Kept.antt =====
-- What `normalize_filters` keeps of the dicts of a request.
use spurline.Prelude.{
  ◌≡◌, ◌↔◌, inl, inr, refl, ap, ◌∙◌, sym, subst, ◌≤◌, none, some, List, [], ◌∷◌, Any, length, arith,
  ok, Option-cases,
}
use spurline.Json.{Json, null, num, float, str, arr, obj, Fields, end, field, entries, as_dict}
use spurline.Filters.{Filter, Entry, clean_entry, clean, clean_all, normalize_filters}
use spurline.Filters.Bounds.{AreBounded, normalize_filters-AreBounded}
use spurline.Filters.Entries.{IsEntry, clean_entry_iff}

-- The filter has exactly the entries of the dict that are entries of filters.
abbrev pub KeepsOf : Fields → Filter → Type 0
KeepsOf d f = (e : Entry) → Any (λ kept. kept ≡ e) f ↔ Any (λ kv. IsEntry e kv.0 kv.1) (entries d)

clean-KeepsOf : (d : Fields) → KeepsOf d (clean d)
unfolding clean
clean-KeepsOf end e = (λ h. h, λ h. h)
clean-KeepsOf (field key v d) e = elim (Option-cases (clean_entry key v)) [
  | inl dropped ↦ rw dropped (
    λ h. inr ((clean-KeepsOf d e).0 h),
    elim [
      | inl entry ↦ absurd (ground (arith, dropped, (clean_entry_iff key v e).1 entry))
      | inr later ↦ (clean-KeepsOf d e).1 later
    ],
  )
  | inr (kept, found) ↦ rw found (
    elim [
      | inl same ↦ inl ((clean_entry_iff key v e).0 (found ∙ ap some same))
      | inr later ↦ inr ((clean-KeepsOf d e).0 later)
    ],
    elim [
      | inl entry ↦ inl (ground (arith, found, (clean_entry_iff key v e).1 entry))
      | inr later ↦ inr ((clean-KeepsOf d e).1 later)
    ],
  )
]

-- one filter for each dict, in order; what is no dict is skipped
pub data Normalizes : List Json → List Filter → Type 0 where
  finished : Normalizes [] []
  kept :
      {xs : List Json} {fs : List Filter} (d : Fields) (f : Filter)
      → KeepsOf d f
      → Normalizes xs fs
      → Normalizes (obj d ∷ xs) (f ∷ fs)
  skipped :
      {xs : List Json} {fs : List Filter} (x : Json)
      → as_dict x ≡ none
      → Normalizes xs fs
      → Normalizes (x ∷ xs) fs

clean_all-Normalizes : (xs : List Json) → Normalizes xs (clean_all xs)
unfolding clean_all
clean_all-Normalizes [] = finished
clean_all-Normalizes (obj d ∷ xs) = kept d (clean d) (clean-KeepsOf d) (clean_all-Normalizes xs)
clean_all-Normalizes (null ∷ xs) = skipped null refl (clean_all-Normalizes xs)
clean_all-Normalizes (num n ∷ xs) = skipped (num n) refl (clean_all-Normalizes xs)
clean_all-Normalizes (float t ∷ xs) = skipped (float t) refl (clean_all-Normalizes xs)
clean_all-Normalizes (str s ∷ xs) = skipped (str s) refl (clean_all-Normalizes xs)
clean_all-Normalizes (arr ys ∷ xs) = skipped (arr ys) refl (clean_all-Normalizes xs)

-- What `normalize_filters` returns has one filter for each dict of the request, in order, and nothing
-- for the other values. The filter of a dict has exactly these entries of the dict: "ids", "authors"
-- and each "#" with one more character, where the value is a list of strings; "kinds", where it is a
-- list of integers; "since", "until" and "limit", where it is an integer. The request has at most 16
-- values, and the filters are within the bounds.
pub normalize_filters-Normalizes :
    (xs : List Json) (fs : List Filter)
    → normalize_filters xs ≡ ok fs
    → (length xs ≤ 16) × Normalizes xs fs × AreBounded fs
unfolding normalize_filters
normalize_filters-Normalizes xs fs h =
    let (same, bounded, _) = normalize_filters-AreBounded xs fs h in
    (ground arith, subst (Normalizes xs) (sym same) (clean_all-Normalizes xs), bounded)
