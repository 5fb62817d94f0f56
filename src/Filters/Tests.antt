-- ===== src/Filters/Tests.antt =====
-- src/spurline/filters.py on small filters.
use spurline.Prelude.{◌≤◌, ◌↔◌, true, ◌≡◌, refl, [], ◌∷◌, All, arith, ok}
use spurline.Prelude.Int.{pos}
use spurline.Prelude.Text.{codes, text_eq}
use spurline.Json.{null, num, str, arr, obj, items_of, Fields, end, field, int, bool}
use spurline.Events.{string_list}
use spurline.Events.Tests.{note}
use spurline.Filters.{
  Filter, kinds, since, limit, tag, clean, clean_all, normalize_filters, validate_filter_bounds,
  check_filters, check_filter, check_entry, check_ints, check_strings, matches_filter,
  as_string_list, as_int_list,
}
use spurline.Filters.Kept.{Normalizes, normalize_filters-Normalizes}
use spurline.Filters.Bounds.{AreBounded, validate_filter_bounds_iff}
use spurline.Filters.Matching.{HasDistinctKeys, Holds, matches_filter_iff}
use spurline.Filters.Clean.{HasDistinctFields}

-- {"kinds": [1, true], "since": 5, "#t": ["a"], "limit": 2, "extra": null}
abbrev raw_filter : Fields
raw_filter = field (codes "kinds") (arr (items_of (num (int (pos 1)) ∷ num (bool true) ∷ []))) (
    field (codes "since") (num (int (pos 5))) (
      field (codes "#t") (arr (items_of (str (codes "a") ∷ [])))
        (field (codes "limit") (num (int (pos 2))) (field (codes "extra") null end))))

abbrev small : Filter
small =
    kinds (int (pos 1) ∷ bool true ∷ [])
    ∷ since (int (pos 5))
    ∷ tag (codes "t") (codes "a" ∷ [])
    ∷ limit (int (pos 2))
    ∷ []

clean_run : clean raw_filter ≡ small
unfolding clean text_eq as_string_list as_int_list string_list
clean_run = refl

normalize_run : normalize_filters (obj raw_filter ∷ null ∷ []) ≡ ok (small ∷ [])
unfolding normalize_filters clean_all text_eq as_string_list as_int_list string_list
    validate_filter_bounds check_filters check_filter check_entry check_ints check_strings
normalize_run = refl

small-HasDistinctKeys : HasDistinctKeys small
small-HasDistinctKeys = ground arith

raw-HasDistinctFields : HasDistinctFields raw_filter
raw-HasDistinctFields = ground arith

validate_filter_bounds_iff_example :
    (validate_filter_bounds (small ∷ []) ≡ ok tt) ↔ AreBounded (small ∷ [])
validate_filter_bounds_iff_example = validate_filter_bounds_iff (small ∷ [])

normalize_filters-Normalizes_example :
    (2 ≤ 16) × Normalizes (obj raw_filter ∷ null ∷ []) (small ∷ []) × AreBounded (small ∷ [])
normalize_filters-Normalizes_example =
    normalize_filters-Normalizes (obj raw_filter ∷ null ∷ []) (small ∷ []) normalize_run

matches_filter_iff_example : (matches_filter note small ≡ true) ↔ All (Holds note) small
matches_filter_iff_example = matches_filter_iff note small small-HasDistinctKeys
