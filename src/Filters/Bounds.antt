-- ===== src/Filters/Bounds.antt =====
-- What `validate_filter_bounds` and `filter_limit` bound.
use spurline.Prelude.{
  ℕ, ◌+◌, ◌≤◌, ◌≡◌, ◌↔◌, refl, ap, suc, not, ◌==◌, List, [], ◌∷◌, All, map, filter, length, arith,
  ok,
}
use spurline.Prelude.Int.{pos, negsuc, ◌≤ℤ◌}
use spurline.Prelude.Text.{Text}
use spurline.Json.{Json, num, str, Number, value}
use spurline.Filters.{
  Filter, Entry, ids, authors, kinds, since, until, limit, tag, check_ints, check_strings,
  check_prefixes, short_prefixes, check_entry, check_filter, check_filters, count_values,
  validate_filter_bounds, normalize_filters, clean_all,
}

-- The bounds of one entry: its integers are signed 64-bit, its strings have at most 4096
-- characters, and at most 128 of the ids or authors are not 64 characters long.
abbrev pub IsInt64 : Number → Type 0
IsInt64 n = (negsuc 9223372036854775807 ≤ℤ value n) × (value n ≤ℤ pos 9223372036854775807)

abbrev pub IsShort : Text → Type 0
IsShort s = length s ≤ 4096

-- how many of the texts are not 64 characters long
abbrev pub count_short : List Text → ℕ
count_short ps = length (filter (λ p. not (length p == 64)) ps)

-- the values of an entry: those of its list, or its one value
abbrev pub values : Entry → List Json
values (ids ps) = map str ps
values (authors ps) = map str ps
values (kinds ns) = map num ns
values (since n) = num n ∷ []
values (until n) = num n ∷ []
values (limit n) = num n ∷ []
values (tag name vs) = map str vs

abbrev pub IsBounded : Entry → Type 0
IsBounded (ids ps) = All IsShort ps × (count_short ps ≤ 128)
IsBounded (authors ps) = All IsShort ps × (count_short ps ≤ 128)
IsBounded (kinds ns) = All IsInt64 ns
IsBounded (since n) = IsInt64 n
IsBounded (until n) = IsInt64 n
IsBounded (limit n) = IsInt64 n
IsBounded (tag name vs) = All IsShort vs

abbrev pub total_values : Filter → ℕ
total_values [] = 0
total_values (e ∷ f) = length (values e) + total_values f

abbrev pub IsBoundedFilter : Filter → Type 0
IsBoundedFilter f = All IsBounded f × (total_values f ≤ 2000)

abbrev pub AreBounded : List Filter → Type 0
AreBounded fs = (length fs ≤ 16) × All IsBoundedFilter fs

check_ints_iff : (ns : List Number) → (check_ints ns ≡ ok tt) ↔ All IsInt64 ns
unfolding check_ints
check_ints_iff [] = (λ _. tt, λ _. refl)
check_ints_iff (n ∷ ns) =
    (λ h. ground (arith, (check_ints_iff ns).0), λ h. ground (arith, (check_ints_iff ns).1 h.1))

check_strings_iff : (ss : List Text) → (check_strings ss ≡ ok tt) ↔ All IsShort ss
unfolding check_strings
check_strings_iff [] = (λ _. tt, λ _. refl)
check_strings_iff (s ∷ ss) = (
  λ h. ground (arith, (check_strings_iff ss).0),
  λ h. ground (arith, (check_strings_iff ss).1 h.1),
)

short_prefixes_count : (ps : List Text) → short_prefixes ps ≡ count_short ps
unfolding short_prefixes
short_prefixes_count [] = refl
short_prefixes_count (p ∷ ps) = ground (arith, short_prefixes_count ps)

length-map : {A : Type 0} (f : A → Json) (xs : List A) → length (map f xs) ≡ length xs
length-map f [] = refl
length-map f (x ∷ xs) = ap suc (length-map f xs)

length-values : (e : Entry) → length (values e) ≡ count_values e
length-values (ids ps) = length-map str ps
length-values (authors ps) = length-map str ps
length-values (kinds ns) = length-map num ns
length-values (since n) = refl
length-values (until n) = refl
length-values (limit n) = refl
length-values (tag name vs) = length-map str vs

check_prefixes_iff : (ps : List Text) → (check_prefixes ps ≡ ok tt) ↔ (count_short ps ≤ 128)
unfolding check_prefixes
check_prefixes_iff ps =
    (λ h. ground (arith, short_prefixes_count ps), λ h. ground (arith, short_prefixes_count ps))

check_texts :
    (ps : List Text) → (check_entry (ids ps) ≡ ok tt) ↔ (All IsShort ps × (count_short ps ≤ 128))
unfolding check_entry
check_texts ps = (
  λ h. ground (arith, (check_strings_iff ps).0, (check_prefixes_iff ps).0),
  λ h. ground (arith, (check_strings_iff ps).1 h.0, (check_prefixes_iff ps).1 h.1),
)

check_int : (n : Number) → (check_ints (n ∷ []) ≡ ok tt) ↔ IsInt64 n
check_int n = (λ h. ((check_ints_iff (n ∷ [])).0 h).0, λ h. (check_ints_iff (n ∷ [])).1 (h, tt))

check_entry_iff : (e : Entry) → (check_entry e ≡ ok tt) ↔ IsBounded e
unfolding check_entry
check_entry_iff (ids ps) = check_texts ps
check_entry_iff (authors ps) = check_texts ps
check_entry_iff (kinds ns) = check_ints_iff ns
check_entry_iff (since n) = check_int n
check_entry_iff (until n) = check_int n
check_entry_iff (limit n) = check_int n
check_entry_iff (tag name vs) = check_strings_iff vs

check_filter_iff :
    (count : ℕ) (f : Filter)
    → count ≤ 2000
    → (check_filter count f ≡ ok tt) ↔ (All IsBounded f × (count + total_values f ≤ 2000))
unfolding check_filter
check_filter_iff count [] h = (λ _. (tt, omega arith), λ _. refl)
check_filter_iff count (e ∷ f) h = (
  λ p. ground (
    arith,
    length-values e,
    (check_entry_iff e).0,
    λ (q : count + count_values e ≤ 2000). (check_filter_iff (count + count_values e) f q).0,
  ),
  λ p.
      let size = length-values e in
      ground (
        arith,
        (check_entry_iff e).1 p.0.0,
        (check_filter_iff (count + count_values e) f (omega arith)).1 (p.0.1, omega arith),
      ),
)

check_filters_iff : (fs : List Filter) → (check_filters fs ≡ ok tt) ↔ All IsBoundedFilter fs
unfolding check_filters
check_filters_iff [] = (λ _. tt, λ _. refl)
check_filters_iff (f ∷ fs) = (
  λ p. ground (arith, (check_filter_iff 0 f (omega arith)).0, (check_filters_iff fs).0),
  λ p. ground (
    arith,
    (check_filter_iff 0 f (omega arith)).1 (p.0.0, omega arith),
    (check_filters_iff fs).1 p.1,
  ),
)

-- The bounds check passes exactly the lists of at most 16 filters, each with at most 2000 values,
-- signed 64-bit integers, strings of at most 4096 characters, and at most 128 ids and at most 128
-- authors whose length is not 64. A value that is no list counts as one.
pub validate_filter_bounds_iff :
    (fs : List Filter) → (validate_filter_bounds fs ≡ ok tt) ↔ AreBounded fs
unfolding validate_filter_bounds
validate_filter_bounds_iff fs = (
  λ p. ground (arith, (check_filters_iff fs).0),
  λ p. ground (arith, (check_filters_iff fs).1 p.1),
)

-- What `normalize_filters` returns is what it kept of the dicts, and is within the bounds, so the
-- check that a query makes again passes.
pub normalize_filters-AreBounded :
    (xs : List Json) (fs : List Filter)
    → normalize_filters xs ≡ ok fs
    → (fs ≡ clean_all xs) × AreBounded fs × (validate_filter_bounds fs ≡ ok tt)
unfolding normalize_filters
normalize_filters-AreBounded xs fs h =
    let passed : validate_filter_bounds (clean_all xs) ≡ ok tt = ground arith in
    let same : fs ≡ clean_all xs = ground arith in
    (same, rw same ((validate_filter_bounds_iff (clean_all xs)).0 passed), rw same passed)
