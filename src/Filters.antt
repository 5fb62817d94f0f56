-- ===== src/Filters.antt =====
-- src/spurline/filters.py: the filters of a subscription, their normalisation and their limits.
pub mod Bounds
pub mod Matching
pub mod Limit
pub mod Clean
mod Entries
mod Kept
mod Tests
use spurline.Prelude.{
  ℕ, ◌+◌, ◌^◌, ◌<◌, Bool, true, false, ◌&&◌, ◌||◌, not, Option, none, some, List, [], ◌∷◌, map, all,
  any, length, ltb, leb, ◌==◌, if◌then◌else◌, Outcome, ok, err, ◌>>=◌, ◌>>◌, raise_if, or_raise,
}
use spurline.Prelude.Int.{ℤ, pos, negsuc, ltb_ℤ, leb_ℤ, eq_ℤ, max_ℤ, min_ℤ, pos_part}
use spurline.Prelude.Text.{Text, codes, text_eq, text_in, starts_with}
use spurline.Json.{Json, Fields, end, field, Number, value, as_int, as_list, as_dict}
use spurline.Events.{StoredEvent, string_list}

pub data FilterError : Type 0 where
  too_many_filters too_many_values int_out_of_range long_string too_many_prefixes : FilterError

-- One entry of a normalised filter, its key and its value. `tag name` is the key "#" + name.
pub data Entry : Type 0 where
  ids authors : List Text → Entry
  kinds : List Number → Entry
  since until limit : Number → Entry
  tag : Text → List Text → Entry

-- a normalised filter: the entries of the dict, in order
abbrev pub Filter : Type 0
Filter = List Entry

-- `_is_string_list` and `_is_int_list`, with the items
unfoldable pub as_string_list : Json → Option (List Text)
as_string_list v = elim (as_list v) [ none ↦ none | some items ↦ string_list items ]

unfoldable pub int_list : List Json → Option (List Number)
int_list [] = some []
int_list (x ∷ xs) =
    let rest = int_list xs in
    elim (as_int x) [ none ↦ none | some n ↦ elim rest [ none ↦ none | some ns ↦ some (n ∷ ns) ] ]

unfoldable pub as_int_list : Json → Option (List Number)
unfolding int_list
as_int_list v = elim (as_list v) [ none ↦ none | some items ↦ int_list items ]

abbrev with_value {ℓ} : {A : Type ℓ} → (A → Entry) → Option A → Option Entry
with_value entry none = none
with_value entry (some v) = some (entry v)

-- the keys "#x" of one character
abbrev tag_entry : Text → Json → Option Entry
tag_entry (h ∷ c ∷ []) v = if h == 35 then with_value (tag (c ∷ [])) (as_string_list v) else none
tag_entry _ v = none

-- the body of the inner loop of `normalize_filters`: what is kept of one entry of a dict
unfoldable pub clean_entry : Text → Json → Option Entry
clean_entry key v =
    if text_eq key (codes "ids")
    then with_value ids (as_string_list v)
    else if text_eq key (codes "authors")
    then with_value authors (as_string_list v)
    else if text_eq key (codes "kinds")
    then with_value kinds (as_int_list v)
    else if text_eq key (codes "since")
    then with_value since (as_int v)
    else if text_eq key (codes "until")
    then with_value until (as_int v)
    else if text_eq key (codes "limit")
    then with_value limit (as_int v)
    else tag_entry key v

abbrev add_entry : Option Entry → Filter → Filter
add_entry none f = f
add_entry (some e) f = e ∷ f

-- `clean`, by the entries of the dict in order
unfoldable pub clean : Fields → Filter
unfolding clean_entry
clean end = []
clean (field key v d) = add_entry (clean_entry key v) (clean d)

unfoldable pub clean_all : List Json → List Filter
unfolding clean
clean_all [] = []
clean_all (x ∷ xs) =
    let rest = clean_all xs in elim (as_dict x) [ none ↦ rest | some d ↦ clean d ∷ rest ]

-- `-(2**63) <= item < 2**63`
abbrev pub fits_int64 : Number → Bool
fits_int64 n =
    leb_ℤ (negsuc 9223372036854775807) (value n) && ltb_ℤ (value n) (pos 9223372036854775808)

abbrev pub max_values : ℕ
max_values = 2000

-- the checks on the items of one entry
unfoldable pub check_ints : List Number → Outcome FilterError (Unit {0})
check_ints [] = ok tt
check_ints (n ∷ ns) =
    let rest = check_ints ns in if fits_int64 n then rest else err int_out_of_range

unfoldable pub check_strings : List Text → Outcome FilterError (Unit {0})
check_strings [] = ok tt
check_strings (s ∷ ss) =
    let rest = check_strings ss in if ltb 4096 (length s) then err long_string else rest

-- `sum(len(p) != 64 for p in value)`
unfoldable pub short_prefixes : List Text → ℕ
short_prefixes [] = 0
short_prefixes (p ∷ ps) = (if length p == 64 then 0 else 1) + short_prefixes ps

unfoldable pub check_prefixes : List Text → Outcome FilterError (Unit {0})
check_prefixes ps = raise_if (ltb 128 (short_prefixes ps)) too_many_prefixes

-- `len(values)`, where a value that is no list counts as one
abbrev pub count_values : Entry → ℕ
count_values (ids ps) = length ps
count_values (authors ps) = length ps
count_values (kinds ns) = length ns
count_values (since n) = 1
count_values (until n) = 1
count_values (limit n) = 1
count_values (tag name vs) = length vs

unfoldable pub check_entry : Entry → Outcome FilterError (Unit {0})
check_entry (ids ps) = do check_strings ps; check_prefixes ps
check_entry (authors ps) = do check_strings ps; check_prefixes ps
check_entry (kinds ns) = check_ints ns
check_entry (since n) = check_ints (n ∷ [])
check_entry (until n) = check_ints (n ∷ [])
check_entry (limit n) = check_ints (n ∷ [])
check_entry (tag name vs) = check_strings vs

-- the loop over the entries of one filter, with `values_count` so far
unfoldable pub check_filter : ℕ → Filter → Outcome FilterError (Unit {0})
check_filter count [] = ok tt
check_filter count (e ∷ f) =
    let rest = check_filter (count + count_values e) f in
    do raise_if (ltb max_values (count + count_values e)) too_many_values; check_entry e; rest

unfoldable pub check_filters : List Filter → Outcome FilterError (Unit {0})
check_filters [] = ok tt
check_filters (f ∷ fs) = let rest = check_filters fs in do check_filter 0 f; rest

unfoldable pub validate_filter_bounds : List Filter → Outcome FilterError (Unit {0})
validate_filter_bounds filters = do
  raise_if (ltb 16 (length filters)) too_many_filters
  check_filters filters

unfoldable pub normalize_filters : List Json → Outcome FilterError (List Filter)
normalize_filters filters = do
  raise_if (ltb 16 (length filters)) too_many_filters
  validate_filter_bounds (clean_all filters)
  ok (clean_all filters)

-- `relay_filter[key]`, told apart from a missing key
abbrev pub get_ids : Filter → Option (List Text)
get_ids [] = none
get_ids (ids ps ∷ f) = some ps
get_ids (_ ∷ f) = get_ids f

abbrev pub get_authors : Filter → Option (List Text)
get_authors [] = none
get_authors (authors ps ∷ f) = some ps
get_authors (_ ∷ f) = get_authors f

abbrev pub get_kinds : Filter → Option (List Number)
get_kinds [] = none
get_kinds (kinds ns ∷ f) = some ns
get_kinds (_ ∷ f) = get_kinds f

abbrev pub get_since : Filter → Option Number
get_since [] = none
get_since (since n ∷ f) = some n
get_since (_ ∷ f) = get_since f

abbrev pub get_until : Filter → Option Number
get_until [] = none
get_until (until n ∷ f) = some n
get_until (_ ∷ f) = get_until f

abbrev pub get_limit : Filter → Option Number
get_limit [] = none
get_limit (limit n ∷ f) = some n
get_limit (_ ∷ f) = get_limit f

-- `_matches_prefixes`
unfoldable pub matches_prefixes : Text → List Text → Bool
matches_prefixes v prefixes = any (λ p. starts_with v p) prefixes

-- `tag[0] == tag_name and tag[1] in values`, for a tag of two items or more
abbrev pub tag_matches : Text → List Text → List Text → Bool
tag_matches name values (key ∷ v ∷ more) = text_eq key name && text_in v values
tag_matches name values _ = false

-- `_matches_tag`
unfoldable pub matches_tag : StoredEvent → Text → List Text → Bool
matches_tag event name values = any (λ t. tag_matches name values t) event.tags

-- `n in ns`: Python compares the numbers, True as 1
abbrev pub number_in : Number → List Number → Bool
number_in n ns = any (λ m. eq_ℤ (value n) (value m)) ns

-- the loop over the "#" keys
unfoldable pub matches_tags : StoredEvent → Filter → Bool
matches_tags event [] = true
matches_tags event (tag name values ∷ f) = matches_tag event name values && matches_tags event f
matches_tags event (_ ∷ f) = matches_tags event f

abbrev pub holds_of {ℓ} : {A : Type ℓ} → (A → Bool) → Option A → Bool
holds_of p none = true
holds_of p (some a) = p a

unfoldable pub matches_filter : StoredEvent → Filter → Bool
matches_filter event f =
    if not (holds_of (matches_prefixes event.id) (get_ids f))
    then false
    else if not (holds_of (matches_prefixes event.pubkey) (get_authors f))
    then false
    else if not (holds_of (number_in event.kind) (get_kinds f))
    then false
    else if not (holds_of (λ n. not (ltb_ℤ (value event.created_at) (value n))) (get_since f))
    then false
    else if not (holds_of (λ n. not (ltb_ℤ (value n) (value event.created_at))) (get_until f))
    then false
    else matches_tags event f

unfoldable pub matches_any_filter : StoredEvent → List Filter → Bool
matches_any_filter event filters = any (λ f. matches_filter event f) filters

-- `[relay_filter["limit"] for relay_filter in filters if "limit" in relay_filter]`
unfoldable pub requested_limits : List Filter → List ℤ
requested_limits [] = []
requested_limits (f ∷ fs) =
    let rest = requested_limits fs in elim (get_limit f) [ none ↦ rest | some n ↦ value n ∷ rest ]

abbrev pub maximum : ℤ → List ℤ → ℤ
maximum m [] = m
maximum m (x ∷ xs) = maximum (max_ℤ m x) xs

abbrev clamp_limit : ℕ → ℕ → List ℤ → ℕ
clamp_limit default ceiling [] = default
clamp_limit default ceiling (x ∷ xs) = pos_part (max_ℤ (pos 1) (min_ℤ (maximum x xs) (pos ceiling)))

-- The result of `max(1, …)` is at least 1, so it is given as a natural number.
unfoldable pub filter_limit : List Filter → ℕ → ℕ → ℕ
unfolding requested_limits
filter_limit filters default ceiling = clamp_limit default ceiling (requested_limits filters)
