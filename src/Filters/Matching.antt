-- ===== src/Filters/Matching.antt =====
-- `matches_filter` entry by entry.
use spurline.Prelude.{
  Bool, true, not, ◌≡◌, ◌≢◌, ◌↔◌, refl, none, List, [], ◌∷◌, All, Any, all, any_iff, all_iff, arith,
}
use spurline.Prelude.Int.{◌≤ℤ◌, ltb_ℤ, eq_ℤ_iff}
use spurline.Prelude.Text.{Text, codes, IsPrefix, starts_with_iff, text_eq_iff, text_eq}
use spurline.Json.{Number, value}
use spurline.Events.{StoredEvent}
use spurline.Filters.{
  Filter, Entry, ids, authors, kinds, since, until, limit, tag, get_ids, get_authors, get_kinds,
  get_since, get_until, matches_prefixes, matches_tag, matches_tags, number_in, tag_matches,
  matches_filter,
}

-- the key of an entry
abbrev pub key_of : Entry → Text
key_of (ids ps) = codes "ids"
key_of (authors ps) = codes "authors"
key_of (kinds ns) = codes "kinds"
key_of (since n) = codes "since"
key_of (until n) = codes "until"
key_of (limit n) = codes "limit"
key_of (tag name vs) = b'#' ∷ name

-- The keys of a dict are distinct.
abbrev pub HasDistinctKeys : Filter → Type 0
HasDistinctKeys [] = Unit
HasDistinctKeys (e ∷ f) = All (λ e'. key_of e ≢ key_of e') f × HasDistinctKeys f

-- What an entry asks of an event, a test and its meaning.
abbrev pub entry_matches : StoredEvent → Entry → Bool
entry_matches event (ids ps) = matches_prefixes event.id ps
entry_matches event (authors ps) = matches_prefixes event.pubkey ps
entry_matches event (kinds ns) = number_in event.kind ns
entry_matches event (since n) = not (ltb_ℤ (value event.created_at) (value n))
entry_matches event (until n) = not (ltb_ℤ (value n) (value event.created_at))
entry_matches event (limit n) = true
entry_matches event (tag name vs) = matches_tag event name vs

abbrev pub HasTag : Text → List Text → List Text → Type 0
HasTag name vs (key ∷ v ∷ more) = (key ≡ name) × Any (λ w. v ≡ w) vs
HasTag name vs _ = ⊥

abbrev pub Holds : StoredEvent → Entry → Type 0
Holds event (ids ps) = Any (λ p. IsPrefix p event.id) ps
Holds event (authors ps) = Any (λ p. IsPrefix p event.pubkey) ps
Holds event (kinds ns) = Any (λ n. value event.kind ≡ value n) ns
Holds event (since n) = value n ≤ℤ value event.created_at
Holds event (until n) = value event.created_at ≤ℤ value n
Holds event (limit n) = Unit
Holds event (tag name vs) = Any (HasTag name vs) event.tags

tag_matches_iff :
    (name : Text) (vs : List Text) (t : List Text)
    → (tag_matches name vs t ≡ true) ↔ HasTag name vs t
tag_matches_iff name vs [] = (λ h. ground arith, λ h. absurd h)
tag_matches_iff name vs (k ∷ []) = (λ h. ground arith, λ h. absurd h)
tag_matches_iff name vs (k ∷ v ∷ more) =
    let among = any_iff (λ w. text_eq v w) (λ w. v ≡ w) (text_eq_iff v) vs in
    (
      λ h. ground (arith, (text_eq_iff k name).0, among.0),
      λ h. ground (arith, (text_eq_iff k name).1 h.0, among.1 h.1),
    )

entry_matches_iff :
    (event : StoredEvent) (e : Entry) → (entry_matches event e ≡ true) ↔ Holds event e
unfolding matches_prefixes matches_tag
entry_matches_iff event (ids ps) = any_iff _ _ (λ p. starts_with_iff event.id p) ps
entry_matches_iff event (authors ps) = any_iff _ _ (λ p. starts_with_iff event.pubkey p) ps
entry_matches_iff event (kinds ns) = any_iff _ _ (λ n. eq_ℤ_iff (value event.kind) (value n)) ns
entry_matches_iff event (since n) = (λ h. ground arith, λ h. ground arith)
entry_matches_iff event (until n) = (λ h. ground arith, λ h. ground arith)
entry_matches_iff event (limit n) = (λ h. tt, λ h. refl)
entry_matches_iff event (tag name vs) = any_iff _ _ (tag_matches_iff name vs) event.tags

no_ids : (ps : List Text) (f : Filter) → All (λ e. key_of (ids ps) ≢ key_of e) f → get_ids f ≡ none
no_ids ps [] h = refl
no_ids ps (ids qs ∷ f) h = absurd (h.0 refl)
no_ids ps (_ ∷ f) h = no_ids ps f h.1

no_authors :
    (ps : List Text) (f : Filter)
    → All (λ e. key_of (authors ps) ≢ key_of e) f
    → get_authors f ≡ none
no_authors ps [] h = refl
no_authors ps (authors qs ∷ f) h = absurd (h.0 refl)
no_authors ps (_ ∷ f) h = no_authors ps f h.1

no_kinds :
    (ns : List Number) (f : Filter) → All (λ e. key_of (kinds ns) ≢ key_of e) f → get_kinds f ≡ none
no_kinds ns [] h = refl
no_kinds ns (kinds ms ∷ f) h = absurd (h.0 refl)
no_kinds ns (_ ∷ f) h = no_kinds ns f h.1

no_since : (n : Number) (f : Filter) → All (λ e. key_of (since n) ≢ key_of e) f → get_since f ≡ none
no_since n [] h = refl
no_since n (since m ∷ f) h = absurd (h.0 refl)
no_since n (_ ∷ f) h = no_since n f h.1

no_until : (n : Number) (f : Filter) → All (λ e. key_of (until n) ≢ key_of e) f → get_until f ≡ none
no_until n [] h = refl
no_until n (until m ∷ f) h = absurd (h.0 refl)
no_until n (_ ∷ f) h = no_until n f h.1

-- The lookups by key, one after the other, ask what the entries ask.
pub matches_filter-all :
    (event : StoredEvent) (f : Filter)
    → HasDistinctKeys f
    → matches_filter event f ≡ all (entry_matches event) f
unfolding matches_filter matches_tags
matches_filter-all event [] h = refl
matches_filter-all event (ids ps ∷ f) h =
    ground (arith, no_ids ps f h.0, matches_filter-all event f h.1)
matches_filter-all event (authors ps ∷ f) h =
    ground (arith, no_authors ps f h.0, matches_filter-all event f h.1)
matches_filter-all event (kinds ns ∷ f) h =
    ground (arith, no_kinds ns f h.0, matches_filter-all event f h.1)
matches_filter-all event (since n ∷ f) h =
    ground (arith, no_since n f h.0, matches_filter-all event f h.1)
matches_filter-all event (until n ∷ f) h =
    ground (arith, no_until n f h.0, matches_filter-all event f h.1)
matches_filter-all event (limit n ∷ f) h = matches_filter-all event f h.1
matches_filter-all event (tag name vs ∷ f) h = ground (arith, matches_filter-all event f h.1)

-- An event matches a filter with distinct keys exactly if it meets every entry: one of the given
-- prefixes begins its id (its author), its kind is among the kinds, its time is within `since` and
-- `until`, and for each "#" key some tag of that name has one of the values.
pub matches_filter_iff :
    (event : StoredEvent) (f : Filter)
    → HasDistinctKeys f
    → (matches_filter event f ≡ true) ↔ All (Holds event) f
matches_filter_iff event f h =
    rw (matches_filter-all event f h) (all_iff _ _ (entry_matches_iff event) f)
