-- ===== src/Events/Safety.antt =====
-- The subscripts of `validate_event` and the dataclass that it builds rest on the tests before them.
use spurline.Prelude.{
  ℕ, Bool, true, false, ◌≡◌, ◌≢◌, none, some, List, [], ◌∷◌, all, arith, ok, err, inl, inr,
  Option-cases, Bool-cases, All, filter, not,
}
use spurline.Prelude.Text.{Text, codes}
use spurline.Json.{Json, str, num, Number, contains, arr, obj, Fields, lookup, as_list, elements}
use spurline.Events.{
  Crypto, key_error, untyped, from_dict, str_field, int_field, tags_field, is_hex, is_int, is_str,
  valid_tags, as_tags, string_list, tag_list, validate_fields, validate_event, event_id,
  verify_event_signature, canonical_event_payload, is_empty, missing, required,
}

string_list_total : (xs : List Json) → all is_str xs ≡ true → string_list xs ≢ none
unfolding string_list
string_list_total [] h = ground arith
string_list_total (x ∷ xs) h = ground (arith, string_list_total xs)

tag_list_total :
    (xs : List Json)
    → all (λ tag. elim (as_list tag) [ none ↦ false | some items ↦ all is_str items ]) xs ≡ true
    → tag_list xs ≢ none
unfolding tag_list
tag_list_total [] h = ground arith
tag_list_total (arr items ∷ xs) h =
    ground (arith, string_list_total (elements items), tag_list_total xs)
tag_list_total (_ ∷ xs) h = ground arith

valid_tags-as_tags : (v : Json) → valid_tags v ≡ true → as_tags v ≢ none
unfolding valid_tags as_tags
valid_tags-as_tags (arr xs) h = tag_list_total (elements xs) h
valid_tags-as_tags _ h = ground arith

-- the values under the required keys
record Fetched (event : Fields) : Type 0 where
  id : Json
  pubkey : Json
  created_at : Json
  kind : Json
  tags : Json
  content : Json
  sig : Json
  id_eq : lookup (codes "id") event ≡ some id
  pubkey_eq : lookup (codes "pubkey") event ≡ some pubkey
  created_at_eq : lookup (codes "created_at") event ≡ some created_at
  kind_eq : lookup (codes "kind") event ≡ some kind
  tags_eq : lookup (codes "tags") event ≡ some tags
  content_eq : lookup (codes "content") event ≡ some content
  sig_eq : lookup (codes "sig") event ≡ some sig

All-filter :
    (p : Text → Bool) (xs : List Text) → is_empty (filter p xs) ≡ true → All (λ x. p x ≡ false) xs
All-filter p [] h = tt
All-filter p (x ∷ xs) h = elim (Bool-cases (p x)) [
  | inl e ↦ absurd (ground arith)
  | inr e ↦ (e, All-filter p xs (rw e at h))
]

missing-none :
    (event : Fields)
    → is_empty (missing event) ≡ true
    → All (λ key. not (contains key event) ≡ false) required
unfolding missing
missing-none event h = All-filter (λ key. not (contains key event)) required h

fetch :
    (key : Text) (event : Fields)
    → not (contains key event) ≡ false
    → (v : Json) × (lookup key event ≡ some v)
fetch key event h = elim (Option-cases (lookup key event)) [
  | inl e ↦ ground arith
  | inr found ↦ found
]

missing-Fetched : (event : Fields) → is_empty (missing event) ≡ true → Fetched event
missing-Fetched event h =
    let known = missing-none event h in
    let (content, content_eq) = fetch (codes "content") event known.0 in
    let (created_at, created_at_eq) = fetch (codes "created_at") event known.1.0 in
    let (id, id_eq) = fetch (codes "id") event known.1.1.0 in
    let (kind, kind_eq) = fetch (codes "kind") event known.1.1.1.0 in
    let (pubkey, pubkey_eq) = fetch (codes "pubkey") event known.1.1.1.1.0 in
    let (sig, sig_eq) = fetch (codes "sig") event known.1.1.1.1.1.0 in
    let (tags, tags_eq) = fetch (codes "tags") event known.1.1.1.1.1.1.0 in
    record {
      id = id;
      pubkey = pubkey;
      created_at = created_at;
      kind = kind;
      tags = tags;
      content = content;
      sig = sig;
      id_eq = id_eq;
      pubkey_eq = pubkey_eq;
      created_at_eq = created_at_eq;
      kind_eq = kind_eq;
      tags_eq = tags_eq;
      content_eq = content_eq;
      sig_eq = sig_eq;
    }

module _ (lib : Crypto) (event : Fields) (f : Fetched event) where
  event_id_safe : event_id lib event ≢ err key_error × (event_id lib event ≢ err untyped)
  unfolding event_id canonical_event_payload
  event_id_safe = (λ h. ground arith, λ h. ground arith)

  verify_safe :
      (verify_event_signature lib event ≢ err key_error)
      × (verify_event_signature lib event ≢ err untyped)
  unfolding verify_event_signature
  verify_safe = (λ h. ground arith, λ h. ground arith)

str_field_safe :
    (key : Text) (event : Fields) (v : Json) (n : ℕ)
    → lookup key event ≡ some v
    → is_hex v n ≡ true
    → (s : Text) × (str_field key event ≡ ok s)
unfolding str_field is_hex
str_field_safe key event (str s) n e h = (s, rw e)
str_field_safe key event _ n e h = ground arith

tags_field_safe :
    (key : Text) (event : Fields) (v : Json)
    → lookup key event ≡ some v
    → valid_tags v ≡ true
    → (s : List (List Text)) × (tags_field key event ≡ ok s)
unfolding tags_field
tags_field_safe key event v e h = elim (Option-cases (as_tags v)) [
  | inl bad ↦ absurd (valid_tags-as_tags v h bad)
  | inr (tags, good) ↦ (tags, rw e (rw good))
]

str_safe :
    (key : Text) (event : Fields) (v : Json)
    → lookup key event ≡ some v
    → is_str v ≡ true
    → (s : Text) × (str_field key event ≡ ok s)
unfolding str_field
str_safe key event (str s) e h = (s, rw e)
str_safe key event _ e h = ground arith

int_field_safe :
    (key : Text) (event : Fields) (v : Json)
    → lookup key event ≡ some v
    → is_int v ≡ true
    → (n : Number) × (int_field key event ≡ ok n)
unfolding int_field
int_field_safe key event (num n) e h = (n, rw e)
int_field_safe key event _ e h = ground arith

module _ (event : Fields) (f : Fetched event) where
  from_dict_safe :
      is_hex f.id 64 ≡ true
      → is_hex f.pubkey 64 ≡ true
      → is_hex f.sig 128 ≡ true
      → is_int f.created_at ≡ true
      → is_int f.kind ≡ true
      → is_str f.content ≡ true
      → valid_tags f.tags ≡ true
      → (from_dict event ≢ err key_error) × (from_dict event ≢ err untyped)
  unfolding from_dict
  from_dict_safe hi hp hs ht hk hc hg =
      let a = str_field_safe (codes "id") event f.id 64 f.id_eq hi in
      let b = str_field_safe (codes "pubkey") event f.pubkey 64 f.pubkey_eq hp in
      let c = int_field_safe (codes "created_at") event f.created_at f.created_at_eq ht in
      let d = int_field_safe (codes "kind") event f.kind f.kind_eq hk in
      let g = tags_field_safe (codes "tags") event f.tags f.tags_eq hg in
      let i = str_safe (codes "content") event f.content f.content_eq hc in
      let j = str_field_safe (codes "sig") event f.sig 128 f.sig_eq hs in
      (λ h. ground (arith, a, b, c, d, g, i, j), λ h. ground (arith, a, b, c, d, g, i, j))

module _ (lib : Crypto) (now : ℕ) (verify : Bool) where
  validate_fields_safe :
      (event : Fields)
      → (validate_fields lib now verify event ≢ err key_error)
        × (validate_fields lib now verify event ≢ err untyped)
  unfolding validate_fields
  validate_fields_safe event = elim (Bool-cases (is_empty (missing event))) [
    | inr absent ↦ (λ h. ground arith, λ h. ground arith)
    | inl found ↦
        let f = missing-Fetched event found in
        (
          λ h. ground (
            arith,
            f.id_eq,
            f.pubkey_eq,
            f.created_at_eq,
            f.kind_eq,
            f.tags_eq,
            f.content_eq,
            f.sig_eq,
            event_id_safe lib event f,
            verify_safe lib event f,
            from_dict_safe event f,
          ),
          λ h. ground (
            arith,
            f.id_eq,
            f.pubkey_eq,
            f.created_at_eq,
            f.kind_eq,
            f.tags_eq,
            f.content_eq,
            f.sig_eq,
            event_id_safe lib event f,
            verify_safe lib event f,
            from_dict_safe event f,
          ),
        )
  ]

  -- Validation never ends in a missing key or in a field of another type than the dataclass
  -- declares: the tests before it rule both out.
  pub validate_event_safe :
      (v : Json)
      → (validate_event lib now verify v ≢ err key_error)
        × (validate_event lib now verify v ≢ err untyped)
  unfolding validate_event
  validate_event_safe (obj event) = validate_fields_safe event
  validate_event_safe _ = (λ h. ground arith, λ h. ground arith)
