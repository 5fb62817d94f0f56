-- ===== src/Events.antt =====
-- src/spurline/events.py: the base rules that a Nostr event has to satisfy.
pub mod Reading
pub mod Encodable
pub mod Validity
pub mod Safety
pub mod Tests
use spurline.Prelude.{
  ℕ, ◌+◌, Bool, true, false, ◌&&◌, ◌||◌, not, Option, none, some, List, [], ◌∷◌, map, all, any,
  filter, length, ltb, leb, ◌==◌, if◌then◌else◌, Outcome, ok, err, ◌>>=◌, ◌>>◌, raise_if, or_raise,
}
use spurline.Prelude.Int.{pos, ltb_ℤ}
use spurline.Prelude.Text.{Text, codes, text_eq}
use spurline.Json.{
  Json, num, str, arr, obj, Fields, end, field, Number, int, value, items_of, elements, lookup,
  contains, as_str, as_int, as_list, as_dict,
}
use spurline.Json.Dumps.{dumps}

-- What events.py takes from hashlib and coincurve. The arguments are the hex texts.
pub record Crypto : Type 0 where
  -- `hashlib.sha256(text.encode("utf-8")).hexdigest()`
  pub sha256 : Text → Text
  -- whether the import of coincurve succeeded
  pub coincurve : Bool
  -- whether `PublicKeyXOnly(pubkey)` accepts the key, and its `verify(signature, message)`
  pub is_point : Text → Bool
  pub schnorr : Text → Text → Text → Bool

pub data Invalid : Type 0 where
  not_object : Invalid
  missing_fields : List Text → Invalid
  bad_id bad_pubkey bad_sig created_at_not_int in_future kind_not_int content_not_str : Invalid
  tags_not_lists id_mismatch no_coincurve bad_signature : Invalid

-- EventValidationError, and what else the code under it can raise: UnicodeEncodeError by `encode`,
-- ValueError by `PublicKeyXOnly`, KeyError by a subscript. `untyped` would be an event whose fields
-- do not have the types that the dataclass declares.
pub data Raised : Type 0 where
  invalid : Invalid → Raised
  unicode_error key_not_parsed key_error untyped : Raised

pub record StoredEvent : Type 0 where
  pub id : Text
  pub pubkey : Text
  pub created_at : Number
  pub kind : Number
  pub tags : List (List Text)
  pub content : Text
  pub sig : Text

-- `all(isinstance(item, str) for item in value)`, with the values as texts
unfoldable pub string_list : List Json → Option (List Text)
string_list [] = some []
string_list (x ∷ xs) =
    let rest = string_list xs in
    elim (as_str x) [ none ↦ none | some s ↦ elim rest [ none ↦ none | some ss ↦ some (s ∷ ss) ] ]

unfoldable pub tag_list : List Json → Option (List (List Text))
unfolding string_list
tag_list [] = some []
tag_list (x ∷ xs) =
    let rest = tag_list xs in
    elim (as_list x) [
      | none ↦ none
      | some items ↦ elim (string_list items) [
        | none ↦ none
        | some tag ↦ elim rest [ none ↦ none | some tags ↦ some (tag ∷ tags) ]
      ]
    ]

-- the tags of a value that `_valid_tags` accepts
unfoldable pub as_tags : Json → Option (List (List Text))
unfolding tag_list
as_tags v = elim (as_list v) [ none ↦ none | some items ↦ tag_list items ]

unfoldable pub valid_tags : Json → Bool
valid_tags v = elim (as_list v) [
  | none ↦ false
  | some tags ↦
      all
        (λ tag. elim (as_list tag) [
          | none ↦ false
          | some items ↦ all (λ item. elim (as_str item) [ none ↦ false | some _ ↦ true ]) items
        ])
        tags
]

abbrev pub hex_32 : ℕ
hex_32 = 64

abbrev pub hex_64 : ℕ
hex_64 = 128

unfoldable pub is_hex_char : ℕ → Bool
is_hex_char c = any (λ d. c == d) (codes "0123456789abcdef")

unfoldable pub is_lower_hex : Text → ℕ → Bool
is_lower_hex s n = length s == n && all is_hex_char s

unfoldable pub is_hex : Json → ℕ → Bool
is_hex v n = elim (as_str v) [ none ↦ false | some s ↦ is_lower_hex s n ]

-- `event[key]`
abbrev pub subscript : Text → Fields → Outcome Raised Json
subscript key event = or_raise (lookup key event) key_error

-- `event[key]` at the type that the dataclass declares for it
unfoldable pub str_field : Text → Fields → Outcome Raised Text
str_field key event = do or_raise (as_str (← subscript key event)) untyped

unfoldable pub int_field : Text → Fields → Outcome Raised Number
int_field key event = do or_raise (as_int (← subscript key event)) untyped

unfoldable pub tags_field : Text → Fields → Outcome Raised (List (List Text))
unfolding as_tags
tags_field key event = do or_raise (as_tags (← subscript key event)) untyped

-- `StoredEvent.from_dict`
unfoldable pub from_dict : Fields → Outcome Raised StoredEvent
from_dict event = do
  id ← str_field (codes "id") event
  pubkey ← str_field (codes "pubkey") event
  created_at ← int_field (codes "created_at") event
  kind ← int_field (codes "kind") event
  tags ← tags_field (codes "tags") event
  content ← str_field (codes "content") event
  sig ← str_field (codes "sig") event
  ok (record {
    id = id;
    pubkey = pubkey;
    created_at = created_at;
    kind = kind;
    tags = tags;
    content = content;
    sig = sig;
  })

abbrev pub strings : List Text → Json
strings texts = arr (items_of (map str texts))

abbrev pub tags_json : List (List Text) → Json
tags_json tags = arr (items_of (map strings tags))

-- `StoredEvent.to_dict`
unfoldable pub to_dict : StoredEvent → Fields
to_dict e = field (codes "id") (str e.id) (
    field (codes "pubkey") (str e.pubkey) (
      field (codes "created_at") (num e.created_at) (
        field (codes "kind") (num e.kind) (
          field (codes "tags") (tags_json e.tags)
            (field (codes "content") (str e.content) (field (codes "sig") (str e.sig) end))))))

unfoldable pub canonical_event_payload : Fields → Outcome Raised Text
canonical_event_payload event = do
  pubkey ← subscript (codes "pubkey") event
  created_at ← subscript (codes "created_at") event
  kind ← subscript (codes "kind") event
  tags ← subscript (codes "tags") event
  content ← subscript (codes "content") event
  ok (dumps (arr (items_of (num (int (pos 0)) ∷ pubkey ∷ created_at ∷ kind ∷ tags ∷ content ∷ []))))

-- `encode("utf-8")` refuses the surrogates, which `json.loads` can leave in a string.
unfoldable pub is_surrogate : ℕ → Bool
is_surrogate c = leb 55296 c && leb c 57343

unfoldable pub is_encodable : Text → Bool
is_encodable = all (λ c. not (is_surrogate c))

abbrev pub required : List Text
required =
    codes "content"
    ∷ codes "created_at"
    ∷ codes "id"
    ∷ codes "kind"
    ∷ codes "pubkey"
    ∷ codes "sig"
    ∷ codes "tags"
    ∷ []

-- `sorted(required.difference(event))`
unfoldable pub missing : Fields → List Text
missing event = filter (λ key. not (contains key event)) required

abbrev is_empty : List Text → Bool
is_empty [] = true
is_empty (x ∷ xs) = false

abbrev pub is_int : Json → Bool
is_int v = elim (as_int v) [ none ↦ false | some _ ↦ true ]

abbrev pub is_str : Json → Bool
is_str v = elim (as_str v) [ none ↦ false | some _ ↦ true ]

-- `event["created_at"] > int(time.time()) + 900`
abbrev pub too_far : Json → ℕ → Bool
too_far v now = elim (as_int v) [ none ↦ false | some n ↦ ltb_ℤ (pos (now + 900)) (value n) ]

abbrev pub text_of : Json → Text
text_of v = elim (as_str v) [ none ↦ [] | some s ↦ s ]

module _ (lib : Crypto) where
  unfoldable pub event_id : Fields → Outcome Raised Text
  event_id event = do
    payload ← canonical_event_payload event
    raise_if (not (is_encodable payload)) unicode_error
    ok (lib.sha256 payload)

  unfoldable pub verify_event_signature : Fields → Outcome Raised (Unit {0})
  verify_event_signature event = do
    raise_if (not lib.coincurve) (invalid no_coincurve)
    message ← subscript (codes "id") event
    signature ← subscript (codes "sig") event
    pubkey ← subscript (codes "pubkey") event
    raise_if (not (lib.is_point (text_of pubkey))) key_not_parsed
    raise_if (not (lib.schnorr (text_of pubkey) (text_of signature) (text_of message)))
        (invalid bad_signature)

  -- what `validate_event` does with a value that is a dict
  unfoldable pub validate_fields : ℕ → Bool → Fields → Outcome Raised StoredEvent
  validate_fields now verify event = do
    raise_if (not (is_empty (missing event))) (invalid (missing_fields (missing event)))
    id ← subscript (codes "id") event
    raise_if (not (is_hex id hex_32)) (invalid bad_id)
    pubkey ← subscript (codes "pubkey") event
    raise_if (not (is_hex pubkey hex_32)) (invalid bad_pubkey)
    sig ← subscript (codes "sig") event
    raise_if (not (is_hex sig hex_64)) (invalid bad_sig)
    created_at ← subscript (codes "created_at") event
    raise_if (not (is_int created_at)) (invalid created_at_not_int)
    raise_if (too_far created_at now) (invalid in_future)
    kind ← subscript (codes "kind") event
    raise_if (not (is_int kind)) (invalid kind_not_int)
    content ← subscript (codes "content") event
    raise_if (not (is_str content)) (invalid content_not_str)
    tags ← subscript (codes "tags") event
    raise_if (not (valid_tags tags)) (invalid tags_not_lists)
    expected_id ← event_id event
    raise_if (not (text_eq (text_of id) expected_id)) (invalid id_mismatch)
    if verify then verify_event_signature event else ok tt
    from_dict event

  unfoldable pub validate_event : ℕ → Bool → Json → Outcome Raised StoredEvent
  unfolding validate_fields
  validate_event now verify (obj event) = validate_fields now verify event
  validate_event now verify _ = err (invalid not_object)
