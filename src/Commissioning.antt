-- ===== src/Commissioning.antt =====
-- src/spurline/commissioning.py: what the checks of the signed evidence share. A time is one reading of
-- the clock; a document is a value that `json.loads` gives.
pub mod Request
pub mod Attestation
pub mod Descriptor
pub mod Interface
pub mod Bound
pub mod Signed
pub mod Published
pub mod Requested
pub mod Tests
use spurline.Prelude.{
  ℕ, suc, ◌+◌, Bool, true, false, ◌&&◌, ◌||◌, not, Option, none, some, List, [], ◌∷◌, ◌++◌, any,
  all, length, leb, ◌==◌, if◌then◌else◌, Outcome, ok, err, ◌>>=◌, ◌>>◌, raise_if, or_raise,
}
use spurline.Prelude.Int.{ℤ, pos, pos_part, neg_part, eq_ℤ}
use spurline.Prelude.Text.{Text, codes, text_eq}
use spurline.Json.{
  Json, null, num, float, str, arr, obj, Items, nil, cons, Fields, end, field, Number, int, bool,
  value, lookup, as_dict,
}
use spurline.Json.Equal.{json_eq}
use spurline.Json.Dumps.{dumps_int}
use spurline.Events.{Crypto, StoredEvent, Raised, validate_event}
use spurline.Receipts.{Codec, canonical_json, texts_eq}

-- what `Event.load` of stroma does: an event, None for a bad signature, or an exception
pub data Loaded : Type 0 where
  loaded : StoredEvent → Loaded
  unsigned failed : Loaded

-- What commissioning.py takes from stroma, and Python's `repr` of a list or a dict.
pub record Toolkit : Type 0 where
  -- the hex and the npub of `Keys(pub_k=…)`, with none for its KeyError
  pub public_key : Text → Option (Text × Text)
  -- the hex public key of `Keys(priv_k=…)`
  pub secret_key : Text → Option Text
  pub load_event : Json → Loaded
  -- `Event(kind, content, tags, created_at)` after `sign` with the secret key
  pub sign : Text → ℕ → Text → List (List Text) → ℤ → StoredEvent
  pub repr : Json → Text

-- the document that a message names
pub data Document : Type 0 where
  request_document attestation_document descriptor_document : Document
  witness_request witness_authorization witness_event revocation_document : Document

-- CommissioningError by its message; the KeyError of stroma by a secret key, and of a subscript
pub data CommissioningError : Type 0 where
  not_a_key bad_nonce not_json not_object unsupported_schema not_canonical : CommissioningError
  invalid_event unsigned_event unsupported_kind wrong_signer in_future :
      Document → CommissioningError
  missing_tag : Text → CommissioningError
  wrong_issue_time invalid_expiry expired wrong_period wrong_management wrong_service :
      CommissioningError
  predates_request after_expiry wrong_content wrong_operator not_commissioned : CommissioningError
  secret_key_error no_key : CommissioningError

abbrev pub application_event_kind : ℕ
application_event_kind = 78

abbrev pub addressable_event_kind : ℕ
addressable_event_kind = 30078

abbrev pub request_schema : Text
request_schema = codes "org.mainstay.service-commissioning-request"

abbrev pub attestation_schema : Text
attestation_schema = codes "org.mainstay.service-operator-attestation"

abbrev pub descriptor_schema : Text
descriptor_schema = codes "org.mainstay.service-descriptor"

abbrev pub service_type : Text
service_type = codes "nostr-relay"

abbrev pub request_ttl_seconds : ℕ
request_ttl_seconds = 86400

abbrev pub max_clock_skew_seconds : ℕ
max_clock_skew_seconds = 300

abbrev pub number : ℤ → Json
number n = num (int n)

-- `value == n`, of a value and an integer. A float is told by its print, which ends in ".0" for the
-- whole numbers below 10 ^ 16.
unfoldable pub is_number : ℤ → Json → Bool
unfolding dumps_int
is_number n (num m) = eq_ℤ (value m) n
is_number n (float t) = text_eq t (dumps_int n ++ codes ".0")
is_number n _ = false

abbrev pub holds : (Json → Bool) → Option Json → Bool
holds p none = false
holds p (some v) = p v

-- `content.get(key) == n`, and with a dict of texts or a text in place of n
abbrev pub number_at : Text → ℤ → Fields → Bool
number_at key n content = holds (is_number n) (lookup key content)

abbrev pub equal_at : Text → Json → Fields → Bool
equal_at key v content = holds (λ w. json_eq w v) (lookup key content)

-- `type(value) is int`
abbrev pub exact_int : Option Json → Option ℤ
exact_int (some (num (int n))) = some n
exact_int _ = none

-- `a - b == n`
abbrev pub differ_by : ℤ → ℤ → ℕ → Bool
differ_by a b n = (pos_part a + neg_part b) == (n + pos_part b + neg_part a)

-- `value.strip()`
unfoldable pub is_space : ℕ → Bool
is_space c =
    (leb 9 c && leb c 13)
    || ((leb 28 c && leb c 32)
        || ((leb 8192 c && leb c 8202)
            || any (λ d. c == d) (133 ∷ 160 ∷ 5760 ∷ 8232 ∷ 8233 ∷ 8239 ∷ 8287 ∷ 12288 ∷ [])))

unfoldable pub lstrip : Text → Text
unfolding is_space
lstrip [] = []
lstrip (c ∷ s) = let rest = lstrip s in if is_space c then rest else c ∷ s

unfoldable pub rstrip : Text → Text
unfolding is_space
rstrip [] = []
rstrip (c ∷ s) = elim (rstrip s) [ [] ↦ if is_space c then [] else c ∷ [] | d ∷ t ↦ c ∷ d ∷ t ]

unfoldable pub strip : Text → Text
strip s = rstrip (lstrip s)

-- the digits of `bytes.fromhex`, and the spaces that it skips between bytes
abbrev between : ℕ → ℕ → ℕ → Bool
between a b c = leb a c && leb c b

unfoldable pub is_hex_digit : ℕ → Bool
is_hex_digit c = between 48 57 c || (between 65 70 c || between 97 102 c)

unfoldable pub is_ascii_space : ℕ → Bool
is_ascii_space c = between 9 13 c || c == 32

abbrev more : Option ℕ → Option ℕ
more none = none
more (some n) = some (suc n)

-- `len(bytes.fromhex(text))`, with none for its ValueError
unfoldable pub hex_length : Text → Option ℕ
unfolding is_hex_digit is_ascii_space
hex_length [] = some 0
hex_length (c ∷ []) = if is_ascii_space c then some 0 else none
hex_length (c ∷ d ∷ s) = elim (is_ascii_space c) [
  | true ↦ hex_length (d ∷ s)
  | false ↦ elim (is_hex_digit c && is_hex_digit d) [ true ↦ more (hex_length s) | false ↦ none ]
]

abbrev is_32 : Option ℕ → Bool
is_32 none = false
is_32 (some n) = n == 32

-- 64 characters that are 32 bytes of hex
unfoldable pub is_nonce : Text → Bool
is_nonce nonce = length nonce == 64 && is_32 (hex_length nonce)

-- `_require_tag`
unfoldable pub has_tag : List Text → StoredEvent → Bool
has_tag expected event = any (λ tag. texts_eq expected tag) event.tags

abbrev head_text : List Text → Text
head_text [] = []
head_text (t ∷ ts) = t

abbrev pub require_tag : List Text → StoredEvent → Outcome CommissioningError (Unit {0})
require_tag expected event =
    raise_if (not (has_tag expected event)) (missing_tag (head_text expected))

-- a dict that names the service
abbrev pub service_json : Text → Json
service_json pubkey =
    obj (field (codes "pubkey") (str pubkey) (field (codes "type") (str service_type) end))

module _ (kit : Toolkit) where
  -- `normalize_public_key`: the hex and the npub
  unfoldable pub normalize_public_key : Text → Outcome CommissioningError (Text × Text)
  normalize_public_key v = or_raise (kit.public_key (strip v)) not_a_key

  abbrev pub secret : Text → Outcome CommissioningError Text
  secret nsec = or_raise (kit.secret_key nsec) secret_key_error

  -- `str(value)`, and `str(value or "")`
  unfoldable pub python_str : Json → Text
  python_str null = codes "None"
  python_str (num (int n)) = dumps_int n
  python_str (num (bool true)) = codes "True"
  python_str (num (bool false)) = codes "False"
  python_str (float t) = t
  python_str (str s) = s
  python_str (arr xs) = kit.repr (arr xs)
  python_str (obj d) = kit.repr (obj d)

  unfoldable pub text_or_empty : Option Json → Text
  unfolding python_str
  text_or_empty none = []
  text_or_empty (some null) = []
  text_or_empty (some (num n)) = if eq_ℤ (value n) (pos 0) then [] else python_str (num n)
  text_or_empty (some (float t)) =
      if text_eq t (codes "0.0") || text_eq t (codes "-0.0") then [] else t
  text_or_empty (some (str s)) = s
  text_or_empty (some (arr nil)) = []
  text_or_empty (some (arr (cons x xs))) = python_str (arr (cons x xs))
  text_or_empty (some (obj end)) = []
  text_or_empty (some (obj (field k v d))) = python_str (obj (field k v d))

module _ (lib : Crypto) (codec : Codec) (kit : Toolkit) where
  abbrev pub of_loaded : Document → Loaded → Outcome CommissioningError StoredEvent
  of_loaded label (loaded e) = ok e
  of_loaded label unsigned = err (unsigned_event label)
  of_loaded label failed = err (invalid_event label)

  -- the errors of `validate_event` are caught: each is an EventValidationError, a ValueError or a KeyError
  abbrev pub if_valid :
      {A : Type 0} → Document → Outcome Raised A → Loaded → Outcome CommissioningError StoredEvent
  if_valid label (err e) l = err (invalid_event label)
  if_valid label (ok a) l = of_loaded label l

  -- `_valid_event`
  unfoldable pub valid_event : ℕ → Document → Json → Outcome CommissioningError StoredEvent
  valid_event now label document =
      if_valid label (validate_event lib now true document) (kit.load_event document)

  -- `_content`
  unfoldable pub content_of : Text → StoredEvent → Outcome CommissioningError Fields
  content_of schema event = do
    document ← or_raise (codec.loads event.content) not_json
    content ← or_raise (as_dict document) not_object
    raise_if
        (not (
          equal_at (codes "schema") (str schema) content
          && number_at (codes "schema_version") (pos 1) content))
        unsupported_schema
    raise_if (not (text_eq (canonical_json (obj content)) event.content)) not_canonical
    ok content
