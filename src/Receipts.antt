-- ===== src/Receipts.antt =====
-- src/spurline/receipts.py: the wire checks of an observation receipt.
use spurline.Prelude.{
  ℕ, ◌+◌, ◌*◌, ◌-◌, ◌/◌, ◌%◌, Bool, true, false, ◌&&◌, ◌||◌, not, Option, none, some, List, [], ◌∷◌,
  ◌++◌, all, any, ltb, leb, ◌==◌, if◌then◌else◌, Outcome, ok, err, ◌>>=◌, ◌>>◌, raise_if, or_raise,
}
use spurline.Prelude.Int.{pos}
use spurline.Prelude.Text.{Text, codes, text_eq, text_in}
use spurline.Json.{Json, null, num, str, obj, Fields, end, Number, int, entries, lookup, as_dict}
use spurline.Json.Equal.{sorted}
use spurline.Json.Dumps.{dumps, decimal, hex_digit}
use spurline.Events.{Crypto, Raised, is_lower_hex, text_of, as_tags, validate_event}

-- What receipts.py takes from the standard library: `json.loads`, with none for a ValueError, and
-- the hex of the SHA-256 of bytes.
pub record Codec : Type 0 where
  pub loads : Text → Option Json
  pub sha256_bytes : List ℕ → Text

-- The messages of CommissioningError.
pub data Refusal : Type 0 where
  subject_integers unsupported_version unsupported_kind unsupported_subject_kind invalid_json :
      Refusal
  body_not_object not_canonical unsupported_profile unsafe_times no_uncertainty : Refusal
  inconsistent_times wrong_accuracy invalid_reference not_bound : Refusal

-- what the checks of a receipt raise: the error of `validate_event`, CommissioningError, KeyError
pub data ReceiptError : Type 0 where
  event_error : Raised → ReceiptError
  refused : Refusal → ReceiptError
  no_key : ReceiptError

abbrev pub lift : {A : Type 0} → Outcome Raised A → Outcome ReceiptError A
lift (ok a) = ok a
lift (err e) = err (event_error e)

-- A character of a JSON text under `ensure_ascii`, which writes UTF-16 units as `\u` and four digits.
-- Outside of strings a JSON text is ASCII, and the characters below the space are escaped already.
abbrev hex_quad : ℕ → Text
hex_quad u =
    codes "\\u"
    ++ hex_digit (u / 4096)
      ∷ hex_digit (u / 256 % 16)
      ∷ hex_digit (u / 16 % 16)
      ∷ hex_digit (u % 16)
      ∷ []

unfoldable pub ascii_char : ℕ → Text
ascii_char c =
    if ltb c 127
    then c ∷ []
    else if ltb c 65536
    then hex_quad c
    else hex_quad (55296 + (c - 65536) / 1024) ++ hex_quad (56320 + (c - 65536) % 1024)

unfoldable pub to_ascii : Text → Text
unfolding ascii_char
to_ascii [] = []
to_ascii (c ∷ s) = ascii_char c ++ to_ascii s

-- `canonical_json` of commissioning.py
unfoldable pub canonical_json : Json → Text
canonical_json v = to_ascii (dumps (sorted v))

abbrev pub fields_of : Json → Fields
fields_of (obj d) = d
fields_of _ = end

-- `value[key]`
abbrev pub get : Text → Json → Outcome ReceiptError Json
get key v = or_raise (lookup key (fields_of v)) no_key

abbrev pub max_safe_integer : ℕ
max_safe_integer = 9007199254740991

-- `type(value) is int`, or an int that is no bool, from 0 to MAX_SAFE_INTEGER
abbrev pub safe_number : Number → Option ℕ
safe_number (int (pos n)) = if leb n max_safe_integer then some n else none
safe_number _ = none

abbrev pub safe_integer : Json → Option ℕ
safe_integer (num n) = safe_number n
safe_integer _ = none

abbrev pub is_number : ℕ → Json → Bool
is_number n (num (int (pos m))) = m == n
is_number n _ = false

-- `value == text`
abbrev pub is_text : Text → Json → Bool
is_text t (str s) = text_eq s t
is_text t _ = false

abbrev pub is_none : Json → Bool
is_none null = true
is_none _ = false

-- `bytes.fromhex` of lowercase digits
abbrev pub digit : ℕ → ℕ
digit c = if ltb c 97 then c - 48 else c - 87

unfoldable pub from_hex : Text → List ℕ
from_hex (a ∷ b ∷ s) = (16 * digit a + digit b) ∷ from_hex s
from_hex _ = []

abbrev pub domain : List ℕ
domain = codes "spurline.observed-signed-event.v1" ++ 0 ∷ []

-- `receipt_tags`, for a version that `verify_receipt` lets through
abbrev pub receipt_marker : ℕ → Text
receipt_marker version = codes "spurline-observation-receipt-v" ++ decimal version

unfoldable pub receipt_tags : Text → Text → ℕ → ℕ → List (List Text)
receipt_tags id pubkey kind version =
    (codes "e" ∷ id ∷ [])
    ∷ (codes "p" ∷ pubkey ∷ [])
    ∷ (codes "k" ∷ decimal kind ∷ [])
    ∷ (codes "t" ∷ receipt_marker version ∷ [])
    ∷ []

abbrev pub body_fields : List Text
body_fields =
    codes "schema"
    ∷ codes "schema_version"
    ∷ codes "subject_profile"
    ∷ codes "event_id"
    ∷ codes "signed_event_digest"
    ∷ codes "observed_at_ms"
    ∷ codes "issued_at_ms"
    ∷ codes "clock_uncertainty_ms"
    ∷ codes "validation"
    ∷ codes "observation_mode"
    ∷ codes "witness_policy_digest"
    ∷ codes "authorization_event_id"
    ∷ []

abbrev pub fields_for : ℕ → List Text
fields_for version =
    if version == 1
    then body_fields
    else body_fields ++ codes "clock_accuracy" ∷ codes "clock_basis" ∷ []

-- `set(body) == fields`
unfoldable pub has_exactly : List Text → Fields → Bool
has_exactly keys d =
    all (λ k. any (λ e. text_eq e.0 k) (entries d)) keys && all (λ e. text_in e.0 keys) (entries d)

-- the version of a body: 1, 2 or 3
abbrev pub supported : ℕ → Bool
supported v = leb 1 v && leb v 3

abbrev pub version_number : Option ℕ → Option ℕ
version_number none = none
version_number (some v) = if supported v then some v else none

abbrev pub body_version : Fields → Option ℕ
body_version d = elim (lookup (codes "schema_version") d) [
  | none ↦ none
  | some v ↦ version_number (safe_integer v)
]

abbrev pub clock_basis : ℕ → Text
clock_basis version =
    if version == 3 then codes "system-clock" else codes "ntp-synchronized-system-clock"

-- `if` the value is none, raise
abbrev known : {A : Type 0} → Option A → ReceiptError → Outcome ReceiptError (Unit {0})
known none e = err e
known (some a) e = ok tt

-- `tags == expected`
abbrev pub texts_eq : List Text → List Text → Bool
texts_eq [] [] = true
texts_eq (s ∷ ss) (t ∷ ts) = text_eq s t && texts_eq ss ts
texts_eq _ _ = false

abbrev pub tags_eq : List (List Text) → List (List Text) → Bool
tags_eq [] [] = true
tags_eq (s ∷ ss) (t ∷ ts) = texts_eq s t && tags_eq ss ts
tags_eq _ _ = false

abbrev pub tags_are : List (List Text) → Option (List (List Text)) → Bool
tags_are expected none = false
tags_are expected (some tags) = tags_eq tags expected

-- the checks of the profile, the times, and the references of a body
unfoldable pub check_profile : Json → Outcome ReceiptError (Unit {0})
check_profile body = do
  schema ← get (codes "schema") body
  profile ← get (codes "subject_profile") body
  validation ← get (codes "validation") body
  mode ← get (codes "observation_mode") body
  raise_if
      (not (
        is_text (codes "org.spurline.observation-receipt") schema
        && is_text (codes "nostr-schnorr-secp256k1-v1") profile
        && is_text (codes "event-id-and-signature") validation
        && (is_text (codes "live") mode || is_text (codes "backfill") mode)))
      (refused unsupported_profile)

unfoldable pub check_uncertainty : ℕ → ℕ → Json → Outcome ReceiptError (Unit {0})
check_uncertainty version observed body = do
  uncertainty ← get (codes "clock_uncertainty_ms") body
  if version == 1
      then (do
        numeric ← or_raise (safe_integer uncertainty) (refused no_uncertainty)
        raise_if (ltb max_safe_integer (observed + numeric)) (refused inconsistent_times))
      else (do
        accuracy ← get (codes "clock_accuracy") body
        basis ← get (codes "clock_basis") body
        raise_if
            (not (
              is_none uncertainty
              && is_text (codes "unspecified") accuracy
              && is_text (clock_basis version) basis))
            (refused wrong_accuracy))

unfoldable pub check_reference : Text → Json → Outcome ReceiptError (Unit {0})
check_reference name body = do
  v ← get name body
  raise_if (not (is_lower_hex (text_of v) 64)) (refused invalid_reference)

unfoldable pub check_times : ℕ → Json → Json → Outcome ReceiptError (Unit {0})
check_times version receipt body = do
  observed_at ← get (codes "observed_at_ms") body
  observed ← or_raise (safe_integer observed_at) (refused unsafe_times)
  issued_at ← get (codes "issued_at_ms") body
  issued ← or_raise (safe_integer issued_at) (refused unsafe_times)
  check_uncertainty version observed body
  created_at ← get (codes "created_at") receipt
  raise_if (ltb issued observed || not (is_number (issued / 1000) created_at))
      (refused inconsistent_times)

module _ (lib : Crypto) (codec : Codec) where
  unfoldable pub signed_event_digest : ℕ → Json → Outcome ReceiptError Text
  signed_event_digest now subject = do
    e ← lift (validate_event lib now true subject)
    kind ← get (codes "kind") subject
    known (safe_integer kind) (refused subject_integers)
    created_at ← get (codes "created_at") subject
    known (safe_integer created_at) (refused subject_integers)
    id ← get (codes "id") subject
    sig ← get (codes "sig") subject
    ok (codec.sha256_bytes (domain ++ from_hex (text_of id) ++ from_hex (text_of sig)))

  -- the last check: the body and the tags name this subject
  unfoldable pub check_binding : ℕ → Text → Json → Json → Json → Outcome ReceiptError (Unit {0})
  check_binding version digest receipt subject body = do
    event_id ← get (codes "event_id") body
    signed ← get (codes "signed_event_digest") body
    id ← get (codes "id") subject
    pubkey ← get (codes "pubkey") subject
    kind ← get (codes "kind") subject
    number ← or_raise (safe_integer kind) (refused unsupported_subject_kind)
    tags ← get (codes "tags") receipt
    raise_if
        (not (
          is_text (text_of id) event_id
          && is_text digest signed
          && tags_are (receipt_tags (text_of id) (text_of pubkey) number version) (as_tags tags)))
        (refused not_bound)

  -- the checks on the subject's and the receipt's kind
  unfoldable pub check_kinds : Json → Json → Outcome ReceiptError (Unit {0})
  check_kinds receipt subject = do
    kind ← get (codes "kind") receipt
    raise_if (not (is_number 1418 kind)) (refused unsupported_kind)
    subject_kind ← get (codes "kind") subject
    raise_if (not (is_number 1415 subject_kind || is_number 1416 subject_kind))
        (refused unsupported_subject_kind)

  -- `verify_receipt`, at the time `now`
  unfoldable pub verify_receipt : ℕ → Json → Json → Outcome ReceiptError Json
  verify_receipt now receipt subject = do
    e ← lift (validate_event lib now true receipt)
    digest ← signed_event_digest now subject
    check_kinds receipt subject
    content ← get (codes "content") receipt
    body ← or_raise (codec.loads (text_of content)) (refused invalid_json)
    d ← or_raise (as_dict body) (refused body_not_object)
    version ← or_raise (body_version d) (refused unsupported_version)
    raise_if
        (not
          (has_exactly (fields_for version) d && text_eq (canonical_json body) (text_of content)))
        (refused not_canonical)
    check_profile body
    check_times version receipt body
    check_reference (codes "witness_policy_digest") body
    check_reference (codes "authorization_event_id") body
    check_binding version digest receipt subject body
    ok body
