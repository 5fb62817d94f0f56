-- ===== src/Events/Validity.antt =====
-- `validate_event` against a description of the events that it accepts.
use spurline.Prelude.{
  ℕ, ◌+◌, ◌≤◌, Bool, true, ◌≡◌, ◌⊎◌, refl, ◌↔◌, List, [], ◌∷◌, map, all, All, length, arith, ok,
  err, if◌then◌else◌,
}
use spurline.Prelude.Int.{pos, ◌≤ℤ◌}
use spurline.Prelude.Text.{Text, text_eq_iff}
use spurline.Json.{Json, str, num, arr, obj, Fields, int, value, items_of, elements}
use spurline.Json.Dumps.{dumps}
use spurline.Events.{
  Crypto, StoredEvent, unicode_error, from_dict, to_dict, is_hex_char, is_lower_hex, is_hex, is_str,
  valid_tags, tags_json, validate_fields, validate_event, verify_event_signature, event_id,
  canonical_event_payload, is_encodable, missing,
}
use spurline.Events.Reading.{Reads, from_dict-Reads, from_dict_of_Reads, to_dict-Reads}

-- n lowercase hex digits
abbrev pub IsHexChar : ℕ → Type 0
IsHexChar c = ((b'0' ≤ c) × (c ≤ b'9')) ⊎ ((b'a' ≤ c) × (c ≤ b'f'))

pub record IsHex (s : Text) (n : ℕ) : Type 0 where
  pub size : length s ≡ n
  pub chars : All IsHexChar s

is_hex_char_iff : (c : ℕ) → (is_hex_char c ≡ true) ↔ IsHexChar c
unfolding is_hex_char
is_hex_char_iff c = ground arith

all-is_hex_char : (s : Text) → (all is_hex_char s ≡ true) ↔ All IsHexChar s
all-is_hex_char [] = (λ _. tt, λ _. refl)
all-is_hex_char (c ∷ s) = (
  λ h. ground (arith, (is_hex_char_iff c).0, (all-is_hex_char s).0),
  λ h. ground (arith, (is_hex_char_iff c).1 h.0, (all-is_hex_char s).1 h.1),
)

pub is_lower_hex_iff : (s : Text) (n : ℕ) → (is_lower_hex s n ≡ true) ↔ IsHex s n
unfolding is_lower_hex
is_lower_hex_iff s n = (
  λ h. record { size = ground arith; chars = (all-is_hex_char s).0 (ground arith) },
  λ h. ground (arith, h.size, (all-is_hex_char s).1 h.chars),
)

-- the text that the id of an event commits to
abbrev pub payload : StoredEvent → Text
payload e = dumps (
    arr (
      items_of (
        num (int (pos 0))
        ∷ str e.pubkey
        ∷ num e.created_at
        ∷ num e.kind
        ∷ tags_json e.tags
        ∷ str e.content
        ∷ [])))

pub record IsSigned (lib : Crypto) (e : StoredEvent) : Type 0 where
  pub installed : lib.coincurve ≡ true
  pub point : lib.is_point e.pubkey ≡ true
  pub verified : lib.schnorr e.pubkey e.sig e.id ≡ true

pub record IsValid (lib : Crypto) (now : ℕ) (verify : Bool) (e : StoredEvent) : Type 0 where
  pub id : IsHex e.id 64
  pub pubkey : IsHex e.pubkey 64
  pub sig : IsHex e.sig 128
  pub in_time : value e.created_at ≤ℤ pos (now + 900)
  pub encodable : is_encodable (payload e) ≡ true
  pub hash : e.id ≡ lib.sha256 (payload e)
  pub signed : verify ≡ true → IsSigned lib e

all_str : (tag : List Text) → all is_str (elements (items_of (map str tag))) ≡ true
all_str [] = refl
all_str (s ∷ tag) = all_str tag

valid_tags-tags_json : (tags : List (List Text)) → valid_tags (tags_json tags) ≡ true
unfolding valid_tags
valid_tags-tags_json [] = refl
valid_tags-tags_json (tag ∷ tags) = rw (all_str tag) (valid_tags-tags_json tags)

module _ (lib : Crypto) {event : Fields} {e : StoredEvent} (r : Reads event e) where
  missing-Reads : missing event ≡ []
  unfolding missing
  missing-Reads = ground arith

  event_id-Reads :
      event_id lib event
      ≡ (if is_encodable (payload e) then ok (lib.sha256 (payload e)) else err unicode_error)
  unfolding event_id canonical_event_payload
  event_id-Reads = ground arith

  verify_event_signature-Reads : (verify_event_signature lib event ≡ ok tt) ↔ IsSigned lib e
  unfolding verify_event_signature
  verify_event_signature-Reads = (
    λ h. record { installed = ground arith; point = ground arith; verified = ground arith },
    λ s. ground (arith, s.installed, s.point, s.verified),
  )

  validate_fields-IsValid :
      (now : ℕ) (verify : Bool)
      → validate_fields lib now verify event ≡ ok e
      → IsValid lib now verify e
  unfolding validate_fields is_hex
  validate_fields-IsValid now verify h = record {
    id = (is_lower_hex_iff e.id 64).0 (ground arith);
    pubkey = (is_lower_hex_iff e.pubkey 64).0 (ground arith);
    sig = (is_lower_hex_iff e.sig 128).0 (ground arith);
    in_time = ground arith;
    encodable = ground (arith, event_id-Reads);
    hash = ground (arith, event_id-Reads, text_eq_iff e.id (lib.sha256 (payload e)));
    signed = λ v. verify_event_signature-Reads.0 (ground arith);
  }

  IsValid-validate_fields :
      (now : ℕ) (verify : Bool)
      → IsValid lib now verify e
      → validate_fields lib now verify event ≡ ok e
  unfolding validate_fields is_hex
  IsValid-validate_fields now verify v = ground (
    arith,
    missing-Reads,
    (is_lower_hex_iff e.id 64).1 v.id,
    (is_lower_hex_iff e.pubkey 64).1 v.pubkey,
    (is_lower_hex_iff e.sig 128).1 v.sig,
    valid_tags-tags_json e.tags,
    event_id-Reads,
    v.encodable,
    v.in_time,
    text_eq_iff e.id (lib.sha256 (payload e)),
    v.hash,
    verify_event_signature-Reads.1,
    v.signed,
    from_dict_of_Reads event e r,
  )

-- a dict that holds the fields of the event, and perhaps others
abbrev pub Denotes : Json → StoredEvent → Type 0
Denotes v e = (event : Fields) × (v ≡ obj event) × Reads event e

module _ (lib : Crypto) (now : ℕ) (verify : Bool) where
  validate_fields-from_dict :
      (event : Fields) (e : StoredEvent)
      → validate_fields lib now verify event ≡ ok e
      → from_dict event ≡ ok e
  unfolding validate_fields
  validate_fields-from_dict event e h = ground arith

  validate_event-ok :
      (v : Json) (e : StoredEvent)
      → validate_event lib now verify v ≡ ok e
      → IsValid lib now verify e × Denotes v e
  unfolding validate_event
  validate_event-ok (obj event) e h =
      let r = from_dict-Reads event e (validate_fields-from_dict event e h) in
      (validate_fields-IsValid lib r now verify h, (event, refl, r))
  validate_event-ok _ e h = ground arith

  -- `validate_event` returns the event `e` for a value exactly if the value is a dict that holds
  -- the fields of `e`, the id, key and signature of `e` are 64, 64 and 128 lowercase hex digits, its
  -- time is at most 900 seconds ahead, its canonical payload can be encoded and hashes to its id,
  -- and, where signatures are verified, coincurve is installed and accepts the key and signature.
  pub validate_event_iff :
      (v : Json) (e : StoredEvent)
      → (validate_event lib now verify v ≡ ok e) ↔ (IsValid lib now verify e × Denotes v e)
  unfolding validate_event
  validate_event_iff v e = (
    validate_event-ok v e,
    λ (valid, (event, eq, r)). rw eq (IsValid-validate_fields lib r now verify valid),
  )

  -- An accepted event written out by `to_dict` is accepted again, as the same event.
  pub validate_event-to_dict :
      (v : Json) (e : StoredEvent)
      → validate_event lib now verify v ≡ ok e
      → validate_event lib now verify (obj (to_dict e)) ≡ ok e
  validate_event-to_dict v e h =
      (validate_event_iff (obj (to_dict e)) e).1
        (((validate_event_iff v e).0 h).0, (to_dict e, refl, to_dict-Reads e))
