-- ===== src/Commissioning/Request.antt =====
-- src/spurline/commissioning.py: the request that the service signs.
use spurline.Prelude.{
  ℕ, ◌+◌, Bool, ◌&&◌, not, Option, none, some, List, [], ◌∷◌, ◌++◌, Outcome, ok, ◌>>=◌, ◌>>◌,
  raise_if, or_raise,
}
use spurline.Prelude.Int.{ℤ, pos, ltb_ℤ, leb_ℤ, eq_ℤ}
use spurline.Prelude.Text.{Text, codes, text_eq}
use spurline.Json.{Json, str, obj, Fields, end, field, value, lookup, as_str}
use spurline.Json.Dumps.{dumps_int}
use spurline.Events.{Crypto, StoredEvent}
use spurline.Receipts.{Codec, canonical_json}
use spurline.Commissioning.{
  Toolkit, CommissioningError, application_event_kind, request_schema, service_type,
  request_ttl_seconds, max_clock_skew_seconds, number, number_at, equal_at, exact_int, differ_by,
  is_nonce, require_tag, service_json, normalize_public_key, secret, text_or_empty, valid_event,
  content_of, request_document, bad_nonce, unsupported_kind, wrong_signer, in_future,
  wrong_issue_time, invalid_expiry, expired, wrong_period, wrong_management, wrong_service,
}

-- the content and the tags of the request
unfoldable pub request_content : Text → Text → Text → Text → ℕ → Fields
request_content service_hex operator_hex management nonce issued_at =
    field (codes "expires_at") (number (pos (issued_at + request_ttl_seconds))) (
      field (codes "issued_at") (number (pos issued_at)) (
        field (codes "management") (str management) (
          field (codes "nonce") (str nonce) (
            field (codes "requested_operator") (str operator_hex) (
              field (codes "schema") (str request_schema) (
                field (codes "schema_version") (number (pos 1))
                  (field (codes "service") (service_json service_hex) end)))))))

abbrev pub operator_tag : Text → List Text
operator_tag operator_hex = codes "p" ∷ operator_hex ∷ [] ∷ codes "operator" ∷ []

abbrev pub expiration_tag : ℤ → List Text
expiration_tag expires_at = codes "expiration" ∷ dumps_int expires_at ∷ []

abbrev pub service_type_tag : List Text
service_type_tag = codes "service-type" ∷ service_type ∷ []

unfoldable pub request_tags : Text → Text → ℤ → List (List Text)
request_tags nonce operator_hex expires_at =
    (codes "d" ∷ (request_schema ++ b':' ∷ nonce) ∷ [])
    ∷ operator_tag operator_hex
    ∷ (codes "t" ∷ codes "mainstay-service-commissioning" ∷ [])
    ∷ service_type_tag
    ∷ expiration_tag expires_at
    ∷ []

-- `nonce or secrets.token_hex(32)`
abbrev pub chosen_nonce : Option Text → Text → Text
chosen_nonce none fresh = fresh
chosen_nonce (some []) fresh = fresh
chosen_nonce (some (c ∷ s)) fresh = c ∷ s

-- the checks of the header of a request: its kind, its signer and its time
unfoldable pub check_header :
    ℕ → Text → StoredEvent → Fields → Outcome CommissioningError (Unit {0})
check_header now service_hex event content = do
  raise_if (not (eq_ℤ (value event.kind) (pos application_event_kind)))
      (unsupported_kind request_document)
  raise_if (not (text_eq event.pubkey service_hex)) (wrong_signer request_document)
  raise_if (ltb_ℤ (pos (now + max_clock_skew_seconds)) (value event.created_at))
      (in_future request_document)
  raise_if (not (number_at (codes "issued_at") (value event.created_at) content)) wrong_issue_time

-- its expiry, with `require_current`
unfoldable pub check_expiry : ℕ → Bool → StoredEvent → ℤ → Outcome CommissioningError (Unit {0})
check_expiry now require_current event expires_at = do
  raise_if (require_current && leb_ℤ expires_at (pos now)) expired
  raise_if (not (differ_by expires_at (value event.created_at) request_ttl_seconds)) wrong_period

-- the service that it names
unfoldable pub check_service : Text → Text → Fields → Outcome CommissioningError (Unit {0})
check_service service_hex management content = do
  raise_if (not (equal_at (codes "management") (str management) content)) wrong_management
  raise_if (not (equal_at (codes "service") (service_json service_hex) content)) wrong_service

abbrev pub text_field : Option Json → Option Text
text_field none = none
text_field (some v) = as_str v

-- its nonce and the tags that name the operator, the expiry and the type
unfoldable pub check_tags : Text → ℤ → StoredEvent → Fields → Outcome CommissioningError (Unit {0})
check_tags operator_hex expires_at event content = do
  nonce ← or_raise (text_field (lookup (codes "nonce") content)) bad_nonce
  raise_if (not (is_nonce nonce)) bad_nonce
  require_tag (operator_tag operator_hex) event
  require_tag (expiration_tag expires_at) event
  require_tag service_type_tag event

module _ (kit : Toolkit) where
  -- `create_commissioning_request` at the time `now`; `fresh` is what `secrets.token_hex(32)` gives
  unfoldable pub create_commissioning_request :
      Text → Text → Text → ℕ → Option Text → Text → Outcome CommissioningError StoredEvent
  create_commissioning_request service_nsec operator_npub management now nonce fresh = do
    service_hex ← secret kit service_nsec
    (operator_hex, npub) ← normalize_public_key kit operator_npub
    raise_if (not (is_nonce (chosen_nonce nonce fresh))) bad_nonce
    ok (
        kit.sign service_nsec application_event_kind
          (canonical_json (
            obj
              (request_content service_hex operator_hex management (chosen_nonce nonce fresh) now)))
          (request_tags (chosen_nonce nonce fresh) operator_hex (pos (now + request_ttl_seconds)))
          (pos now))

-- the settings that a document is checked against: `service_npub` and `management`
pub record Expected : Type 0 where
  pub service_npub : Text
  pub management : Text

module _ (lib : Crypto) (codec : Codec) (kit : Toolkit) (settings : Expected) where
  -- the checks of `verify_commissioning_request` on the loaded event and its content
  unfoldable pub check_request :
      ℕ → Bool → Text → StoredEvent → Fields → Outcome CommissioningError (Unit {0})
  check_request now require_current service_hex event content = do
    check_header now service_hex event content
    expires_at ← or_raise (exact_int (lookup (codes "expires_at") content)) invalid_expiry
    check_expiry now require_current event expires_at
    check_service service_hex settings.management content
    (operator_hex, npub) ←
        normalize_public_key kit (text_or_empty kit (lookup (codes "requested_operator") content))
    check_tags operator_hex expires_at event content

  -- `verify_commissioning_request` at the time `now`
  unfoldable pub verify_commissioning_request :
      ℕ → Bool → Json → Outcome CommissioningError (StoredEvent × Fields)
  verify_commissioning_request now require_current document = do
    event ← valid_event lib codec kit now request_document document
    content ← content_of lib codec kit request_schema event
    (service_hex, npub) ← normalize_public_key kit settings.service_npub
    check_request now require_current service_hex event content
    ok (event, content)
