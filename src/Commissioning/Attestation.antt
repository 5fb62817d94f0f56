-- ===== src/Commissioning/Attestation.antt =====
-- src/spurline/commissioning.py: the attestation by which the operator accepts a request.
use spurline.Prelude.{
  ℕ, ◌+◌, Bool, not, [], ◌∷◌, ◌++◌, List, Outcome, ok, ◌>>=◌, ◌>>◌, raise_if, or_raise,
}
use spurline.Prelude.Int.{ℤ, pos, ltb_ℤ, eq_ℤ}
use spurline.Prelude.Text.{Text, codes, text_eq}
use spurline.Json.{Json, null, num, str, obj, Fields, end, field, Number, value, lookup}
use spurline.Events.{Crypto, StoredEvent}
use spurline.Receipts.{Codec, canonical_json}
use spurline.Commissioning.{
  Toolkit, CommissioningError, addressable_event_kind, attestation_schema, max_clock_skew_seconds,
  number, exact_int, require_tag, service_json, normalize_public_key, python_str, valid_event,
  content_of, attestation_document, not_a_key, unsupported_kind, wrong_signer, in_future,
  predates_request, after_expiry, wrong_content, no_key,
}
use spurline.Commissioning.Request.{Expected, service_type_tag, verify_commissioning_request}

pub record VerifiedCommissioning : Type 0 where
  pub request : StoredEvent
  pub attestation : StoredEvent
  pub operator_npub : Text

-- the content and the tags that an attestation has to have
unfoldable pub attestation_content : Text → Text → Text → Text → Number → Fields
attestation_content service_hex operator_hex management request_id issued_at =
    field (codes "action") (str (codes "authorize")) (
      field (codes "commissioning_request") (str request_id) (
        field (codes "installation") (str operator_hex) (
          field (codes "issued_at") (num issued_at) (
            field (codes "management") (str management) (
              field (codes "previous") null (
                field (codes "relationship") (str (codes "operates")) (
                  field (codes "schema") (str attestation_schema) (
                    field (codes "schema_version") (number (pos 1)) (
                      field (codes "sequence") (number (pos 1))
                        (field (codes "service") (service_json service_hex) end))))))))))

abbrev pub attestation_tag : Text → List Text
attestation_tag service_hex = codes "d" ∷ (attestation_schema ++ b':' ∷ service_hex) ∷ []

abbrev pub service_tag : Text → List Text
service_tag service_hex = codes "p" ∷ service_hex ∷ [] ∷ codes "service" ∷ []

abbrev pub request_tag : Text → List Text
request_tag request_id = codes "e" ∷ request_id ∷ [] ∷ codes "commissioning-request" ∷ []

-- its kind, its signer and its time, against the request and the end of its validity
unfoldable pub check_attestation_header :
    ℕ → Text → StoredEvent → ℤ → StoredEvent → Outcome CommissioningError (Unit {0})
check_attestation_header now operator_hex request expires_at attestation = do
  raise_if (not (text_eq attestation.pubkey operator_hex)) (wrong_signer attestation_document)
  raise_if (ltb_ℤ (value attestation.created_at) (value request.created_at)) predates_request
  raise_if (ltb_ℤ expires_at (value attestation.created_at)) after_expiry
  raise_if (ltb_ℤ (pos (now + max_clock_skew_seconds)) (value attestation.created_at))
      (in_future attestation_document)

unfoldable pub check_attestation_tags :
    Text → StoredEvent → StoredEvent → Outcome CommissioningError (Unit {0})
check_attestation_tags service_hex request attestation = do
  require_tag (attestation_tag service_hex) attestation
  require_tag (service_tag service_hex) attestation
  require_tag (request_tag request.id) attestation
  require_tag service_type_tag attestation

-- `canonical_json(content) == canonical_json(expected)`
abbrev pub same_content : Fields → Fields → Bool
same_content content expected =
    text_eq (canonical_json (obj content)) (canonical_json (obj expected))

module _ (lib : Crypto) (codec : Codec) (kit : Toolkit) (settings : Expected) where
  -- the checks of `verify_operator_attestation` on the loaded attestation, after the request's
  unfoldable pub check_attestation :
      ℕ → StoredEvent → Fields → StoredEvent → Fields → Outcome CommissioningError Text
  check_attestation now request request_content attestation content = do
    raise_if (not (eq_ℤ (value attestation.kind) (pos addressable_event_kind)))
        (unsupported_kind attestation_document)
    requested ← or_raise (lookup (codes "requested_operator") request_content) no_key
    expires_at ← or_raise (exact_int (lookup (codes "expires_at") request_content)) no_key
    check_attestation_header now (python_str kit requested) request expires_at attestation
    (service_hex, npub) ← normalize_public_key kit settings.service_npub
    raise_if
        (not (
          same_content content (
            attestation_content service_hex (python_str kit requested) settings.management
              request.id attestation.created_at)))
        wrong_content
    check_attestation_tags service_hex request attestation
    (hex, operator_npub) ← or_raise (kit.public_key (python_str kit requested)) not_a_key
    ok operator_npub

  -- `verify_operator_attestation` at the time `now`
  unfoldable pub verify_operator_attestation :
      ℕ → Bool → Json → Json → Outcome CommissioningError VerifiedCommissioning
  verify_operator_attestation now require_current request_data attestation_data = do
    (request, request_content) ←
        verify_commissioning_request lib codec kit settings now require_current request_data
    attestation ← valid_event lib codec kit now attestation_document attestation_data
    content ← content_of lib codec kit attestation_schema attestation
    operator_npub ← check_attestation now request request_content attestation content
    ok (record { request = request; attestation = attestation; operator_npub = operator_npub })
