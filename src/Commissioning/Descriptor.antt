-- ===== src/Commissioning/Descriptor.antt =====
-- src/spurline/commissioning.py: the descriptor that the service publishes of itself.
use spurline.Prelude.{ℕ, not, [], ◌∷◌, List, Outcome, ok, ◌>>=◌, ◌>>◌, raise_if}
use spurline.Prelude.Int.{ℤ, pos, eq_ℤ}
use spurline.Prelude.Text.{Text, codes, text_eq}
use spurline.Json.{Json, str, arr, obj, cons, nil, Fields, end, field, value}
use spurline.Events.{Crypto, StoredEvent}
use spurline.Receipts.{Codec, canonical_json}
use spurline.Commissioning.{
  Toolkit, CommissioningError, addressable_event_kind, descriptor_schema, number, number_at,
  equal_at, require_tag, service_json, normalize_public_key, secret, valid_event, content_of,
  attestation_document, descriptor_document, unsupported_kind, wrong_signer, wrong_issue_time,
  wrong_management, wrong_service, wrong_operator, not_commissioned,
}
use spurline.Commissioning.Request.{Expected, operator_tag, service_type_tag}

abbrev pub operator_json : StoredEvent → Json
operator_json attestation = obj (
    field (codes "attestation_event_id") (str attestation.id)
      (field (codes "pubkey") (str attestation.pubkey) end))

unfoldable pub descriptor_content : Text → Text → StoredEvent → ℤ → Fields
descriptor_content service_hex management attestation issued_at =
    field (codes "capabilities") (arr (cons (str (codes "nostr.relay")) nil)) (
      field (codes "issued_at") (number issued_at) (
        field (codes "management") (str management) (
          field (codes "operator") (operator_json attestation) (
            field (codes "schema") (str descriptor_schema) (
              field (codes "schema_version") (number (pos 1)) (
                field (codes "service") (service_json service_hex)
                  (field (codes "state") (str (codes "commissioned")) end)))))))

abbrev pub descriptor_tag : List Text
descriptor_tag = codes "d" ∷ descriptor_schema ∷ []

abbrev pub operator_attestation_tag : Text → List Text
operator_attestation_tag id = codes "e" ∷ id ∷ [] ∷ codes "operator-attestation" ∷ []

unfoldable pub descriptor_tags : StoredEvent → List (List Text)
descriptor_tags attestation =
    descriptor_tag
    ∷ operator_tag attestation.pubkey
    ∷ operator_attestation_tag attestation.id
    ∷ (codes "t" ∷ codes "mainstay-service-descriptor" ∷ [])
    ∷ service_type_tag
    ∷ []

-- the checks of `verify_service_descriptor` on the loaded events
unfoldable pub check_descriptor :
    Text → Text → StoredEvent → StoredEvent → Fields → Outcome CommissioningError (Unit {0})
check_descriptor service_hex management descriptor attestation content = do
  raise_if (not (eq_ℤ (value descriptor.kind) (pos addressable_event_kind)))
      (unsupported_kind descriptor_document)
  raise_if (not (text_eq descriptor.pubkey service_hex)) (wrong_signer descriptor_document)
  raise_if (not (number_at (codes "issued_at") (value descriptor.created_at) content))
      wrong_issue_time
  raise_if (not (equal_at (codes "management") (str management) content)) wrong_management
  raise_if (not (equal_at (codes "service") (service_json service_hex) content)) wrong_service
  raise_if (not (equal_at (codes "operator") (operator_json attestation) content)) wrong_operator
  raise_if (not (equal_at (codes "state") (str (codes "commissioned")) content)) not_commissioned
  require_tag descriptor_tag descriptor
  require_tag (operator_attestation_tag attestation.id) descriptor

module _ (lib : Crypto) (codec : Codec) (kit : Toolkit) where
  -- `create_service_descriptor`, with the clock at `now` and `issued_at` for its argument `now`
  unfoldable pub create_service_descriptor :
      ℕ → Text → Json → Text → ℤ → Outcome CommissioningError StoredEvent
  create_service_descriptor now service_nsec attestation_data management issued_at = do
    service_hex ← secret kit service_nsec
    attestation ← valid_event lib codec kit now attestation_document attestation_data
    ok (
        kit.sign service_nsec addressable_event_kind
          (canonical_json (obj (descriptor_content service_hex management attestation issued_at)))
          (descriptor_tags attestation) issued_at)

  -- `verify_service_descriptor` at the time `now`
  unfoldable pub verify_service_descriptor :
      ℕ → Expected → Json → Json → Outcome CommissioningError StoredEvent
  verify_service_descriptor now settings descriptor_data attestation_data = do
    descriptor ← valid_event lib codec kit now descriptor_document descriptor_data
    attestation ← valid_event lib codec kit now attestation_document attestation_data
    content ← content_of lib codec kit descriptor_schema descriptor
    (service_hex, npub) ← normalize_public_key kit settings.service_npub
    check_descriptor service_hex settings.management descriptor attestation content
    ok descriptor
