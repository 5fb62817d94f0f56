-- ===== src/Commissioning/Published.antt =====
-- src/spurline/commissioning.py: a descriptor that the service creates passes the check.
use spurline.Prelude.{ℕ, ◌+◌, true, ◌≡◌, refl, subst, some, arith, ok, any}
use spurline.Prelude.Int.{ℤ, pos, eq_ℤ_iff, ◌≤ℤ◌}
use spurline.Prelude.Text.{Text, codes, text_eq, text_eq_refl}
use spurline.Json.{Json, obj, str, int}
use spurline.Json.Equal.{json_eq_refl}
use spurline.Events.{Crypto, StoredEvent, to_dict, is_encodable}
use spurline.Events.Validity.{payload}
use spurline.Receipts.{Codec, canonical_json, texts_eq}
use spurline.Commissioning.{
  Toolkit, descriptor_schema, is_number, strip, has_tag, service_json, normalize_public_key,
  valid_event, attestation_document, descriptor_document,
}
use spurline.Commissioning.Request.{Expected}
use spurline.Commissioning.Descriptor.{
  operator_json, descriptor_content, descriptor_tag, operator_attestation_tag, descriptor_tags,
  check_descriptor, create_service_descriptor, verify_service_descriptor,
}
use spurline.Commissioning.Signed.{
  SignedAs, SignsFor, signed-valid_event, read_content, texts_eq_refl,
}

has_descriptor_tag :
    (attestation : StoredEvent)
    → any (λ tag. texts_eq descriptor_tag tag) (descriptor_tags attestation) ≡ true
unfolding descriptor_tags
has_descriptor_tag attestation = ground (arith, texts_eq_refl descriptor_tag)

has_attestation_tag :
    (attestation : StoredEvent)
    → any
        (λ tag. texts_eq (operator_attestation_tag attestation.id) tag)
        (descriptor_tags attestation)
      ≡ true
unfolding descriptor_tags
has_attestation_tag attestation =
    ground (arith, texts_eq_refl (operator_attestation_tag attestation.id))

created-check_descriptor :
    (hex management : Text) (d attestation : StoredEvent) (t : ℤ)
    → d.kind ≡ int (pos 30078)
    → d.pubkey ≡ hex
    → d.tags ≡ descriptor_tags attestation
    → d.created_at ≡ int t
    → check_descriptor hex management d attestation
        (descriptor_content hex management attestation t)
      ≡ ok tt
unfolding check_descriptor descriptor_content is_number has_tag text_eq
created-check_descriptor hex management d attestation t hk hp ht hc = rw hk (
    rw hp (
      rw ht (
        rw hc (
          ground (
            arith,
            text_eq_refl hex,
            (eq_ℤ_iff t t).1 refl,
            json_eq_refl (str management),
            json_eq_refl (service_json hex),
            json_eq_refl (operator_json attestation),
            json_eq_refl (str (codes "commissioned")),
            has_descriptor_tag attestation,
            has_attestation_tag attestation,
          )))))

module _ (lib : Crypto) (codec : Codec) (kit : Toolkit) where
  created_descriptor :
      (nsec hex : Text) (now : ℕ) (management : Text) (attestation_data : Json)
      (attestation d : StoredEvent) (t : ℤ)
      → SignsFor lib kit nsec hex
      → valid_event lib codec kit now attestation_document attestation_data ≡ ok attestation
      → create_service_descriptor lib codec kit now nsec attestation_data management t ≡ ok d
      → SignedAs lib hex 30078
          (canonical_json (obj (descriptor_content hex management attestation t)))
          (descriptor_tags attestation)
          t
          d
  unfolding create_service_descriptor
  created_descriptor nsec hex now management attestation_data attestation d t laws va created =
      let content = canonical_json (obj (descriptor_content hex management attestation t)) in
      subst (SignedAs lib hex 30078 content (descriptor_tags attestation) t)
        (ground (arith, laws.key, va, created))
        (laws.signs 30078 content (descriptor_tags attestation) t)

  -- A descriptor that the service creates from a valid attestation passes `verify_service_descriptor`
  -- with that attestation, where the key of the settings is the public key of the secret key, the
  -- descriptor can be encoded and is not more than fifteen minutes ahead of the clock, and `json.loads`
  -- reads its content back.
  pub create-verify_service_descriptor :
      (nsec hex npub : Text) (now : ℕ) (settings : Expected) (attestation_data : Json)
      (attestation d : StoredEvent) (t : ℤ)
      → SignsFor lib kit nsec hex
      → kit.public_key (strip settings.service_npub) ≡ some (hex, npub)
      → valid_event lib codec kit now attestation_document attestation_data ≡ ok attestation
      → create_service_descriptor lib codec kit now nsec attestation_data settings.management t
        ≡ ok d
      → is_encodable (payload d) ≡ true
      → t ≤ℤ pos (now + 900)
      → codec.loads d.content
        ≡ some (obj (descriptor_content hex settings.management attestation t))
      → verify_service_descriptor lib codec kit now settings (obj (to_dict d)) attestation_data
        ≡ ok d
  unfolding verify_service_descriptor normalize_public_key descriptor_content text_eq
  create-verify_service_descriptor nsec hex npub now settings attestation_data attestation d t laws
        key va created encodable time reads =
      let made =
        created_descriptor nsec hex now settings.management attestation_data attestation d t laws va
          created in
      rw
        (signed-valid_event lib codec kit nsec hex now 30078
          (canonical_json (obj (descriptor_content hex settings.management attestation t)))
          (descriptor_tags attestation) t descriptor_document d laws made encodable time)
        (rw va (
          rw
            (read_content lib codec kit descriptor_schema d
              (descriptor_content hex settings.management attestation t) made.has_content
              (subst
                (λ c.
                  codec.loads c
                  ≡ some (obj (descriptor_content hex settings.management attestation t)))
                made.has_content reads)
              refl refl)
            (rw key (
              rw
                (created-check_descriptor hex settings.management d attestation t made.has_kind
                  made.has_pubkey made.has_tags made.has_time)
                refl))))
