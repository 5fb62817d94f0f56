-- ===== src/Commissioning/Bound.antt =====
-- src/spurline/commissioning.py: what a verified attestation shows.
use spurline.Prelude.{
  ℕ, ◌+◌, Bool, true, ◌≡◌, refl, ap, sym, ◌∙◌, some, arith, Outcome, ok, err, returns, holds_some,
  List,
}
use spurline.Prelude.Int.{ℤ, pos, ◌≤ℤ◌, pos_part, neg_part}
use spurline.Prelude.Text.{Text, codes, text_eq_iff}
use spurline.Json.{Json, obj, Fields, value, lookup}
use spurline.Events.{Crypto, StoredEvent, Raised, validate_event}
use spurline.Receipts.{Codec, canonical_json}
use spurline.Commissioning.{
  Loaded, Toolkit, Document, request_schema, attestation_schema, exact_int, strip, has_tag,
  normalize_public_key, python_str, text_or_empty, if_valid, valid_event, content_of, loaded,
  failed, unsigned, attestation_document, request_document,
}
use spurline.Commissioning.Request.{
  request_content, operator_tag, expiration_tag, check_header, check_expiry, check_service,
  check_tags, Expected, check_request, verify_commissioning_request,
}
use spurline.Commissioning.Attestation.{
  VerifiedCommissioning, attestation_content, service_tag, request_tag, check_attestation_header,
  check_attestation_tags, check_attestation, verify_operator_attestation,
}

abbrev pub HasTag : List Text → StoredEvent → Type 0
HasTag tag event = has_tag tag event ≡ true

module _ (lib : Crypto) (codec : Codec) (kit : Toolkit) where
  -- a document that is valid and loads as an event
  pub record IsLoaded (now : ℕ) (document : Json) (event : StoredEvent) : Type 0 where
    pub validated : StoredEvent
    pub is_valid : validate_event lib now true document ≡ ok validated
    pub is_loaded : kit.load_event document ≡ loaded event

  if_valid-ok :
      {A : Type 0} (label : Document) (o : Outcome Raised A) (l : Loaded) (event : StoredEvent)
      → if_valid lib codec kit label o l ≡ ok event
      → (a : A) × (o ≡ ok a) × (l ≡ loaded event)
  if_valid-ok label (err e) l event h = absurd (ground (arith, h))
  if_valid-ok label (ok a) unsigned event h = absurd (ground (arith, h))
  if_valid-ok label (ok a) failed event h = absurd (ground (arith, h))
  if_valid-ok label (ok a) (loaded e) event h = (a, refl, ground (arith, h))

  pub valid_event-IsLoaded :
      (now : ℕ) (label : Document) (document : Json) (event : StoredEvent)
      → valid_event lib codec kit now label document ≡ ok event
      → IsLoaded now document event
  unfolding valid_event
  valid_event-IsLoaded now label document event h =
      let (a, v, l) =
        if_valid-ok label (validate_event lib now true document) (kit.load_event document) event
          h in
      record { validated = a; is_valid = v; is_loaded = l }

  -- the content of an event is canonical
  pub content_of-canonical :
      (schema : Text) (event : StoredEvent) (content : Fields)
      → content_of lib codec kit schema event ≡ ok content
      → canonical_json (obj content) ≡ event.content
  unfolding content_of
  content_of-canonical schema event content h =
      ground (arith, text_eq_iff (canonical_json (obj content)) event.content)

  -- the checks of the times and signers
  check_header-ok :
      (now : ℕ) (service_hex : Text) (event : StoredEvent) (content : Fields)
      → check_header now service_hex event content ≡ ok tt
      → (value event.kind ≡ pos 78)
        × (event.pubkey ≡ service_hex)
        × (value event.created_at ≤ℤ pos (now + 300))
  unfolding check_header
  check_header-ok now service_hex event content h =
      ground (arith, text_eq_iff event.pubkey service_hex)

  check_attestation_header-ok :
      (now : ℕ) (operator_hex : Text) (request : StoredEvent) (expires_at : ℤ)
      (attestation : StoredEvent)
      → check_attestation_header now operator_hex request expires_at attestation ≡ ok tt
      → (attestation.pubkey ≡ operator_hex)
        × (value request.created_at ≤ℤ value attestation.created_at)
        × (value attestation.created_at ≤ℤ expires_at)
        × (value attestation.created_at ≤ℤ pos (now + 300))
  unfolding check_attestation_header
  check_attestation_header-ok now operator_hex request expires_at attestation h =
      ground (arith, text_eq_iff attestation.pubkey operator_hex)

  -- the attestation's kind, signer, times, content and tags, against a request
  pub record Attests (settings : Expected) (now : ℕ) (request : StoredEvent)
      (attestation : StoredEvent) (service_hex operator_hex : Text) (expires_at : ℤ) : Type 0 where
    pub kind : value attestation.kind ≡ pos 30078
    pub signer : attestation.pubkey ≡ operator_hex
    pub after_request : value request.created_at ≤ℤ value attestation.created_at
    pub before_expiry : value attestation.created_at ≤ℤ expires_at
    pub not_ahead : value attestation.created_at ≤ℤ pos (now + 300)
    pub content :
        attestation.content
        ≡ canonical_json (
            obj (
              attestation_content service_hex operator_hex settings.management request.id
                attestation.created_at))
    pub names_service : HasTag (service_tag service_hex) attestation
    pub names_request : HasTag (request_tag request.id) attestation

  check_attestation-ok :
      (settings : Expected) (now : ℕ) (request : StoredEvent) (request_content : Fields)
      (attestation : StoredEvent) (content : Fields) (operator_npub : Text) (requested : Json)
      (expires_at : ℤ) (service operator : Text × Text)
      → lookup (codes "requested_operator") request_content ≡ some requested
      → exact_int (lookup (codes "expires_at") request_content) ≡ some expires_at
      → kit.public_key (strip settings.service_npub) ≡ some service
      → kit.public_key (python_str kit requested) ≡ some operator
      → canonical_json (obj content) ≡ attestation.content
      → check_attestation lib codec kit settings now request request_content attestation content
        ≡ ok operator_npub
      → Attests settings now request attestation service.0 (python_str kit requested) expires_at
  unfolding check_attestation normalize_public_key check_attestation_header check_attestation_tags
  check_attestation-ok settings now request request_content attestation content operator_npub
        requested expires_at service operator hr hx hs ho hc h =
      record {
        kind = ground arith;
        signer = ground (arith, text_eq_iff attestation.pubkey (python_str kit requested));
        after_request = ground arith;
        before_expiry = ground arith;
        not_ahead = ground arith;
        content = ground (
          arith,
          text_eq_iff (canonical_json (obj content)) (
              canonical_json (
                obj (
                  attestation_content service.0 (python_str kit requested) settings.management
                    request.id attestation.created_at))),
        );
        names_service = ground arith;
        names_request = ground arith;
      }

  check_attestation-reads :
      (settings : Expected) (now : ℕ) (request : StoredEvent) (request_content : Fields)
      (attestation : StoredEvent) (content : Fields) (operator_npub : Text) (service : Text × Text)
      (expires_at : ℤ)
      → kit.public_key (strip settings.service_npub) ≡ some service
      → exact_int (lookup (codes "expires_at") request_content) ≡ some expires_at
      → check_attestation lib codec kit settings now request request_content attestation content
        ≡ ok operator_npub
      → (requested : Json) × (lookup (codes "requested_operator") request_content ≡ some requested)
        × (hex : Text) × (kit.public_key (python_str kit requested) ≡ some (hex, operator_npub))
  unfolding check_attestation normalize_public_key
  check_attestation-reads settings now request request_content attestation content operator_npub
        service expires_at hs hx h =
      let (requested, hq) =
        holds_some (lookup (codes "requested_operator") request_content)
          (λ k. ground (arith, h, k)) in
      let (operator, ho) =
        holds_some (kit.public_key (python_str kit requested))
          (λ k. ground (arith, h, hq, hx, hs, k)) in
      (requested, hq, operator.0, ground (arith, h, hq, hx, hs, ho))

  -- the loaded request
  pub record Requests (settings : Expected) (now : ℕ) (request : StoredEvent) (service_hex : Text)
      (operator_hex : Text) (expires_at : ℤ) : Type 0 where
    pub kind : value request.kind ≡ pos 78
    pub signer : request.pubkey ≡ service_hex
    pub not_ahead : value request.created_at ≤ℤ pos (now + 300)
    pub period :
        pos_part expires_at + neg_part (value request.created_at)
        ≡ 86400 + pos_part (value request.created_at) + neg_part expires_at
    pub names_operator : HasTag (operator_tag operator_hex) request
    pub names_expiry : HasTag (expiration_tag expires_at) request

  check_request-ok :
      (settings : Expected) (now : ℕ) (require_current : Bool) (service_hex : Text)
      (request : StoredEvent) (content : Fields) (expires_at : ℤ) (operator : Text × Text)
      → exact_int (lookup (codes "expires_at") content) ≡ some expires_at
      → kit.public_key (strip (text_or_empty kit (lookup (codes "requested_operator") content)))
        ≡ some operator
      → check_request lib codec kit settings now require_current service_hex request content ≡ ok tt
      → Requests settings now request service_hex operator.0 expires_at
  unfolding check_request normalize_public_key check_header check_expiry check_service check_tags
  check_request-ok settings now require_current service_hex request content expires_at operator hx
        ho h =
      record {
        kind = ground arith;
        signer = ground (arith, text_eq_iff request.pubkey service_hex);
        not_ahead = ground arith;
        period = ground arith;
        names_operator = ground arith;
        names_expiry = ground arith;
      }

  -- The two documents are valid and load as the request and the attestation, which are about the same
  -- service, operator and period of validity. The operator is the one that the content of the request
  -- names: the attestation is signed by that text, and the request's "p" tag has the key that it
  -- stands for.
  pub record Binds (settings : Expected) (now : ℕ) (request_data attestation_data : Json)
      (v : VerifiedCommissioning) : Type 0 where
    pub service : Text × Text
    pub request_fields : Fields
    pub requested : Json
    pub tagged : Text × Text
    pub expires_at : ℤ
    pub request_content : content_of lib codec kit request_schema v.request ≡ ok request_fields
    pub names_requested : lookup (codes "requested_operator") request_fields ≡ some requested
    pub names_expires_at : exact_int (lookup (codes "expires_at") request_fields) ≡ some expires_at
    pub tagged_key : kit.public_key (strip (text_or_empty kit (some requested))) ≡ some tagged
    pub service_key : kit.public_key (strip settings.service_npub) ≡ some service
    pub request_loaded : IsLoaded now request_data v.request
    pub attestation_loaded : IsLoaded now attestation_data v.attestation
    pub requests : Requests settings now v.request service.0 tagged.0 expires_at
    pub attests :
        Attests settings now v.request v.attestation service.0 (python_str kit requested) expires_at
    pub operator_key :
        (hex : Text) × (kit.public_key (python_str kit requested) ≡ some (hex, v.operator_npub))

  verify_commissioning_request-ok :
      (settings : Expected) (now : ℕ) (require_current : Bool) (document : Json)
      (r : StoredEvent × Fields)
      → verify_commissioning_request lib codec kit settings now require_current document ≡ ok r
      → (service : Text × Text) × (kit.public_key (strip settings.service_npub) ≡ some service)
        × (valid_event lib codec kit now request_document document ≡ ok r.0)
        × (content_of lib codec kit request_schema r.0 ≡ ok r.1)
        × (check_request lib codec kit settings now require_current service.0 r.0 r.1 ≡ ok tt)
  unfolding verify_commissioning_request normalize_public_key
  verify_commissioning_request-ok settings now require_current document r h =
      let (event, he) =
        returns (valid_event lib codec kit now request_document document)
          (λ e k. ground (arith, h, k)) in
      let (service, hs) =
        holds_some (kit.public_key (strip settings.service_npub)) (λ k. ground (arith, h, k)) in
      let (content, hc) =
        returns (content_of lib codec kit request_schema event) (λ e k. ground (arith, h, he, k)) in
      (
        service,
        hs,
        ground (arith, h, he, hc, hs),
        ground (arith, h, he, hc, hs),
        ground (arith, h, he, hc, hs),
      )

  -- the parts of a verified attestation: the contents of the two events
  record Parts (settings : Expected) (now : ℕ) (require_current : Bool)
      (request_data attestation_data : Json) (v : VerifiedCommissioning) : Type 0 where
    request_fields : Fields
    content : Fields
    requested :
        verify_commissioning_request lib codec kit settings now require_current request_data
        ≡ ok (v.request, request_fields)
    attested :
        valid_event lib codec kit now attestation_document attestation_data ≡ ok v.attestation
    canonical : content_of lib codec kit attestation_schema v.attestation ≡ ok content
    checked :
        check_attestation lib codec kit settings now v.request request_fields v.attestation content
        ≡ ok v.operator_npub

  verify_operator_attestation-Parts :
      (settings : Expected) (now : ℕ) (require_current : Bool)
      (request_data attestation_data : Json) (v : VerifiedCommissioning)
      → verify_operator_attestation lib codec kit settings now require_current request_data
          attestation_data
        ≡ ok v
      → Parts settings now require_current request_data attestation_data v
  unfolding verify_operator_attestation
  verify_operator_attestation-Parts settings now require_current request_data attestation_data v h =
      let (r, hr) =
        returns
          (verify_commissioning_request lib codec kit settings now require_current request_data)
          (λ e k. ground (arith, h, k)) in
      let (a, ha) =
        returns (valid_event lib codec kit now attestation_document attestation_data)
          (λ e k. ground (arith, h, hr, k)) in
      let (c, hc) =
        returns (content_of lib codec kit attestation_schema a)
          (λ e k. ground (arith, h, hr, ha, k)) in
      record {
        request_fields = r.1;
        content = c;
        requested = ground (arith, h, hr, ha, hc);
        attested = ground (arith, h, hr, ha, hc);
        canonical = ground (arith, h, hr, ha, hc);
        checked = ground (arith, h, hr, ha, hc);
      }

  -- An attestation that verifies binds the operator to the service and to the request: both documents
  -- are valid and loaded events; the request is signed by the service's key, names the operator in its
  -- content and, as a key, in its "p" tag, and ends a day after its creation; the attestation is signed
  -- by the operator that the request's content names, is dated in that day and not more than five
  -- minutes ahead of the clock, has the content that names this service, this request and the management
  -- mode, and has the tags of the service and the request.
  pub verify_operator_attestation-Binds :
      (settings : Expected) (now : ℕ) (require_current : Bool)
      (request_data attestation_data : Json) (v : VerifiedCommissioning)
      → verify_operator_attestation lib codec kit settings now require_current request_data
          attestation_data
        ≡ ok v
      → Binds settings now request_data attestation_data v
  unfolding check_request check_attestation normalize_public_key
  verify_operator_attestation-Binds settings now require_current request_data attestation_data v h =
      let p =
        verify_operator_attestation-Parts settings now require_current request_data attestation_data
          v h in
      let (service, hs, hv, hc, hr) =
        verify_commissioning_request-ok settings now require_current request_data
          (v.request, p.request_fields) p.requested in
      let (expires_at, hx) =
        holds_some (exact_int (lookup (codes "expires_at") p.request_fields))
          (λ k. ground (arith, hr, k)) in
      let (tagged, ht) =
        holds_some
          (kit.public_key
            (strip (text_or_empty kit (lookup (codes "requested_operator") p.request_fields))))
          (λ k. ground (arith, hr, hx, k)) in
      let (requested, hq, hex, ho) =
        check_attestation-reads settings now v.request p.request_fields v.attestation p.content
          v.operator_npub service expires_at hs hx p.checked in
      record {
        service = service;
        request_fields = p.request_fields;
        requested = requested;
        tagged = tagged;
        expires_at = expires_at;
        request_content = hc;
        names_requested = hq;
        names_expires_at = hx;
        tagged_key = ap (λ o. kit.public_key (strip (text_or_empty kit o))) (sym hq) ∙ ht;
        service_key = hs;
        request_loaded = valid_event-IsLoaded now request_document request_data v.request hv;
        attestation_loaded =
            valid_event-IsLoaded now attestation_document attestation_data v.attestation p.attested;
        requests =
            check_request-ok settings now require_current service.0 v.request p.request_fields
              expires_at tagged hx ht hr;
        attests =
            check_attestation-ok settings now v.request p.request_fields v.attestation p.content
              v.operator_npub requested expires_at service (hex, v.operator_npub) hq hx hs ho
              (content_of-canonical attestation_schema v.attestation p.content p.canonical)
              p.checked;
        operator_key = (hex, ho);
      }
