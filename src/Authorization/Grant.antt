-- ===== src/Authorization/Grant.antt =====
-- src/spurline/witness.py: the operator's answer to a request, and the status of evidence.
use spurline.Prelude.{
  ℕ, ◌+◌, Bool, ◌&&◌, ◌||◌, not, Option, none, some, List, [], ◌∷◌, ◌++◌, if◌then◌else◌, Outcome,
  ok, ◌>>=◌, ◌>>◌, raise_if,
}
use spurline.Prelude.Int.{ℤ, pos, ltb_ℤ, leb_ℤ, eq_ℤ, max_ℤ}
use spurline.Prelude.Text.{Text, codes}
use spurline.Json.{Json, num, str, obj, Fields, Number, int, value, lookup}
use spurline.Events.{Crypto, StoredEvent}
use spurline.Receipts.{Codec, canonical_json, is_number, has_exactly}
use spurline.Commissioning.{
  Toolkit, witness_authorization, valid_event, number, equal_at, addressable_event_kind,
  max_clock_skew_seconds,
}
use spurline.Commissioning.Attestation.{same_content, service_tag}
use spurline.Service.{Commissioned}
use spurline.Authorization.{
  WitnessError, WitnessSettings, authorization_schema, role, dict, lift, get, or_null, text_value,
  require_tags, witness_content, document_field, wrong_signer, outside_window, dated_ahead,
  wrong_authorization, incomplete,
}
use spurline.Authorization.Request.{Terms, attestation_id_tag, role_tag, is_later, verify_request}

abbrev pub or_default : Option Json → Json → Json
or_default none v = v
or_default (some w) v = w

-- the content of an answer with the time `issued`: that of the template, whose `issued_at` is replaced
unfoldable pub authorization_body : StoredEvent → Fields → Json → Outcome WitnessError Fields
authorization_body request content issued = do
  version ← get (codes "schema_version") content
  service ← get (codes "service") content
  operator ← get (codes "requested_operator") content
  management ← get (codes "management") content
  attestation ← get (codes "commissioning_attestation") content
  start ← get (codes "not_before") content
  stop ← get (codes "not_after") content
  kinds ← get (codes "subject_kinds") content
  policy ← get (codes "policy_sha256") content
  ok (
      dict (
        (codes "schema", str authorization_schema)
        ∷ (codes "schema_version", version)
        ∷ (codes "action", or_default (lookup (codes "action") content) (str (codes "authorize")))
        ∷ (codes "role", str role)
        ∷ (codes "service", service)
        ∷ (codes "operator", operator)
        ∷ (codes "management", management)
        ∷ (codes "commissioning_attestation", attestation)
        ∷ (codes "request_event_id", str request.id)
        ∷ (codes "issued_at", issued)
        ∷ (codes "not_before", start)
        ∷ (codes "not_after", stop)
        ∷ (codes "subject_kinds", kinds)
        ∷ (codes "policy_sha256", policy)
        ∷ (codes "sequence", or_default (lookup (codes "sequence") content) (number (pos 1)))
        ∷ (codes "previous", or_null (lookup (codes "previous") content))
        ∷ []))

abbrev renewed_tag : Json → Text → Text
renewed_tag version id = if is_number 2 version then b':' ∷ id else []

-- its tags. The content is that of a verified request, so what stands in a tag is a text.
unfoldable pub authorization_tags : StoredEvent → Fields → Outcome WitnessError (List (List Text))
authorization_tags request content = do
  version ← get (codes "schema_version") content
  service ← get (codes "service") content
  attestation ← get (codes "commissioning_attestation") content
  let pubkey : Text = text_value (document_field (codes "pubkey") service)
  ok (
      (codes "d" ∷ (authorization_schema ++ b':' ∷ (pubkey ++ renewed_tag version request.id)) ∷ [])
      ∷ service_tag pubkey
      ∷ (codes "e" ∷ request.id ∷ [] ∷ codes "authorization-request" ∷ [])
      ∷ attestation_id_tag (text_value attestation)
      ∷ role_tag
      ∷ [])

-- an event that is still to be signed
pub record Template : Type 0 where
  pub kind : ℕ
  pub pubkey : Text
  pub created_at : Number
  pub content : Text
  pub tags : List (List Text)

-- `authorization_template` at the time `now`, for a request with this content
unfoldable pub authorization_template : ℕ → StoredEvent → Fields → Outcome WitnessError Template
authorization_template now request content = do
  body ← authorization_body request content (number (pos now))
  tags ← authorization_tags request content
  operator ← get (codes "requested_operator") content
  ok (record {
    kind = addressable_event_kind;
    pubkey = text_value operator;
    created_at = int (pos now);
    content = canonical_json (obj body);
    tags = tags;
  })

-- the states of an authorization, and of the view
pub data GrantState : Type 0 where
  pending request_expired not_yet_valid expired authorized : GrantState
  not_authorized revoked suspended : GrantState

-- what `_check` reports
pub record Status : Type 0 where
  pub state : GrantState
  pub operator_npub : Text
  pub authorization_event_id : Option Text
  pub request_event_id : Text
  pub terms : Terms

abbrev pub grant_state : ℕ → Terms → ℤ → GrantState
grant_state now t signed_at =
    if ltb_ℤ (pos now) (max_ℤ t.start signed_at)
    then not_yet_valid
    else if leb_ℤ t.stop (pos now)
    then expired
    else authorized

abbrev pub pending_state : ℕ → Terms → GrantState
pending_state now t = if ltb_ℤ (pos now) t.expires then pending else request_expired

abbrev pub evidence_keys : List Text
evidence_keys = codes "request" ∷ codes "policy" ∷ []

module _ (lib : Crypto) (codec : Codec) (kit : Toolkit) where
  -- the checks of `_verify_authorization` on the loaded event and its content
  unfoldable pub check_authorization :
      ℕ → StoredEvent → Fields → Terms → StoredEvent → Fields → Outcome WitnessError (Unit {0})
  check_authorization now request content t event body = do
    raise_if
        (not (
          eq_ℤ (value event.kind) (pos addressable_event_kind)
          && equal_at (codes "requested_operator") (str event.pubkey) content))
        wrong_signer
    raise_if
        (not (
          leb_ℤ (value request.created_at) (value event.created_at)
          && ltb_ℤ (value event.created_at) t.expires))
        outside_window
    raise_if (is_later (value event.created_at) (now + max_clock_skew_seconds)) dated_ahead
    expected ← authorization_body request content (num event.created_at)
    raise_if (not (same_content body expected)) wrong_authorization
    tags ← authorization_tags request content
    require_tags tags event

  -- `_verify_authorization` at the time `now`
  unfoldable pub verify_authorization :
      ℕ → StoredEvent → Fields → Terms → Json → Outcome WitnessError StoredEvent
  verify_authorization now request content t document = do
    event ← lift (valid_event lib codec kit now witness_authorization document)
    body ← witness_content codec authorization_schema event
    check_authorization now request content t event body
    ok event

  -- the status of a request without and with an answer
  abbrev pub report : GrantState → Option Text → Commissioned → StoredEvent → Terms → Status
  report state id commissioned request t = record {
    state = state;
    operator_npub = commissioned.verified.operator_npub;
    authorization_event_id = id;
    request_event_id = request.id;
    terms = t;
  }

  unfoldable pub answered :
      ℕ → Commissioned → StoredEvent → Fields → Terms → Option Json → Outcome WitnessError Status
  answered now commissioned request content t none =
      ok (report (pending_state now t) none commissioned request t)
  answered now commissioned request content t (some document) = do
    event ← verify_authorization now request content t document
    ok (report (grant_state now t (value event.created_at)) (some event.id) commissioned request t)

  -- `_check` at the time `now`
  unfoldable pub check :
      ℕ → Bool → WitnessSettings → Commissioned → Fields → Outcome WitnessError Status
  check now current settings commissioned evidence = do
    raise_if
        (not (
          has_exactly evidence_keys evidence
          || has_exactly (codes "authorization" ∷ evidence_keys) evidence))
        incomplete
    document ← get (codes "request") evidence
    policy ← get (codes "policy") evidence
    (request, content, t) ←
        verify_request lib codec kit now current settings commissioned document policy
    answered now commissioned request content t (lookup (codes "authorization") evidence)
