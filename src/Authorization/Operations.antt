-- ===== src/Authorization/Operations.antt =====
-- src/spurline/witness.py: the operations of `WitnessAuthorization`, each as one transaction.
use spurline.Prelude.{
  ℕ, suc, ◌+◌, Bool, true, false, ◌&&◌, ◌||◌, not, Option, none, some, List, [], ◌∷◌, ◌++◌, any,
  length, leb, ltb, if◌then◌else◌, Outcome, ok, err, ◌>>=◌, ◌>>◌, raise_if, or_raise,
}
use spurline.Prelude.Int.{ℤ, pos, ltb_ℤ, min_ℤ}
use spurline.Prelude.Text.{Text, codes, text_eq, text_in}
use spurline.Json.{Json, str, obj, Fields, end, field, int, value, lookup, as_dict}
use spurline.Json.Equal.{json_eq}
use spurline.Events.{Crypto, StoredEvent, to_dict}
use spurline.Receipts.{Codec, canonical_json}
use spurline.Commissioning.{
  Toolkit, revocation_document, valid_event, number, application_event_kind, request_ttl_seconds,
}
use spurline.Service.{Commissioned}
use spurline.Authorization.{
  WitnessError, WitnessSettings, Control, AuthorizationState, max_policy_bytes,
  max_validity_seconds, dict, lift, get, text_value, public_hex, load, write, append_entry,
  transaction, is_grant, document_field, event_id, event_time, not_integer, wrong_valid_for,
  policy_file, already_authorized, no_prior, clock_behind, none_pending, other_authorization, stale,
  predates_head, none_to_revoke, future_revocation, wrong_control, resume_refused, none_retained,
  key_error, value_error, no_grant,
}
use spurline.Authorization.Request.{
  sorted_set, Terms, Parties, request_body, renewal_fields, request_tags,
}
use spurline.Authorization.Grant.{Template, Status, check}
use spurline.Authorization.History.{
  is_reason, follows, is_behind, last_grant, last_entry, event_of_last, revokes,
  revocation_template, validate_history,
}
use spurline.Authorization.Views.{View, is_authorized, view}

-- the arguments of `request`, with what is read of the policy's file, up to one byte more than allowed
pub record RequestArguments : Type 0 where
  pub policy_bytes : List ℕ
  pub valid_for : Option ℤ
  pub kinds : List ℤ
  pub renew : Bool

abbrev is_empty : {A : Type 0} → List A → Bool
is_empty [] = true
is_empty (x ∷ xs) = false

-- `valid_for`, of 1 to MAX_VALIDITY_SECONDS seconds; none is a value that is no int
unfoldable pub checked_validity : Option ℤ → Outcome WitnessError ℕ
checked_validity none = err (not_integer (codes "valid-for"))
checked_validity (some (pos n)) =
    if ltb 0 n && leb n max_validity_seconds then ok n else err wrong_valid_for
checked_validity (some _) = err wrong_valid_for

-- `history and the table is not there`: the authorization of the row becomes the first row
abbrev pub materialize : List Fields → AuthorizationState → Outcome WitnessError AuthorizationState
materialize [] s = ok s
materialize (entry ∷ entries) s = elim s.history [
  | none ↦ append_entry [] entry s
  | some rows ↦ ok s
]

-- an entry whose authorization, or revocation, is the event
abbrev pub holds_event : Text → Json → Option Json → Bool
holds_event key event none = false
holds_event key event (some v) = json_eq v event

unfoldable pub is_recorded : Text → Json → List Fields → Bool
is_recorded key event history = any (λ entry. holds_event key event (lookup key entry)) history

-- `evidence["authorization"] = event`, of a dict without the key
abbrev pub with_authorization : Json → Fields → Fields
with_authorization event end = field (codes "authorization") event end
with_authorization event (field k v d) = field k v (with_authorization event d)

abbrev pub actions : List Text
actions = codes "suspend" ∷ codes "resume" ∷ []

-- the settings and the checks that a commissioning passes, as `_verify` gives them
module _ (lib : Crypto) (codec : Codec) (kit : Toolkit) (decode : List ℕ → Option Text)
    (settings : WitnessSettings) (commissioning : Outcome WitnessError Commissioned) (now : ℕ) where
  abbrev read_history' : Commissioned → AuthorizationState → Outcome WitnessError (List Fields)
  read_history' commissioned s = validate_history lib codec kit now settings commissioned s

  -- the terms, the renewal fields and the event of a request made at the time `now`
  abbrev pub new_terms : ℕ → List ℤ → Text → List ℕ → Bool → Terms
  new_terms valid_for kinds fresh bytes renew = record {
    version = if renew then pos 2 else pos 1;
    issued = pos now;
    expires = min_ℤ (pos (now + request_ttl_seconds)) (pos (now + valid_for));
    start = pos now;
    stop = pos (now + valid_for);
    kinds = sorted_set kinds;
    nonce = fresh;
    policy_sha256 = codec.sha256_bytes bytes;
  }

  unfoldable pub renewal_after : Bool → List Fields → Outcome WitnessError (List (Text × Json))
  renewal_after false history = ok []
  renewal_after true history = do
    head ← or_raise (event_of_last (last_entry history)) no_prior
    raise_if (ltb_ℤ (pos now) (event_time head)) clock_behind
    ok (renewal_fields (pos (suc (length history))) (event_id head))

  -- the guards on the history
  unfoldable pub check_renewal : Bool → List Fields → Outcome WitnessError (Unit {0})
  check_renewal renew history = do
    raise_if (not (is_empty history) && not renew) already_authorized
    raise_if (renew && is_empty history) no_prior

  abbrev pub signed_request : Parties → Terms → List (Text × Json) → StoredEvent
  signed_request p t renewal =
      kit.sign settings.service_nsec application_event_kind
        (canonical_json (obj (request_body p t renewal))) (request_tags p t.expires) (pos now)

  abbrev pub request_evidence : StoredEvent → Text → Fields
  request_evidence event policy =
      dict ((codes "request", obj (to_dict event)) ∷ (codes "policy", str policy) ∷ [])

  -- the parties of a new request: the service is the key that signs it
  unfoldable pub signing_parties : Commissioned → Outcome WitnessError Parties
  signing_parties commissioned = do
    operator_hex ← public_hex kit commissioned.verified.operator_npub
    service_hex ← or_raise (kit.secret_key settings.service_nsec) key_error
    ok (record {
      service_hex = service_hex;
      operator_hex = operator_hex;
      management = settings.service_management;
      attestation_id = commissioned.verified.attestation_id;
    })

  -- the signed request with its status and evidence, and the history that it comes after
  unfoldable pub prepare_request :
      RequestArguments
      → Text
      → AuthorizationState
      → Outcome WitnessError ((Status × StoredEvent) × Fields × List Fields)
  prepare_request arguments fresh s = do
    valid_for ← checked_validity arguments.valid_for
    raise_if
        (is_empty arguments.policy_bytes || ltb max_policy_bytes (length arguments.policy_bytes))
        policy_file
    policy ← or_raise (decode arguments.policy_bytes) value_error
    commissioned ← commissioning
    history ← read_history' commissioned s
    check_renewal arguments.renew history
    p ← signing_parties commissioned
    renewal ← renewal_after arguments.renew history
    let t : Terms = new_terms valid_for arguments.kinds fresh arguments.policy_bytes arguments.renew
    let event : StoredEvent = signed_request p t renewal
    status ← check lib codec kit now true settings commissioned (request_evidence event policy)
    ok ((status, event), request_evidence event policy, history)

  unfoldable pub new_request :
      RequestArguments
      → Text
      → AuthorizationState
      → Outcome WitnessError ((Status × StoredEvent) × AuthorizationState)
  new_request arguments fresh s = do
    (made, evidence, history) ← prepare_request arguments fresh s
    s' ← materialize history s
    ok (made, write evidence s')

  -- `request`; `fresh` is what `secrets.token_hex(32)` gives
  unfoldable pub request :
      RequestArguments
      → Text
      → AuthorizationState
      → Outcome WitnessError (Status × StoredEvent) × AuthorizationState
  request arguments fresh s = transaction s (new_request arguments fresh s)

  abbrev pub viewing :
      Commissioned → AuthorizationState → Outcome WitnessError (View × AuthorizationState)
  viewing commissioned s = do v ← view lib codec kit now settings commissioned s; ok (v, s)

  -- the number and the predecessor that the next entry has to have
  unfoldable pub check_next : Json → List Fields → Outcome WitnessError (Unit {0})
  check_next event history = do
    document ←
        or_raise (codec.loads (text_value (document_field (codes "content") event))) value_error
    body ← or_raise (as_dict document) key_error
    sequence ← get (codes "sequence") body
    previous ← get (codes "previous") body
    raise_if
        (not (
          json_eq sequence (number (pos (suc (length history))))
          && follows (event_of_last (last_entry history)) body))
        stale
    raise_if (is_behind (event_of_last (last_entry history)) (event_time event)) predates_head

  -- the state after a new answer to the pending request
  unfoldable pub accept_answer :
      Commissioned
      → Json
      → List Fields
      → Fields
      → AuthorizationState
      → Outcome WitnessError AuthorizationState
  accept_answer commissioned event history evidence s = do
    status ← check lib codec kit now true settings commissioned (with_authorization event evidence)
    check_next event history
    s' ← append_entry history (with_authorization event evidence) s
    ok (write (with_authorization event evidence) s')

  -- the evidence with another answer, with the same one, and without one
  unfoldable pub answer :
      Commissioned
      → Json
      → List Fields
      → Fields
      → AuthorizationState
      → Outcome WitnessError AuthorizationState
  answer commissioned event history end s = err none_pending
  answer commissioned event history (field k v d) s =
      elim (lookup (codes "authorization") (field k v d)) [
        | some present ↦ (do
          raise_if (not (json_eq present event)) other_authorization
          status ← check lib codec kit now false settings commissioned (field k v d)
          ok s)
        | none ↦ accept_answer commissioned event history (field k v d) s
      ]

  unfoldable pub new_authorization :
      Json → AuthorizationState → Outcome WitnessError (View × AuthorizationState)
  new_authorization event s = do
    commissioned ← commissioning
    history ← read_history' commissioned s
    if is_recorded (codes "authorization") event history then viewing commissioned s else (do
      evidence ← load codec s
      s' ← answer commissioned event history evidence s
      viewing commissioned s')

  -- `authorize`
  unfoldable pub authorize :
      Json → AuthorizationState → Outcome WitnessError View × AuthorizationState
  authorize event s = transaction s (new_authorization event s)

  -- `revocation_request`
  unfoldable pub revocation_request : Json → AuthorizationState → Outcome WitnessError Template
  revocation_request reason s = do
    commissioned ← commissioning
    history ← read_history' commissioned s
    raise_if (revokes (last_entry history)) none_to_revoke
    head ← or_raise (last_entry history) none_to_revoke
    revocation_template lib codec kit now settings commissioned head reason (int (pos now))

  -- the state after a new revocation
  unfoldable pub accept_revocation :
      Commissioned
      → Json
      → List Fields
      → AuthorizationState
      → Outcome WitnessError AuthorizationState
  accept_revocation commissioned event history s = do
    verified ← lift (valid_event lib codec kit now revocation_document event)
    raise_if (ltb_ℤ (pos now) (value verified.created_at)) future_revocation
    s' ← append_entry history (field (codes "revocation") event end) s
    history' ← read_history' commissioned s'
    latest ← or_raise (last_grant history) no_grant
    ok (write latest s')

  unfoldable pub new_revocation :
      Json → AuthorizationState → Outcome WitnessError (View × AuthorizationState)
  new_revocation event s = do
    commissioned ← commissioning
    history ← read_history' commissioned s
    if is_recorded (codes "revocation") event history
        then viewing commissioned s
        else (do s' ← accept_revocation commissioned event history s; viewing commissioned s')

  -- `revoke`
  unfoldable pub revoke : Json → AuthorizationState → Outcome WitnessError View × AuthorizationState
  revoke event s = transaction s (new_revocation event s)

  abbrev pub add_control : Text → Text → AuthorizationState → AuthorizationState
  add_control action reason s = record s {
    controls = s.controls ++ record { action = action; reason = reason; recorded_at = now } ∷ [];
  }

  unfoldable pub new_control :
      Text → Json → AuthorizationState → Outcome WitnessError (View × AuthorizationState)
  new_control action reason s = do
    raise_if (not (text_in action actions && is_reason reason)) wrong_control
    commissioned ← commissioning
    before ← view lib codec kit now settings commissioned s
    raise_if (text_eq action (codes "resume") && not (is_authorized before.authorization_state))
        resume_refused
    viewing commissioned (add_control action (text_value reason) s)

  -- `control`
  unfoldable pub control :
      Text → Json → AuthorizationState → Outcome WitnessError View × AuthorizationState
  control action reason s = transaction s (new_control action reason s)

  -- `show`, with whether the database's file is there; none is the report of no authorization
  abbrev has_nothing : Fields → List Control → Bool
  has_nothing end [] = true
  has_nothing _ _ = false

  abbrev some_view : Outcome WitnessError View → Outcome WitnessError (Option View)
  some_view (ok v) = ok (some v)
  some_view (err e) = err e

  unfoldable pub show : Bool → AuthorizationState → Outcome WitnessError (Option View)
  show false s = ok none
  show true s = do
    evidence ← load codec s
    if has_nothing evidence s.controls then ok none else (do
      commissioned ← commissioning
      some_view (view lib codec kit now settings commissioned s))

  -- `verify`
  unfoldable pub verify : Bool → AuthorizationState → Outcome WitnessError View
  verify exists s = do
    shown ← show exists s
    v ← or_raise shown none_retained
    raise_if (not (is_grant v.evidence)) none_retained
    ok v
