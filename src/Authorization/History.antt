-- ===== src/Authorization/History.antt =====
-- src/spurline/witness.py: the chain of authorizations and revocations.
use spurline.Prelude.{
  ℕ, zero, suc, Bool, false, ◌&&◌, not, Option, none, some, List, [], ◌∷◌, ◌++◌, length, leb, ◌==◌,
  if◌then◌else◌, Outcome, ok, ◌>>=◌, ◌>>◌, raise_if, or_raise,
}
use spurline.Prelude.Int.{ℤ, pos, negsuc, ltb_ℤ, eq_ℤ}
use spurline.Prelude.Text.{Text, codes, text_eq}
use spurline.Json.{Json, null, num, str, obj, Fields, Number, value, lookup, as_dict, as_str}
use spurline.Json.Equal.{json_eq}
use spurline.Events.{Crypto, StoredEvent}
use spurline.Receipts.{Codec, canonical_json, has_exactly, tags_eq}
use spurline.Commissioning.{
  Toolkit, witness_event, valid_event, number, exact_int, addressable_event_kind, strip,
}
use spurline.Commissioning.Attestation.{service_tag}
use spurline.Service.{Commissioned}
use spurline.Authorization.{
  WitnessError, WitnessSettings, AuthorizationState, authorization_schema, role, dict, lift, get,
  or_null, text_value, witness_content, load, read_history, event_of, is_grant, is_revocation,
  document_field, event_id, event_time, gap, moved_backwards, wrong_action, wrong_revocation,
  already_revoked, revocation_mismatch, history_differs, wrong_reason, key_error, value_error,
  no_grant,
}
use spurline.Authorization.Request.{Parties, service_dict, attestation_id_tag, role_tag, parties}
use spurline.Authorization.Grant.{Template, check}

-- a reason of 1 to 512 characters
abbrev is_reason_text : Option Text → Bool
is_reason_text none = false
is_reason_text (some s) = leb 1 (length (strip s)) && leb (length (strip s)) 512

unfoldable pub is_reason : Json → Bool
is_reason reason = is_reason_text (as_str reason)

abbrev pub successor : ℤ → ℤ
successor (pos n) = pos (suc n)
successor (negsuc zero) = pos 0
successor (negsuc (suc n)) = negsuc n

abbrev pub previous_tag : Text → List Text
previous_tag id = codes "e" ∷ id ∷ [] ∷ codes "previous-authorization" ∷ []

unfoldable pub revocation_tags : Parties → Text → List (List Text)
revocation_tags p previous =
    (codes "d"
      ∷ (authorization_schema ++ b':' ∷ (p.service_hex ++ codes ":revoke:" ++ previous))
      ∷ [])
    ∷ service_tag p.service_hex
    ∷ previous_tag previous
    ∷ attestation_id_tag p.attestation_id
    ∷ role_tag
    ∷ []

unfoldable pub revocation_body : Parties → Number → Json → ℤ → Text → Fields
revocation_body p issued reason sequence previous = dict (
    (codes "schema", str authorization_schema)
    ∷ (codes "schema_version", number (pos 2))
    ∷ (codes "action", str (codes "revoke"))
    ∷ (codes "role", str role)
    ∷ (codes "service", service_dict p.service_hex)
    ∷ (codes "operator", str p.operator_hex)
    ∷ (codes "management", str p.management)
    ∷ (codes "commissioning_attestation", str p.attestation_id)
    ∷ (codes "issued_at", num issued)
    ∷ (codes "effective_at", num issued)
    ∷ (codes "reason", reason)
    ∷ (codes "sequence", number sequence)
    ∷ (codes "previous", str previous)
    ∷ [])

-- `body.get("previous") != (previous["id"] if previous else None)`, negated
abbrev pub follows : Option Json → Fields → Bool
follows none body = json_eq (or_null (lookup (codes "previous") body)) null
follows (some previous) body =
    json_eq (or_null (lookup (codes "previous") body)) (str (event_id previous))

-- `event.created_at < previous["created_at"]`
abbrev pub is_behind : Option Json → ℤ → Bool
is_behind none time = false
is_behind (some previous) time = ltb_ℤ time (event_time previous)

abbrev pub action_at : ℕ → Text
action_at n = if n == 1 then codes "authorize" else codes "renew"

-- the last entry with an authorization
unfoldable pub last_grant : List Fields → Option Fields
last_grant [] = none
last_grant (entry ∷ entries) = elim (last_grant entries) [
  | some grant ↦ some grant
  | none ↦ if is_grant entry then some entry else none
]

unfoldable pub last_entry : List Fields → Option Fields
last_entry [] = none
last_entry (entry ∷ entries) = elim (last_entry entries) [
  | some last ↦ some last
  | none ↦ some entry
]

abbrev pub event_of_last : Option Fields → Option Json
event_of_last none = none
event_of_last (some entry) = some (event_of entry)

abbrev pub revokes : Option Fields → Bool
revokes none = false
revokes (some entry) = is_revocation entry

module _ (lib : Crypto) (codec : Codec) (kit : Toolkit) (now : ℕ) (settings : WitnessSettings)
    (commissioned : Commissioned) where
  -- `_revocation_template`, with the time `issued`
  unfoldable pub revocation_template : Fields → Json → Number → Outcome WitnessError Template
  revocation_template head reason issued = do
    raise_if (not (is_reason reason)) wrong_reason
    document ←
        or_raise (codec.loads (text_value (document_field (codes "content") (event_of head))))
          value_error
    previous_body ← or_raise (as_dict document) key_error
    p ← parties lib codec kit settings commissioned
    sequence ← or_raise (exact_int (lookup (codes "sequence") previous_body)) key_error
    ok (record {
      kind = addressable_event_kind;
      pubkey = p.operator_hex;
      created_at = issued;
      content =
          canonical_json
            (obj (revocation_body p issued reason (successor sequence) (event_id (event_of head))));
      tags = revocation_tags p (event_id (event_of head));
    })

  abbrev pub fits : StoredEvent → Template → Bool
  fits event t =
      eq_ℤ (value event.kind) (pos t.kind)
      && (text_eq event.pubkey t.pubkey
          && (text_eq event.content t.content && tags_eq event.tags t.tags))

  -- an entry with an authorization, and one with a revocation
  unfoldable pub validate_grant : ℕ → Fields → Fields → Outcome WitnessError (Unit {0})
  validate_grant index entry body = do
    status ← check lib codec kit now false settings commissioned entry
    action ← get (codes "action") body
    raise_if (not (json_eq action (str (action_at index)))) wrong_action

  unfoldable pub validate_revocation :
      Option Fields → Fields → Fields → StoredEvent → Outcome WitnessError (Unit {0})
  validate_revocation before entry body event = do
    raise_if (not (has_exactly (codes "revocation" ∷ []) entry)) wrong_revocation
    head ← or_raise before wrong_revocation
    raise_if (is_revocation head) already_revoked
    t ← revocation_template head (or_null (lookup (codes "reason") body)) event.created_at
    raise_if (not (fits event t)) revocation_mismatch

  -- an entry after the entry `before`
  unfoldable pub validate_entry : ℕ → Option Fields → Fields → Outcome WitnessError (Unit {0})
  validate_entry index before entry = do
    event ← lift (valid_event lib codec kit now witness_event (event_of entry))
    body ← witness_content codec authorization_schema event
    sequence ← or_raise (exact_int (lookup (codes "sequence") body)) gap
    raise_if (not (eq_ℤ sequence (pos index) && follows (event_of_last before) body)) gap
    raise_if (is_behind (event_of_last before) (value event.created_at)) moved_backwards
    if is_grant entry
        then validate_grant index entry body
        else validate_revocation before entry body event

  unfoldable pub validate_entries :
      ℕ → Option Fields → List Fields → Outcome WitnessError (Unit {0})
  validate_entries index before [] = ok tt
  validate_entries index before (entry ∷ entries) = do
    validate_entry index before entry
    validate_entries (suc index) (some entry) entries

  -- the row has the last authorization, or a pending request
  abbrev pub check_current : Fields → List Fields → Outcome WitnessError (Unit {0})
  check_current current [] = ok tt
  check_current current (entry ∷ entries) =
      if is_grant current
      then (do
        grant ← or_raise (last_grant (entry ∷ entries)) no_grant
        raise_if (not (json_eq (obj current) (obj grant))) history_differs)
      else ok tt

  -- `_validate_history`
  unfoldable pub validate_history : AuthorizationState → Outcome WitnessError (List Fields)
  validate_history s = do
    history ← read_history codec s
    validate_entries 1 none history
    current ← load codec s
    check_current current history
    ok history
