-- ===== src/Authorization/Views.antt =====
-- src/spurline/witness.py: the view of the authorization and the local controls.
use spurline.Prelude.{
  ℕ, Bool, true, false, ◌&&◌, not, Option, none, some, List, [], ◌∷◌, length, if◌then◌else◌,
  Outcome, ok, ◌>>=◌,
}
use spurline.Prelude.Text.{Text, codes, text_eq}
use spurline.Json.{Json, Fields, end, field}
use spurline.Events.{Crypto}
use spurline.Receipts.{Codec}
use spurline.Commissioning.{Toolkit}
use spurline.Service.{Commissioned}
use spurline.Authorization.{
  WitnessError, WitnessSettings, Control, AuthorizationState, load, is_grant, event_id,
}
use spurline.Authorization.Grant.{
  GrantState, Status, check, authorized, not_authorized, revoked, suspended,
}
use spurline.Authorization.History.{
  last_grant, last_entry, event_of_last, revokes, validate_history,
}

pub record View : Type 0 where
  -- the report of `_check`, where there is an authorization or a request
  pub status : Option Status
  pub state : GrantState
  pub authorization_state : GrantState
  pub receipt_issuance_enabled : Bool
  pub locally_suspended : Bool
  pub witnessing_permitted : Bool
  pub head_event_id : Option Text
  pub sequence : ℕ
  pub evidence : Fields
  pub history : List Fields
  pub pending : Option Fields
  pub pending_status : Option Status
  pub local_controls : List Control

-- `controls[-1]["action"] == "suspend"`, of a list that may be empty
unfoldable pub is_suspended : List Control → Bool
is_suspended [] = false
is_suspended (control ∷ []) = text_eq control.action (codes "suspend")
is_suspended (control ∷ c ∷ controls) = is_suspended (c ∷ controls)

abbrev pub is_authorized : GrantState → Bool
is_authorized authorized = true
is_authorized _ = false

-- the evidence of the row, if it is a request without an answer
abbrev pub pending_of : Fields → Option Fields
pending_of end = none
pending_of (field k v d) = if is_grant (field k v d) then none else some (field k v d)

abbrev pub or_else : {A : Type 0} → Option A → Option A → Option A
or_else none b = b
or_else (some a) b = some a

abbrev pub evidence_of : Option Fields → Fields
evidence_of none = end
evidence_of (some evidence) = evidence

abbrev id_of : Option Json → Option Text
id_of none = none
id_of (some event) = some (event_id event)

-- the state of the authorization before the local controls
abbrev pub reported : Option Status → GrantState
reported none = not_authorized
reported (some status) = status.state

abbrev pub authorization_state : Option Status → List Fields → GrantState
authorization_state status history =
    if revokes (last_entry history) then revoked else reported status

abbrev pub shown_state : GrantState → List Control → GrantState
shown_state state controls = if is_suspended controls then suspended else state

-- The dict of the pending request is the one that is reported where there is no authorization, so the
-- state that the view writes into it shows there too.
abbrev pub shared : Option Fields → GrantState → Option Status → Option Status
shared none state (some status) = some (record status { state = state })
shared none state none = none
shared (some grant) state status = status

module _ (lib : Crypto) (codec : Codec) (kit : Toolkit) (now : ℕ) (settings : WitnessSettings)
    (commissioned : Commissioned) where
  abbrev pub check_some : Option Fields → Outcome WitnessError (Option Status)
  check_some none = ok none
  check_some (some evidence) = do
    status ← check lib codec kit now false settings commissioned evidence
    ok (some status)

  abbrev pub view_of : List Fields → Fields → Option Status → Option Status → List Control → View
  view_of history current pending_status status controls = record {
    status = status;
    state = shown_state (authorization_state status history) controls;
    authorization_state = authorization_state status history;
    receipt_issuance_enabled = settings.witness_enabled;
    locally_suspended = is_suspended controls;
    witnessing_permitted =
        is_authorized (authorization_state status history) && not (is_suspended controls);
    head_event_id = id_of (event_of_last (last_entry history));
    sequence = length history;
    evidence = evidence_of (or_else (last_grant history) (pending_of current));
    history = history;
    pending = pending_of current;
    pending_status =
        shared (last_grant history) (shown_state (authorization_state status history) controls)
          pending_status;
    local_controls = controls;
  }

  -- `_view`
  unfoldable pub view : AuthorizationState → Outcome WitnessError View
  view s = do
    history ← validate_history lib codec kit now settings commissioned s
    current ← load codec s
    pending_status ← check_some (pending_of current)
    status ← check_some (last_grant history)
    ok (view_of history current pending_status (or_else status pending_status) s.controls)
