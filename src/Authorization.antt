-- ===== src/Authorization.antt =====
-- src/spurline/witness.py: the operator's authorization of the witness, as operations on the tables of
-- the service's database. A call is given one reading of the clock, and what the check of the
-- commissioning gives at its start.
pub mod Request
pub mod Grant
pub mod History
pub mod Views
pub mod Operations
pub mod Permitted
pub mod Chain
pub mod Rows
pub mod Extended
pub mod Lifecycle
pub mod Withdrawn
mod Tests
mod GrantTests
use spurline.Prelude.{
  ℕ, suc, ◌+◌, ◌*◌, ◌-◌, ◌/◌, ◌%◌, Bool, true, false, ◌&&◌, ◌||◌, not, Option, none, some, List, [],
  ◌∷◌, ◌++◌, any, all, length, ltb, leb, ◌==◌, if◌then◌else◌, Outcome, ok, err, ◌>>=◌, ◌>>◌,
  raise_if, or_raise,
}
use spurline.Prelude.Int.{ℤ, pos, negsuc, ltb_ℤ, eq_ℤ}
use spurline.Prelude.Text.{Text, codes, text_eq}
use spurline.Json.{
  Json, null, num, str, arr, obj, Fields, end, field, Number, int, value, lookup, contains, as_dict,
  as_str, as_int,
}
use spurline.Json.Equal.{json_eq}
use spurline.Events.{Crypto, StoredEvent}
use spurline.Receipts.{Codec, canonical_json}
use spurline.Commissioning.{
  CommissioningError, Document, Toolkit, exact_int, valid_event, has_tag, holds, number, equal_at,
}
use spurline.Service.{Commissioned}

-- CommissioningError by its message, those of the other modules, and what else is raised: the KeyError of
-- stroma and of a subscript, ValueError by `json.loads` and `encode`, IntegrityError by an insert, and
-- StopIteration by `next`
pub data WitnessError : Type 0 where
  commissioning_error : CommissioningError → WitnessError
  uncommissioned : WitnessError
  invalid_content wrong_request_signer wrong_issue_time wrong_interval wrong_deadline
        deadline_passed :
      WitnessError
  wrong_kinds wrong_nonce wrong_policy wrong_predecessor wrong_request missing_tag : WitnessError
  not_integer : Text → WitnessError
  wrong_signer outside_window dated_ahead wrong_authorization : WitnessError
  stored_invalid incomplete history_invalid gap moved_backwards wrong_action wrong_revocation :
      WitnessError
  already_revoked revocation_mismatch history_differs wrong_reason : WitnessError
  wrong_valid_for policy_file already_authorized no_prior clock_behind : WitnessError
  none_pending other_authorization stale predates_head : WitnessError
  none_to_revoke future_revocation wrong_control resume_refused none_retained : WitnessError
  key_error value_error integrity_error no_grant : WitnessError

-- the settings that witness.py reads
pub record WitnessSettings : Type 0 where
  pub service_npub : Text
  pub service_nsec : Text
  pub service_management : Text
  pub witness_enabled : Bool

-- a row of `witness_controls`
pub record Control : Type 0 where
  pub action : Text
  pub reason : Text
  pub recorded_at : ℕ

-- the row of `witness_authorization`, the rows of `witness_history` in the order of their numbers, with
-- none for no table, and the controls in the order of their ids
pub record AuthorizationState : Type 0 where
  pub row : Option Text
  pub history : Option (List (ℕ × Text))
  pub controls : List Control

abbrev pub authorization_request_schema : Text
authorization_request_schema = codes "org.spurline.witness-authorization-request"

abbrev pub authorization_schema : Text
authorization_schema = codes "org.spurline.witness-authorization"

abbrev pub role : Text
role = codes "observation-witness"

abbrev pub max_policy_bytes : ℕ
max_policy_bytes = 262144

abbrev pub max_validity_seconds : ℕ
max_validity_seconds = 31536000

abbrev pub dict : List (Text × Json) → Fields
dict [] = end
dict ((k, v) ∷ d) = field k v (dict d)

abbrev pub lift : {A : Type 0} → Outcome CommissioningError A → Outcome WitnessError A
lift (ok a) = ok a
lift (err e) = err (commissioning_error e)

-- `body[key]`, and `body.get(key)` with None for a missing key
abbrev pub get : Text → Fields → Outcome WitnessError Json
get key body = or_raise (lookup key body) key_error

abbrev pub or_null : Option Json → Json
or_null none = null
or_null (some v) = v

abbrev pub text_value : Json → Text
text_value (str s) = s
text_value _ = []

-- `_integer`
unfoldable pub integer : Text → Fields → Outcome WitnessError ℤ
integer label body = or_raise (exact_int (lookup label body)) (not_integer label)

-- `Keys(pub_k=…).public_key_hex()`
abbrev hex_of : Option (Text × Text) → Outcome WitnessError Text
hex_of none = err key_error
hex_of (some (hex, npub)) = ok hex

unfoldable pub public_hex : Toolkit → Text → Outcome WitnessError Text
public_hex kit npub = hex_of (kit.public_key npub)

-- `for tag in tags: _require_tag(event, tag)`
abbrev pub require_tags : List (List Text) → StoredEvent → Outcome WitnessError (Unit {0})
require_tags tags event = raise_if (not (all (λ tag. has_tag tag event) tags)) missing_tag

-- `schema_version in (1, 2)`, of a true int
abbrev pub version_of : Fields → Option ℤ
version_of body = exact_int (lookup (codes "schema_version") body)

abbrev pub is_version : Option ℤ → Bool
is_version none = false
is_version (some v) = eq_ℤ v (pos 1) || eq_ℤ v (pos 2)

module _ (codec : Codec) where
  -- `_witness_content`
  unfoldable pub witness_content : Text → StoredEvent → Outcome WitnessError Fields
  witness_content schema event = do
    document ← or_raise (codec.loads event.content) invalid_content
    body ← or_raise (as_dict document) invalid_content
    raise_if
        (not (
          equal_at (codes "schema") (str schema) body
          && (is_version (version_of body) && text_eq (canonical_json (obj body)) event.content)))
        invalid_content
    ok body

  -- a row's text as a dict
  abbrev pub read_dict : WitnessError → Text → Outcome WitnessError Fields
  read_dict e text = do document ← or_raise (codec.loads text) e; or_raise (as_dict document) e

  -- `_load`
  unfoldable pub load : AuthorizationState → Outcome WitnessError Fields
  load s = elim s.row [ none ↦ ok end | some text ↦ read_dict stored_invalid text ]

  abbrev pub read_rows : List (ℕ × Text) → Outcome WitnessError (List Fields)
  read_rows [] = ok []
  read_rows ((n, text) ∷ rows) = do
    entry ← read_dict history_invalid text
    entries ← read_rows rows
    ok (entry ∷ entries)

  -- the history before the table is made: the evidence of an authorization in the row
  abbrev pub legacy : Fields → List Fields
  legacy old = if contains (codes "authorization") old then old ∷ [] else []

  abbrev legacy_history : Outcome WitnessError Fields → Outcome WitnessError (List Fields)
  legacy_history (err e) = err e
  legacy_history (ok old) = ok (legacy old)

  -- `_history`
  unfoldable pub read_history : AuthorizationState → Outcome WitnessError (List Fields)
  unfolding load
  read_history s = elim s.history [ none ↦ legacy_history (load s) | some rows ↦ read_rows rows ]

-- `_write`
unfoldable pub write : Fields → AuthorizationState → AuthorizationState
write evidence s = record s { row = some (canonical_json (obj evidence)) }

-- INSERT of a numbered row, with none where the number is taken
abbrev then_row : ℕ × Text → Option (List (ℕ × Text)) → Option (List (ℕ × Text))
then_row row none = none
then_row row (some rows) = some (row ∷ rows)

unfoldable pub insert_row : ℕ → Text → List (ℕ × Text) → Option (List (ℕ × Text))
insert_row n text [] = some ((n, text) ∷ [])
insert_row n text ((m, old) ∷ rows) =
    let rest = insert_row n text rows in
    if m == n
    then none
    else if ltb n m
    then some ((n, text) ∷ (m, old) ∷ rows)
    else then_row (m, old) rest

-- INSERT OR IGNORE
abbrev pub kept : List (ℕ × Text) → Option (List (ℕ × Text)) → List (ℕ × Text)
kept rows none = rows
kept rows (some rows') = rows'

unfoldable pub import_rows : ℕ → List Fields → List (ℕ × Text) → List (ℕ × Text)
unfolding insert_row
import_rows n [] rows = rows
import_rows n (old ∷ history) rows =
    import_rows (suc n) history (kept rows (insert_row n (canonical_json (obj old)) rows))

abbrev pub table : Option (List (ℕ × Text)) → List (ℕ × Text)
table none = []
table (some rows) = rows

-- `_append`
unfoldable pub append_entry :
    List Fields → Fields → AuthorizationState → Outcome WitnessError AuthorizationState
unfolding insert_row import_rows
append_entry history entry s = do
  rows ←
      or_raise
        (insert_row (suc (length history)) (canonical_json (obj entry))
          (import_rows 1 history (table s.history)))
        integrity_error
  ok (record s { history = some rows })

-- a transaction: it is rolled back where an error is raised
abbrev pub transaction :
    {A : Type 0}
    → AuthorizationState
    → Outcome WitnessError (A × AuthorizationState)
    → Outcome WitnessError A × AuthorizationState
transaction s (ok (a, s')) = (ok a, s')
transaction s (err e) = (err e, s)

-- `_event`
unfoldable pub event_of : Fields → Json
event_of entry = elim (lookup (codes "authorization") entry) [
  | some event ↦ event
  | none ↦ or_null (lookup (codes "revocation") entry)
]

abbrev pub is_grant : Fields → Bool
is_grant entry = contains (codes "authorization") entry

abbrev pub is_revocation : Fields → Bool
is_revocation entry = contains (codes "revocation") entry

-- the fields of an event's document, of the types that `validate_event` has checked
abbrev pub document_field : Text → Json → Json
document_field key (obj d) = or_null (lookup key d)
document_field key _ = null

abbrev pub event_id : Json → Text
event_id document = text_value (document_field (codes "id") document)

abbrev number_value : Json → ℤ
number_value (num n) = value n
number_value _ = pos 0

abbrev pub event_time : Json → ℤ
event_time document = number_value (document_field (codes "created_at") document)
