-- ===== src/Service.antt =====
-- src/spurline/service.py: the commissioning of the service, as operations on the row of the table
-- `commissioning` and the identity file.
mod Permanent
mod Evidence
mod Tests
use spurline.Prelude.{
  Bool, true, false, not, Option, none, some, List, [], ◌∷◌, if◌then◌else◌, Outcome, ok, err, ◌>>=◌,
  ◌>>◌, raise_if, or_raise,
}
use spurline.Prelude.Int.{ℤ}
use spurline.Prelude.Text.{Text, codes, text_eq}
use spurline.Json.{Json, obj, Fields, end, field, lookup, contains}
use spurline.Json.Equal.{json_eq}
use spurline.Receipts.{has_exactly}
use spurline.Commissioning.{CommissioningError}
use spurline.Identity.{IdentityError, Sentinel, bind_service_identity}

-- CommissioningError by its messages in service.py, those of commissioning.py, and RuntimeError
pub data ServiceError : Type 0 where
  no_service_key invalid_evidence incomplete already_commissioned no_request not_commissioned :
      ServiceError
  commissioning : CommissioningError → ServiceError
  identity_error : IdentityError → ServiceError

-- a verified attestation: what service.py reads of it
pub record Verified : Type 0 where
  pub operator_npub : Text
  pub request_id : Text
  pub attestation_id : Text
  pub attested_at : ℤ

-- The functions of commissioning.py that service.py calls, for the identity of the settings and one
-- reading of the clock.
pub record Commissioning : Type 0 where
  pub check_request : Option Json → Outcome ServiceError (Unit {0})
  pub check_attestation : Bool → Json → Json → Outcome ServiceError Verified
  pub check_descriptor : Json → Json → Outcome ServiceError Text
  pub create_request : Text → Outcome ServiceError Json
  pub create_descriptor : Json → ℤ → Outcome ServiceError Json

-- whether the database file is there, its row, and the identity file
pub record ServiceState : Type 0 where
  pub exists : Bool
  pub row : Option Json
  pub sentinel : Sentinel

-- the state that `_verify` reports of a commissioned service
pub record Commissioned : Type 0 where
  pub verified : Verified
  pub descriptor_id : Text

abbrev pub Result : Type 0 → Type 0
Result A = Outcome ServiceError A × ServiceState

-- `_load`
abbrev pub load : Option Json → Outcome ServiceError Fields
load none = ok end
load (some (obj d)) = ok d
load (some _) = err invalid_evidence

abbrev pub of_identity : Outcome IdentityError (Unit {0}) → Outcome ServiceError (Unit {0})
of_identity (ok u) = ok tt
of_identity (err e) = err (identity_error e)

-- `_identity`
unfoldable pub identity : Option Text → ServiceState → Result (Unit {0})
identity none s = (err no_service_key, s)
identity (some npub) s =
    let (r, sentinel') = bind_service_identity (some npub) s.sentinel in
    (of_identity r, record s { sentinel = sentinel' })

abbrev pub evidence_keys : List Text
evidence_keys =
    codes "commissioning_request" ∷ codes "operator_attestation" ∷ codes "service_descriptor" ∷ []

abbrev pub part : Text → Fields → Outcome ServiceError Json
part key evidence = or_raise (lookup key evidence) incomplete

-- a computation on the state after the identity check, and a step that writes the row at its end. The
-- transaction is rolled back where an error is raised.
abbrev pub after : {A B : Type 0} → Result A → (A → ServiceState → Result B) → Result B
after (ok a, s) f = f a s
after (err e, s) f = (err e, s)

abbrev pub write_row : {A : Type 0} → ServiceState → Outcome ServiceError (A × Fields) → Result A
write_row s (ok (a, evidence)) = (ok a, record s { row = some (obj evidence) })
write_row s (err e) = (err e, s)

-- opening the database to write creates its file
abbrev pub opened : ServiceState → ServiceState
opened s = record s { exists = true }

-- the states that `show` reports
pub data Shown : Type 0 where
  unconfigured uncommissioned commissioning_pending : Shown
  commissioned : Commissioned → Shown

module _ (lib : Commissioning) (npub : Option Text) where
  -- the checks of `_verify` after the identity
  unfoldable pub verify_evidence : Fields → Outcome ServiceError Commissioned
  verify_evidence evidence = do
    raise_if (not (has_exactly evidence_keys evidence)) incomplete
    request ← part (codes "commissioning_request") evidence
    attestation ← part (codes "operator_attestation") evidence
    descriptor ← part (codes "service_descriptor") evidence
    verified ← lib.check_attestation false request attestation
    descriptor_id ← lib.check_descriptor descriptor attestation
    ok (record { verified = verified; descriptor_id = descriptor_id })

  -- `verify`
  unfoldable pub verify : ServiceState → Result Commissioned
  verify s =
      if s.exists
      then after (load s.row, s)
          (λ evidence s'. after (identity npub s') (λ _ s''. (verify_evidence evidence, s'')))
      else (err not_commissioned, s)

  abbrev pub pending_of : Outcome ServiceError (Unit {0}) → Outcome ServiceError Shown
  pending_of (ok u) = ok commissioning_pending
  pending_of (err e) = err e

  abbrev pub commissioned_of : Outcome ServiceError Commissioned → Outcome ServiceError Shown
  commissioned_of (ok c) = ok (commissioned c)
  commissioned_of (err e) = err e

  abbrev pub unstarted : Option Text → Shown
  unstarted none = unconfigured
  unstarted (some npub') = uncommissioned

  abbrev pub show_evidence : Fields → ServiceState → Result Shown
  show_evidence end s = (ok (unstarted npub), s)
  show_evidence (field k v d) s = after (identity npub s) λ _ s'.
      if contains (codes "operator_attestation") (field k v d)
      then (commissioned_of (verify_evidence (field k v d)), s')
      else if contains (codes "service_descriptor") (field k v d)
      then (commissioned_of (verify_evidence (field k v d)), s')
      else (
        pending_of (lib.check_request (lookup (codes "commissioning_request") (field k v d))),
        s',
      )

  -- `show`
  unfoldable pub show : ServiceState → Result Shown
  show s = after (load s.row, s) show_evidence

  -- `request`: a new request in place of the evidence
  unfoldable pub new_request : Text → Fields → Outcome ServiceError (Json × Fields)
  new_request operator existing = do
    raise_if (contains (codes "operator_attestation") existing) already_commissioned
    event ← lib.create_request operator
    ok (event, field (codes "commissioning_request") event end)

  unfoldable pub request : Text → ServiceState → Result Json
  request operator s = after (identity npub s) λ _ s'.
      after (load s'.row, opened s') λ existing s''. write_row s'' (new_request operator existing)

  -- `evidence.update(operator_attestation=…, service_descriptor=…)`, of evidence without an attestation
  abbrev pub update : Text → Json → Fields → Fields
  update key v end = field key v end
  update key v (field k w d) =
      let rest = update key v d in if text_eq k key then field k v d else field k w rest

  -- `commission` on evidence that has no attestation
  unfoldable pub new_commission : Json → Fields → Outcome ServiceError (Commissioned × Fields)
  new_commission attestation evidence = do
    request_event ← or_raise (lookup (codes "commissioning_request") evidence) no_request
    verified ← lib.check_attestation true request_event attestation
    descriptor ← lib.create_descriptor attestation verified.attested_at
    result ← verify_evidence (
        update (codes "service_descriptor") descriptor
          (update (codes "operator_attestation") attestation evidence))
    ok (
      result,
      update (codes "service_descriptor") descriptor
          (update (codes "operator_attestation") attestation evidence),
    )

  abbrev pub commission_with : Json → Fields → ServiceState → Option Json → Result Commissioned
  commission_with attestation evidence s none = write_row s (new_commission attestation evidence)
  commission_with attestation evidence s (some present) =
      if json_eq present attestation
      then (verify_evidence evidence, s)
      else (err already_commissioned, s)

  -- `commission`
  unfoldable pub commission : Json → ServiceState → Result Commissioned
  commission attestation s = after (identity npub s) λ _ s'.
      after (load s'.row, opened s')
        λ evidence s''.
          commission_with attestation evidence s'' (lookup (codes "operator_attestation") evidence)
