-- ===== src/Service/Permanent.antt =====
-- A commissioned service stays commissioned.
use spurline.Prelude.{
  Bool, true, false, ◌≡◌, ◌⊎◌, inl, inr, refl, ◌∙◌, Option, none, some, arith, Outcome, ok, err,
  if◌then◌else◌, Bool-cases,
}
use spurline.Prelude.Text.{Text, codes}
use spurline.Json.{Json, null, num, float, str, arr, obj, Fields, end, lookup}
use spurline.Json.Equal.{json_eq}
use spurline.Service.{
  ServiceError, already_commissioned, Commissioning, ServiceState, Commissioned, Result, load,
  identity, after, write_row, opened, verify_evidence, new_request, request, new_commission,
  commission_with, commission,
}

abbrev pub Fails : {A : Type 0} → Outcome ServiceError A → Type 0
Fails r = (e : ServiceError) × (r ≡ err e)

-- the identity check leaves the row
identity-row : (npub : Option Text) (s : ServiceState) → (identity npub s).1.row ≡ s.row
unfolding identity
identity-row none s = refl
identity-row (some npub) s = refl

-- a computation after one that leaves a state in which `P` holds
after_ends :
    {A B : Type 0} (P : Outcome ServiceError B → ServiceState → Type 0) (r : Result A)
    (f : A → ServiceState → Result B)
    → ((e : ServiceError) → P (err e) r.1)
    → ((a : A) → P (f a r.1).0 (f a r.1).1)
    → P (after r f).0 (after r f).1
after_ends P (ok a, s) f h k = k a
after_ends P (err e, s) f h k = h e

-- the evidence in the row
abbrev pub HasEvidence : Fields → ServiceState → Type 0
HasEvidence evidence s = s.row ≡ some (obj evidence)

module _ (lib : Commissioning) (npub : Option Text) (a : Json) (evidence : Fields) where
  refused_request :
      (operator : Text)
      → lookup (codes "operator_attestation") evidence ≡ some a
      → new_request lib npub operator evidence ≡ err already_commissioned
  unfolding new_request
  refused_request operator h = ground (arith, h)

  abbrev opened_with : ServiceState → ServiceState
  opened_with s = record s { exists = true; row = some (obj evidence) }

  present_commission :
      (s : ServiceState) (b : Json)
      → let r = commission_with lib npub b evidence s (some a) in
        ((json_eq a b ≡ true) ⊎ Fails r.0) × (r.1.row ≡ s.row)
  present_commission s b = elim (Bool-cases (json_eq a b)) [
    | inl e ↦ (inl e, rw e refl)
    | inr e ↦ rw e (inr (already_commissioned, refl), refl)
  ]

  -- In a service whose evidence has an attestation, a request raises, a commission with another
  -- attestation raises, and neither they nor a commission with the same attestation change the evidence.
  pub commission_permanent :
      (operator : Text) (b : Json) (s : ServiceState)
      → HasEvidence evidence s
      → lookup (codes "operator_attestation") evidence ≡ some a
      → (Fails (request lib npub operator s).0
          × HasEvidence evidence (request lib npub operator s).1)
        × (((json_eq a b ≡ true) ⊎ Fails (commission lib npub b s).0)
            × HasEvidence evidence (commission lib npub b s).1)
  unfolding request commission
  commission_permanent operator b s held h = (
    after_ends (λ r s'. Fails r × HasEvidence evidence s') (identity npub s) _
        (λ e. ((e, refl), identity-row npub s ∙ held))
        (λ _.
          rw (identity-row npub s ∙ held)
            (rw (refused_request operator h) ((already_commissioned, refl), refl))),
    after_ends (λ r s'. ((json_eq a b ≡ true) ⊎ Fails r) × HasEvidence evidence s')
        (identity npub s) _ (λ e. (inr (e, refl), identity-row npub s ∙ held))
        (λ _.
          rw (identity-row npub s ∙ held)
            (rw h (present_commission (opened_with (identity npub s).1) b))),
  )

module _ (lib : Commissioning) (npub : Option Text) (a : Json) (c : Commissioned) where
  -- evidence in the row that verifies as `c`
  abbrev Stored : Outcome ServiceError Commissioned → ServiceState → Type 0
  Stored r s =
      r ≡ ok c
      → (evidence : Fields) × (s.row ≡ some (obj evidence))
        × (verify_evidence lib npub evidence ≡ ok c)

  new_commission-verified :
      (d evidence : Fields) (c' : Commissioned)
      → new_commission lib npub a d ≡ ok (c', evidence)
      → verify_evidence lib npub evidence ≡ ok c'
  unfolding new_commission
  new_commission-verified d evidence c' h = ground arith

  new_row :
      (d : Fields) (s : ServiceState) (o : Outcome ServiceError (Commissioned × Fields))
      → new_commission lib npub a d ≡ o
      → Stored (write_row s o).0 (write_row s o).1
  new_row d s (err e) same h = absurd (ground (arith, h))
  new_row d s (ok (c', evidence)) same h =
      (evidence, refl, new_commission-verified d evidence c' same ∙ h)

  kept_row :
      (b : Bool) (d : Fields) (s : ServiceState)
      → s.row ≡ some (obj d)
      → let r : Result Commissioned =
          if b then (verify_evidence lib npub d, s) else (err already_commissioned, s) in
        Stored r.0 r.1
  kept_row true d s held h = (d, held, h)
  kept_row false d s held h = absurd (ground (arith, h))

  with_row :
      (d : Fields) (s : ServiceState) (o : Option Json)
      → s.row ≡ some (obj d)
      → Stored (commission_with lib npub a d s o).0 (commission_with lib npub a d s o).1
  with_row d s none held = new_row d s (new_commission lib npub a d) refl
  with_row d s (some present) held = kept_row (json_eq present a) d s held

  without_row :
      (s : ServiceState)
      → Stored (commission_with lib npub a end s none).0 (commission_with lib npub a end s none).1
  without_row s = new_row end s (new_commission lib npub a end) refl

  loaded :
      (row : Option Json) (s : ServiceState)
      → s.row ≡ row
      → let r : Result Commissioned =
          after
            (load row, s)
            (λ evidence s'.
              commission_with lib npub a evidence s'
                (lookup (codes "operator_attestation") evidence)) in
        Stored r.0 r.1
  loaded none s same = without_row s
  loaded (some (obj d)) s same = with_row d s (lookup (codes "operator_attestation") d) same
  loaded (some null) s same = λ h. absurd (ground (arith, h))
  loaded (some (num n)) s same = λ h. absurd (ground (arith, h))
  loaded (some (float t)) s same = λ h. absurd (ground (arith, h))
  loaded (some (str t)) s same = λ h. absurd (ground (arith, h))
  loaded (some (arr xs)) s same = λ h. absurd (ground (arith, h))

  -- A commission that returns leaves a row of evidence that passes all the checks of `_verify`, with the
  -- result that was returned.
  pub commission-verified :
      (s : ServiceState)
      → (commission lib npub a s).0 ≡ ok c
      → (evidence : Fields) × HasEvidence evidence (commission lib npub a s).1
        × (verify_evidence lib npub evidence ≡ ok c)
  unfolding commission
  commission-verified s =
      after_ends Stored (identity npub s) _ (λ e h. absurd (ground (arith, h)))
        (λ _. loaded (identity npub s).1.row (opened (identity npub s).1) refl)
