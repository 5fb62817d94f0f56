-- ===== src/Service/Evidence.antt =====
-- src/spurline/service.py with the checks of commissioning.py: what the evidence of a commissioned
-- service shows.
use spurline.Prelude.{ℕ, false, ◌≡◌, refl, Option, some, arith, Outcome, ok, err, holds_some}
use spurline.Prelude.Text.{Text, codes}
use spurline.Json.{Json, Fields, lookup}
use spurline.Events.{Crypto}
use spurline.Receipts.{Codec}
use spurline.Commissioning.{Toolkit, CommissioningError}
use spurline.Commissioning.Request.{Expected}
use spurline.Commissioning.Attestation.{VerifiedCommissioning, verify_operator_attestation}
use spurline.Commissioning.Interface.{of_commissioning, verified_of, commissioning_checks}
use spurline.Commissioning.Bound.{Binds, verify_operator_attestation-Binds}
use spurline.Service.{Commissioning, ServiceState, Commissioned, commission, verify_evidence}
use spurline.Service.Permanent.{HasEvidence, commission-verified}

of_commissioning-ok :
    {A B : Type 0} (f : A → B) (o : Outcome CommissioningError A) (b : B)
    → of_commissioning f o ≡ ok b
    → (a : A) × (o ≡ ok a) × (f a ≡ b)
of_commissioning-ok f (ok a) b h = (a, refl, ground (arith, h))
of_commissioning-ok f (err e) b h = absurd (ground (arith, h))

-- what a commissioned service's row of evidence shows
pub record ShowsOperator (lib : Crypto) (codec : Codec) (kit : Toolkit) (settings : Expected)
    (now : ℕ) (evidence : Fields) (c : Commissioned) : Type 0 where
  pub request : Json
  pub attestation : Json
  pub v : VerifiedCommissioning
  pub has_request : lookup (codes "commissioning_request") evidence ≡ some request
  pub has_attestation : lookup (codes "operator_attestation") evidence ≡ some attestation
  pub binds : Binds lib codec kit settings now request attestation v
  pub reported : verified_of v ≡ c.verified

module _ (lib : Commissioning) (npub : Option Text) where
  attestation_checked :
      (evidence : Fields) (c : Commissioned)
      → verify_evidence lib npub evidence ≡ ok c
      → (request : Json) × (attestation : Json) × (lookup (codes "commissioning_request") evidence
          ≡ some request)
        × (lookup (codes "operator_attestation") evidence ≡ some attestation)
        × (lib.check_attestation false request attestation ≡ ok c.verified)
  unfolding verify_evidence
  attestation_checked evidence c h =
      let (request, hr) =
        holds_some (lookup (codes "commissioning_request") evidence) (λ k. ground (arith, h, k)) in
      let (attestation, ha) =
        holds_some (lookup (codes "operator_attestation") evidence) (λ k. ground (arith, h, k)) in
      (request, attestation, hr, ha, ground (arith, h, hr, ha))

module _ (lib : Crypto) (codec : Codec) (kit : Toolkit) (settings : Expected) (nsec fresh : Text)
    (now : ℕ) (npub : Option Text) where
  verify_evidence-ShowsOperator :
      (evidence : Fields) (c : Commissioned)
      → verify_evidence (commissioning_checks lib codec kit settings nsec now fresh) npub evidence
        ≡ ok c
      → ShowsOperator lib codec kit settings now evidence c
  verify_evidence-ShowsOperator evidence c h =
      let (request, attestation, hr, ha, hc) =
        attestation_checked (commissioning_checks lib codec kit settings nsec now fresh) npub
          evidence c h in
      let (v, hv, same) =
        of_commissioning-ok verified_of
          (verify_operator_attestation lib codec kit settings now false request attestation)
          c.verified hc in
      record {
        request = request;
        attestation = attestation;
        v = v;
        has_request = hr;
        has_attestation = ha;
        binds =
            verify_operator_attestation-Binds lib codec kit settings now false request attestation v
              hv;
        reported = same;
      }

  -- A commission with the checks of commissioning.py that returns leaves evidence in the row whose
  -- request and attestation bind the operator to the service, and returns what that attestation shows.
  -- The request is signed by the service, and the operator is the one that its content names: the
  -- attestation is signed by that operator, names the service and the request, and is dated in the
  -- request's period, and the request's "p" tag has the operator's key.
  pub commission-ShowsOperator :
      (a : Json) (c : Commissioned) (s : ServiceState)
      → (commission (commissioning_checks lib codec kit settings nsec now fresh) npub a s).0 ≡ ok c
      → (evidence : Fields) × HasEvidence evidence
          (commission (commissioning_checks lib codec kit settings nsec now fresh) npub a s).1
        × ShowsOperator lib codec kit settings now evidence c
  commission-ShowsOperator a c s h =
      let (evidence, held, verified) =
        commission-verified (commissioning_checks lib codec kit settings nsec now fresh) npub a c s
          h in
      (evidence, held, verify_evidence-ShowsOperator evidence c verified)
