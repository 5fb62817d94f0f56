-- ===== src/Service/Tests.antt =====
-- src/spurline/service.py with checks that accept every document.
use spurline.Prelude.{◌⊎◌, true, ◌≡◌, refl, some, ok}
use spurline.Prelude.Int.{pos}
use spurline.Prelude.Text.{codes, text_eq}
use spurline.Json.{str, obj, Fields, end, field, lookup}
use spurline.Json.Equal.{json_eq}
use spurline.Identity.{missing, bind_service_identity}
use spurline.Service.{
  Commissioning, Verified, ServiceState, Commissioned, commission, request, identity,
  new_commission, verify_evidence,
}
use spurline.Receipts.{has_exactly}
use spurline.Service.Permanent.{Fails, HasEvidence, commission_permanent, commission-verified}
use spurline.Prelude.{false, []}
use spurline.Events.{to_dict}
use spurline.Events.Tests.{lenient, hash_text}
use spurline.Commissioning.Tests.{
  stroma, reading, settings, request_event, attestation_event, descriptor_event, attestation_run,
  descriptor_made, descriptor_run,
}
use spurline.Commissioning.Tests
use spurline.Commissioning.Interface.{commissioning_checks, verified_of}
use spurline.Service.Evidence.{ShowsOperator, commission-ShowsOperator}

abbrev verified : Verified
verified = record {
  operator_npub = codes "npub1";
  request_id = codes "r";
  attestation_id = codes "a";
  attested_at = pos 7;
}

abbrev trusting : Commissioning
trusting = record {
  check_request = λ event. ok tt;
  check_attestation = λ current request attestation. ok verified;
  check_descriptor = λ descriptor attestation. ok (codes "d");
  create_request = λ operator. ok (str (codes "request"));
  create_descriptor = λ attestation at. ok (str (codes "descriptor"));
}

abbrev requested : ServiceState
requested = record {
  exists = true;
  row = some (obj (field (codes "commissioning_request") (str (codes "request")) end));
  sentinel = missing;
}

abbrev result : Commissioned
result = record { verified = verified; descriptor_id = codes "d" }

commission_run :
    (commission trusting (some (codes "npub2")) (str (codes "attestation")) requested).0 ≡ ok result
unfolding commission identity bind_service_identity new_commission verify_evidence has_exactly
    text_eq
commission_run = refl

commission-verified_example :
    (evidence : Fields) × ((commission trusting
        (some (codes "npub2"))
        (str (codes "attestation"))
        requested).1.row
      ≡ some (obj evidence))
    × (verify_evidence trusting (some (codes "npub2")) evidence ≡ ok result)
commission-verified_example =
    commission-verified trusting (some (codes "npub2")) (str (codes "attestation")) result requested
      commission_run

abbrev evidence : Fields
evidence = field (codes "operator_attestation") (str (codes "attestation")) end

abbrev attested : ServiceState
attested = record { exists = true; row = some (obj evidence); sentinel = missing }

attestation-found :
    lookup (codes "operator_attestation") evidence ≡ some (str (codes "attestation"))
unfolding text_eq
attestation-found = refl

commission_permanent_example :
    (Fails (request trusting (some (codes "npub2")) (codes "op") attested).0
      × HasEvidence evidence (request trusting (some (codes "npub2")) (codes "op") attested).1)
    × (((json_eq (str (codes "attestation")) (str (codes "other")) ≡ true)
          ⊎ Fails (commission trusting (some (codes "npub2")) (str (codes "other")) attested).0)
        × HasEvidence evidence
            (commission trusting (some (codes "npub2")) (str (codes "other")) attested).1)
commission_permanent_example =
    commission_permanent trusting (some (codes "npub2")) (str (codes "attestation")) evidence
      (codes "op") (str (codes "other")) attested refl attestation-found

abbrev checks : Commissioning
checks = commissioning_checks lenient reading stroma settings [] 1010 hash_text

abbrev pending_request : ServiceState
pending_request = record {
  exists = true;
  row = some (obj (field (codes "commissioning_request") (obj (to_dict request_event)) end));
  sentinel = missing;
}

abbrev shown : Commissioned
shown = record { verified = verified_of Tests.verified; descriptor_id = descriptor_event.id }

real_run :
    (commission checks (some (codes "npub1")) (obj (to_dict attestation_event)) pending_request).0
    ≡ ok shown
unfolding commission identity bind_service_identity new_commission verify_evidence has_exactly
    text_eq
real_run =
    rw (attestation_run true)
      (rw descriptor_made (rw (attestation_run false) (rw descriptor_run refl)))

commission-ShowsOperator_example :
    (evidence' : Fields) × HasEvidence evidence'
      (commission checks (some (codes "npub1")) (obj (to_dict attestation_event)) pending_request).1
    × ShowsOperator lenient reading stroma settings 1010 evidence' shown
commission-ShowsOperator_example =
    commission-ShowsOperator lenient reading stroma settings [] hash_text 1010
      (some (codes "npub1")) (obj (to_dict attestation_event)) shown pending_request real_run
