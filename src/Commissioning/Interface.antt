-- ===== src/Commissioning/Interface.antt =====
-- src/spurline/commissioning.py as the interface of service.py: the calls that service.py makes, with
-- the identity of its settings and one reading of the clock.
use spurline.Prelude.{ℕ, false, Option, none, some, Outcome, ok, err}
use spurline.Prelude.Text.{Text}
use spurline.Json.{Json, obj, null, value}
use spurline.Events.{Crypto, StoredEvent, to_dict}
use spurline.Receipts.{Codec}
use spurline.Commissioning.{Toolkit, CommissioningError}
use spurline.Commissioning.Request.{
  create_commissioning_request, Expected, verify_commissioning_request,
}
use spurline.Commissioning.Attestation.{VerifiedCommissioning, verify_operator_attestation}
use spurline.Commissioning.Descriptor.{create_service_descriptor, verify_service_descriptor}
use spurline.Service.{ServiceError, commissioning, Verified, Commissioning}

abbrev pub of_commissioning :
    {A B : Type 0} → (A → B) → Outcome CommissioningError A → Outcome ServiceError B
of_commissioning f (ok a) = ok (f a)
of_commissioning f (err e) = err (commissioning e)

-- `evidence.get(key)` as an argument
abbrev pub or_null : Option Json → Json
or_null none = null
or_null (some v) = v

-- `event.data()`
abbrev pub event_data : StoredEvent → Json
event_data e = obj (to_dict e)

abbrev pub verified_of : VerifiedCommissioning → Verified
verified_of v = record {
  operator_npub = v.operator_npub;
  request_id = v.request.id;
  attestation_id = v.attestation.id;
  attested_at = value v.attestation.created_at;
}

module _ (lib : Crypto) (codec : Codec) (kit : Toolkit) where
  -- with the settings, the secret key, the time and the random nonce
  abbrev pub commissioning_checks : Expected → Text → ℕ → Text → Commissioning
  commissioning_checks settings service_nsec now fresh = record {
    check_request = λ document.
        of_commissioning (λ _. tt)
          (verify_commissioning_request lib codec kit settings now false (or_null document));
    check_attestation = λ require_current request attestation. of_commissioning verified_of (
        verify_operator_attestation lib codec kit settings now require_current request attestation);
    check_descriptor = λ descriptor attestation.
        of_commissioning (λ e. e.id)
          (verify_service_descriptor lib codec kit now settings descriptor attestation);
    create_request = λ operator.
        of_commissioning event_data (
          create_commissioning_request kit service_nsec operator settings.management now none
            fresh);
    create_descriptor = λ attestation issued_at. of_commissioning event_data (
        create_service_descriptor lib codec kit now service_nsec attestation settings.management
          issued_at);
  }
