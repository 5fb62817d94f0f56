-- ===== src/Authorization/Tests.antt =====
-- src/spurline/witness.py on an empty database.
use spurline.Prelude.{
  ℕ, true, false, ◌≡◌, refl, ap, ◌⊎◌, Option, none, some, List, [], ◌∷◌, Outcome, ok,
}
use spurline.Prelude.Int.{pos}
use spurline.Prelude.Text.{Text, codes, text_eq}
use spurline.Json.{str, end}
use spurline.Events.Tests.{lenient, hash_text}
use spurline.Receipts.{Codec}
use spurline.Commissioning.{strip, lstrip, rstrip, is_space}
use spurline.Commissioning.Tests.{stroma}
use spurline.Service.{Commissioned}
use spurline.Authorization.{
  WitnessError, WitnessSettings, Control, AuthorizationState, load, read_history,
}
use spurline.Authorization.Grant.{authorized}
use spurline.Authorization.History.{
  is_reason, last_grant, last_entry, validate_entries, validate_history,
}
use spurline.Authorization.Views.{View, is_suspended, view_of, view}
use spurline.Authorization.Operations.{new_control, control}
use spurline.Authorization.Extended.{Extends}
use spurline.Authorization.Lifecycle.{Steps, Steps-Extends, controls, stop, then}
use spurline.Authorization.Withdrawn.{control_lem}

abbrev settings : WitnessSettings
settings = record {
  service_npub = codes "npub1";
  service_nsec = [];
  service_management = codes "local";
  witness_enabled = true;
}

abbrev commissioned : Commissioned
commissioned = record {
  verified = record {
    operator_npub = codes "npub1";
    request_id = hash_text;
    attestation_id = hash_text;
    attested_at = pos 900;
  };
  descriptor_id = hash_text;
}

abbrev empty : AuthorizationState
empty = record { row = none; history = none; controls = [] }

abbrev reading : Codec
reading = record { loads = λ text. none; sha256_bytes = λ _. hash_text }

abbrev decode : List ℕ → Option Text
decode bytes = some bytes

abbrev held : Control
held = record { action = codes "suspend"; reason = codes "drill"; recorded_at = 1010 }

abbrev after_suspension : AuthorizationState
after_suspension = record empty { controls = held ∷ [] }

abbrev shown : View
shown = view_of lenient reading stroma 1010 settings commissioned [] end none none (held ∷ [])

suspend_run :
    control lenient reading stroma decode settings
      (ok commissioned)
      1010
      (codes "suspend")
      (str (codes "drill"))
      empty
    ≡ (ok shown, after_suspension)
unfolding control new_control view validate_history validate_entries read_history load is_reason
    strip lstrip rstrip is_space is_suspended last_grant last_entry text_eq
suspend_run = refl

control_lem_example :
    ((◌≡◌ {A = Text} (codes "suspend") (codes "suspend"))
      × (shown.witnessing_permitted ≡ false)
      × (shown.locally_suspended ≡ true))
    ⊎ ((◌≡◌ {A = Text} (codes "suspend") (codes "resume"))
        × (c : Commissioned) × (before : View) × (◌≡◌ {A = Outcome WitnessError Commissioned}
            (ok commissioned)
            (ok c))
        × (view lenient reading stroma 1010 settings c empty ≡ ok before)
        × (before.authorization_state ≡ authorized))
control_lem_example =
    control_lem lenient reading stroma decode settings (ok commissioned) 1010 (codes "suspend")
      (str (codes "drill")) empty shown
      (ap (λ (r : Outcome WitnessError View × AuthorizationState). r.0) suspend_run)

abbrev calls :
    Steps lenient reading stroma decode settings empty
      (control lenient reading stroma decode settings
        (ok commissioned)
        1010
        (codes "suspend")
        (str (codes "drill"))
        empty).1
calls =
    then empty _ _ (controls (ok commissioned) 1010 (codes "suspend") (str (codes "drill")) empty)
      (stop _)

Steps-Extends_example :
    Extends empty
      (control lenient reading stroma decode settings
        (ok commissioned)
        1010
        (codes "suspend")
        (str (codes "drill"))
        empty).1
Steps-Extends_example = Steps-Extends lenient reading stroma decode settings empty _ tt calls
