-- ===== src/Identity/Tests.antt =====
-- src/spurline/identity.py on an empty data directory.
use spurline.Prelude.{◌≡◌, refl, Option, some, ok}
use spurline.Prelude.Text.{Text, codes}
use spurline.Identity.{missing, bind_service_identity}
use spurline.Identity.Binding.{BoundTo, bind_service_identity-BoundTo}

bound_run : (bind_service_identity (some (codes "npub1")) missing).0 ≡ ok tt
unfolding bind_service_identity
bound_run = refl

bind_service_identity-BoundTo_example :
    BoundTo (codes "npub1") (bind_service_identity (some (codes "npub1")) missing).1
    × ((b : Option Text)
        → (bind_service_identity b (bind_service_identity (some (codes "npub1")) missing).1).1
          ≡ (bind_service_identity (some (codes "npub1")) missing).1)
bind_service_identity-BoundTo_example =
    bind_service_identity-BoundTo b'n' (codes "pub1") missing bound_run
