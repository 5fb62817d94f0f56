-- ===== src/Identity.antt =====
-- src/spurline/identity.py: the identity file of a data directory.
pub mod Binding
mod Tests
use spurline.Prelude.{
  Bool, true, false, Option, none, some, List, [], ◌∷◌, if◌then◌else◌, Outcome, ok, err,
}
use spurline.Prelude.Text.{Text, codes, text_eq}
use spurline.Json.{Json, str, obj, Fields, end, field, lookup, as_str, as_dict}

-- the messages of RuntimeError
pub data IdentityError : Type 0 where
  invalid_sentinel secret_required other_identity : IdentityError

-- service-identity.json: missing, one that cannot be read as JSON, or its value
pub data Sentinel : Type 0 where
  missing unreadable : Sentinel
  holds : Json → Sentinel

abbrev pub nonempty : Option Text → Option Text
nonempty none = none
nonempty (some []) = none
nonempty (some (c ∷ s)) = some (c ∷ s)

-- the recorded npub, a text that is not empty
abbrev pub npub_field : Option Json → Option Text
npub_field none = none
npub_field (some v) = nonempty (as_str v)

abbrev pub recorded_npub : Json → Option Text
recorded_npub (obj d) = npub_field (lookup (codes "npub") d)
recorded_npub _ = none

abbrev pub compare_npub : Option Text → Option Text → Outcome IdentityError (Unit {0})
compare_npub none npub = err invalid_sentinel
compare_npub (some recorded) none = err secret_required
compare_npub (some recorded) (some npub) =
    if text_eq recorded npub then ok tt else err other_identity

abbrev pub sentinel_for : Text → Sentinel
sentinel_for npub = holds (
    obj (
      field (codes "schema") (str (codes "org.mainstay.service-identity"))
        (field (codes "npub") (str npub) end)))

-- `bind_service_identity`: what it returns or raises, and the file after it
unfoldable pub bind_service_identity :
    Option Text → Sentinel → Outcome IdentityError (Unit {0}) × Sentinel
bind_service_identity npub unreadable = (err invalid_sentinel, unreadable)
bind_service_identity npub (holds v) = (compare_npub (recorded_npub v) npub, holds v)
bind_service_identity none missing = (ok tt, missing)
bind_service_identity (some npub) missing = (ok tt, sentinel_for npub)
