-- ===== src/Identity/Binding.antt =====
-- The binding of a data directory to one identity.
use spurline.Prelude.{ℕ, inl, inr, Option-cases, ◌≡◌, ◌↔◌, refl, Option, none, some, ◌∷◌, arith, ok}
use spurline.Prelude.Text.{Text, text_eq, text_eq_iff}
use spurline.Json.{Json}
use spurline.Identity.{
  Sentinel, missing, unreadable, holds, recorded_npub, sentinel_for, compare_npub,
  bind_service_identity,
}

-- what a later start with the identity `b` gets
abbrev pub BoundTo : Text → Sentinel → Type 0
BoundTo npub s = (b : Option Text) → ((bind_service_identity b s).0 ≡ ok tt) ↔ (b ≡ some npub)

recorded-BoundTo : (npub : Text) (v : Json) → recorded_npub v ≡ some npub → BoundTo npub (holds v)
unfolding bind_service_identity
recorded-BoundTo npub v h none = (λ e. absurd (ground arith), λ e. absurd (ground arith))
recorded-BoundTo npub v h (some b) =
    (λ e. ground (arith, text_eq_iff npub b), λ e. ground (arith, text_eq_iff npub b))

new-BoundTo : (c : ℕ) (npub : Text) → BoundTo (c ∷ npub) (sentinel_for (c ∷ npub))
unfolding text_eq
new-BoundTo c npub = recorded-BoundTo (c ∷ npub) _ refl

bound_by :
    (a : Text) (v : Json)
    → compare_npub (recorded_npub v) (some a) ≡ ok tt
    → recorded_npub v ≡ some a
bound_by a v h = elim (Option-cases (recorded_npub v)) [
  | inl e ↦ absurd (ground arith)
  | inr (recorded, e) ↦ ground (arith, (text_eq_iff recorded a).0)
]

-- Once a start with an npub has succeeded, the data directory is bound to it: a later start succeeds
-- exactly with the same npub, and no start changes the identity file again.
pub bind_service_identity-BoundTo :
    (c : ℕ) (npub : Text) (s : Sentinel)
    → (bind_service_identity (some (c ∷ npub)) s).0 ≡ ok tt
    → let s' = (bind_service_identity (some (c ∷ npub)) s).1 in
      BoundTo (c ∷ npub) s' × ((b : Option Text) → (bind_service_identity b s').1 ≡ s')
unfolding bind_service_identity
bind_service_identity-BoundTo c npub missing h =
    (new-BoundTo c npub, elim [ none ↦ refl | some b ↦ refl ])
bind_service_identity-BoundTo c npub unreadable h = absurd (ground arith)
bind_service_identity-BoundTo c npub (holds v) h =
    (recorded-BoundTo (c ∷ npub) v (bound_by (c ∷ npub) v h), elim [ none ↦ refl | some b ↦ refl ])
