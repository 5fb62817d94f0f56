-- ===== src/Prelude/Dict.antt =====
-- Python's dicts as lists of keys and values, in insertion order.
use spurline.Prelude.Tests.{if◌then◌else◌}
use mathlib.Core.Path.{◌≡◌, refl}
use mathlib.Core.Logic.{◌≢◌, ◌↔◌}
use mathlib.Core.Bool.{Bool, true}
use mathlib.Core.Option.{Option, none, some}
use mathlib.Core.List.{List, [], ◌∷◌}
use native.Mathlib.Omega.{arith}
use spurline.Prelude.Lists.{All}

module _ {K V : Type 0} (eq : K → K → Bool) where
  -- `d.get(key)`
  abbrev pub find : K → List (K × V) → Option V
  find key [] = none
  find key ((k, v) ∷ d) = if eq k key then some v else find key d

  -- `d[key] = value`
  abbrev pub set : K → V → List (K × V) → List (K × V)
  set key v [] = (key, v) ∷ []
  set key v ((k, w) ∷ d) = let rest = set key v d in if eq k key then (k, v) ∷ d else (k, w) ∷ rest

  -- `d.pop(key, None)`
  abbrev pub remove : K → List (K × V) → List (K × V)
  remove key [] = []
  remove key ((k, v) ∷ d) = let rest = remove key d in if eq k key then rest else (k, v) ∷ rest

  pub find-remove : (key : K) (d : List (K × V)) → find key (remove key d) ≡ none
  find-remove key [] = refl
  find-remove key ((k, v) ∷ d) = ground (arith, find-remove key d)

  module _ (eq_iff : (a b : K) → (eq a b ≡ true) ↔ (a ≡ b)) where
    pub find-set : (key : K) (v : V) (d : List (K × V)) → find key (set key v d) ≡ some v
    find-set key v [] = ground (arith, (eq_iff key key).1 refl)
    find-set key v ((k, w) ∷ d) = ground (arith, find-set key v d)

    pub find-set_other :
        (key other : K) (v : V) (d : List (K × V))
        → other ≢ key
        → find other (set key v d) ≡ find other d
    find-set_other key other v [] h = ground (arith, (eq_iff key other).0)
    find-set_other key other v ((k, w) ∷ d) h =
        ground (arith, (eq_iff k key).0, (eq_iff k other).0, find-set_other key other v d h)

    pub find-remove_other :
        (key other : K) (d : List (K × V)) → other ≢ key → find other (remove key d) ≡ find other d
    find-remove_other key other [] h = refl
    find-remove_other key other ((k, w) ∷ d) h =
        ground (arith, (eq_iff k key).0, (eq_iff k other).0, find-remove_other key other d h)

  module _ (P : V → Type 0) where
    pub All-set :
        (key : K) (v : V) (d : List (K × V))
        → P v
        → All (λ x. P x.1) d
        → All (λ x. P x.1) (set key v d)
    All-set key v [] p h = (p, tt)
    All-set key v ((k, w) ∷ d) p h = ground (arith, p, h.0, h.1, All-set key v d p h.1)

    pub All-remove :
        (key : K) (d : List (K × V)) → All (λ x. P x.1) d → All (λ x. P x.1) (remove key d)
    All-remove key [] h = tt
    All-remove key ((k, w) ∷ d) h = ground (arith, h.0, All-remove key d h.1)

    pub find-All :
        (key : K) (v : V) (d : List (K × V)) → All (λ x. P x.1) d → find key d ≡ some v → P v
    find-All key v [] h e = absurd (ground arith)
    find-All key v ((k, w) ∷ d) h e = ground (arith, h.0, find-All key v d h.1)
