-- ===== src/Prelude/Text.antt =====
-- Python's `str` as the list of its code points.
pub mod Order
use Prim.Native.Nat.{ℕ}
use Prim.Native.Char.{code}
use Prim.Native.String.{String}
use mathlib.Core.Path.{◌≡◌, refl, ap}
use mathlib.Core.Logic.{◌↔◌}
use mathlib.Core.Bool.{Bool, true, false, ◌&&◌, ◌||◌}
use mathlib.Core.List.{List, [], ◌∷◌, ◌++◌}
use native.Mathlib.Omega.{arith}
use spurline.Prelude.Tests.{ltb, ◌==◌}
use spurline.Prelude.Lists.{any}

abbrev pub Text : Type 0
Text = List ℕ

abbrev pub codes : String → Text
codes String.[] = []
codes (String.◌∷◌ c s) = code c ∷ codes s

-- `a == b`
unfoldable pub text_eq : Text → Text → Bool
text_eq [] [] = true
text_eq [] (c ∷ t) = false
text_eq (c ∷ s) [] = false
text_eq (c ∷ s) (d ∷ t) = c == d && text_eq s t

-- `value.startswith(prefix)`
unfoldable pub starts_with : Text → Text → Bool
starts_with value [] = true
starts_with [] (p ∷ prefix) = false
starts_with (c ∷ value) (p ∷ prefix) = c == p && starts_with value prefix

-- `a < b`: by code points, the shorter first. SQLite compares the UTF-8 bytes, whose order is the
-- same.
unfoldable pub text_lt : Text → Text → Bool
text_lt s [] = false
text_lt [] (d ∷ t) = true
text_lt (c ∷ s) (d ∷ t) = ltb c d || (c == d && text_lt s t)

-- `value in values`
abbrev pub text_in : Text → List Text → Bool
text_in value values = any (λ v. text_eq value v) values

text_eq→eq : (a b : Text) → text_eq a b ≡ true → a ≡ b
unfolding text_eq
text_eq→eq [] [] h = refl
text_eq→eq [] (c ∷ t) h = ground arith
text_eq→eq (c ∷ s) [] h = ground arith
text_eq→eq (c ∷ s) (d ∷ t) h = ground (arith, text_eq→eq s t)

pub text_eq_refl : (a : Text) → text_eq a a ≡ true
unfolding text_eq
text_eq_refl [] = refl
text_eq_refl (c ∷ s) = ground (arith, text_eq_refl s)

pub text_eq_iff : (a b : Text) → (text_eq a b ≡ true) ↔ (a ≡ b)
text_eq_iff a b = (text_eq→eq a b, λ e. cc (text_eq_refl a, ap (λ (t : Text). text_eq a t) e))

-- `value` is `prefix` and something after it.
abbrev pub IsPrefix : Text → Text → Type 0
IsPrefix prefix value = (rest : Text) × (value ≡ prefix ++ rest)

starts_with→IsPrefix :
    (value prefix : Text) → starts_with value prefix ≡ true → IsPrefix prefix value
unfolding starts_with
starts_with→IsPrefix value [] h = (value, refl)
starts_with→IsPrefix [] (p ∷ prefix) h = ground arith
starts_with→IsPrefix (c ∷ value) (p ∷ prefix) h =
    let (rest, e) = starts_with→IsPrefix value prefix (ground arith) in (rest, ground arith)

pub starts_with-append : (prefix rest : Text) → starts_with (prefix ++ rest) prefix ≡ true
unfolding starts_with
starts_with-append [] rest = refl
starts_with-append (p ∷ prefix) rest = ground (arith, starts_with-append prefix rest)

pub starts_with_iff :
    (value prefix : Text) → (starts_with value prefix ≡ true) ↔ IsPrefix prefix value
starts_with_iff value prefix =
    (starts_with→IsPrefix value prefix, λ (rest, e). rw e (starts_with-append prefix rest))
