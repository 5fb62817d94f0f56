-- ===== src/Prelude/Text/Order.antt =====
-- The order of texts by code points is a strict total order, and the texts that begin with a prefix
-- are an interval of it.
use spurline.Prelude.Lists.{All, length}
use spurline.Prelude.Text.{Text, text_eq, text_lt, starts_with}
use Prim.Native.Nat.{◌<◌}
use mathlib.Core.Path.{◌≡◌, refl}
use mathlib.Core.Bool.{true, false, ◌&&◌, not}
use mathlib.Core.List.{[], ◌∷◌, ◌++◌}
use native.Mathlib.Omega.{arith}

pub text_lt_irrefl : (a : Text) → text_lt a a ≡ false
unfolding text_lt
text_lt_irrefl [] = refl
text_lt_irrefl (c ∷ a) = ground (arith, text_lt_irrefl a)

pub text_lt_trans : (a b c : Text) → text_lt a b ≡ true → text_lt b c ≡ true → text_lt a c ≡ true
unfolding text_lt
text_lt_trans a [] c h k = ground arith
text_lt_trans a (y ∷ b) [] h k = ground arith
text_lt_trans [] (y ∷ b) (z ∷ c) h k = refl
text_lt_trans (x ∷ a) (y ∷ b) (z ∷ c) h k = ground (arith, text_lt_trans a b c)

pub text_lt_total : (a b : Text) → text_lt a b ≡ false → text_lt b a ≡ false → a ≡ b
unfolding text_lt
text_lt_total [] [] h k = refl
text_lt_total [] (d ∷ b) h k = ground arith
text_lt_total (c ∷ a) [] h k = ground arith
text_lt_total (c ∷ a) (d ∷ b) h k = ground (arith, text_lt_total a b)

-- Below U+10FFFF the texts with a prefix are those from the prefix up to the prefix followed by
-- U+10FFFF.
pub prefix_interval :
    (value prefix : Text)
    → All (λ c. c < 1114111) value
    → (not (text_lt value prefix) && text_lt value (prefix ++ 1114111 ∷ []))
      ≡ starts_with value prefix
unfolding text_lt starts_with
prefix_interval [] [] h = refl
prefix_interval (c ∷ value) [] h = ground arith
prefix_interval [] (p ∷ prefix) h = refl
prefix_interval (c ∷ value) (p ∷ prefix) h = ground (arith, prefix_interval value prefix h.1)

-- A prefix as long as the text is the text.
pub prefix_of_length :
    (value prefix : Text)
    → length prefix ≡ length value
    → text_eq value prefix ≡ starts_with value prefix
unfolding text_eq starts_with
prefix_of_length [] [] h = refl
prefix_of_length [] (p ∷ prefix) h = ground arith
prefix_of_length (c ∷ value) [] h = ground arith
prefix_of_length (c ∷ value) (p ∷ prefix) h = ground (arith, prefix_of_length value prefix)
