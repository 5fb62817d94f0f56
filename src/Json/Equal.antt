-- ===== src/Json/Equal.antt =====
-- Python's `==` on the values of `json.loads`: dicts as sets of entries, True as 1, and 1 as 1.0. A
-- float is given by its `repr`, and two floats are equal if they are printed the same or are zeros. A
-- float of 10^16 or more, which is printed with an exponent, is taken to differ from every integer,
-- and nan to equal itself.
use spurline.Prelude.{Bool, true, false, ◌&&◌, ◌++◌, if◌then◌else◌, ◌≡◌, refl, arith}
use spurline.Prelude.Int.{ℤ, pos, eq_ℤ, eq_ℤ_iff}
use spurline.Prelude.Text.{Text, codes, text_eq, text_lt, text_eq_refl}
use spurline.Json.{
  Json, null, num, int, float, str, arr, obj, Items, nil, cons, Fields, end, field, value,
}
use spurline.Json.Dumps.{dumps_int, decimal, decimal_digits}

-- the dict with its keys in order
abbrev pub insert_field : Text → Json → Fields → Fields
insert_field k v end = field k v end
insert_field k v (field l w d) =
    let rest = insert_field k v d in if text_lt l k then field l w rest else field k v (field l w d)

unfoldable mutual
  pub sorted : Json → Json
  sorted null = null
  sorted (num n) = num n
  sorted (float t) = float t
  sorted (str s) = str s
  sorted (arr xs) = arr (sorted_items xs)
  sorted (obj d) = obj (sorted_fields d)

  pub sorted_items : Items → Items
  sorted_items nil = nil
  sorted_items (cons x xs) = cons (sorted x) (sorted_items xs)

  pub sorted_fields : Fields → Fields
  sorted_fields end = end
  sorted_fields (field k v d) = insert_field k (sorted v) (sorted_fields d)

-- the float without the sign of a zero
abbrev pub unsigned_zero : Text → Text
unsigned_zero t = if text_eq t (codes "-0.0") then codes "0.0" else t

-- an integer and a float
unfoldable pub is_whole : ℤ → Text → Bool
is_whole n t = text_eq (unsigned_zero t) (dumps_int n ++ codes ".0")

unfoldable mutual
  unfolding is_whole

  pub same : Json → Json → Bool
  same null null = true
  same (num m) (num n) = eq_ℤ (value m) (value n)
  same (num m) (float t) = is_whole (value m) t
  same (float s) (num n) = is_whole (value n) s
  same (float s) (float t) = text_eq (unsigned_zero s) (unsigned_zero t)
  same (str s) (str t) = text_eq s t
  same (arr xs) (arr ys) = same_items xs ys
  same (obj d) (obj e) = same_fields d e
  same _ _ = false

  pub same_items : Items → Items → Bool
  same_items nil nil = true
  same_items (cons x xs) (cons y ys) = same x y && same_items xs ys
  same_items _ _ = false

  pub same_fields : Fields → Fields → Bool
  same_fields end end = true
  same_fields (field k v d) (field l w e) = text_eq k l && (same v w && same_fields d e)
  same_fields _ _ = false

-- `a == b`
unfoldable pub json_eq : Json → Json → Bool
json_eq a b = same (sorted a) (sorted b)

mutual
  unfolding same

  pub same_refl : (v : Json) → same v v ≡ true
  same_refl null = refl
  same_refl (num n) = (eq_ℤ_iff (value n) (value n)).1 refl
  same_refl (float t) = text_eq_refl (unsigned_zero t)
  same_refl (str s) = text_eq_refl s
  same_refl (arr xs) = same_items_refl xs
  same_refl (obj d) = same_fields_refl d

  pub same_items_refl : (xs : Items) → same_items xs xs ≡ true
  same_items_refl nil = refl
  same_items_refl (cons x xs) = ground (arith, same_refl x, same_items_refl xs)

  pub same_fields_refl : (d : Fields) → same_fields d d ≡ true
  same_fields_refl end = refl
  same_fields_refl (field k v d) = ground (arith, text_eq_refl k, same_refl v, same_fields_refl d)

pub json_eq_refl : (v : Json) → json_eq v v ≡ true
unfolding json_eq
json_eq_refl v = same_refl (sorted v)

-- 1 == 1.0, 0 == -0.0, and 1 != 1.5
whole_run :
    (json_eq (num (int (pos 1))) (float (codes "1.0")) ≡ true)
    × (json_eq (float (codes "-0.0")) (num (int (pos 0))) ≡ true)
    × (json_eq (num (int (pos 1))) (float (codes "1.5")) ≡ false)
unfolding json_eq same sorted is_whole dumps_int decimal decimal_digits text_eq
whole_run = (refl, refl, refl)
