-- ===== src/Json.antt =====
-- The values that `json.loads` gives: None, numbers, strings, lists and dicts. Python's `bool` is a
-- subclass of `int`, so `isinstance(x, int)` accepts True and False, and they compare as 1 and 0.
pub mod Dumps
pub mod Equal
use spurline.Prelude.{
  Bool, true, false, Option, none, some, if◌then◌else◌, List, [], ◌∷◌, map, Outcome, or_raise,
}
use spurline.Prelude.Int.{ℤ, pos}
use spurline.Prelude.Text.{Text, text_eq}

pub data Number : Type 0 where
  int : ℤ → Number
  bool : Bool → Number

-- the integer that a number compares as
abbrev pub value : Number → ℤ
value (int n) = n
value (bool true) = pos 1
value (bool false) = pos 0

-- A float is kept as it is printed: the program only tells that it is no `int`.
mutual
  pub data Json : Type 0 where
    null : Json
    num : Number → Json
    float : Text → Json
    str : Text → Json
    arr : Items → Json
    obj : Fields → Json

  pub data Items : Type 0 where
    nil : Items
    cons : Json → Items → Items

  -- a dict, in insertion order; each key stands once
  pub data Fields : Type 0 where
    end : Fields
    field : Text → Json → Fields → Fields

abbrev pub elements : Items → List Json
elements nil = []
elements (cons x xs) = x ∷ elements xs

abbrev pub items_of : List Json → Items
items_of [] = nil
items_of (x ∷ xs) = cons x (items_of xs)

-- `d.items()`
abbrev pub entries : Fields → List (Text × Json)
entries end = []
entries (field k v d) = (k, v) ∷ entries d

-- `d.get(key)`, told apart from a stored None
abbrev pub lookup : Text → Fields → Option Json
lookup key end = none
lookup key (field k v d) = if text_eq key k then some v else lookup key d

-- `key in d`
abbrev pub contains : Text → Fields → Bool
contains key d = elim (lookup key d) [ none ↦ false | some _ ↦ true ]

-- isinstance(x, str), isinstance(x, int), isinstance(x, list), isinstance(x, dict)
abbrev pub as_str : Json → Option Text
as_str (str s) = some s
as_str _ = none

abbrev pub as_int : Json → Option Number
as_int (num n) = some n
as_int _ = none

abbrev pub as_list : Json → Option (List Json)
as_list (arr xs) = some (elements xs)
as_list _ = none

abbrev pub as_dict : Json → Option Fields
as_dict (obj d) = some d
as_dict _ = none
