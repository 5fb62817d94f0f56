-- ===== src/Json/Dumps.antt =====
-- `json.dumps(value, ensure_ascii=False, separators=(",", ":"))`
use spurline.Prelude.{
  ℕ, zero, suc, ◌+◌, ◌/◌, ◌%◌, true, false, [], ◌∷◌, ◌++◌, ltb, ◌==◌, if◌then◌else◌,
}
use spurline.Prelude.Int.{ℤ, pos, negsuc}
use spurline.Prelude.Text.{Text, codes}
use spurline.Json.{
  Json, null, num, float, str, arr, obj, Items, nil, cons, Fields, end, field, Number, int, bool,
}

-- `str(n)`. Each round divides by ten, so `suc n` rounds are enough.
unfoldable pub decimal_digits : ℕ → ℕ → Text → Text
decimal_digits zero n acc = acc
decimal_digits (suc fuel) n acc =
    let more = decimal_digits fuel (n / 10) ((n % 10 + 48) ∷ acc) in
    if ltb n 10 then (n + 48) ∷ acc else more

unfoldable pub decimal : ℕ → Text
unfolding decimal_digits
decimal n = decimal_digits (suc n) n []

unfoldable pub dumps_int : ℤ → Text
unfolding decimal
dumps_int (pos n) = decimal n
dumps_int (negsuc n) = b'-' ∷ decimal (suc n)

unfoldable pub dumps_number : Number → Text
unfolding dumps_int
dumps_number (int n) = dumps_int n
dumps_number (bool true) = codes "true"
dumps_number (bool false) = codes "false"

unfoldable pub hex_digit : ℕ → ℕ
hex_digit d = if ltb d 10 then d + 48 else d + 87

-- One character of a string: the two-character escapes, `\u00XX` below the space, itself.
unfoldable pub escape : ℕ → Text
unfolding hex_digit
escape c =
    if c == 34
    then 92 ∷ 34 ∷ []
    else if c == 92
    then 92 ∷ 92 ∷ []
    else if c == 10
    then 92 ∷ b'n' ∷ []
    else if c == 13
    then 92 ∷ b'r' ∷ []
    else if c == 9
    then 92 ∷ b't' ∷ []
    else if c == 12
    then 92 ∷ b'f' ∷ []
    else if c == 8
    then 92 ∷ b'b' ∷ []
    else if ltb c 32
    then 92 ∷ b'u' ∷ 48 ∷ 48 ∷ hex_digit (c / 16) ∷ hex_digit (c % 16) ∷ []
    else c ∷ []

-- the characters of a string and its closing quote, before what follows
unfoldable pub dumps_chars : Text → Text → Text
unfolding escape
dumps_chars [] rest = 34 ∷ rest
dumps_chars (c ∷ s) rest = escape c ++ dumps_chars s rest

unfoldable pub dumps_str : Text → Text
unfolding dumps_chars
dumps_str s = 34 ∷ dumps_chars s []

unfoldable mutual
  unfolding dumps_str dumps_number

  pub dumps : Json → Text
  dumps null = codes "null"
  dumps (num n) = dumps_number n
  dumps (float t) = t
  dumps (str s) = dumps_str s
  dumps (arr nil) = codes "[]"
  dumps (arr (cons x xs)) = b'[' ∷ (dumps x ++ dumps_items xs)
  dumps (obj end) = codes "{}"
  dumps (obj (field k v d)) = b'{' ∷ (dumps_str k ++ b':' ∷ (dumps v ++ dumps_fields d))

  -- the items after the first, and the bracket
  pub dumps_items : Items → Text
  dumps_items nil = b']' ∷ []
  dumps_items (cons x xs) = b',' ∷ (dumps x ++ dumps_items xs)

  pub dumps_fields : Fields → Text
  dumps_fields end = b'}' ∷ []
  dumps_fields (field k v d) = b',' ∷ (dumps_str k ++ b':' ∷ (dumps v ++ dumps_fields d))
