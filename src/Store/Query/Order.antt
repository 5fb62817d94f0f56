-- ===== src/Store/Query/Order.antt =====
-- Lists of keys in descending order as finite sets: insertion without repetition.
use spurline.Prelude.{
  ℕ, zero, suc, true, false, ◌≡◌, refl, ap, ◌∙◌, sym, List, [], ◌∷◌, take, arith, if◌then◌else◌,
}
use spurline.Prelude.Int.{eq_ℤ_iff}
use spurline.Prelude.Text.Order.{text_lt_irrefl, text_lt_trans, text_lt_total}
use spurline.Store.Query.{Key, key_lt}

key_lt_irrefl : (k : Key) → key_lt k k ≡ false
unfolding key_lt
key_lt_irrefl (t, i) = ground (arith, text_lt_irrefl i)

key_lt_trans : (a b c : Key) → key_lt a b ≡ true → key_lt b c ≡ true → key_lt a c ≡ true
unfolding key_lt
key_lt_trans (t, i) (u, j) (v, k) h g = ground (arith, text_lt_trans i j k)

pub key_lt_total : (a b : Key) → key_lt a b ≡ false → key_lt b a ≡ false → a ≡ b
unfolding key_lt
key_lt_total (t, i) (u, j) h g = ground (arith, text_lt_total i j, eq_ℤ_iff t u)

key_lt_asym : (a b : Key) → key_lt a b ≡ true → key_lt b a ≡ false
key_lt_asym a b h = ground (arith, key_lt_trans a b a, key_lt_irrefl a)

unfoldable pub ins : Key → List Key → List Key
ins k [] = k ∷ []
ins k (x ∷ xs) = if key_lt k x then x ∷ ins k xs else if key_lt x k then k ∷ x ∷ xs else x ∷ xs

pub ins_comm : (a b : Key) (xs : List Key) → ins a (ins b xs) ≡ ins b (ins a xs)
unfolding ins
ins_comm a b [] = ground (arith, key_lt_asym a b, key_lt_asym b a, key_lt_total a b)
ins_comm a b (x ∷ xs) = ground (
  arith,
  key_lt_asym a b,
  key_lt_asym b a,
  key_lt_total a b,
  key_lt_asym a x,
  key_lt_asym x a,
  key_lt_total a x,
  key_lt_asym b x,
  key_lt_asym x b,
  key_lt_total b x,
  key_lt_trans a x b,
  key_lt_trans b x a,
  ins_comm a b xs,
)

pub ins_idem : (a : Key) (xs : List Key) → ins a (ins a xs) ≡ ins a xs
unfolding ins
ins_idem a [] = ground (arith, key_lt_irrefl a)
ins_idem a (x ∷ xs) = ground (arith, key_lt_irrefl a, key_lt_asym a x, ins_idem a xs)

take-take : (n : ℕ) (xs : List Key) → take n (take n xs) ≡ take n xs
take-take zero xs = refl
take-take (suc n) [] = refl
take-take (suc n) (x ∷ xs) = ap (◌∷◌ x) (take-take n xs)

-- A list without its last element beyond the first n.
take-cons-take : (n : ℕ) (x : Key) (xs : List Key) → take n (x ∷ take n xs) ≡ take n (x ∷ xs)
take-cons-take zero x xs = refl
take-cons-take (suc n) x [] = refl
take-cons-take (suc n) x (y ∷ xs) = ap (◌∷◌ x) (take-cons-take n y xs)

-- What lies beyond the first n does not come among them by an insertion.
take-ins : (n : ℕ) (k : Key) (xs : List Key) → take n (ins k (take n xs)) ≡ take n (ins k xs)
unfolding ins
take-ins zero k xs = refl
take-ins (suc n) k [] = refl
take-ins (suc n) k (x ∷ xs) = ground (arith, take-ins n k xs, take-cons-take n x xs, take-take n xs)

abbrev pub ins_all : List Key → List Key → List Key
ins_all [] s = s
ins_all (k ∷ ks) s = ins k (ins_all ks s)

pub ins-ins_all : (k : Key) (ks s : List Key) → ins k (ins_all ks s) ≡ ins_all ks (ins k s)
ins-ins_all k [] s = refl
ins-ins_all k (x ∷ ks) s = ins_comm k x (ins_all ks s) ∙ ap (ins x) (ins-ins_all k ks s)

pub ins_all_swap : (xs ys : List Key) → ins_all xs (ins_all ys []) ≡ ins_all ys (ins_all xs [])
ins_all_swap [] ys = refl
ins_all_swap (x ∷ xs) ys = ap (ins x) (ins_all_swap xs ys) ∙ ins-ins_all x ys (ins_all xs [])

pub take-ins_all :
    (n : ℕ) (ks s : List Key) → take n (ins_all ks (take n s)) ≡ take n (ins_all ks s)
take-ins_all n [] s = take-take n s
take-ins_all n (k ∷ ks) s =
    sym (take-ins n k (ins_all ks (take n s)))
    ∙ ap (λ t. take n (ins k t)) (take-ins_all n ks s)
    ∙ take-ins n k (ins_all ks s)

-- Strictly descending, neighbour by neighbour.
abbrev pub Above : Key → List Key → Type 0
Above k [] = Unit
Above k (x ∷ xs) = key_lt x k ≡ true

abbrev pub IsDesc : List Key → Type 0
IsDesc [] = Unit
IsDesc (x ∷ xs) = Above x xs × IsDesc xs

Above-ins : (k x : Key) (xs : List Key) → key_lt k x ≡ true → Above x xs → Above x (ins k xs)
unfolding ins
Above-ins k x [] h a = h
Above-ins k x (y ∷ xs) h a = ground arith

pub ins-IsDesc : (k : Key) (xs : List Key) → IsDesc xs → IsDesc (ins k xs)
unfolding ins
ins-IsDesc k [] h = (tt, tt)
ins-IsDesc k (x ∷ xs) h = ground (arith, Above-ins k x xs, ins-IsDesc k xs h.1)

pub ins_all-IsDesc : (ks s : List Key) → IsDesc s → IsDesc (ins_all ks s)
ins_all-IsDesc [] s h = h
ins_all-IsDesc (k ∷ ks) s h = ins-IsDesc k (ins_all ks s) (ins_all-IsDesc ks s h)

Above-take : (n : ℕ) (x : Key) (xs : List Key) → Above x xs → Above x (take n xs)
Above-take zero x xs h = tt
Above-take (suc n) x [] h = tt
Above-take (suc n) x (y ∷ xs) h = h

pub take-IsDesc : (n : ℕ) (xs : List Key) → IsDesc xs → IsDesc (take n xs)
take-IsDesc zero xs h = tt
take-IsDesc (suc n) [] h = tt
take-IsDesc (suc n) (x ∷ xs) h = (Above-take n x xs h.0, take-IsDesc n xs h.1)

ins_head : (x : Key) (xs : List Key) → Above x xs → ins x xs ≡ x ∷ xs
unfolding ins
ins_head x [] h = refl
ins_head x (y ∷ xs) h = ground (arith, key_lt_asym y x h)

-- Inserting the keys of a descending list one by one gives the list.
pub ins_all_of_IsDesc : (xs : List Key) → IsDesc xs → ins_all xs [] ≡ xs
ins_all_of_IsDesc [] h = refl
ins_all_of_IsDesc (x ∷ xs) h = ap (ins x) (ins_all_of_IsDesc xs h.1) ∙ ins_head x xs h.0

ins_all_comm : (xs ys : List Key) → IsDesc xs → IsDesc ys → ins_all xs ys ≡ ins_all ys xs
ins_all_comm xs ys hx hy =
    ap (ins_all xs) (sym (ins_all_of_IsDesc ys hy))
    ∙ ins_all_swap xs ys
    ∙ ap (ins_all ys) (ins_all_of_IsDesc xs hx)

-- The first n of a union need only the first n of each part.
pub take-ins_all-take :
    (n : ℕ) (xs ys : List Key)
    → IsDesc xs
    → IsDesc ys
    → take n (ins_all (take n xs) ys) ≡ take n (ins_all xs ys)
take-ins_all-take n xs ys hx hy =
    ap (take n) (ins_all_comm (take n xs) ys (take-IsDesc n xs hx) hy)
    ∙ take-ins_all n ys xs
    ∙ ap (take n) (ins_all_comm ys xs hy hx)
