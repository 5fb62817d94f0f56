-- ===== src/Store/Query/Sorting.antt =====
-- The sort of a query, by the keys of the list.
use spurline.Prelude.{◌≡◌, ◌≢◌, refl, ap, ◌∙◌, List, [], ◌∷◌, map, All, arith}
use spurline.Store.Query.{Key, insert_desc, sort_desc}
use spurline.Store.Query.Order.{ins, ins_all, key_lt_total}

module _ {A : Type 0} (key : A → Key) where
  abbrev pub DistinctKeys : List A → Type 0
  DistinctKeys [] = Unit
  DistinctKeys (x ∷ xs) = All (λ y. key x ≢ key y) xs × DistinctKeys xs

  pub All-insert_desc :
      (P : A → Type 0) (a : A) (xs : List A) → P a → All P xs → All P (insert_desc key a xs)
  unfolding insert_desc
  All-insert_desc P a [] h k = (h, tt)
  All-insert_desc P a (x ∷ xs) h k = ground (arith, h, k.0, k.1, All-insert_desc P a xs h k.1)

  pub All-sort_desc : (P : A → Type 0) (xs : List A) → All P xs → All P (sort_desc key xs)
  unfolding sort_desc
  All-sort_desc P [] h = tt
  All-sort_desc P (x ∷ xs) h = All-insert_desc P x (sort_desc key xs) h.0 (All-sort_desc P xs h.1)

  map-insert_desc :
      (a : A) (xs : List A)
      → All (λ y. key a ≢ key y) xs
      → map key (insert_desc key a xs) ≡ ins (key a) (map key xs)
  unfolding insert_desc ins
  map-insert_desc a [] h = refl
  map-insert_desc a (x ∷ xs) h =
      ground (arith, key_lt_total (key a) (key x), h.0, map-insert_desc a xs h.1)

  -- Sorting a list with distinct keys puts its keys in descending order.
  pub map-sort_desc :
      (xs : List A) → DistinctKeys xs → map key (sort_desc key xs) ≡ ins_all (map key xs) []
  unfolding sort_desc
  map-sort_desc [] h = refl
  map-sort_desc (x ∷ xs) h =
      map-insert_desc x (sort_desc key xs) (All-sort_desc (λ y. key x ≢ key y) xs h.0)
      ∙ ap (ins (key x)) (map-sort_desc xs h.1)
