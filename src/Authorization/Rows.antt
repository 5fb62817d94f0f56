-- ===== src/Authorization/Rows.antt =====
-- src/spurline/witness.py: the rows of the history's table.
use spurline.Prelude.{
  ℕ, suc, ◌+◌, ◌≤◌, ◌<◌, ◌≡◌, ◌⊎◌, inl, inr, Bool-cases, refl, sym, ap, subst, Option, none, some,
  List, [], ◌∷◌, ◌++◌, length, arith, ok, returns,
}
use spurline.Prelude.Text.{Text, codes}
use spurline.Json.{obj, Fields, contains}
use spurline.Receipts.{Codec, canonical_json}
use spurline.Authorization.{
  AuthorizationState, read_dict, load, read_rows, legacy, read_history, insert_row, import_rows,
  table, append_entry, history_invalid,
}

-- the rows have the numbers from n on
abbrev pub IsNumbered : ℕ → List (ℕ × Text) → Type 0
IsNumbered n [] = Unit
IsNumbered n ((m, text) ∷ rows) = (m ≡ n) × IsNumbered (suc n) rows

insert_row-last :
    (n : ℕ) (text : Text) (rows : List (ℕ × Text))
    → IsNumbered n rows
    → insert_row (n + length rows) text rows ≡ some (rows ++ (n + length rows, text) ∷ [])
unfolding insert_row
insert_row-last n text [] h = refl
insert_row-last n text ((m, old) ∷ rows) h =
    ground (arith, h.0, insert_row-last (suc n) text rows h.1)

IsNumbered-append :
    (n : ℕ) (text : Text) (rows : List (ℕ × Text))
    → IsNumbered n rows
    → IsNumbered n (rows ++ (n + length rows, text) ∷ [])
IsNumbered-append n text [] h = (omega arith, tt)
IsNumbered-append n text ((m, old) ∷ rows) h = (
  h.0,
  subst (λ k. IsNumbered (suc n) (rows ++ (k, text) ∷ [])) (omega arith)
      (IsNumbered-append (suc n) text rows h.1),
)

insert_row-taken :
    (n k : ℕ) (text : Text) (rows : List (ℕ × Text))
    → IsNumbered n rows
    → n ≤ k
    → k < n + length rows
    → insert_row k text rows ≡ none
unfolding insert_row
insert_row-taken n k text [] h a b = absurd (omega (arith, a, b))
insert_row-taken n k text ((m, old) ∷ rows) h a b =
    ground (arith, h.0, a, b, insert_row-taken (suc n) k text rows h.1)

-- an import of entries that are there changes nothing
import_rows-same :
    (k : ℕ) (history : List Fields) (rows : List (ℕ × Text))
    → IsNumbered 1 rows
    → 1 ≤ k
    → k + length history ≤ suc (length rows)
    → import_rows k history rows ≡ rows
unfolding import_rows
import_rows-same k [] rows h a b = refl
import_rows-same k (old ∷ history) rows h a b =
    rw (insert_row-taken 1 k (canonical_json (obj old)) rows h a (omega (arith, b)))
      (import_rows-same (suc k) history rows h (omega arith) (omega (arith, b)))

module _ (codec : Codec) where
  read_rows-length :
      (rows : List (ℕ × Text)) (history : List Fields)
      → read_rows codec rows ≡ ok history
      → length history ≡ length rows
  read_rows-length [] history h = ground (arith, h)
  read_rows-length ((n, text) ∷ rows) history h =
      let (entry, he) =
        returns (read_dict codec history_invalid text) (λ e k. ground (arith, h, k)) in
      let (entries, hs) = returns (read_rows codec rows) (λ e k. ground (arith, h, he, k)) in
      ground (arith, h, he, hs, read_rows-length rows entries hs)

  -- the rows that an append leaves: those of the history, and the new entry under the next number
  pub record Appends (history : List Fields) (entry : Fields) (s s' : AuthorizationState)
      : Type 0 where
    pub earlier : List (ℕ × Text)
    pub same_length : length earlier ≡ length history
    pub kept : (earlier ≡ table s.history) ⊎ (s.history ≡ none)
    pub rows :
        s'.history ≡ some (earlier ++ (suc (length history), canonical_json (obj entry)) ∷ [])
    pub numbered : IsNumbered 1 (earlier ++ (suc (length history), canonical_json (obj entry)) ∷ [])
    pub same_row : s'.row ≡ s.row
    pub same_controls : s'.controls ≡ s.controls

  pub appended :
      (history : List Fields) (entry : Fields) (s s' : AuthorizationState)
      (earlier : List (ℕ × Text))
      → import_rows 1 history (table s.history) ≡ earlier
      → IsNumbered 1 earlier
      → length earlier ≡ length history
      → (earlier ≡ table s.history) ⊎ (s.history ≡ none)
      → append_entry history entry s ≡ ok s'
      → Appends history entry s s'
  unfolding append_entry
  appended history entry s s' earlier imported numbered same stays h =
      let text : Text = canonical_json (obj entry) in
      let next : 1 + length earlier ≡ suc (length history) = omega (arith, same) in
      let put : insert_row (suc (length history)) text earlier
          ≡ some (earlier ++ (suc (length history), text) ∷ []) =
        subst (λ k. insert_row k text earlier ≡ some (earlier ++ (k, text) ∷ [])) next
          (insert_row-last 1 text earlier numbered) in
      let left : record s { history = some (earlier ++ (suc (length history), text) ∷ []) } ≡ s' =
        ground (arith, h, imported, put) in
      record {
        earlier = earlier;
        same_length = same;
        kept = stays;
        rows = ap (λ (t : AuthorizationState). t.history) (sym left);
        numbered =
            subst (λ k. IsNumbered 1 (earlier ++ (k, text) ∷ [])) next
              (IsNumbered-append 1 text earlier numbered);
        same_row = ap (λ (t : AuthorizationState). t.row) (sym left);
        same_controls = ap (λ (t : AuthorizationState). t.controls) (sym left);
      }

  legacy_imported :
      (old : Fields)
      → (earlier : List (ℕ × Text)) × (import_rows 1 (legacy codec old) [] ≡ earlier)
        × IsNumbered 1 earlier
        × (length earlier ≡ length (legacy codec old))
  unfolding import_rows insert_row
  legacy_imported old = elim (Bool-cases (contains (codes "authorization") old)) [
    | inl e ↦ rw e ((1, canonical_json (obj old)) ∷ [], refl, (refl, tt), refl)
    | inr e ↦ rw e ([], refl, tt, refl)
  ]

  read_history-legacy :
      (s : AuthorizationState) (history : List Fields)
      → s.history ≡ none
      → read_history codec s ≡ ok history
      → (old : Fields) × (legacy codec old ≡ history)
  unfolding read_history
  read_history-legacy s history e h =
      let (old, ho) = returns (load codec s) (λ r k. ground (arith, h, e, k)) in
      (old, ground (arith, h, e, ho))

  -- the entries of the history stand in the table, or there is no table
  imported_rows :
      (history : List Fields) (s : AuthorizationState) (o : Option (List (ℕ × Text)))
      → s.history ≡ o
      → read_history codec s ≡ ok history
      → IsNumbered 1 (table s.history)
      → (earlier : List (ℕ × Text)) × (import_rows 1 history (table s.history) ≡ earlier)
        × IsNumbered 1 earlier
        × (length earlier ≡ length history)
        × ((earlier ≡ table s.history) ⊎ (s.history ≡ none))
  unfolding read_history
  imported_rows history s (some rows) e h n =
      let same = read_rows-length rows history (ground (arith, h, e)) in
      let size : length (table s.history) ≡ length history = rw e (sym same) in
      (
        table s.history,
        import_rows-same 1 history (table s.history) n (omega arith) (omega (arith, size)),
        n,
        size,
        inl refl,
      )
  imported_rows history s none e h n =
      let (old, ho) = read_history-legacy s history e h in
      let (earlier, i, k, l) = legacy_imported old in
      (
        earlier,
        rw e (subst (λ x. import_rows 1 x [] ≡ earlier) ho i),
        k,
        subst (λ (x : List Fields). length earlier ≡ length x) ho l,
        inr e,
      )

  -- An append to the history that was read adds one row under the next number.
  pub append_entry-Appends :
      (history : List Fields) (entry : Fields) (s s' : AuthorizationState)
      → read_history codec s ≡ ok history
      → IsNumbered 1 (table s.history)
      → append_entry history entry s ≡ ok s'
      → Appends history entry s s'
  append_entry-Appends history entry s s' h n a =
      let (earlier, i, k, l, stays) = imported_rows history s s.history refl h n in
      appended history entry s s' earlier i k l stays a
