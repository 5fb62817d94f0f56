-- ===== src/Filters/Entries.antt =====
-- The entries of a dict that `normalize_filters` keeps.
use spurline.Prelude.{
  ◌≡◌, ◌↔◌, inl, inr, refl, ap, ◌∙◌, sym, Option, none, some, List, [], ◌∷◌, map, length, arith,
  Option-cases, Bool-cases, if◌then◌else◌,
}
use spurline.Prelude.Text.{Text, codes, text_eq, text_eq_iff}
use spurline.Json.{
  Json, null, num, float, str, arr, obj, Items, nil, cons, Number, elements, items_of, as_list,
  as_str, as_int,
}
use spurline.Events.{string_list}
use spurline.Filters.{
  Entry, ids, authors, kinds, since, until, limit, tag, as_string_list, int_list, as_int_list,
  with_value, tag_entry, clean_entry,
}
use spurline.Filters.Matching.{key_of}

abbrev texts : List Text → Json
texts ss = arr (items_of (map str ss))

abbrev numbers : List Number → Json
numbers ns = arr (items_of (map num ns))

-- the value of an entry in the dict
abbrev pub value_of : Entry → Json
value_of (ids ps) = texts ps
value_of (authors ps) = texts ps
value_of (kinds ns) = numbers ns
value_of (since n) = num n
value_of (until n) = num n
value_of (limit n) = num n
value_of (tag name vs) = texts vs

-- the name of a tag is one character
abbrev pub HasTagName : Entry → Type 0
HasTagName (tag name vs) = length name ≡ 1
HasTagName _ = Unit

items_of-elements : (xs : Items) → items_of (elements xs) ≡ xs
items_of-elements nil = refl
items_of-elements (cons x xs) = ap (cons x) (items_of-elements xs)

elements-items_of : (xs : List Json) → elements (items_of xs) ≡ xs
elements-items_of [] = refl
elements-items_of (x ∷ xs) = ap (λ ys. x ∷ ys) (elements-items_of xs)

string_list-map : (ss : List Text) → string_list (map str ss) ≡ some ss
unfolding string_list
string_list-map [] = refl
string_list-map (s ∷ ss) = rw (string_list-map ss) refl

int_list-map : (ns : List Number) → int_list (map num ns) ≡ some ns
unfolding int_list
int_list-map [] = refl
int_list-map (n ∷ ns) = rw (int_list-map ns) refl

string_list-cons :
    (x : Json) (o : Option (List Text)) (ss : List Text)
    → elim (as_str x) [ none ↦ none | some s ↦ elim o [ none ↦ none | some ts ↦ some (s ∷ ts) ] ]
      ≡ some ss
    → (s : Text) × (ts : List Text) × (x ≡ str s) × (o ≡ some ts) × (ss ≡ s ∷ ts)
string_list-cons (str s) (some ts) ss h = (s, ts, refl, refl, ground (arith, h))
string_list-cons (str s) none ss h = absurd (ground (arith, h))
string_list-cons null o ss h = absurd (ground (arith, h))
string_list-cons (num n) o ss h = absurd (ground (arith, h))
string_list-cons (float t) o ss h = absurd (ground (arith, h))
string_list-cons (arr xs) o ss h = absurd (ground (arith, h))
string_list-cons (obj d) o ss h = absurd (ground (arith, h))

string_list-some : (xs : List Json) (ss : List Text) → string_list xs ≡ some ss → xs ≡ map str ss
unfolding string_list
string_list-some [] [] h = refl
string_list-some [] (s ∷ ss) h = absurd (ground (arith, h))
string_list-some (x ∷ xs) ss h =
    let (s, ts, first, rest, whole) = string_list-cons x (string_list xs) ss h in
    let more = string_list-some xs ts rest in rw whole (cc (first, more))

int_list-cons :
    (x : Json) (o : Option (List Number)) (ns : List Number)
    → elim (as_int x) [ none ↦ none | some n ↦ elim o [ none ↦ none | some ms ↦ some (n ∷ ms) ] ]
      ≡ some ns
    → (n : Number) × (ms : List Number) × (x ≡ num n) × (o ≡ some ms) × (ns ≡ n ∷ ms)
int_list-cons (num n) (some ms) ns h = (n, ms, refl, refl, ground (arith, h))
int_list-cons (num n) none ns h = absurd (ground (arith, h))
int_list-cons null o ns h = absurd (ground (arith, h))
int_list-cons (str s) o ns h = absurd (ground (arith, h))
int_list-cons (float t) o ns h = absurd (ground (arith, h))
int_list-cons (arr xs) o ns h = absurd (ground (arith, h))
int_list-cons (obj d) o ns h = absurd (ground (arith, h))

int_list-some : (xs : List Json) (ns : List Number) → int_list xs ≡ some ns → xs ≡ map num ns
unfolding int_list
int_list-some [] [] h = refl
int_list-some [] (n ∷ ns) h = absurd (ground (arith, h))
int_list-some (x ∷ xs) ns h =
    let (n, ms, first, rest, whole) = int_list-cons x (int_list xs) ns h in
    let more = int_list-some xs ms rest in rw whole (cc (first, more))

arr-some :
    {A : Type 0} (f : List Json → Option (List A)) (g : A → Json)
    → ((xs : List Json) (zs : List A) → f xs ≡ some zs → xs ≡ map g zs)
    → (v : Json) (zs : List A) → elim (as_list v) [ none ↦ none | some items ↦ f items ] ≡ some zs
    → v ≡ arr (items_of (map g zs))
arr-some f g h (arr xs) zs k =
    ap arr (sym (items_of-elements xs) ∙ ap items_of (h (elements xs) zs k))
arr-some f g h null zs k = absurd (ground (arith, k))
arr-some f g h (num n) zs k = absurd (ground (arith, k))
arr-some f g h (float t) zs k = absurd (ground (arith, k))
arr-some f g h (str s) zs k = absurd (ground (arith, k))
arr-some f g h (obj d) zs k = absurd (ground (arith, k))

as_string_list_iff : (v : Json) (ss : List Text) → (as_string_list v ≡ some ss) ↔ (v ≡ texts ss)
unfolding as_string_list
as_string_list_iff v ss = (
  arr-some string_list str string_list-some v ss,
  λ h. rw h (rw (elements-items_of (map str ss)) (string_list-map ss)),
)

as_int_list_iff : (v : Json) (ns : List Number) → (as_int_list v ≡ some ns) ↔ (v ≡ numbers ns)
unfolding as_int_list
as_int_list_iff v ns = (
  arr-some int_list num int_list-some v ns,
  λ h. rw h (rw (elements-items_of (map num ns)) (int_list-map ns)),
)

as_int_iff : (v : Json) (n : Number) → (as_int v ≡ some n) ↔ (v ≡ num n)
as_int_iff (num m) n = (λ h. ground (arith, h), λ h. ground (arith, h))
as_int_iff null n = (λ h. absurd (ground (arith, h)), λ h. absurd (ground (arith, h)))
as_int_iff (str s) n = (λ h. absurd (ground (arith, h)), λ h. absurd (ground (arith, h)))
as_int_iff (float t) n = (λ h. absurd (ground (arith, h)), λ h. absurd (ground (arith, h)))
as_int_iff (arr xs) n = (λ h. absurd (ground (arith, h)), λ h. absurd (ground (arith, h)))
as_int_iff (obj d) n = (λ h. absurd (ground (arith, h)), λ h. absurd (ground (arith, h)))

-- The entry of a dict is the key and the value of the entry of a filter.
abbrev pub IsEntry : Entry → Text → Json → Type 0
IsEntry e key v = (key ≡ key_of e) × (v ≡ value_of e) × HasTagName e

tag_entry-some :
    (key : Text) (v : Json) (e : Entry)
    → tag_entry key v ≡ some e
    → (name : Text) × (vs : List Text) × (e ≡ tag name vs)
      × (key ≡ b'#' ∷ name)
      × (as_string_list v ≡ some vs)
      × (length name ≡ 1)
tag_entry-some [] v e h = absurd (ground (arith, h))
tag_entry-some (c ∷ []) v e h = absurd (ground (arith, h))
tag_entry-some (_ ∷ _ ∷ _ ∷ _) v e h = absurd (ground (arith, h))
tag_entry-some (k ∷ c ∷ []) v e h = elim (Option-cases (as_string_list v)) [
  | inl e' ↦ absurd (ground (arith, h, e'))
  | inr (vs, e') ↦ (c ∷ [], vs, ground (arith, h, e'), ground (arith, h), e', refl)
]

tag_entry-IsEntry : (key : Text) (v : Json) (e : Entry) → tag_entry key v ≡ some e → IsEntry e key v
tag_entry-IsEntry key v e h =
    let (name, vs, same, shape, listed, one) = tag_entry-some key v e h in
    rw same (shape, (as_string_list_iff v vs).0 listed, one)

with_value-some :
    {A : Type 0} (c : A → Entry) (o : Option A) (e : Entry)
    → with_value c o ≡ some e
    → (a : A) × (o ≡ some a) × (e ≡ c a)
with_value-some c none e h = absurd (ground (arith, h))
with_value-some c (some a) e h = (a, refl, ground (arith, h))

texts-IsEntry :
    (c : List Text → Entry) (key : Text) (v : Json) (e : Entry)
    → ((ss : List Text) → v ≡ texts ss → IsEntry (c ss) key v)
    → with_value c (as_string_list v) ≡ some e
    → IsEntry e key v
texts-IsEntry c key v e f h =
    let (ss, listed, same) = with_value-some c (as_string_list v) e h in
    rw same (f ss ((as_string_list_iff v ss).0 listed))

int-IsEntry :
    (c : Number → Entry) (key : Text) (v : Json) (e : Entry)
    → ((n : Number) → v ≡ num n → IsEntry (c n) key v)
    → with_value c (as_int v) ≡ some e
    → IsEntry e key v
int-IsEntry c key v e f h =
    let (n, read, same) = with_value-some c (as_int v) e h in
    rw same (f n ((as_int_iff v n).0 read))

numbers-IsEntry :
    (key : Text) (v : Json) (e : Entry)
    → key ≡ codes "kinds"
    → with_value kinds (as_int_list v) ≡ some e
    → IsEntry e key v
numbers-IsEntry key v e k h =
    let (ns, read, same) = with_value-some kinds (as_int_list v) e h in
    rw same (k, (as_int_list_iff v ns).0 read, tt)

if_key :
    (key : Text) (name : Text) (v : Json) (e : Entry) (o p : Option Entry)
    → (key ≡ name → o ≡ some e → IsEntry e key v)
    → (p ≡ some e → IsEntry e key v)
    → (if text_eq key name then o else p) ≡ some e
    → IsEntry e key v
if_key key name v e o p f g h = elim (Bool-cases (text_eq key name)) [
  | inl same ↦ f ((text_eq_iff key name).0 same) (ground (arith, h, same))
  | inr other ↦ g (ground (arith, h, other))
]

clean_entry-IsEntry :
    (key : Text) (v : Json) (e : Entry) → clean_entry key v ≡ some e → IsEntry e key v
unfolding clean_entry
clean_entry-IsEntry key v e =
    if_key key (codes "ids") v e _ _ (λ k. texts-IsEntry ids key v e (λ ss same. (k, same, tt)))
      (if_key key (codes "authors") v e _ _
        (λ k. texts-IsEntry authors key v e (λ ss same. (k, same, tt)))
        (if_key key (codes "kinds") v e _ _ (λ k. numbers-IsEntry key v e k)
          (if_key key (codes "since") v e _ _
            (λ k. int-IsEntry since key v e (λ n same. (k, same, tt)))
            (if_key key (codes "until") v e _ _
              (λ k. int-IsEntry until key v e (λ n same. (k, same, tt)))
              (if_key key (codes "limit") v e _ _
                (λ k. int-IsEntry limit key v e (λ n same. (k, same, tt)))
                (tag_entry-IsEntry key v e))))))

clean_entry-of : (e : Entry) → HasTagName e → clean_entry (key_of e) (value_of e) ≡ some e
unfolding clean_entry text_eq
clean_entry-of (ids ps) h = rw ((as_string_list_iff (texts ps) ps).1 refl) refl
clean_entry-of (authors ps) h = rw ((as_string_list_iff (texts ps) ps).1 refl) refl
clean_entry-of (kinds ns) h = rw ((as_int_list_iff (numbers ns) ns).1 refl) refl
clean_entry-of (since n) h = refl
clean_entry-of (until n) h = refl
clean_entry-of (limit n) h = refl
clean_entry-of (tag [] vs) h = absurd (ground arith)
clean_entry-of (tag (c ∷ []) vs) h = rw ((as_string_list_iff (texts vs) vs).1 refl) refl
clean_entry-of (tag (c ∷ d ∷ name) vs) h = absurd (ground arith)

pub clean_entry_iff :
    (key : Text) (v : Json) (e : Entry) → (clean_entry key v ≡ some e) ↔ IsEntry e key v
clean_entry_iff key v e = (
  clean_entry-IsEntry key v e,
  λ h. let (k, same, name) = h in rw k (rw same (clean_entry-of e name)),
)
