-- ===== src/Events/Encodable.antt =====
-- Events whose payload can be encoded: no text of theirs has a lone surrogate.
use spurline.Prelude.{
  ℕ, Bool, true, false, not, all, all-append, ◌≡◌, refl, List, [], ◌∷◌, ◌++◌, map, All, arith,
}
use spurline.Prelude.Int.{pos}
use spurline.Prelude.Text.{Text}
use spurline.Json.{Json, str, num, arr, Items, nil, cons, items_of, int}
use spurline.Json.Dumps.{escape, dumps_chars, dumps_str, dumps, dumps_items}
use spurline.Events.{Crypto, StoredEvent, strings, tags_json, is_surrogate, is_encodable}
use spurline.Events.Validity.{IsHexChar, IsValid}

-- A surrogate is written as itself.
escape-surrogate : (c : ℕ) → is_surrogate c ≡ true → escape c ≡ c ∷ []
unfolding is_surrogate escape
escape-surrogate c h = ground arith

is_encodable-append :
    (a b : Text) → is_encodable (a ++ b) ≡ true → (is_encodable a ≡ true) × (is_encodable b ≡ true)
unfolding is_encodable
is_encodable-append a b h =
    let parts = all-append (λ c. not (is_surrogate c)) a b in (ground arith, ground arith)

escape-encodable : (c : ℕ) → is_encodable (escape c) ≡ true → is_surrogate c ≡ false
unfolding is_encodable
escape-encodable c h = ground (arith, escape-surrogate c)

dumps_chars-encodable :
    (s rest : Text) → is_encodable (dumps_chars s rest) ≡ true → is_encodable s ≡ true
unfolding is_encodable dumps_chars
dumps_chars-encodable [] rest h = refl
dumps_chars-encodable (c ∷ s) rest h =
    let (first, more) = is_encodable-append (escape c) (dumps_chars s rest) h in
    ground (arith, escape-encodable c first, dumps_chars-encodable s rest more)

dumps_str-encodable : (s : Text) → is_encodable (dumps_str s) ≡ true → is_encodable s ≡ true
unfolding is_encodable dumps_str
dumps_str-encodable s h = dumps_chars-encodable s [] (ground arith)

dumps_items-encodable :
    (x : Json) (xs : Items)
    → is_encodable (dumps_items (cons x xs)) ≡ true
    → (is_encodable (dumps x) ≡ true) × (is_encodable (dumps_items xs) ≡ true)
unfolding dumps_items is_encodable
dumps_items-encodable x xs h = is_encodable-append (dumps x) (dumps_items xs) (ground arith)

dumps_arr-encodable :
    (x : Json) (xs : Items)
    → is_encodable (dumps (arr (cons x xs))) ≡ true
    → (is_encodable (dumps x) ≡ true) × (is_encodable (dumps_items xs) ≡ true)
unfolding dumps is_encodable
dumps_arr-encodable x xs h = is_encodable-append (dumps x) (dumps_items xs) (ground arith)

dumps-str : (s : Text) → is_encodable (dumps (str s)) ≡ true → is_encodable s ≡ true
unfolding dumps
dumps-str s h = dumps_str-encodable s h

items-encodable :
    (tag : List Text)
    → is_encodable (dumps_items (items_of (map str tag))) ≡ true
    → all is_encodable tag ≡ true
items-encodable [] h = refl
items-encodable (s ∷ tag) h =
    let (first, more) = dumps_items-encodable (str s) (items_of (map str tag)) h in
    ground (arith, dumps-str s first, items-encodable tag more)

strings-encodable :
    (tag : List Text) → is_encodable (dumps (strings tag)) ≡ true → all is_encodable tag ≡ true
strings-encodable [] h = refl
strings-encodable (s ∷ tag) h =
    let (first, more) = dumps_arr-encodable (str s) (items_of (map str tag)) h in
    ground (arith, dumps-str s first, items-encodable tag more)

tags-encodable :
    (tags : List (List Text))
    → is_encodable (dumps_items (items_of (map strings tags))) ≡ true
    → all (λ t. all is_encodable t) tags ≡ true
tags-encodable [] h = refl
tags-encodable (t ∷ tags) h =
    let (first, more) = dumps_items-encodable (strings t) (items_of (map strings tags)) h in
    ground (arith, strings-encodable t first, tags-encodable tags more)

tags_json-encodable :
    (tags : List (List Text))
    → is_encodable (dumps (tags_json tags)) ≡ true
    → all (λ t. all is_encodable t) tags ≡ true
tags_json-encodable [] h = refl
tags_json-encodable (t ∷ tags) h =
    let (first, more) = dumps_arr-encodable (strings t) (items_of (map strings tags)) h in
    ground (arith, strings-encodable t first, tags-encodable tags more)

hex-encodable : (s : Text) → All IsHexChar s → is_encodable s ≡ true
unfolding is_encodable is_surrogate
hex-encodable [] h = refl
hex-encodable (c ∷ s) (first, more) = ground (arith, hex-encodable s more)

module _ (lib : Crypto) (now : ℕ) (verify : Bool) (e : StoredEvent)
    (valid : IsValid lib now verify e) where
  -- The payload is `[0,pubkey,created_at,kind,tags,content]`.
  payload-encodable :
      (all (λ t. all is_encodable t) e.tags ≡ true) × (is_encodable e.content ≡ true)
  payload-encodable =
      let (_, fields) = dumps_arr-encodable (num (int (pos 0))) _ valid.encodable in
      let (_, times) = dumps_items-encodable (str e.pubkey) _ fields in
      let (_, kinds) = dumps_items-encodable (num e.created_at) _ times in
      let (_, tagged) = dumps_items-encodable (num e.kind) _ kinds in
      let (tags, contents) = dumps_items-encodable (tags_json e.tags) _ tagged in
      let (content, _) = dumps_items-encodable (str e.content) nil contents in
      (tags_json-encodable e.tags tags, dumps-str e.content content)

  pub IsValid-encodable :
      (is_encodable e.id ≡ true)
      × (is_encodable e.pubkey ≡ true)
      × (is_encodable e.content ≡ true)
      × (is_encodable e.sig ≡ true)
      × (all (λ t. all is_encodable t) e.tags ≡ true)
  IsValid-encodable =
      let (tags, content) = payload-encodable in
      (
        hex-encodable e.id valid.id.chars,
        hex-encodable e.pubkey valid.pubkey.chars,
        content,
        hex-encodable e.sig valid.sig.chars,
        tags,
      )
