-- ===== src/Events/Reading.antt =====
-- `from_dict` and `to_dict`: which dicts are read as which events.
use spurline.Prelude.{◌≡◌, refl, ap, some, List, [], ◌∷◌, map, arith, Option-cases, inl, inr, ok}
use spurline.Prelude.Text.{Text, codes, text_eq}
use spurline.Json.{
  Json, str, num, arr, Items, nil, cons, Fields, Number, items_of, elements, lookup,
}
use spurline.Events.{
  StoredEvent, from_dict, to_dict, str_field, int_field, tags_field, string_list, tag_list, as_tags,
  strings, tags_json,
}

-- The dict holds the event's values under the event's keys.
pub record Reads (event : Fields) (e : StoredEvent) : Type 0 where
  pub id : lookup (codes "id") event ≡ some (str e.id)
  pub pubkey : lookup (codes "pubkey") event ≡ some (str e.pubkey)
  pub created_at : lookup (codes "created_at") event ≡ some (num e.created_at)
  pub kind : lookup (codes "kind") event ≡ some (num e.kind)
  pub tags : lookup (codes "tags") event ≡ some (tags_json e.tags)
  pub content : lookup (codes "content") event ≡ some (str e.content)
  pub sig : lookup (codes "sig") event ≡ some (str e.sig)

items_of-elements : (xs : Items) → items_of (elements xs) ≡ xs
items_of-elements nil = refl
items_of-elements (cons x xs) = ap (cons x) (items_of-elements xs)

elements-items_of : (xs : List Json) → elements (items_of xs) ≡ xs
elements-items_of [] = refl
elements-items_of (x ∷ xs) = ap (◌∷◌ x) (elements-items_of xs)

string_list-map : (ss : List Text) → string_list (map str ss) ≡ some ss
unfolding string_list
string_list-map [] = refl
string_list-map (s ∷ ss) = rw (string_list-map ss, string_list)

eq_of_string_list : (xs : List Json) (ss : List Text) → string_list xs ≡ some ss → xs ≡ map str ss
unfolding string_list
eq_of_string_list [] ss h = ground arith
eq_of_string_list (str s ∷ xs) ss h = elim (Option-cases (string_list xs)) [
  | inl e ↦ ground arith
  | inr (ss', e) ↦ ground (arith, eq_of_string_list xs ss' e)
]
eq_of_string_list (_ ∷ xs) ss h = ground arith

string_list-strings : (tag : List Text) → string_list (elements (items_of (map str tag))) ≡ some tag
string_list-strings tag = rw elements-items_of (string_list-map tag)

tag_list-map : (tags : List (List Text)) → tag_list (map strings tags) ≡ some tags
unfolding tag_list
tag_list-map [] = refl
tag_list-map (tag ∷ tags) = rw (tag_list, string_list-strings tag, tag_list-map tags)

eq_of_tag_list :
    (xs : List Json) (tags : List (List Text)) → tag_list xs ≡ some tags → xs ≡ map strings tags
unfolding tag_list
eq_of_tag_list [] tags h = ground arith
eq_of_tag_list (arr items ∷ xs) tags h = elim (Option-cases (string_list (elements items))) [
  | inl e ↦ ground arith
  | inr (tag, e) ↦ elim (Option-cases (tag_list xs)) [
    | inl e' ↦ ground arith
    | inr (tags', e') ↦ ground (
      arith,
      eq_of_string_list (elements items) tag e,
      eq_of_tag_list xs tags' e',
      items_of-elements items,
    )
  ]
]
eq_of_tag_list (_ ∷ xs) tags h = ground arith

pub as_tags-tags_json : (tags : List (List Text)) → as_tags (tags_json tags) ≡ some tags
unfolding as_tags
as_tags-tags_json tags = rw elements-items_of (tag_list-map tags)

pub eq_of_as_tags :
    (v : Json) (tags : List (List Text)) → as_tags v ≡ some tags → v ≡ tags_json tags
unfolding as_tags
eq_of_as_tags (arr items) tags h =
    cc (items_of-elements items, eq_of_tag_list (elements items) tags h)
eq_of_as_tags _ tags h = ground arith

lookup-str_field :
    (key : Text) (event : Fields) (s : Text)
    → str_field key event ≡ ok s
    → lookup key event ≡ some (str s)
unfolding str_field
lookup-str_field key event s h = ground arith

lookup-int_field :
    (key : Text) (event : Fields) (n : Number)
    → int_field key event ≡ ok n
    → lookup key event ≡ some (num n)
unfolding int_field
lookup-int_field key event s h = ground arith

lookup-tags_field :
    (key : Text) (event : Fields) (tags : List (List Text))
    → tags_field key event ≡ ok tags
    → lookup key event ≡ some (tags_json tags)
unfolding tags_field
lookup-tags_field key event tags h = elim (Option-cases (lookup key event)) [
  | inl e ↦ ground arith
  | inr (v, e) ↦ elim (Option-cases (as_tags v)) [
    | inl e' ↦ ground arith
    | inr (tags', e') ↦ ground (arith, eq_of_as_tags v tags' e')
  ]
]

pub from_dict-Reads : (event : Fields) (e : StoredEvent) → from_dict event ≡ ok e → Reads event e
unfolding from_dict
from_dict-Reads event e h = ground (
  arith,
  lookup-str_field (codes "id") event e.id,
  lookup-str_field (codes "pubkey") event e.pubkey,
  lookup-int_field (codes "created_at") event e.created_at,
  lookup-int_field (codes "kind") event e.kind,
  lookup-tags_field (codes "tags") event e.tags,
  lookup-str_field (codes "content") event e.content,
  lookup-str_field (codes "sig") event e.sig,
)

pub to_dict-Reads : (e : StoredEvent) → Reads (to_dict e) e
unfolding to_dict text_eq
to_dict-Reads e = record {
  id = refl;
  pubkey = refl;
  created_at = refl;
  kind = refl;
  tags = refl;
  content = refl;
  sig = refl;
}

str_field_of_lookup :
    (key : Text) (event : Fields) (s : Text)
    → lookup key event ≡ some (str s)
    → str_field key event ≡ ok s
unfolding str_field
str_field_of_lookup key event s h = rw h

int_field_of_lookup :
    (key : Text) (event : Fields) (n : Number)
    → lookup key event ≡ some (num n)
    → int_field key event ≡ ok n
unfolding int_field
int_field_of_lookup key event n h = rw h

tags_field_of_lookup :
    (key : Text) (event : Fields) (tags : List (List Text))
    → lookup key event ≡ some (tags_json tags)
    → tags_field key event ≡ ok tags
unfolding tags_field
tags_field_of_lookup key event tags h = rw h (rw (as_tags-tags_json tags))

pub from_dict_of_Reads : (event : Fields) (e : StoredEvent) → Reads event e → from_dict event ≡ ok e
unfolding from_dict
from_dict_of_Reads event e r = ground (
  arith,
  str_field_of_lookup (codes "id") event e.id r.id,
  str_field_of_lookup (codes "pubkey") event e.pubkey r.pubkey,
  int_field_of_lookup (codes "created_at") event e.created_at r.created_at,
  int_field_of_lookup (codes "kind") event e.kind r.kind,
  tags_field_of_lookup (codes "tags") event e.tags r.tags,
  str_field_of_lookup (codes "content") event e.content r.content,
  str_field_of_lookup (codes "sig") event e.sig r.sig,
)
