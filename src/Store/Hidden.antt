-- ===== src/Store/Hidden.antt =====
-- Deletion requests: which rows are visible after a `save`, in terms of the tags of the event.
use spurline.Prelude.{
  ℕ, Bool, true, false, ◌&&◌, ◌≡◌, ◌≢◌, ◌↔◌, inl, inr, refl, ap, ◌∙◌, sym, Option, List, [], ◌∷◌,
  Any, any_iff, arith, ok,
}
use spurline.Prelude.Int.{pos, eq_ℤ, eq_ℤ_iff}
use spurline.Prelude.Text.{Text, codes, text_eq, text_eq_iff}
use spurline.Json.{value}
use spurline.Events.{StoredEvent, is_lower_hex}
use spurline.Events.Validity.{IsHex, is_lower_hex_iff}
use spurline.Store.{Database, Connection, EventRow, JobInputs, deletion_target, save}
use spurline.Store.Atomic.{save_ok}
use spurline.Store.Deletion.{asks, is_target, committed_visible}
use spurline.Store.Query.{is_visible}

-- The tag is `["e", id, …]`.
abbrev pub NamesEvent : Text → List Text → Type 0
NamesEvent id tag = (more : List Text) × (tag ≡ codes "e" ∷ id ∷ more)

-- The event asks to delete the row: it is of kind 5 and by the row's author, the row's id is 64
-- lowercase hex digits and not the event's own, and an "e" tag has that id.
pub record Deletes (e : StoredEvent) (row : EventRow) : Type 0 where
  pub kind : value e.kind ≡ pos 5
  pub author : e.pubkey ≡ row.pubkey
  pub hex : IsHex row.id 64
  pub other : row.id ≢ e.id
  pub named : Any (NamesEvent row.id) e.tags

-- a tag by its guards
abbrev IsTarget : Text → Text → List Text → Type 0
IsTarget own id tag = NamesEvent id tag × IsHex id 64 × (id ≢ own)

target-guards :
    (own id name target : Text) (more : List Text)
    → (is_target id (deletion_target own (name ∷ target ∷ more)) ≡ true) ↔ (
        (name ≡ codes "e")
        × (target ≡ id)
        × (is_lower_hex target 64 ≡ true)
        × (text_eq target own ≡ false))
target-guards own id name target more = (
  λ h. ground (arith, text_eq_iff name (codes "e"), text_eq_iff target id),
  λ h. ground (arith, text_eq_iff name (codes "e"), text_eq_iff target id),
)

text_eq-false : (s t : Text) → s ≢ t → text_eq s t ≡ false
text_eq-false s t other = ground (arith, (text_eq_iff s t).0, other)

IsTarget-iff :
    (own id : Text) (tag : List Text)
    → (is_target id (deletion_target own tag) ≡ true) ↔ IsTarget own id tag
IsTarget-iff own id [] = (λ h. absurd (ground arith), λ h. absurd (cc h.0.1))
IsTarget-iff own id (name ∷ []) = (λ h. absurd (ground arith), λ h. absurd (ground (arith, h.0.1)))
IsTarget-iff own id (name ∷ target ∷ more) = (
  λ h.
      let (e, same, hex, other) = (target-guards own id name target more).0 h in
      (
        (more, cc (e, same)),
        (is_lower_hex_iff id 64).0 (ap (λ t. is_lower_hex t 64) (sym same) ∙ hex),
        λ k. absurd (ground (arith, other, k, same, text_eq_iff target own)),
      ),
  λ h.
      let ((rest, shape), hex, other) = h in
      let e : name ≡ codes "e" = ground (arith, shape) in
      let same : target ≡ id = ground (arith, shape) in
      (target-guards own id name target more).1 (
        e,
        same,
        ap (λ t. is_lower_hex t 64) same ∙ (is_lower_hex_iff id 64).1 hex,
        text_eq-false target own (λ k. other (sym same ∙ k)),
      ),
)

asks_iff :
    (own id : Text) (e : StoredEvent) (tags : List (List Text))
    → e.id ≡ own
    → (asks e tags id ≡ true) ↔ Any (IsTarget own id) tags
asks_iff own id e tags same =
    any_iff (λ t. is_target id (deletion_target e.id t)) (IsTarget own id)
      (λ t. rw same (IsTarget-iff own id t)) tags

split :
    (own id : Text) (tags : List (List Text))
    → Any (IsTarget own id) tags
    → Any (NamesEvent id) tags × IsHex id 64 × (id ≢ own)
split own id [] h = absurd h
split own id (t ∷ tags) (inl (named, hex, other)) = (inl named, hex, other)
split own id (t ∷ tags) (inr h) =
    let (named, hex, other) = split own id tags h in (inr named, hex, other)

join :
    (own id : Text) (tags : List (List Text))
    → IsHex id 64
    → id ≢ own
    → Any (NamesEvent id) tags
    → Any (IsTarget own id) tags
join own id [] hex other h = absurd h
join own id (t ∷ tags) hex other (inl named) = inl (named, hex, other)
join own id (t ∷ tags) hex other (inr h) = inr (join own id tags hex other h)

module _ (e : StoredEvent) (row : EventRow) where
  -- the test of the code, and the request
  Deletes-iff :
      ((eq_ℤ (value e.kind) (pos 5) && (text_eq e.pubkey row.pubkey && asks e e.tags row.id))
        ≡ true)
      ↔ Deletes e row
  Deletes-iff = (
    λ h.
        let (named, hex, other) =
          split e.id row.id e.tags ((asks_iff e.id row.id e e.tags refl).0 (ground arith)) in
        record {
          kind = (eq_ℤ_iff (value e.kind) (pos 5)).0 (ground arith);
          author = (text_eq_iff e.pubkey row.pubkey).0 (ground arith);
          hex = hex;
          other = other;
          named = named;
        },
    λ d. ground (
      arith,
      (eq_ℤ_iff (value e.kind) (pos 5)).1 d.kind,
      (text_eq_iff e.pubkey row.pubkey).1 d.author,
      (asks_iff e.id row.id e e.tags refl).1 (join e.id row.id e.tags d.hex d.other d.named),
    ),
  )

  -- After a `save` that returns, a row is visible exactly if it was before and the event does not ask
  -- to delete it: unless the event is of kind 5 and by the row's author, the row's id is 64 lowercase
  -- hex digits and not the event's own id, and some tag of the event is an "e" tag of the row's id.
  pub save_visible :
      (job : Option JobInputs) (limit : ℕ) (completed : Option Text) (c : Connection) (b : Bool)
      → (save e job limit completed c).0 ≡ ok b
      → (is_visible (save e job limit completed c).1.db.deletions row ≡ true)
        ↔ ((is_visible c.db.deletions row ≡ true) × ¬ (Deletes e row))
  save_visible job limit completed c b returned =
      let after =
        ap (λ (d : Database). is_visible d.deletions row)
          (save_ok e job limit completed c b returned)
        ∙ committed_visible e job limit completed c.db row in
      (
        λ h. (ground (arith, h, after), λ d. absurd (ground (arith, h, after, Deletes-iff.1 d))),
        λ h. after ∙ ground (arith, h.0, h.1, Deletes-iff.0),
      )
