-- ===== src/Store/Deletion.antt =====
-- Deletion requests: which rows a `save` hides.
use spurline.Prelude.{
  ℕ, Bool, true, false, ◌&&◌, ◌||◌, not, ◌≡◌, refl, ap, ◌∙◌, Option, none, some, List, [], ◌∷◌,
  ◌++◌, any, any-append, filter, arith, if◌then◌else◌, Bool-cases, inl, inr,
}
use spurline.Prelude.Int.{pos, eq_ℤ}
use spurline.Prelude.Text.{Text, text_eq, text_eq_iff}
use spurline.Json.{value}
use spurline.Events.{StoredEvent}
use spurline.Store.{
  Database, EventRow, DeletionRow, row_of, same_deletion, insert_event, insert_tag, insert_job,
  replace_deletion, complete_job, JobInputs, deletion_target, deletion_row,
}
use spurline.Store.Effects.{indexed, deleted, deleted_target, enqueued, completed_with, committed}
use spurline.Store.Query.{is_visible}

-- whether the table says that the author deleted the event
abbrev pub marks : Text → Text → List DeletionRow → Bool
marks id author deletions =
    any (λ d. text_eq d.event_id id && text_eq d.deleted_by author) deletions

abbrev pub is_target : Text → Option Text → Bool
is_target id none = false
is_target id (some target) = text_eq target id

-- whether some tag of the event asks to delete an id
abbrev pub asks : StoredEvent → List (List Text) → Text → Bool
asks e tags id = any (λ t. is_target id (deletion_target e.id t)) tags

module _ (id author : Text) where
  -- The rows that a replacement drops say what the new row says.
  marks-replaced :
      (row : DeletionRow) (rows : List DeletionRow)
      → (marks id author (filter (λ r. not (same_deletion r row)) rows)
          || marks id author (row ∷ []))
        ≡ (marks id author rows || marks id author (row ∷ []))
  marks-replaced row [] = refl
  marks-replaced row (r ∷ rows) = elim (Bool-cases (same_deletion r row)) [
    | inl same ↦ rw same (
        ground (
          arith,
          text_eq_iff r.event_id row.event_id,
          text_eq_iff r.deleted_by row.deleted_by,
          marks-replaced row rows,
        ))
    | inr other ↦ rw other (ground (arith, marks-replaced row rows))
  ]

  marks-deleted_target :
      (e : StoredEvent) (o : Option Text) (db : Database)
      → marks id author (deleted_target e o db).deletions
        ≡ (marks id author db.deletions || (text_eq e.pubkey author && is_target id o))
  unfolding replace_deletion
  marks-deleted_target e none db = ground arith
  marks-deleted_target e (some target) db =
      any-append _ (filter (λ r. not (same_deletion r (deletion_row e target))) db.deletions)
        (deletion_row e target ∷ [])
      ∙ marks-replaced (deletion_row e target) db.deletions
      ∙ ground arith

  marks-deleted :
      (e : StoredEvent) (tags : List (List Text)) (db : Database)
      → marks id author (deleted e tags db).1.deletions
        ≡ (marks id author db.deletions || (text_eq e.pubkey author && asks e tags id))
  marks-deleted e [] db = ground arith
  marks-deleted e (t ∷ tags) db =
      let o = deletion_target e.id t in
      ground (arith, marks-deleted e tags (deleted_target e o db), marks-deleted_target e o db)

deletions-indexed :
    (own : Text) (tags : List (List Text)) (db : Database)
    → (indexed own tags db).1.deletions ≡ db.deletions
unfolding insert_tag
deletions-indexed own [] db = refl
deletions-indexed own ([] ∷ tags) db = deletions-indexed own tags db
deletions-indexed own ((k ∷ []) ∷ tags) db = deletions-indexed own tags db
deletions-indexed own ((k ∷ w ∷ more) ∷ tags) db =
    deletions-indexed own tags (insert_tag (record { event_id = own; name = k; val = w }) db).1
    ∙ ground arith

deletions-enqueued :
    (job : Option JobInputs) (limit : ℕ) (db : Database)
    → (enqueued job limit db).1.deletions ≡ db.deletions
unfolding insert_job
deletions-enqueued none limit db = refl
deletions-enqueued (some job) limit db = ground arith

deletions-completed :
    (e : StoredEvent) (o : Option Text) (db : Database)
    → (completed_with e o db).1.deletions ≡ db.deletions
unfolding complete_job
deletions-completed e none db = refl
deletions-completed e (some d) db = refl

not-or : (a b : Bool) → not (a || b) ≡ (not a && not b)
not-or a b = ground arith

-- the writes of the event and its tags, and those of its deletions
abbrev with_event : StoredEvent → Database → Database
with_event e db =
    let (inserted, added) = insert_event e db in
    (if inserted then indexed e.id e.tags added else (tt, added)).1

deletions-with_event :
    (e : StoredEvent) (db : Database) → (with_event e db).deletions ≡ db.deletions
unfolding insert_event
deletions-with_event e db =
    ground
      (arith, deletions-indexed e.id e.tags (record db { events = db.events ++ row_of e ∷ [] }))

marks-when :
    (b : Bool) (id author : Text) (e : StoredEvent) (db : Database)
    → marks id author (if b then deleted e e.tags db else (tt, db)).1.deletions
      ≡ (marks id author db.deletions || (b && (text_eq e.pubkey author && asks e e.tags id)))
marks-when true id author e db = marks-deleted id author e e.tags db
marks-when false id author e db = ground arith

-- After a `save` that commits, a row is visible if it was, unless the event is of kind 5, by the
-- row's author, and one of its "e" tags names the row's id as a lowercase hex id other than its own.
pub committed_visible :
    (e : StoredEvent) (job : Option JobInputs) (limit : ℕ) (completed : Option Text) (db : Database)
    (row : EventRow)
    → is_visible (committed e job limit completed db).1.deletions row ≡ (
        is_visible db.deletions row
        && not
            (eq_ℤ (value e.kind) (pos 5) && (text_eq e.pubkey row.pubkey && asks e e.tags row.id)))
unfolding committed is_visible
committed_visible e job limit completed db row =
    let queued = (enqueued job limit db).1 in
    let written = with_event e queued in
    let removes = eq_ℤ (value e.kind) (pos 5) in
    let removed = (if removes then deleted e e.tags written else (tt, written)).1 in
    let hidden = λ (ds : List DeletionRow). marks row.id row.pubkey ds in
    let all_marks =
      ap hidden (deletions-completed e completed removed)
      ∙ marks-when removes row.id row.pubkey e written
      ∙ ap (λ ds. hidden ds || (removes && (text_eq e.pubkey row.pubkey && asks e e.tags row.id)))
          (deletions-with_event e queued ∙ deletions-enqueued job limit db) in
    ap not all_marks
    ∙ not-or (hidden db.deletions)
        (removes && (text_eq e.pubkey row.pubkey && asks e e.tags row.id))
