-- ===== src/Store/Preserve.antt =====
-- `save` keeps the tables valid.
use spurline.Prelude.{
  ℕ, Bool, true, false, ◌&&◌, ◌||◌, not, ◌≡◌, ◌≢◌, refl, ap, ◌∙◌, sym, Option, none, some, List, [],
  ◌∷◌, ◌++◌, All, All-append, any, any-append, arith, if◌then◌else◌, Bool-cases, inl, inr,
}
use spurline.Prelude.Int.{pos, eq_ℤ}
use spurline.Prelude.Text.{Text, text_eq, text_eq_iff}
use spurline.Json.{value}
use spurline.Events.{StoredEvent}
use spurline.Events.Validity.{IsHex}
use spurline.Store.{
  Database, EventRow, TagRow, row_of, same_tag_row, has_event, insert_event, insert_tag, insert_job,
  replace_deletion, complete_job, JobInputs, deletion_target,
}
use spurline.Store.Invariant.{IsValid, IsRow, DistinctIds, has_tag, tag_is}
use spurline.Store.Effects.{indexed, deleted, deleted_target, enqueued, completed_with, committed}

same_tag_row→eq : (a b : TagRow) → same_tag_row a b ≡ true → a ≡ b
same_tag_row→eq a b h =
    ground
      (arith, text_eq_iff a.event_id b.event_id, text_eq_iff a.name b.name, text_eq_iff a.val b.val)

-- A row that is there already adds nothing.
absorbed :
    (rows : List TagRow) (new query : TagRow)
    → any (λ r. same_tag_row r new) rows ≡ true
    → any (λ r. same_tag_row r query) rows
      ≡ (any (λ r. same_tag_row r query) rows || same_tag_row new query)
absorbed [] new query h = ground arith
absorbed (r ∷ rows) new query h = elim (Bool-cases (same_tag_row r new)) [
  | inl e ↦ rw (same_tag_row→eq r new e) (ground arith)
  | inr e ↦ ground (arith, absorbed rows new query)
]

module _ (id name v : Text) where
  abbrev asked : TagRow
  asked = record { event_id = id; name = name; val = v }

  has_tag-insert_tag :
      (row : TagRow) (db : Database)
      → has_tag (insert_tag row db).1.event_tags id name v
        ≡ (has_tag db.event_tags id name v || same_tag_row row asked)
  unfolding insert_tag
  has_tag-insert_tag row db = elim (Bool-cases (any (λ r. same_tag_row r row) db.event_tags)) [
    | inl e ↦ rw e (absorbed db.event_tags row asked e)
    | inr e ↦ rw e (any-append (λ r. same_tag_row r asked) db.event_tags (row ∷ []) ∙ ground arith)
  ]

  has_tag-indexed :
      (own : Text) (tags : List (List Text)) (db : Database)
      → has_tag (indexed own tags db).1.event_tags id name v
        ≡ (has_tag db.event_tags id name v || (text_eq own id && any (tag_is name v) tags))
  has_tag-indexed own [] db = ground arith
  has_tag-indexed own ([] ∷ tags) db = has_tag-indexed own tags db
  has_tag-indexed own ((k ∷ []) ∷ tags) db = has_tag-indexed own tags db
  has_tag-indexed own ((k ∷ w ∷ more) ∷ tags) db =
      let row : TagRow = record { event_id = own; name = k; val = w } in
      ground (arith, has_tag-indexed own tags (insert_tag row db).1, has_tag-insert_tag row db)

events-indexed :
    (own : Text) (tags : List (List Text)) (db : Database)
    → (indexed own tags db).1.events ≡ db.events
unfolding insert_tag
events-indexed own [] db = refl
events-indexed own ([] ∷ tags) db = events-indexed own tags db
events-indexed own ((k ∷ []) ∷ tags) db = events-indexed own tags db
events-indexed own ((k ∷ w ∷ more) ∷ tags) db =
    events-indexed own tags (insert_tag (record { event_id = own; name = k; val = w }) db).1
    ∙ ground arith

-- The tables of events and tags are the same.
abbrev pub SameEvents : Database → Database → Type 0
SameEvents a b = (a.events ≡ b.events) × (a.event_tags ≡ b.event_tags)

pub SameEvents-IsValid : (a b : Database) → SameEvents a b → IsValid b → IsValid a
SameEvents-IsValid a b (es, ts) v = record {
  rows = rw es v.rows;
  distinct = rw es v.distinct;
  indexed = λ id name w. rw es (rw ts (v.indexed id name w));
}

enqueued-SameEvents :
    (job : Option JobInputs) (limit : ℕ) (db : Database) → SameEvents (enqueued job limit db).1 db
unfolding insert_job
enqueued-SameEvents none limit db = (refl, refl)
enqueued-SameEvents (some job) limit db = ground arith

deleted_target-SameEvents :
    (e : StoredEvent) (o : Option Text) (db : Database) → SameEvents (deleted_target e o db) db
unfolding replace_deletion
deleted_target-SameEvents e none db = (refl, refl)
deleted_target-SameEvents e (some t) db = (refl, refl)

deleted-SameEvents :
    (e : StoredEvent) (tags : List (List Text)) (db : Database)
    → SameEvents (deleted e tags db).1 db
deleted-SameEvents e [] db = (refl, refl)
deleted-SameEvents e (t ∷ tags) db =
    let next = deleted_target e (deletion_target e.id t) db in
    let (es, ts) = deleted-SameEvents e tags next in
    let (es', ts') = deleted_target-SameEvents e (deletion_target e.id t) db in (es ∙ es', ts ∙ ts')

completed-SameEvents :
    (e : StoredEvent) (o : Option Text) (db : Database) → SameEvents (completed_with e o db).1 db
unfolding complete_job
completed-SameEvents e none db = (refl, refl)
completed-SameEvents e (some d) db = (refl, refl)

not_there :
    (id : Text) (rows : List EventRow) → has_event id rows ≡ false → All (λ r. r.id ≢ id) rows
not_there id [] h = tt
not_there id (r ∷ rows) h =
    (λ e. ground (arith, text_eq_iff r.id id), not_there id rows (ground arith))

DistinctIds-append :
    (rows : List EventRow) (row : EventRow)
    → DistinctIds rows
    → All (λ r. r.id ≢ row.id) rows
    → DistinctIds (rows ++ row ∷ [])
DistinctIds-append [] row d h = (tt, tt)
DistinctIds-append (r ∷ rows) row d h =
    (All-append _ rows (row ∷ []) d.0 (h.0, tt), DistinctIds-append rows row d.1 h.1)

-- the event with its row and its tags
abbrev added : StoredEvent → Database → Database
added e db = (indexed e.id e.tags (record db { events = db.events ++ row_of e ∷ [] })).1

added-IsValid :
    (e : StoredEvent) (db : Database)
    → IsHex e.id 64
    → IsHex e.pubkey 64
    → has_event e.id db.events ≡ false
    → IsValid db
    → IsValid (added e db)
added-IsValid e db hi hp new v =
    let db' : Database = record db { events = db.events ++ row_of e ∷ [] } in
    let same = events-indexed e.id e.tags db' in
    record {
      rows = rw same (
          All-append IsRow db.events (row_of e ∷ []) v.rows
            (record { columns = refl; id = hi; pubkey = hp }, tt));
      distinct =
          rw same
            (DistinctIds-append db.events (row_of e) v.distinct (not_there e.id db.events new));
      indexed = λ id name w. rw same (
          has_tag-indexed id name w e.id e.tags db'
          ∙ ap (λ b. b || (text_eq e.id id && any (tag_is name w) e.tags)) (v.indexed id name w)
          ∙ sym (
              any-append (λ r. text_eq r.id id && any (tag_is name w) r.raw_json.tags) db.events
                (row_of e ∷ [])
              ∙ ground arith));
    }

-- What a `save` does to the tables of events and tags: nothing for an event whose id is stored.
stored : StoredEvent → Database → Database
stored e db = if has_event e.id db.events then db else added e db

abbrev with_row : StoredEvent → List EventRow → List EventRow
with_row e rows = if has_event e.id rows then rows else rows ++ row_of e ∷ []

stored_events : (e : StoredEvent) (db : Database) → (stored e db).events ≡ with_row e db.events
unfolding stored
stored_events e db = elim (Bool-cases (has_event e.id db.events)) [
  | inl old ↦ rw old refl
  | inr new ↦
      rw new (events-indexed e.id e.tags (record db { events = db.events ++ row_of e ∷ [] }))
]

stored-IsValid :
    (e : StoredEvent) (db : Database)
    → IsHex e.id 64
    → IsHex e.pubkey 64
    → IsValid db
    → IsValid (stored e db)
unfolding stored
stored-IsValid e db hi hp v = elim (Bool-cases (has_event e.id db.events)) [
  | inl old ↦ rw old v
  | inr new ↦ rw new (added-IsValid e db hi hp new v)
]

SameEvents-trans : (a b c : Database) → SameEvents a b → SameEvents b c → SameEvents a c
SameEvents-trans a b c (es, ts) (es', ts') = (es ∙ es', ts ∙ ts')

abbrev when_deletion : Bool → StoredEvent → Database → Database
when_deletion b e db = (if b then deleted e e.tags db else (tt, db)).1

when_deletion-SameEvents :
    (b : Bool) (e : StoredEvent) (db : Database) → SameEvents (when_deletion b e db) db
when_deletion-SameEvents true e db = deleted-SameEvents e e.tags db
when_deletion-SameEvents false e db = (refl, refl)

-- the writes of `save` after those of the event and its tags
after_writes :
    (e : StoredEvent) (completed : Option Text) (db : Database)
    → SameEvents
        (completed_with e completed (when_deletion (eq_ℤ (value e.kind) (pos 5)) e db)).1
        db
after_writes e completed db =
    let removed = when_deletion (eq_ℤ (value e.kind) (pos 5)) e db in
    SameEvents-trans (completed_with e completed removed).1 removed db
      (completed-SameEvents e completed removed)
      (when_deletion-SameEvents (eq_ℤ (value e.kind) (pos 5)) e db)

module _ (e : StoredEvent) (job : Option JobInputs) (limit : ℕ) (completed : Option Text)
    (db : Database) where
  committed-SameEvents :
      SameEvents (committed e job limit completed db).1 (stored e (enqueued job limit db).1)
  unfolding committed stored insert_event
  committed-SameEvents = elim (Bool-cases (has_event e.id (enqueued job limit db).1.events)) [
    | inl old ↦ rw old (after_writes e completed (enqueued job limit db).1)
    | inr new ↦ rw new (after_writes e completed (added e (enqueued job limit db).1))
  ]

  -- After a `save` that commits, the tables are valid if they were, and if the event's id and key
  -- are lowercase hex of 32 bytes.
  pub committed-IsValid :
      IsHex e.id 64
      → IsHex e.pubkey 64
      → IsValid db
      → IsValid (committed e job limit completed db).1
  committed-IsValid hi hp v =
      let queued = (enqueued job limit db).1 in
      SameEvents-IsValid (committed e job limit completed db).1 (stored e queued)
        committed-SameEvents
        (stored-IsValid e queued hi hp
          (SameEvents-IsValid queued db (enqueued-SameEvents job limit db) v))

  -- `save` returns whether the id was new.
  pub committed-new : (committed e job limit completed db).0 ≡ not (has_event e.id db.events)
  unfolding committed insert_event
  committed-new = ground (arith, enqueued-SameEvents job limit db)

  -- The events after a `save`: those before, and the new event at the end unless its id is there.
  pub committed_events :
      (committed e job limit completed db).1.events
      ≡ (if has_event e.id db.events then db.events else db.events ++ row_of e ∷ [])
  committed_events =
      committed-SameEvents.0
      ∙ stored_events e (enqueued job limit db).1
      ∙ ap (with_row e) (enqueued-SameEvents job limit db).0
