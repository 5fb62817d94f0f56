-- ===== src/Store.antt =====
-- src/spurline/store.py: the SQLite database of the relay, and `EventStore.save`.
-- A column that holds JSON is given by the value that `json.dumps` wrote and `json.loads` reads back.
pub mod Query
pub mod Invariant
pub mod Effects
pub mod Refusal
pub mod Atomic
pub mod Preserve
pub mod Queue
pub mod Jobs
pub mod Deletion
pub mod Hidden
pub mod Tests
use spurline.Prelude.{
  ℕ, ◌+◌, Bool, true, false, ◌&&◌, ◌||◌, not, Option, none, some, List, [], ◌∷◌, ◌++◌, map, all,
  any, filter, length, take, ltb, leb, ◌==◌, if◌then◌else◌, Outcome, ok, err,
}
use spurline.Prelude.Int.{ℤ, pos, eq_ℤ}
use spurline.Prelude.Text.{Text, codes, text_eq}
use spurline.Json.{Number, value}
use spurline.Events.{StoredEvent, is_lower_hex, is_encodable}
use spurline.Filters.{FilterError, fits_int64}

-- The rows of the four tables.
pub record EventRow : Type 0 where
  pub id : Text
  pub pubkey : Text
  pub created_at : ℤ
  pub kind : ℤ
  pub tags_json : List (List Text)
  pub content : Text
  pub sig : Text
  pub raw_json : StoredEvent

pub record TagRow : Type 0 where
  pub event_id : Text
  pub name : Text
  pub val : Text

pub record DeletionRow : Type 0 where
  pub event_id : Text
  pub deleted_by : Text
  pub deletion_event_id : Text
  pub deleted_at : ℤ

pub data JobState : Type 0 where
  pending issued unavailable : JobState

-- the `inputs` of a witness job, which automatic_witness.py makes
pub record JobInputs : Type 0 where
  pub subject : StoredEvent
  pub signed_event_digest : Text
  pub receipt_version : ℕ
  pub observed_at_ms : ℕ
  pub clock_uncertainty_ms : Option ℕ
  pub authorization_event_id : Text
  pub witness_policy_digest : Text
  pub witness_pubkey : Text

pub record JobRow : Type 0 where
  pub digest : Text
  pub inputs : JobInputs
  pub state : JobState
  pub receipt : Option StoredEvent
  pub broadcast : Bool

pub record Database : Type 0 where
  pub events : List EventRow
  pub event_tags : List TagRow
  pub deletions : List DeletionRow
  pub witness_jobs : List JobRow

abbrev pub empty_database : Database
empty_database = record { events = []; event_tags = []; deletions = []; witness_jobs = [] }

-- sqlite3.Error, OverflowError, UnicodeEncodeError of a text that is bound to a statement, and
-- FilterValidationError of a query
pub data StoreError : Type 0 where
  sqlite_error overflow_error encode_error : StoreError
  invalid_filter : FilterError → StoreError

-- A connection with the statements that will fail: SQLite may report an error at any statement.
pub record Connection : Type 0 where
  pub db : Database
  pub faults : List Bool

abbrev pub Action : Type 0 → Type 0
Action A = Connection → Outcome StoreError A × Connection

module _ {A : Type 0} where
  abbrev pub pure : A → Action A
  pure a c = (ok a, c)

  abbrev pub raise : StoreError → Action A
  raise e c = (err e, c)

  abbrev run_statement :
      (Database → A × Database) → Database → List Bool → Outcome StoreError A × Connection
  run_statement f db [] = let (a, db') = f db in (ok a, record { db = db'; faults = [] })
  run_statement f db (true ∷ faults) = (err sqlite_error, record { db = db; faults = faults })
  run_statement f db (false ∷ faults) =
      let (a, db') = f db in (ok a, record { db = db'; faults = faults })

  -- `self.connection.execute(…)`
  unfoldable pub execute : (Database → A × Database) → Action A
  execute f c = run_statement f c.db c.faults

  abbrev settle : Database → Outcome StoreError A × Connection → Outcome StoreError A × Connection
  settle before (ok a, c) = (ok a, c)
  settle before (err e, c) = (err e, record c { db = before })

  -- `with self.connection:` rolls back when the block raises.
  unfoldable pub transaction : Action A → Action A
  transaction body c = settle c.db (body c)

module _ {A B : Type 0} where
  abbrev pub continue :
      (A → Action B) → Outcome StoreError A × Connection → Outcome StoreError B × Connection
  continue f (ok a, c) = f a c
  continue f (err e, c) = (err e, c)

infixl 5 ◌>>=◌ ◌>>◌
abbrev pub ◌>>=◌ : {A B : Type 0} → Action A → (A → Action B) → Action B
◌>>=◌ m f c = continue f (m c)

abbrev pub ◌>>◌ : {B : Type 0} → Action (Unit {0}) → Action B → Action B
m >> k = m >>= λ _. k

-- INSERT OR IGNORE INTO events: whether a row was added
abbrev pub row_of : StoredEvent → EventRow
row_of e = record {
  id = e.id;
  pubkey = e.pubkey;
  created_at = value e.created_at;
  kind = value e.kind;
  tags_json = e.tags;
  content = e.content;
  sig = e.sig;
  raw_json = e;
}

abbrev pub has_event : Text → List EventRow → Bool
has_event id rows = any (λ row. text_eq row.id id) rows

unfoldable pub insert_event : StoredEvent → Database → Bool × Database
insert_event e db =
    if has_event e.id db.events
    then (false, db)
    else (true, record db { events = db.events ++ row_of e ∷ [] })

-- INSERT OR IGNORE INTO event_tags
abbrev pub same_tag_row : TagRow → TagRow → Bool
same_tag_row a b = text_eq a.event_id b.event_id && text_eq a.name b.name && text_eq a.val b.val

unfoldable pub insert_tag : TagRow → Database → Unit {0} × Database
insert_tag row db = (
  tt,
  if any (λ r. same_tag_row r row) db.event_tags
      then db
      else record db { event_tags = db.event_tags ++ row ∷ [] },
)

-- INSERT OR REPLACE INTO deletions
abbrev pub same_deletion : DeletionRow → DeletionRow → Bool
same_deletion a b = text_eq a.event_id b.event_id && text_eq a.deleted_by b.deleted_by

unfoldable pub replace_deletion : DeletionRow → Database → Unit {0} × Database
replace_deletion row db =
    (tt, record db { deletions = filter (λ r. not (same_deletion r row)) db.deletions ++ row ∷ [] })

-- `_index_tags`, a statement for each tag of two items or more
unfoldable pub index_tags : Text → List (List Text) → Action (Unit {0})
index_tags id [] = pure tt
index_tags id ((name ∷ v ∷ more) ∷ tags) = do
  execute (insert_tag (record { event_id = id; name = name; val = v }))
  index_tags id tags
index_tags id (_ ∷ tags) = index_tags id tags

-- the guards of `_record_deletions`: the event that a tag asks to delete
abbrev pub deletion_target : Text → List Text → Option Text
deletion_target own (name ∷ target ∷ more) =
    if not (text_eq name (codes "e"))
    then none
    else if not (is_lower_hex target 64) || text_eq target own
    then none
    else some target
deletion_target own _ = none

abbrev deletion_row : StoredEvent → Text → DeletionRow
deletion_row e target = record {
  event_id = target;
  deleted_by = e.pubkey;
  deletion_event_id = e.id;
  deleted_at = value e.created_at;
}

abbrev delete_target : StoredEvent → Option Text → Action (Unit {0})
delete_target e none = pure tt
delete_target e (some target) = execute (replace_deletion (deletion_row e target))

unfoldable pub record_tag_deletions : StoredEvent → List (List Text) → Action (Unit {0})
record_tag_deletions e [] = pure tt
record_tag_deletions e (t ∷ tags) = do
  delete_target e (deletion_target e.id t)
  record_tag_deletions e tags

abbrev pub is_pending : JobState → Bool
is_pending pending = true
is_pending _ = false

abbrev pub is_issued : JobState → Bool
is_issued issued = true
is_issued _ = false

unfoldable pub count_pending : List JobRow → ℕ
count_pending [] = 0
count_pending (j ∷ jobs) = (if is_pending j.state then 1 else 0) + count_pending jobs

-- INSERT OR IGNORE INTO witness_jobs
abbrev pub has_job : Text → List JobRow → Bool
has_job digest jobs = any (λ j. text_eq j.digest digest) jobs

abbrev pub new_job : JobInputs → JobState → JobRow
new_job inputs state = record {
  digest = inputs.signed_event_digest;
  inputs = inputs;
  state = state;
  receipt = none;
  broadcast = false;
}

unfoldable pub insert_job : JobInputs → JobState → Database → Unit {0} × Database
insert_job inputs state db = (
  tt,
  if has_job inputs.signed_event_digest db.witness_jobs
      then db
      else record db { witness_jobs = db.witness_jobs ++ new_job inputs state ∷ [] },
)

abbrev pub update_jobs : (JobRow → Bool) → (JobRow → JobRow) → Database → Unit {0} × Database
update_jobs test change db =
    (tt, record db { witness_jobs = map (λ j. if test j then change j else j) db.witness_jobs })

-- UPDATE witness_jobs SET state='issued', receipt=?, broadcast=0 WHERE digest=? AND state='pending'
unfoldable pub complete_job : Text → StoredEvent → Database → Unit {0} × Database
complete_job digest receipt =
    update_jobs (λ j. text_eq j.digest digest && is_pending j.state)
      (λ j. record j { state = issued; receipt = some receipt; broadcast = false })

-- The parts of `save`.
unfoldable pub enqueue : Option JobInputs → ℕ → Action (Unit {0})
enqueue none queue_limit = pure tt
enqueue (some job) queue_limit = do
  waiting ← execute (λ db. (count_pending db.witness_jobs, db))
  execute (insert_job job (if ltb waiting queue_limit then pending else unavailable))

-- The parameters of the INSERT are bound in the order of the columns: a text with a lone surrogate
-- raises UnicodeEncodeError, a number that does not fit a 64-bit INTEGER raises OverflowError.
-- `raw_json` holds every text of the event, and `tags_json` is ASCII.
abbrev pub is_encodable_key : StoredEvent → Bool
is_encodable_key e = is_encodable e.id && is_encodable e.pubkey

abbrev pub is_encodable_rest : StoredEvent → Bool
is_encodable_rest e =
    is_encodable e.content && (is_encodable e.sig && all (λ t. all is_encodable t) e.tags)

abbrev pub fits_columns : StoredEvent → Bool
fits_columns e = fits_int64 e.created_at && fits_int64 e.kind

-- the error of the first parameter that cannot be bound
unfoldable pub refusal : StoredEvent → Option StoreError
refusal e =
    if not (is_encodable_key e)
    then some encode_error
    else if not (fits_columns e)
    then some overflow_error
    else if not (is_encodable_rest e)
    then some encode_error
    else none

unfoldable pub insert_or_refuse : StoredEvent → Option StoreError → Action Bool
insert_or_refuse e none = execute (insert_event e)
insert_or_refuse e (some x) = raise x

unfoldable pub add_event : StoredEvent → Action Bool
add_event e = insert_or_refuse e (refusal e)

unfoldable pub add_tags : Bool → StoredEvent → Action (Unit {0})
add_tags inserted e = if inserted then index_tags e.id e.tags else pure tt

unfoldable pub record_deletions : StoredEvent → Action (Unit {0})
record_deletions e = if eq_ℤ (value e.kind) (pos 5) then record_tag_deletions e e.tags else pure tt

unfoldable pub complete : StoredEvent → Option Text → Action (Unit {0})
complete e none = pure tt
complete e (some digest) = execute (complete_job digest e)

-- `EventStore.save`
unfoldable pub save : StoredEvent → Option JobInputs → ℕ → Option Text → Action Bool
save event witness_job queue_limit completed = transaction (do
  enqueue witness_job queue_limit
  inserted ← add_event event
  add_tags inserted event
  record_deletions event
  complete event completed
  execute (λ db. (tt, db))
  pure inserted)

-- `EventStore.witness_rows`
unfoldable pub witness_rows : Option Text → Action (List JobRow)
witness_rows (some digest) =
    execute (λ db. (filter (λ j. text_eq j.digest digest) db.witness_jobs, db))
witness_rows none = execute λ db. (
  take 32
      (filter (λ j. is_pending j.state || (is_issued j.state && not j.broadcast)) db.witness_jobs),
  db,
)

-- `EventStore.witness_update`
unfoldable pub witness_update : Text → Bool → Action (Unit {0})
witness_update digest true = transaction (
    execute (
      update_jobs (λ j. text_eq j.digest digest && is_pending j.state)
        (λ j. record j { state = unavailable })))
witness_update digest false = transaction (
    execute (
      update_jobs (λ j. text_eq j.digest digest && is_issued j.state)
        (λ j. record j { broadcast = true })))
