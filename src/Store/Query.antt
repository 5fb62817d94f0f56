-- ===== src/Store/Query.antt =====
-- `EventStore.query`: the SELECT of each filter, and the merge of their rows.
pub mod Where
mod Order
pub mod Answer
mod Matches
pub mod Refinement
pub mod Result
mod Merge
mod Sorting
use spurline.Prelude.{
  ℕ, ◌+◌, Bool, true, false, ◌&&◌, ◌||◌, not, Option, none, some, List, [], ◌∷◌, ◌++◌, map, all,
  any, filter, length, take, ltb, leb, ◌==◌, if◌then◌else◌, Outcome, ok, err,
}
use spurline.Prelude.Int.{ℤ, pos, eq_ℤ, leb_ℤ, ltb_ℤ}
use spurline.Prelude.Text.{Text, codes, text_eq, text_in, text_lt}
use spurline.Json.{Number, value}
use spurline.Events.{StoredEvent, is_encodable}
use spurline.Filters.{
  Filter, Entry, ids, authors, tag, FilterError, get_ids, get_authors, get_kinds, get_since,
  get_until, holds_of, filter_limit, validate_filter_bounds,
}
use spurline.Store.{
  Database, EventRow, TagRow, DeletionRow, StoreError, invalid_filter, encode_error, Action, pure,
  raise, execute, ◌>>=◌, ◌>>◌, same_tag_row,
}

-- `NOT EXISTS (SELECT 1 FROM deletions d WHERE d.event_id = events.id AND d.deleted_by = events.pubkey)`
unfoldable pub is_visible : List DeletionRow → EventRow → Bool
is_visible deletions row =
    not (any (λ d. text_eq d.event_id row.id && text_eq d.deleted_by row.pubkey) deletions)

-- `(column >= ? AND column < ?)` with the prefix and the prefix followed by U+10FFFF
unfoldable pub in_range : Text → Text → Bool
in_range column p = not (text_lt column p) && text_lt column (p ++ 1114111 ∷ [])

-- The conditions for the ids or the authors: an IN for the prefixes of 64 characters, a range for
-- each other one, and "0" where there is no condition.
unfoldable pub prefix_clause : Text → List Text → Bool
unfolding in_range
prefix_clause column prefixes =
    text_in column (filter (λ p. length p == 64) prefixes)
    || any (λ p. not (length p == 64) && in_range column p) prefixes

-- `kind IN (…)`
abbrev pub kind_in : ℤ → List Number → Bool
kind_in kind ns = any (λ n. eq_ℤ kind (value n)) ns

-- `id IN (SELECT event_id FROM event_tags WHERE name = ? AND value IN (…))`
unfoldable pub tag_clause : List TagRow → Text → Text → List Text → Bool
tag_clause rows id name values =
    any (λ r. text_eq r.event_id id && (text_eq r.name name && text_in r.val values)) rows

-- the clauses of the "#" keys
unfoldable pub tag_clauses : List TagRow → Text → Filter → Bool
unfolding tag_clause
tag_clauses rows id [] = true
tag_clauses rows id (tag name values ∷ f) = tag_clause rows id name values && tag_clauses rows id f
tag_clauses rows id (_ ∷ f) = tag_clauses rows id f

-- the WHERE of the SELECT for a filter
unfoldable pub where_clause : Database → Filter → EventRow → Bool
where_clause db f row =
    is_visible db.deletions row
    && (holds_of (prefix_clause row.id) (get_ids f)
        && (holds_of (prefix_clause row.pubkey) (get_authors f)
            && (holds_of (kind_in row.kind) (get_kinds f)
                && (holds_of (λ n. leb_ℤ (value n) row.created_at) (get_since f)
                    && (holds_of (λ n. leb_ℤ row.created_at (value n)) (get_until f)
                        && tag_clauses db.event_tags row.id f)))))

-- The order of results: by time and then by id, the latest first.
abbrev pub Key : Type 0
Key = ℤ × Text

unfoldable pub key_lt : Key → Key → Bool
key_lt (t, i) (u, j) = ltb_ℤ t u || (eq_ℤ t u && text_lt i j)

module _ {A : Type 0} (key : A → Key) where
  -- Equal keys keep their order, as in SQLite's and Python's stable sorts.
  unfoldable pub insert_desc : A → List A → List A
  insert_desc a [] = a ∷ []
  insert_desc a (x ∷ xs) = if key_lt (key a) (key x) then x ∷ insert_desc a xs else a ∷ x ∷ xs

  unfoldable pub sort_desc : List A → List A
  sort_desc [] = []
  sort_desc (x ∷ xs) = insert_desc x (sort_desc xs)

abbrev pub row_key : EventRow → Key
row_key row = (row.created_at, row.id)

abbrev pub event_key : StoredEvent → Key
event_key e = (value e.created_at, e.id)

-- `SELECT raw_json FROM events WHERE … ORDER BY created_at DESC, id DESC LIMIT ?`
unfoldable pub select : Database → Filter → ℕ → List StoredEvent
select db f limit =
    map (λ row. row.raw_json)
      (take limit (sort_desc row_key (filter (where_clause db f) db.events)))

-- `matches[event.id] = event` in a dict
unfoldable pub put : StoredEvent → List StoredEvent → List StoredEvent
put e [] = e ∷ []
put e (x ∷ xs) = if text_eq x.id e.id then e ∷ xs else x ∷ put e xs

abbrev pub put_all : List StoredEvent → List StoredEvent → List StoredEvent
put_all [] matches = matches
put_all (e ∷ es) matches = put_all es (put e matches)

-- A text with a lone surrogate cannot be bound to a statement.
abbrev pub entry_texts : Entry → List Text
entry_texts (ids ps) = ps
entry_texts (authors ps) = ps
entry_texts (tag name vs) = name ∷ vs
entry_texts _ = []

unfoldable pub is_bindable : Filter → Bool
is_bindable f = all (λ e. all is_encodable (entry_texts e)) f

-- the loop over the filters
unfoldable pub collect : List Filter → ℕ → List StoredEvent → Action (List StoredEvent)
unfolding put
collect [] limit matches = pure matches
collect (f ∷ fs) limit matches = do
  rows ← (if is_bindable f then execute (λ db. (select db f limit, db)) else raise encode_error)
  collect fs limit (put_all rows matches)

abbrev pub check_bounds : Outcome FilterError (Unit {0}) → Action (Unit {0})
check_bounds (ok u) = pure tt
check_bounds (err e) = raise (invalid_filter e)

-- `EventStore.query`
unfoldable pub query : List Filter → Action (List StoredEvent)
query filters = do
  check_bounds (validate_filter_bounds filters)
  matches ← collect filters (filter_limit filters 500 5000) []
  pure (take (filter_limit filters 500 5000) (sort_desc event_key matches))
