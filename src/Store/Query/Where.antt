-- ===== src/Store/Query/Where.antt =====
-- The SQL of a filter selects what `matches_filter` accepts.
use spurline.Prelude.{
  ℕ, ◌<◌, Bool, ◌&&◌, ◌≡◌, refl, ap₂, List, [], ◌∷◌, All, any, filter, any_cong, any_swap, any-and,
  any-false, filter_cong, All-map, All-zip, ◌∙◌, sym, subst, length, arith, if◌then◌else◌, Option,
  none, some, ◌==◌, Bool-cases, inl, inr,
}
use spurline.Prelude.Text.{Text, text_in, text_eq, starts_with}
use spurline.Prelude.Text.Order.{prefix_interval, prefix_of_length}
use spurline.Events.{StoredEvent}
use spurline.Events.Validity.{IsHex}
use spurline.Filters.{
  Filter, Entry, holds_of, get_ids, get_authors, matches_prefixes, matches_filter, matches_tag,
  matches_tags, tag_matches,
}
use spurline.Store.{Database, EventRow, TagRow, row_of, same_tag_row}
use spurline.Store.Invariant.{IsValid, IsRow, OwnTags, IsValid-OwnTags, tag_is}
use spurline.Store.Query.{
  prefix_clause, in_range, is_visible, where_clause, tag_clause, tag_clauses,
}

-- The condition of one prefix, before they are grouped.
abbrev prefix_condition : Text → Text → Bool
prefix_condition column p = if length p == 64 then text_eq column p else in_range column p

any-prefix_condition :
    (column : Text) (ps : List Text) → prefix_clause column ps ≡ any (prefix_condition column) ps
unfolding prefix_clause
any-prefix_condition column [] = refl
any-prefix_condition column (p ∷ ps) = elim (Bool-cases (length p == 64)) [
  | inl e ↦ rw e (ground (arith, any-prefix_condition column ps))
  | inr e ↦ rw e (ground (arith, any-prefix_condition column ps))
]

hex_below : (s : Text) (n : ℕ) → IsHex s n → All (λ c. c < 1114111) s
hex_below s n h = All-map (λ c k. ground arith) s h.chars

prefix_condition_lem :
    (column p : Text) → IsHex column 64 → prefix_condition column p ≡ starts_with column p
unfolding in_range
prefix_condition_lem column p h = elim (Bool-cases (length p == 64)) [
  | inl e ↦ rw e (prefix_of_length column p (ground (arith, h.size)))
  | inr e ↦ rw e (prefix_interval column p (hex_below column 64 h))
]

-- On a column of 64 hex digits the conditions of the prefixes are `_matches_prefixes`.
pub prefix_clause_lem :
    (column : Text) (ps : List Text)
    → IsHex column 64
    → prefix_clause column ps ≡ matches_prefixes column ps
unfolding matches_prefixes
prefix_clause_lem column ps h =
    any-prefix_condition column ps
    ∙ any_cong (prefix_condition column) (λ p. starts_with column p) ps
        (λ p. prefix_condition_lem column p h)

any-same_tag_row :
    (r : TagRow) (id name : Text) (values : List Text)
    → (text_eq r.event_id id && (text_eq r.name name && text_in r.val values))
      ≡ any (λ w. same_tag_row r (record { event_id = id; name = name; val = w })) values
any-same_tag_row r id name values =
    ground
      (arith, any-and (text_eq r.event_id id && text_eq r.name name) (λ w. text_eq r.val w) values)

any-tag_is :
    (name : Text) (values : List Text) (t : List Text)
    → any (λ w. tag_is name w t) values ≡ tag_matches name values t
any-tag_is name values [] = any-false values
any-tag_is name values (k ∷ []) = any-false values
any-tag_is name values (k ∷ v ∷ more) = any-and (text_eq k name) (λ w. text_eq v w) values

module _ (rows : List TagRow) (row : EventRow) (own : OwnTags rows row) where
  -- The subquery on the index finds the tags that `_matches_tag` finds.
  tag_clause_lem :
      (name : Text) (values : List Text)
      → tag_clause rows row.id name values ≡ matches_tag row.raw_json name values
  unfolding tag_clause matches_tag
  tag_clause_lem name values =
      any_cong _ _ rows (λ r. any-same_tag_row r row.id name values)
      ∙ any_swap (λ r w. same_tag_row r (record { event_id = row.id; name = name; val = w })) rows
          values
      ∙ any_cong _ _ values (λ w. own name w)
      ∙ any_swap (λ w t. tag_is name w t) values row.raw_json.tags
      ∙ any_cong _ _ row.raw_json.tags (any-tag_is name values)

  tag_clauses_lem : (f : Filter) → tag_clauses rows row.id f ≡ matches_tags row.raw_json f
  unfolding tag_clauses matches_tags
  tag_clauses_lem [] = refl
  tag_clauses_lem (Entry.tag name values ∷ f) =
      ap₂ (◌&&◌) (tag_clause_lem name values) (tag_clauses_lem f)
  tag_clauses_lem (_ ∷ f) = tag_clauses_lem f

holds_of-prefix :
    (column : Text) (o : Option (List Text))
    → IsHex column 64
    → holds_of (prefix_clause column) o ≡ holds_of (matches_prefixes column) o
holds_of-prefix column none h = refl
holds_of-prefix column (some ps) h = prefix_clause_lem column ps h

where_clause-row_of :
    (db : Database) (f : Filter) (e : StoredEvent)
    → IsHex e.id 64
    → IsHex e.pubkey 64
    → OwnTags db.event_tags (row_of e)
    → where_clause db f (row_of e) ≡ (is_visible db.deletions (row_of e) && matches_filter e f)
unfolding where_clause matches_filter
where_clause-row_of db f e hi hp own = ground (
  arith,
  holds_of-prefix e.id (get_ids f) hi,
  holds_of-prefix e.pubkey (get_authors f) hp,
  tag_clauses_lem db.event_tags (row_of e) own f,
)

-- The row of an event that is visible and that `matches_filter` accepts.
abbrev pub answers : Database → Filter → EventRow → Bool
answers db f row = is_visible db.deletions row && matches_filter row.raw_json f

pub where_clause_lem :
    (db : Database) (f : Filter) (row : EventRow)
    → IsRow row
    → OwnTags db.event_tags row
    → where_clause db f row ≡ answers db f row
where_clause_lem db f row h own =
    subst
      (λ r.
        IsHex r.id 64
        → IsHex r.pubkey 64
        → OwnTags db.event_tags r
        → where_clause db f r ≡ answers db f r)
      (sym h.columns) (where_clause-row_of db f row.raw_json) h.id h.pubkey own

-- On a valid database the SELECT of a filter keeps the visible rows that `matches_filter` accepts.
pub filter-where_clause :
    (db : Database) (f : Filter)
    → IsValid db
    → filter (where_clause db f) db.events ≡ filter (answers db f) db.events
filter-where_clause db f valid =
    filter_cong _ _ db.events
      (All-zip (where_clause_lem db f) db.events valid.rows (IsValid-OwnTags db valid))
