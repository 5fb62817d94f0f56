-- ===== src/Store/Query/Answer.antt =====
-- `EventStore.query` against its specification: the latest visible events that match any filter.
use spurline.Prelude.{
  ◌&&◌, ◌≡◌, ◌≢◌, inl, inr, refl, ap, ◌∙◌, sym, List, [], ◌∷◌, map, filter, take, All, Any, All-map,
  All-zip,
}
use spurline.Prelude.Text.{Text}
use spurline.Events.{StoredEvent}
use spurline.Filters.{Filter, matches_any_filter, filter_limit}
use spurline.Store.{Database, EventRow, row_of}
use spurline.Store.Invariant.{IsValid, IsRow, DistinctIds}
use spurline.Store.Query.{event_key, sort_desc, is_visible}

-- The specification: of the stored events that are visible and match a filter, the first `limit` in
-- descending order of time and id.
unfoldable pub matching : Database → List Filter → List StoredEvent
matching db filters =
    map (λ row. row.raw_json)
      (filter (λ row. is_visible db.deletions row && matches_any_filter row.raw_json filters)
        db.events)

unfoldable pub answer : Database → List Filter → List StoredEvent
answer db filters = take (filter_limit filters 500 5000) (sort_desc event_key (matching db filters))

-- the event of a row of the table
abbrev pub IsStored : List EventRow → StoredEvent → Type 0
IsStored rows e = Any (λ r. r ≡ row_of e) rows

stored_id :
    (id : Text) (rows : List EventRow) (e : StoredEvent)
    → All (λ r. id ≢ r.id) rows
    → IsStored rows e
    → id ≢ e.id
stored_id id (r ∷ rows) e h (inl m) = rw m at h.0
stored_id id (r ∷ rows) e h (inr m) = stored_id id rows e h.1 m
stored_id id [] e h m = absurd m

-- Stored events with one id are one event.
pub IsStored-unique :
    (rows : List EventRow) (d e : StoredEvent)
    → DistinctIds rows
    → IsStored rows d
    → IsStored rows e
    → d.id ≡ e.id
    → d ≡ e
IsStored-unique [] d e h md me same = absurd md
IsStored-unique (r ∷ rows) d e h (inl md) (inl me) same =
    ap (λ (row : EventRow). row.raw_json) (sym md ∙ me)
IsStored-unique (r ∷ rows) d e h (inl md) (inr me) same =
    absurd (stored_id r.id rows e h.0 me (ap (λ (row : EventRow). row.id) md ∙ same))
IsStored-unique (r ∷ rows) d e h (inr md) (inl me) same =
    absurd (stored_id r.id rows d h.0 md (ap (λ (row : EventRow). row.id) me ∙ sym same))
IsStored-unique (r ∷ rows) d e h (inr md) (inr me) same = IsStored-unique rows d e h.1 md me same

All-self : (rows : List EventRow) → All (λ r. Any (λ q. q ≡ r) rows) rows
All-self [] = tt
All-self (r ∷ rows) = (inl refl, All-map (λ q m. inr m) rows (All-self rows))

pub rows-IsStored :
    (db : Database) → IsValid db → All (λ r. IsStored db.events r.raw_json) db.events
rows-IsStored db valid =
    All-zip (λ r m (row : IsRow r). rw row.columns at m) db.events (All-self db.events) valid.rows
