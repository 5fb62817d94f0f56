-- ===== src/Store/Invariant.antt =====
-- What holds of the tables between two calls.
use spurline.Prelude.{
  Bool, false, ◌&&◌, ◌≡◌, ◌≢◌, refl, List, [], ◌∷◌, All, any, arith, All-zip, All-map, ◌∙◌,
}
use spurline.Prelude.Text.{Text, text_eq, text_eq_iff, text_eq_refl}
use spurline.Events.Validity.{IsHex}
use spurline.Store.{Database, EventRow, TagRow, row_of, same_tag_row, empty_database}

-- whether the table holds the row
abbrev pub has_tag : List TagRow → Text → Text → Text → Bool
has_tag rows id name v =
    any (λ r. same_tag_row r (record { event_id = id; name = name; val = v })) rows

-- whether a tag begins with a name and a value
abbrev pub tag_is : Text → Text → List Text → Bool
tag_is name v (k ∷ w ∷ more) = text_eq k name && text_eq w v
tag_is name v _ = false

-- whether an event of that id has the tag
abbrev pub tagged : List EventRow → Text → Text → Text → Bool
tagged rows id name v = any (λ row. text_eq row.id id && any (tag_is name v) row.raw_json.tags) rows

abbrev pub DistinctIds : List EventRow → Type 0
DistinctIds [] = Unit
DistinctIds (row ∷ rows) = All (λ r. row.id ≢ r.id) rows × DistinctIds rows

-- A row holds the columns of its event, whose id and key are lowercase hex of 32 bytes.
pub record IsRow (row : EventRow) : Type 0 where
  pub columns : row ≡ row_of row.raw_json
  pub id : IsHex row.id 64
  pub pubkey : IsHex row.pubkey 64

-- The rows are those of distinct events, and `event_tags` holds exactly their tags.
pub record IsValid (db : Database) : Type 0 where
  pub rows : All IsRow db.events
  pub distinct : DistinctIds db.events
  pub indexed : (id name v : Text) → has_tag db.event_tags id name v ≡ tagged db.events id name v

pub IsValid-empty : IsValid empty_database
IsValid-empty = record { rows = tt; distinct = tt; indexed = λ id name v. refl }

-- The tags of a row, by the index.
absent :
    (rows : List EventRow) (id name v : Text)
    → All (λ r. id ≢ r.id) rows
    → tagged rows id name v ≡ false
absent [] id name v h = refl
absent (r ∷ rows) id name v h = ground (arith, h.0, text_eq_iff r.id id, absent rows id name v h.1)

abbrev pub OwnTags : List TagRow → EventRow → Type 0
OwnTags tags row =
    (name v : Text) → has_tag tags row.id name v ≡ any (tag_is name v) row.raw_json.tags

tagged-own :
    (rows : List EventRow)
    → DistinctIds rows
    → All
        (λ row. (name v : Text) → tagged rows row.id name v ≡ any (tag_is name v) row.raw_json.tags)
        rows
tagged-own [] h = tt
tagged-own (r ∷ rows) h = (
  λ name v. ground (arith, text_eq_refl r.id, absent rows r.id name v h.0),
  All-zip (λ row ne own name v. ground (arith, ne, text_eq_iff r.id row.id, own name v)) rows h.0
      (tagged-own rows h.1),
)

-- In a valid database the index gives each event its own tags.
pub IsValid-OwnTags : (db : Database) → IsValid db → All (OwnTags db.event_tags) db.events
IsValid-OwnTags db valid =
    All-map (λ row own name v. valid.indexed row.id name v ∙ own name v) db.events
      (tagged-own db.events valid.distinct)
