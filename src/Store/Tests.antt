-- ===== src/Store/Tests.antt =====
-- src/spurline/store.py on a database of one event and a deletion.
use spurline.Prelude.{
  ◌≤◌, true, false, ◌≡◌, ◌⊎◌, ◌↔◌, inr, refl, none, some, List, [], ◌∷◌, filter, arith, ok, err,
}
use spurline.Prelude.Int.{pos}
use spurline.Prelude.Text.{Text, codes, text_eq}
use spurline.Json.{int}
use spurline.Events.{StoredEvent, is_lower_hex, is_hex_char, is_encodable, is_surrogate}
use spurline.Events.Validity.{IsHex}
use spurline.Events.Tests.{note, hash_text, key_text, sig_text}
use spurline.Filters.{
  Filter, kinds, limit, tag, too_many_filters, filter_limit, validate_filter_bounds, check_filters,
  check_filter, check_entry, check_ints, requested_limits,
}
use spurline.Store.{
  Database, Connection, empty_database, row_of, JobInputs, count_pending, save, execute,
  transaction, enqueue, add_event, insert_or_refuse, refusal, add_tags, record_deletions, complete,
  index_tags, record_tag_deletions, encode_error, overflow_error, insert_event, insert_tag,
  replace_deletion, insert_job,
}
use spurline.Store.Invariant.{IsValid, IsValid-empty}
use spurline.Store.Effects.{committed}
use spurline.Store.Atomic.{IsAtomic, Refuses, save-IsAtomic, save_returns, save_overflow}
use spurline.Store.Refusal.{IsEncodable}
use spurline.Store.Preserve.{committed-IsValid}
use spurline.Store.Hidden.{Deletes, save_visible}
use spurline.Store.Jobs.{Follows}
use spurline.Store.Queue.{committed-Follows, count_pending-save}
use spurline.Store.Query.{
  query, is_bindable, collect, select, tag_clauses, put, sort_desc, insert_desc, where_clause,
  is_visible,
}
use spurline.Store.Query.Where.{answers, filter-where_clause}
use spurline.Store.Query.Answer.{answer}
use spurline.Store.Query.Result.{Returns, query_lem}

abbrev pub deletion_id : Text
deletion_id = codes "ff112233445566778899aabbccddeeff00112233445566778899aabbccddeeff"

-- the author's deletion of the note
abbrev pub deletion : StoredEvent
deletion = record {
  id = deletion_id;
  pubkey = key_text;
  created_at = int (pos 101);
  kind = int (pos 5);
  tags = (codes "e" ∷ hash_text ∷ []) ∷ [];
  content = [];
  sig = sig_text;
}

abbrev pub job : JobInputs
job = record {
  subject = note;
  signed_event_digest = hash_text;
  receipt_version = 1;
  observed_at_ms = 100000;
  clock_uncertainty_ms = some 5;
  authorization_event_id = hash_text;
  witness_policy_digest = hash_text;
  witness_pubkey = key_text;
}

-- the database after the note
abbrev pub noted : Database
noted = (committed note none 1000 none empty_database).1

abbrev pub noted_connection : Connection
noted_connection = record { db = noted; faults = false ∷ true ∷ [] }

abbrev fresh_connection : Connection
fresh_connection = record { db = empty_database; faults = [] }

pub hash-IsHex : IsHex hash_text 64
hash-IsHex = omega arith

key-IsHex : IsHex key_text 64
key-IsHex = omega arith

pub noted-IsValid : IsValid noted
noted-IsValid =
    committed-IsValid note none 1000 none empty_database hash-IsHex key-IsHex IsValid-empty

-- the note is found by its kind, and no longer after its deletion
visible_run :
    query ((kinds (int (pos 1) ∷ []) ∷ []) ∷ []) (record { db = noted; faults = [] })
    ≡ (ok (note ∷ []), record { db = noted; faults = [] })
unfolding query is_bindable execute committed insert_event insert_tag insert_job replace_deletion
    text_eq collect select where_clause is_visible tag_clauses put sort_desc insert_desc
    validate_filter_bounds check_filters check_filter check_entry check_ints filter_limit
    requested_limits
visible_run = refl

hidden_run : is_visible (committed deletion none 1000 none noted).1.deletions (row_of note) ≡ false
unfolding committed insert_event insert_tag replace_deletion is_visible text_eq is_lower_hex
    is_hex_char
hidden_run = refl

abbrev some_notes : List Filter
some_notes = (kinds (int (pos 1) ∷ []) ∷ []) ∷ (limit (int (pos 3)) ∷ []) ∷ []

some_notes-passed : validate_filter_bounds some_notes ≡ ok tt
unfolding validate_filter_bounds check_filters check_filter check_entry check_ints
some_notes-passed = refl

abbrev failing : Connection
failing = record { db = empty_database; faults = false ∷ false ∷ true ∷ [] }

note-IsEncodable : IsEncodable note
unfolding is_encodable is_surrogate
note-IsEncodable = record { id = refl; pubkey = refl; content = refl; sig = refl; tags = refl }

save-IsAtomic_example :
    IsAtomic
      (committed note (some job) 10 none empty_database)
      empty_database
      (save note (some job) 10 none failing)
    ⊎ (¬ (IsEncodable note)
        × ((save note (some job) 10 none failing).0 ≡ err encode_error)
        × ((save note (some job) 10 none failing).1.db ≡ empty_database))
save-IsAtomic_example = save-IsAtomic note (some job) 10 none failing refl

save_returns_example :
    ((save note (some job) 10 none fresh_connection).0
      ≡ ok (committed note (some job) 10 none empty_database).0)
    × ((save note (some job) 10 none fresh_connection).1.db
        ≡ (committed note (some job) 10 none empty_database).1)
save_returns_example =
    save_returns note (some job) 10 none fresh_connection refl note-IsEncodable refl

abbrev huge : StoredEvent
huge = record note { created_at = int (pos 9223372036854775808) }

save_overflow_example :
    Refuses overflow_error (save huge none 10 none fresh_connection).0
    × ((save huge none 10 none fresh_connection).1.db ≡ empty_database)
save_overflow_example = save_overflow huge none 10 none fresh_connection refl (record {
  id = note-IsEncodable.id;
  pubkey = note-IsEncodable.pubkey;
  content = note-IsEncodable.content;
  sig = note-IsEncodable.sig;
  tags = note-IsEncodable.tags;
})

-- a note with a lone surrogate in its content
surrogate_run :
    (save (record note { content = 55296 ∷ [] }) none 10 none fresh_connection).0 ≡ err encode_error
unfolding save transaction enqueue add_event insert_or_refuse refusal is_encodable is_surrogate
    add_tags record_deletions complete execute
surrogate_run = refl

committed-IsValid_example : IsValid (committed note none 1000 none empty_database).1
committed-IsValid_example =
    committed-IsValid note none 1000 none empty_database hash-IsHex key-IsHex IsValid-empty

-- SQLite has no fault left to report.
abbrev noted_clean : Connection
noted_clean = record { db = noted; faults = [] }

deletion-saved : (save deletion none 10 none noted_clean).0 ≡ ok true
unfolding save transaction enqueue add_event insert_or_refuse refusal is_encodable is_surrogate
    add_tags record_deletions complete execute insert_event index_tags insert_tag text_eq committed
    record_tag_deletions replace_deletion is_lower_hex is_hex_char
deletion-saved = refl

save_visible_example :
    (is_visible (save deletion none 10 none noted_clean).1.db.deletions (row_of note) ≡ true)
    ↔ ((is_visible noted.deletions (row_of note) ≡ true) × ¬ (Deletes deletion (row_of note)))
save_visible_example =
    save_visible deletion (row_of note) none 10 none noted_clean true deletion-saved

committed-Follows_example :
    Follows noted.witness_jobs (committed note (some job) 10 none noted).1.witness_jobs
committed-Follows_example = committed-Follows note (some job) 10 none noted (inr refl)

none_pending : count_pending empty_database.witness_jobs ≤ 1
unfolding count_pending
none_pending = omega arith

count_pending-save_example :
    count_pending (save note (some job) 1 none failing).1.db.witness_jobs ≤ 1
count_pending-save_example = count_pending-save note (some job) 1 none failing none_pending

filter-where_clause_example :
    filter (where_clause noted (tag (codes "t") (codes "a\"b" ∷ []) ∷ [])) noted.events
    ≡ filter (answers noted (tag (codes "t") (codes "a\"b" ∷ []) ∷ [])) noted.events
filter-where_clause_example =
    filter-where_clause noted (tag (codes "t") (codes "a\"b" ∷ []) ∷ []) noted-IsValid

query_lem_example :
    Returns some_notes
      (answer noted some_notes)
      noted_connection
      (query some_notes noted_connection)
query_lem_example = query_lem some_notes noted_connection noted-IsValid some_notes-passed

abbrev too_many : List Filter
too_many = [] ∷ [] ∷ [] ∷ [] ∷ [] ∷ [] ∷ [] ∷ [] ∷ [] ∷ [] ∷ [] ∷ [] ∷ [] ∷ [] ∷ [] ∷ [] ∷ [] ∷ []

too_many-refused : validate_filter_bounds too_many ≡ err too_many_filters
unfolding validate_filter_bounds
too_many-refused = refl
