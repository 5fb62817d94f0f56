-- ===== src/Storage.antt =====
-- src/spurline/storage.py: the storage interface of the relay, and its SQLite implementation.
use spurline.Prelude.{Bool, List, Outcome, ok, err}
use spurline.Prelude.{none}
use spurline.Events.{StoredEvent}
use spurline.Filters.{Filter}
use spurline.Store.{Connection, StoreError, encode_error, invalid_filter, save}
use spurline.Store.Query.{query}

-- StorageError, or an exception that the backend raised itself
pub data Failure : Type 0 where
  storage_error : Failure
  raised : StoreError → Failure

abbrev pub Call : Type 0 → Type 0
Call A = Connection → Outcome Failure A × Connection

-- `EventStorage`
pub record Storage : Type 0 where
  pub save_event : StoredEvent → Call Bool
  pub query_events : List Filter → Call (List StoredEvent)

module _ {A : Type 0} where
  -- `except (sqlite3.Error, OverflowError)`
  abbrev pub wrap : Outcome StoreError A × Connection → Outcome Failure A × Connection
  wrap (ok a, c) = (ok a, c)
  wrap (err (invalid_filter e), c) = (err (raised (invalid_filter e)), c)
  wrap (err encode_error, c) = (err (raised encode_error), c)
  wrap (err _, c) = (err storage_error, c)

  -- no `except`
  abbrev pub pass : Outcome StoreError A × Connection → Outcome Failure A × Connection
  pass (ok a, c) = (ok a, c)
  pass (err e, c) = (err (raised e), c)

-- `SQLiteStorage`
unfoldable pub sqlite_storage : Storage
sqlite_storage = record {
  save_event = λ e c. wrap (save e none 1000 none c);
  query_events = λ filters c. wrap (query filters c);
}
