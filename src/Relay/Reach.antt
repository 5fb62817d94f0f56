-- ===== src/Relay/Reach.antt =====
-- The states that the relay can reach, with the SQLite storage and no witness.
use spurline.Prelude.{ℕ, Bool, ◌≡◌, none, some, List, []}
use spurline.Events.{Crypto}
use spurline.Store.{empty_database}
use spurline.Store.Invariant.{IsValid-empty}
use spurline.Storage.{sqlite_storage}
use spurline.Relay.{Relay, Parsed, Subscriptions, get_connection, connect, disconnect, serve}
use spurline.Relay.Sound.{IsSound, put-IsSound, disconnect-IsSound, serve-IsSound}

-- A step of the relay without a witness: a socket is accepted, sends a message, or goes away.
pub data Step (lib : Crypto) (verify : Bool) (r : Relay) : Relay → Type 0 where
  opened : (ws : ℕ) → Step lib verify r (connect ws r)
  served :
      (now ws : ℕ) (message : Parsed) (subs : Subscriptions)
      → get_connection ws r ≡ some subs
      → Step lib verify r (serve lib verify sqlite_storage none now ws message r)
  left : (ws : ℕ) → Step lib verify r (disconnect ws r)

-- the relay at its start, on a new database, with the faults to come
abbrev pub start : List Bool → Relay
start faults = record { connections = []; store = record { db = empty_database; faults = faults } }

pub data Reachable (lib : Crypto) (verify : Bool) : Relay → Type 0 where
  started : (faults : List Bool) → Reachable lib verify (start faults)
  stepped : {r r' : Relay} → Reachable lib verify r → Step lib verify r r' → Reachable lib verify r'

module _ (lib : Crypto) (verify : Bool) where
  Step-IsSound : (r r' : Relay) → Step lib verify r r' → IsSound r → IsSound r'
  unfolding connect disconnect
  Step-IsSound r r' (opened ws) sound = put-IsSound ws [] r.store r sound sound.database tt
  Step-IsSound r r' (served now ws message subs known) sound =
      serve-IsSound lib verify now ws r subs known sound message
  Step-IsSound r r' (left ws) sound = disconnect-IsSound ws r sound

  -- In every state that a relay without a witness, on the SQLite storage, reaches from a new database,
  -- by any sequence of connections, messages and disconnections and whatever statements SQLite fails,
  -- the database is valid and the filters of every subscription are within the bounds.
  pub Reachable-IsSound : (r : Relay) → Reachable lib verify r → IsSound r
  Reachable-IsSound r (started faults) = record { database = IsValid-empty; filters = tt }
  Reachable-IsSound r (stepped {r = before} reach step) =
      Step-IsSound before r step (Reachable-IsSound before reach)
