-- ===== src/Relay.antt =====
-- src/spurline/main.py: `RelayService`, the Nostr side of the relay, and the WebSocket endpoint.
-- A message is given by what `json.loads` makes of it: a value, a JSONDecodeError, or another
-- exception (RecursionError at deep nesting, ValueError at an integer of too many digits). A socket
-- is a number. What is sent is a list of messages, each with its socket, in the order of the calls.
mod Broadcast
mod Publish
mod Subscribe
mod Sound
mod Reach
mod Authentic
mod Tests
use spurline.Prelude.{
  ℕ, Bool, true, false, Option, none, some, List, [], ◌∷◌, ◌++◌, map, any, ltb, ◌==◌, if◌then◌else◌,
  Outcome, ok, err,
}
use spurline.Prelude.Text.{Text, codes, text_eq}
use spurline.Prelude.Dict.{find, set, remove}
use spurline.Json.{Json, null, str, obj, Fields, lookup, as_str, as_list}
use spurline.Events.{Crypto, Invalid, Raised, invalid, StoredEvent, to_dict, validate_event}
use spurline.Filters.{FilterError, Filter, matches_any_filter, normalize_filters}
use spurline.Store.{
  Connection, StoreError, sqlite_error, overflow_error, encode_error, invalid_filter,
}
use spurline.Storage.{Storage, Failure, storage_error, raised, Call}

-- The messages to a client, with the texts of their last places as values.
pub data Notice : Type 0 where
  invalid_json not_an_array event_arity req_arity close_arity : Notice
  unsupported : Text → Notice

pub data Remark : Type 0 where
  nothing duplicate unconfirmed query_failed : Remark
  invalid_event : Invalid → Remark
  invalid_filters : FilterError → Remark

pub data Message : Type 0 where
  notice : Notice → Message
  okay : Json → Bool → Remark → Message
  closed : Text → Remark → Message
  event : Text → Fields → Message
  eose : Text → Message

-- what `json.loads` makes of a message
pub data Parsed : Type 0 where
  parsed : Json → Parsed
  not_json not_loaded : Parsed

-- an exception that leaves a handler
pub data Uncaught : Type 0 where
  event_error : Raised → Uncaught
  failure : Failure → Uncaught
  load_error no_connection : Uncaught

abbrev pub Subscriptions : Type 0
Subscriptions = List (Text × List Filter)

pub record Relay : Type 0 where
  pub connections : List (ℕ × Subscriptions)
  pub store : Connection

abbrev pub Sent : Type 0
Sent = List (ℕ × Message)

pub record Handled : Type 0 where
  pub relay : Relay
  pub sent : Sent
  pub uncaught : Option Uncaught

abbrev pub reply : ℕ → Message → Relay → Handled
reply ws m r = record { relay = r; sent = (ws, m) ∷ []; uncaught = none }

abbrev pub escape : Uncaught → Relay → Handled
escape e r = record { relay = r; sent = []; uncaught = some e }

abbrev pub quiet : Relay → Handled
quiet r = record { relay = r; sent = []; uncaught = none }

abbrev pub get_connection : ℕ → Relay → Option Subscriptions
get_connection ws r = find ◌==◌ ws r.connections

abbrev pub put_connection : ℕ → Subscriptions → Relay → Relay
put_connection ws subs r = record r { connections = set ◌==◌ ws subs r.connections }

-- `self.connections[websocket]`
abbrev pub with_connection : Relay → (Subscriptions → Handled) → Option Subscriptions → Handled
with_connection r f none = escape no_connection r
with_connection r f (some subs) = f subs

-- `connect` and `disconnect`
unfoldable pub connect : ℕ → Relay → Relay
connect ws r = put_connection ws [] r

unfoldable pub disconnect : ℕ → Relay → Relay
disconnect ws r = record r { connections = remove ◌==◌ ws r.connections }

-- `broadcast`: what is sent to the subscriptions of one connection, and to those of all
unfoldable pub notify : StoredEvent → ℕ → Subscriptions → Sent
notify e ws [] = []
notify e ws ((id, filters) ∷ subs) =
    let rest = notify e ws subs in
    if matches_any_filter e filters then (ws, event id (to_dict e)) ∷ rest else rest

unfoldable pub broadcast : StoredEvent → List (ℕ × Subscriptions) → Sent
unfolding notify
broadcast e [] = []
broadcast e ((ws, subs) ∷ connections) = notify e ws subs ++ broadcast e connections

-- `raw_event.get("id")`, or "" for a value that is no dict
abbrev pub given_id : Json → Json
given_id (obj d) = elim (lookup (codes "id") d) [ none ↦ null | some id ↦ id ]
given_id _ = str []

-- `except EventValidationError`
unfoldable pub refuse : ℕ → Json → Raised → Relay → Handled
refuse ws id (invalid why) r = reply ws (okay id false (invalid_event why)) r
refuse ws id e r = escape (event_error e) r

-- `except (StorageError, sqlite3.Error, OverflowError)`
unfoldable pub confirm : ℕ → StoredEvent → Relay → Outcome Failure Bool × Connection → Handled
confirm ws e r (err (raised (invalid_filter why)), c) =
    escape (failure (raised (invalid_filter why))) (record r { store = c })
confirm ws e r (err (raised encode_error), c) =
    escape (failure (raised encode_error)) (record r { store = c })
confirm ws e r (err _, c) = reply ws (okay (str e.id) false unconfirmed) (record r { store = c })
confirm ws e r (ok false, c) = reply ws (okay (str e.id) true duplicate) (record r { store = c })
confirm ws e r (ok true, c) = record {
  relay = record r { store = c };
  sent = (ws, okay (str e.id) true nothing) ∷ broadcast e r.connections;
  uncaught = none;
}

abbrev pub send_events : ℕ → Text → List StoredEvent → Sent
send_events ws id events = map (λ e. (ws, event id (to_dict e))) events ++ (ws, eose id) ∷ []

-- `except StorageError`, where the subscription is dropped again
unfoldable pub answered :
    ℕ → Text → Subscriptions → Relay → Outcome Failure (List StoredEvent) × Connection → Handled
answered ws id subs r (ok events, c) = record {
  relay = record r { store = c };
  sent = send_events ws id events;
  uncaught = none;
}
answered ws id subs r (err storage_error, c) =
    reply ws (closed id query_failed)
      (put_connection ws (remove text_eq id subs) (record r { store = c }))
answered ws id subs r (err e, c) = escape (failure e) (record r { store = c })

module _ (storage : Storage) where
  -- `_handle_req` on a subscription id and its filters: those of this connection are `subs`
  unfoldable pub subscribe :
      ℕ → Text → Subscriptions → Relay → Outcome FilterError (List Filter) → Handled
  subscribe ws id subs r (err why) =
      reply ws (closed id (invalid_filters why)) (put_connection ws (remove text_eq id subs) r)
  subscribe ws id subs r (ok filters) =
      let subs' = set text_eq id filters (remove text_eq id subs) in
      answered ws id subs' (put_connection ws subs' r) (storage.query_events filters r.store)

  abbrev pub request : ℕ → Option Text → List Json → Relay → Handled
  request ws none raw r = reply ws (notice req_arity) r
  request ws (some id) raw r =
      with_connection r (λ subs. subscribe ws id subs r (normalize_filters raw))
        (get_connection ws r)

  -- `_handle_req`
  unfoldable pub handle_req : ℕ → List Json → Relay → Handled
  handle_req ws (command ∷ id ∷ f ∷ raw) r = request ws (as_str id) (f ∷ raw) r
  handle_req ws _ r = reply ws (notice req_arity) r

abbrev pub unsubscribe : ℕ → Option Text → Relay → Handled
unsubscribe ws none r = reply ws (notice close_arity) r
unsubscribe ws (some id) r =
    with_connection r (λ subs. quiet (put_connection ws (remove text_eq id subs) r))
      (get_connection ws r)

-- `_handle_close`
unfoldable pub handle_close : ℕ → List Json → Relay → Handled
handle_close ws (command ∷ id ∷ []) r = unsubscribe ws (as_str id) r
handle_close ws _ r = reply ws (notice close_arity) r

abbrev pub command_of : List Json → Option Text
command_of [] = none
command_of (x ∷ xs) = as_str x

abbrev end_if_raised : ℕ → Relay → Option Uncaught → Relay
end_if_raised ws r none = r
end_if_raised ws r (some e) = disconnect ws r

-- `RelayService`, with `self.store`, and `self.witness.accept` where there is a witness
module _ (lib : Crypto) (verify : Bool) (storage : Storage)
    (witness : Option (StoredEvent → Call Bool)) where
  abbrev pub accept : StoredEvent → Call Bool
  accept e c = elim witness [ none ↦ storage.save_event e c | some witnessed ↦ witnessed e c ]

  abbrev settle_event : ℕ → Json → Relay → Outcome Raised StoredEvent → Handled
  settle_event ws raw r (err e) = refuse ws (given_id raw) e r
  settle_event ws raw r (ok e) = confirm ws e r (accept e r.store)

  -- `_handle_event`, at the time `now`
  unfoldable pub handle_event : ℕ → ℕ → List Json → Relay → Handled
  handle_event now ws (command ∷ raw ∷ []) r =
      settle_event ws raw r (validate_event lib now verify raw)
  handle_event now ws _ r = reply ws (notice event_arity) r

  abbrev pub dispatch : ℕ → ℕ → Text → List Json → Relay → Handled
  dispatch now ws command payload r =
      if text_eq command (codes "EVENT")
      then handle_event now ws payload r
      else if text_eq command (codes "REQ")
      then handle_req storage ws payload r
      else if text_eq command (codes "CLOSE")
      then handle_close ws payload r
      else reply ws (notice (unsupported command)) r

  abbrev pub handle_command : ℕ → ℕ → List Json → Relay → Option Text → Handled
  handle_command now ws payload r none = reply ws (notice not_an_array) r
  handle_command now ws payload r (some command) = dispatch now ws command payload r

  abbrev pub handle_array : ℕ → ℕ → Relay → Option (List Json) → Handled
  handle_array now ws r none = reply ws (notice not_an_array) r
  handle_array now ws r (some payload) = handle_command now ws payload r (command_of payload)

  -- `handle_message`
  unfoldable pub handle_message : ℕ → ℕ → Parsed → Relay → Handled
  handle_message now ws not_json r = reply ws (notice invalid_json) r
  handle_message now ws not_loaded r = escape load_error r
  handle_message now ws (parsed payload) r = handle_array now ws r (as_list payload)

  -- what the endpoint does with a message: an exception ends the loop, and the socket is removed
  unfoldable pub serve : ℕ → ℕ → Parsed → Relay → Relay
  serve now ws message r =
      let handled = handle_message now ws message r in
      end_if_raised ws handled.relay handled.uncaught
