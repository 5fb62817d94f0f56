-- ===== src/Relay/Tests.antt =====
-- src/spurline/main.py: one relay with two sockets.
use spurline.Prelude.{some, ◌↔◌, true, ◌≡◌, refl, none, some, List, [], ◌∷◌, ok, err}
use spurline.Prelude.Int.{pos}
use spurline.Prelude.Text.{codes, text_eq}
use spurline.Json.{Json, null, num, str, arr, obj, items_of, end, field, int}
use spurline.Events.{to_dict, validate_event}
use spurline.Events.Validity.{validate_event_iff}
use spurline.Events.Reading.{to_dict-Reads}
use spurline.Events.Tests.{lenient, note, note-IsValid}
use spurline.Filters.{
  Filter, kinds, too_many_filters, normalize_filters, clean_all, as_int_list,
  validate_filter_bounds, check_filters, check_filter, check_entry, check_ints,
}
use spurline.Filters.Bounds.{AreBounded, normalize_filters-AreBounded}
use spurline.Store.Tests.{noted, noted-IsValid}
use spurline.Storage.{sqlite_storage}
use spurline.Relay.{
  get_connection, Relay, Subscriptions, event, broadcast, handle_event, handle_req, handle_message,
  connect, serve, Parsed, parsed,
}
use spurline.Relay.Broadcast.{IsSent, IsDue, broadcast_iff}
use spurline.Relay.Publish.{Published, handle_event_lem}
use spurline.Relay.Subscribe.{Keeps, Served, handle_req_lem}
use spurline.Relay.Sound.{IsSound, StaysSound, handle_message-StaysSound}
use spurline.Relay.Authentic.{IsAuthentic, Reachable-IsAuthentic}
use spurline.Relay.Reach.{Reachable, started, stepped, opened, served, start, Reachable-IsSound}

abbrev notes : List Filter
notes = (kinds (int (pos 1) ∷ []) ∷ []) ∷ []

-- {"kinds": [1]}
abbrev raw_notes : Json
raw_notes = obj (field (codes "kinds") (arr (items_of (num (int (pos 1)) ∷ []))) end)

abbrev subs : Subscriptions
subs = (codes "a", notes) ∷ []

-- two sockets, of which the second follows the notes
abbrev relay : Relay
relay = record {
  connections = (1, []) ∷ (2, subs) ∷ [];
  store = record { db = noted; faults = [] };
}

broadcast_iff_example :
    IsSent 2 (event (codes "a") (to_dict note)) (broadcast note relay.connections)
    ↔ IsDue note 2 (event (codes "a") (to_dict note)) relay.connections
broadcast_iff_example = broadcast_iff note 2 (event (codes "a") (to_dict note)) relay.connections

note-accepted : validate_event lenient 0 true (obj (to_dict note)) ≡ ok note
note-accepted =
    (validate_event_iff lenient 0 true (obj (to_dict note)) note).1
      (note-IsValid, (to_dict note, refl, to_dict-Reads note))

handle_event_lem_example :
    let h =
      handle_event lenient true sqlite_storage none 0 1
        (str (codes "EVENT") ∷ obj (to_dict note) ∷ [])
        relay in
    Published lenient true 0 1 (str (codes "EVENT")) (obj (to_dict note)) relay note h
    × (h.uncaught ≡ none)
    × (h.relay.connections ≡ relay.connections)
handle_event_lem_example =
    handle_event_lem lenient true 0 1 (str (codes "EVENT")) (obj (to_dict note)) relay note
      note-accepted

notes-normalized : normalize_filters (raw_notes ∷ []) ≡ ok notes
unfolding normalize_filters clean_all text_eq as_int_list validate_filter_bounds check_filters
    check_filter check_entry check_ints
notes-normalized = refl

handle_req_lem_example :
    let h =
      handle_req sqlite_storage 2 (str (codes "REQ") ∷ str (codes "b") ∷ raw_notes ∷ []) relay in
    Served 2 (codes "b") (str (codes "REQ")) raw_notes [] relay subs notes h
    × Keeps 2 (codes "b") relay h.relay
    × (h.relay.store.db ≡ noted)
handle_req_lem_example =
    handle_req_lem 2 (codes "b") (str (codes "REQ")) raw_notes [] relay subs notes refl
      notes-normalized noted-IsValid

abbrev sixteen : List Json
sixteen =
    null ∷ null ∷ null ∷ null ∷ null ∷ null ∷ null ∷ null ∷ null ∷ null ∷ null ∷ null ∷ null ∷ null
    ∷ null ∷ null ∷ []

too_many : normalize_filters (null ∷ sixteen) ≡ err too_many_filters
unfolding normalize_filters
too_many = refl

notes-AreBounded : AreBounded notes
notes-AreBounded = (normalize_filters-AreBounded (raw_notes ∷ []) notes notes-normalized).1

relay-IsSound : IsSound relay
relay-IsSound = record { database = noted-IsValid; filters = (tt, ((notes-AreBounded, tt), tt)) }

handle_message-StaysSound_example : StaysSound (
    handle_message lenient true sqlite_storage none 0 2
      (parsed (arr (items_of (str (codes "REQ") ∷ str (codes "b") ∷ raw_notes ∷ []))))
      relay)
handle_message-StaysSound_example =
    handle_message-StaysSound lenient true 0 2 relay subs refl relay-IsSound
      (parsed (arr (items_of (str (codes "REQ") ∷ str (codes "b") ∷ raw_notes ∷ []))))

one_socket-Reachable : Reachable lenient true (connect 7 (start (true ∷ [])))
one_socket-Reachable = stepped (started (true ∷ [])) (opened 7)

Reachable-IsSound_example : IsSound (connect 7 (start (true ∷ [])))
Reachable-IsSound_example =
    Reachable-IsSound lenient true (connect 7 (start (true ∷ []))) one_socket-Reachable

abbrev publication : Parsed
publication = parsed (arr (items_of (str (codes "EVENT") ∷ obj (to_dict note) ∷ [])))

abbrev opened_relay : Relay
opened_relay = connect 7 (start [])

seven-connected : get_connection 7 opened_relay ≡ some []
unfolding connect
seven-connected = refl

published-Reachable :
    Reachable lenient true (serve lenient true sqlite_storage none 0 7 publication opened_relay)
published-Reachable =
    stepped (stepped (started []) (opened 7)) (served 0 7 publication [] seven-connected)

Reachable-IsAuthentic_example :
    IsAuthentic lenient true (serve lenient true sqlite_storage none 0 7 publication opened_relay)
Reachable-IsAuthentic_example =
    Reachable-IsAuthentic lenient true
      (serve lenient true sqlite_storage none 0 7 publication opened_relay) published-Reachable
