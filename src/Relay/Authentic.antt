-- ===== src/Relay/Authentic.antt =====
-- Every event in the database of a reachable relay was validated.
use spurline.Prelude.{
  ℕ, Bool, true, false, ◌≡◌, ◌⊎◌, inl, inr, refl, ap, sym, subst, ◌∙◌, Option, none, some, List, [],
  ◌∷◌, ◌++◌, All, All-append, Outcome, ok, err, if◌then◌else◌,
}
use spurline.Prelude.Text.{Text, codes, text_eq}
use spurline.Prelude.Dict.{set, remove}
use spurline.Json.{Json, as_str, as_list}
use spurline.Events.{
  Crypto, StoredEvent, Raised, invalid, unicode_error, key_not_parsed, key_error, untyped,
  validate_event,
}
use spurline.Events.Validity.{IsValid, validate_event_iff}
use spurline.Filters.{Filter, FilterError, normalize_filters}
use spurline.Filters.Bounds.{normalize_filters-AreBounded}
use spurline.Store.{
  Database, EventRow, row_of, Connection, StoreError, sqlite_error, overflow_error, encode_error,
  invalid_filter,
}
use spurline.Store.Query.{query}
use spurline.Store.Query.Result.{query_lem}
use spurline.Storage.{wrap, sqlite_storage}
use spurline.Relay.{
  Relay, Parsed, parsed, not_json, not_loaded, Handled, Subscriptions, Uncaught, get_connection,
  put_connection, given_id, refuse, answered, subscribe, settle_event, request, unsubscribe,
  with_connection, handle_event, handle_req, handle_close, handle_command, handle_array,
  handle_message, command_of, connect, disconnect, serve, end_if_raised,
}
use spurline.Relay.Publish.{confirm-Published, save_event-Saved}
use spurline.Relay.Sound.{IsSound}
use spurline.Relay.Reach.{
  Step, opened, served, left, Reachable, started, stepped, Reachable-IsSound,
}

module _ (lib : Crypto) (verify : Bool) where
  -- an event that passed the validation at some time
  abbrev pub WasValidated : EventRow → Type 0
  WasValidated row = (now : ℕ) × IsValid lib now verify row.raw_json

  abbrev pub IsAuthentic : Relay → Type 0
  IsAuthentic r = All WasValidated r.store.db.events

  -- the events are the same, or a valid one was added
  abbrev Adds : List EventRow → List EventRow → Type 0
  Adds rows rows' =
      (rows' ≡ rows)
      ⊎ ((e : StoredEvent) × WasValidated (row_of e) × (rows' ≡ rows ++ row_of e ∷ []))

  Adds-All :
      (rows rows' : List EventRow)
      → Adds rows rows'
      → All WasValidated rows
      → All WasValidated rows'
  Adds-All rows rows' (inl same) h = subst (All WasValidated) (sym same) h
  Adds-All rows rows' (inr (e, valid, same)) h =
      subst (All WasValidated) (sym same)
        (All-append WasValidated rows (row_of e ∷ []) h (valid, tt))

  abbrev Grown : Relay → Relay → Type 0
  Grown r r' = Adds r.store.db.events r'.store.db.events

  refuse-Grown : (ws : ℕ) (id : Json) (e : Raised) (r : Relay) → Grown r (refuse ws id e r).relay
  unfolding refuse
  refuse-Grown ws id (invalid why) r = inl refl
  refuse-Grown ws id unicode_error r = inl refl
  refuse-Grown ws id key_not_parsed r = inl refl
  refuse-Grown ws id key_error r = inl refl
  refuse-Grown ws id untyped r = inl refl

  when-Grown :
      (b : Bool) (r : Relay) (h k : Handled)
      → Grown r h.relay
      → Grown r k.relay
      → Grown r (if b then h else k).relay
  when-Grown true r h k p q = p
  when-Grown false r h k p q = q

  answered-store :
      (ws : ℕ) (id : Text) (subs : Subscriptions) (r : Relay)
      (s : Outcome StoreError (List StoredEvent) × Connection)
      → (answered ws id subs r (wrap s)).relay.store ≡ s.1
  unfolding answered
  answered-store ws id subs r (ok events, c) = refl
  answered-store ws id subs r (err sqlite_error, c) = refl
  answered-store ws id subs r (err overflow_error, c) = refl
  answered-store ws id subs r (err encode_error, c) = refl
  answered-store ws id subs r (err (invalid_filter e), c) = refl

  subscribe-Grown :
      (ws : ℕ) (id : Text) (subs : Subscriptions) (raw : List Json) (r : Relay)
      (n : Outcome FilterError (List Filter))
      → normalize_filters raw ≡ n
      → IsSound r
      → Grown r (subscribe sqlite_storage ws id subs r n).relay
  unfolding subscribe sqlite_storage
  subscribe-Grown ws id subs raw r (err e) passed sound = inl refl
  subscribe-Grown ws id subs raw r (ok filters) passed sound =
      let (_, _, checked) = normalize_filters-AreBounded raw filters passed in
      let subs' = set text_eq id filters (remove text_eq id subs) in
      let same = answered-store ws id subs' (put_connection ws subs' r) (query filters r.store) in
      inl (
        ap (λ (c : Connection). c.db.events) same
        ∙ ap (λ (d : Database). d.events) (query_lem filters r.store sound.database checked).0)

  module _ (ws : ℕ) (r : Relay) (sound : IsSound r) where
    connection-Grown :
        (f : Subscriptions → Handled) (o : Option Subscriptions)
        → ((subs : Subscriptions) → Grown r (f subs).relay)
        → Grown r (with_connection r f o).relay
    connection-Grown f none h = inl refl
    connection-Grown f (some subs) h = h subs

    request-Grown :
        (o : Option Text) (raw : List Json) → Grown r (request sqlite_storage ws o raw r).relay
    request-Grown none raw = inl refl
    request-Grown (some id) raw =
        connection-Grown _ (get_connection ws r)
          (λ subs. subscribe-Grown ws id subs raw r (normalize_filters raw) refl sound)

    handle_req-Grown :
        (payload : List Json) → Grown r (handle_req sqlite_storage ws payload r).relay
    unfolding handle_req
    handle_req-Grown (command ∷ id ∷ f ∷ raw) = request-Grown (as_str id) (f ∷ raw)
    handle_req-Grown [] = inl refl
    handle_req-Grown (command ∷ []) = inl refl
    handle_req-Grown (command ∷ id ∷ []) = inl refl

    unsubscribe-Grown : (o : Option Text) → Grown r (unsubscribe ws o r).relay
    unsubscribe-Grown none = inl refl
    unsubscribe-Grown (some id) = connection-Grown _ (get_connection ws r) (λ subs. inl refl)

    handle_close-Grown : (payload : List Json) → Grown r (handle_close ws payload r).relay
    unfolding handle_close
    handle_close-Grown (command ∷ id ∷ []) = unsubscribe-Grown (as_str id)
    handle_close-Grown [] = inl refl
    handle_close-Grown (command ∷ []) = inl refl
    handle_close-Grown (command ∷ id ∷ x ∷ more) = inl refl

    module _ (now : ℕ) where
      settle-Grown :
          (raw : Json) (o : Outcome Raised StoredEvent)
          → validate_event lib now verify raw ≡ o
          → Grown r (settle_event lib verify sqlite_storage none ws raw r o).relay
      settle-Grown raw (err e) h = refuse-Grown ws (given_id raw) e r
      settle-Grown raw (ok e) h =
          let (valid, _) = (validate_event_iff lib now verify raw e).0 h in
          elim (confirm-Published lib verify now ws raw raw r e
            (sqlite_storage.save_event e r.store)
            (save_event-Saved lib now verify e r.store valid)).0 [
              | inl (_, _, added) ↦ inr (e, (now, valid), added)
              | inr (inl (_, _, same)) ↦ inl same
              | inr (inr (_, same)) ↦ inl (ap (λ (d : Database). d.events) same)
            ]

      handle_event-Grown :
          (payload : List Json)
          → Grown r (handle_event lib verify sqlite_storage none now ws payload r).relay
      unfolding handle_event
      handle_event-Grown (command ∷ raw ∷ []) =
          settle-Grown raw (validate_event lib now verify raw) refl
      handle_event-Grown [] = inl refl
      handle_event-Grown (command ∷ []) = inl refl
      handle_event-Grown (command ∷ raw ∷ x ∷ more) = inl refl

      command-Grown :
          (payload : List Json) (o : Option Text)
          → Grown r (handle_command lib verify sqlite_storage none now ws payload r o).relay
      command-Grown payload none = inl refl
      command-Grown payload (some command) =
          when-Grown (text_eq command (codes "EVENT")) r _ _ (handle_event-Grown payload) (
            when-Grown (text_eq command (codes "REQ")) r _ _ (handle_req-Grown payload) (
              when-Grown (text_eq command (codes "CLOSE")) r _ _ (handle_close-Grown payload)
                (inl refl)))

      array-Grown :
          (o : Option (List Json))
          → Grown r (handle_array lib verify sqlite_storage none now ws r o).relay
      array-Grown none = inl refl
      array-Grown (some payload) = command-Grown payload (command_of payload)

      message-Grown :
          (message : Parsed)
          → Grown r (handle_message lib verify sqlite_storage none now ws message r).relay
      unfolding handle_message
      message-Grown not_json = inl refl
      message-Grown not_loaded = inl refl
      message-Grown (parsed payload) = array-Grown (as_list payload)

  ended :
      (ws : ℕ) (r : Relay) (o : Option Uncaught)
      → IsAuthentic r
      → IsAuthentic (end_if_raised ws r o)
  unfolding disconnect
  ended ws r none h = h
  ended ws r (some e) h = h

  step-kept : (r r' : Relay) → Step lib verify r r' → IsSound r → IsAuthentic r → IsAuthentic r'
  unfolding connect disconnect serve
  step-kept r r' (opened ws) sound h = h
  step-kept r r' (served now ws message subs known) sound h =
      let handled = handle_message lib verify sqlite_storage none now ws message r in
      ended ws handled.relay handled.uncaught (
        Adds-All r.store.db.events handled.relay.store.db.events
          (message-Grown ws r sound now message) h)
  step-kept r r' (left ws) sound h = h

  -- In every state that a relay without a witness, on the SQLite storage, reaches from a new database,
  -- each event in the database passed the validation at some time: its id is the hash of its payload,
  -- and, where signatures are verified, its signature was accepted.
  pub Reachable-IsAuthentic : (r : Relay) → Reachable lib verify r → IsAuthentic r
  Reachable-IsAuthentic r (started faults) = tt
  Reachable-IsAuthentic r (stepped {r = before} reach step) =
      step-kept before r step (Reachable-IsSound lib verify before reach)
        (Reachable-IsAuthentic before reach)
