-- ===== src/Relay/Sound.antt =====
-- What a message of a connected socket leaves true, with the SQLite storage and no witness.
use spurline.Prelude.{
  ℕ, ◌==◌, Bool, true, false, ◌≡◌, ◌≢◌, ◌⊎◌, inl, inr, refl, ap, ◌∙◌, sym, subst, if◌then◌else◌,
  Option, none, some, List, [], ◌∷◌, All, arith, Outcome, ok, err,
}
use spurline.Prelude.Text.{Text, text_eq, codes}
use spurline.Prelude.Dict.{set, remove, All-set, All-remove, find-All}
use spurline.Json.{Json, as_str, as_list}
use spurline.Events.{
  Crypto, StoredEvent, Raised, invalid, unicode_error, key_not_parsed, key_error, untyped,
  validate_event,
}
use spurline.Events.Validity.{validate_event_iff}
use spurline.Events.Safety.{validate_event_safe}
use spurline.Filters.{Filter, FilterError, normalize_filters}
use spurline.Filters.Bounds.{AreBounded, normalize_filters-AreBounded}
use spurline.Store.{
  Connection, StoreError, sqlite_error, overflow_error, encode_error, invalid_filter,
}
use spurline.Store.Effects.{committed}
use spurline.Store.Invariant.{IsValid}
use spurline.Store.Preserve.{committed-IsValid}
use spurline.Store.Query.{query}
use spurline.Store.Query.Answer.{answer}
use spurline.Store.Query.Result.{Returns, query_lem}
use spurline.Storage.{Failure, storage_error, raised, wrap, sqlite_storage}
use spurline.Relay.{
  Relay, Handled, Subscriptions, Uncaught, failure, event_error, load_error, Parsed, parsed,
  not_json, not_loaded, get_connection, put_connection, given_id, refuse, confirm, answered,
  subscribe, settle_event, handle_array, handle_command, request, unsubscribe, handle_event,
  handle_req, handle_close, handle_message, command_of, disconnect, serve, end_if_raised,
}
use spurline.Relay.Publish.{Saved, save_event-Saved}

abbrev pub AllBounded : Subscriptions → Type 0
AllBounded subs = All (λ sub. AreBounded sub.1) subs

-- The database is valid, and the filters of every subscription are within the bounds.
pub record IsSound (r : Relay) : Type 0 where
  pub database : IsValid r.store.db
  pub filters : All (λ conn. AllBounded conn.1) r.connections

-- The exceptions that can leave a handler: those of a text of an event or of a filter that has no
-- encoding, of a key that is no point of the curve, and of a message that `json.loads` gives up.
abbrev pub IsExpected : Option Uncaught → Type 0
IsExpected none = Unit
IsExpected (some e) =
    (e ≡ event_error unicode_error)
    ⊎ ((e ≡ event_error key_not_parsed) ⊎ ((e ≡ failure (raised encode_error)) ⊎ (e ≡ load_error)))

abbrev pub StaysSound : Handled → Type 0
StaysSound h = IsSound h.relay × IsExpected h.uncaught

pub put-IsSound :
    (ws : ℕ) (subs : Subscriptions) (c : Connection) (r : Relay)
    → IsSound r
    → IsValid c.db
    → AllBounded subs
    → IsSound (put_connection ws subs (record r { store = c }))
put-IsSound ws subs c r sound valid bounded = record {
  database = valid;
  filters = All-set ◌==◌ AllBounded ws subs r.connections bounded sound.filters;
}

known-AllBounded :
    (ws : ℕ) (subs : Subscriptions) (r : Relay)
    → IsSound r
    → get_connection ws r ≡ some subs
    → AllBounded subs
known-AllBounded ws subs r sound known =
    find-All ◌==◌ AllBounded ws subs r.connections sound.filters known

when-StaysSound :
    (b : Bool) (h k : Handled) → StaysSound h → StaysSound k → StaysSound (if b then h else k)
when-StaysSound true h k p q = p
when-StaysSound false h k p q = q

pub disconnect-IsSound : (ws : ℕ) (r : Relay) → IsSound r → IsSound (disconnect ws r)
unfolding disconnect
disconnect-IsSound ws r sound = record {
  database = sound.database;
  filters = All-remove ◌==◌ AllBounded ws r.connections sound.filters;
}

end-IsSound :
    (ws : ℕ) (r : Relay) (o : Option Uncaught) → IsSound r → IsSound (end_if_raised ws r o)
end-IsSound ws r none sound = sound
end-IsSound ws r (some e) sound = disconnect-IsSound ws r sound

refuse-StaysSound :
    (ws : ℕ) (id : Json) (e : Raised) (r : Relay)
    → e ≢ key_error
    → e ≢ untyped
    → IsSound r
    → StaysSound (refuse ws id e r)
unfolding refuse
refuse-StaysSound ws id (invalid why) r h k sound = (sound, tt)
refuse-StaysSound ws id unicode_error r h k sound = (sound, inl refl)
refuse-StaysSound ws id key_not_parsed r h k sound = (sound, inr (inl refl))
refuse-StaysSound ws id key_error r h k sound = absurd (h refl)
refuse-StaysSound ws id untyped r h k sound = absurd (k refl)

confirm-StaysSound :
    (ws : ℕ) (e : StoredEvent) (r : Relay) (s : Outcome Failure Bool × Connection)
    → Saved e r.store s
    → IsValid (committed e none 1000 none r.store.db).1
    → IsSound r
    → StaysSound (confirm ws e r s)
unfolding confirm
confirm-StaysSound ws e r (ok true, c) (inl (p, q)) valid sound =
    (record { database = subst IsValid (sym q) valid; filters = sound.filters }, tt)
confirm-StaysSound ws e r (ok false, c) (inl (p, q)) valid sound =
    (record { database = subst IsValid (sym q) valid; filters = sound.filters }, tt)
confirm-StaysSound ws e r (err storage_error, c) (inr (p, q)) valid sound =
    (record { database = subst IsValid (sym q) sound.database; filters = sound.filters }, tt)
confirm-StaysSound ws e r (ok b, c) (inr (p, q)) valid sound = absurd (ground arith)
confirm-StaysSound ws e r (err x, c) (inl (p, q)) valid sound = absurd (ground arith)
confirm-StaysSound ws e r (err (raised x), c) (inr (p, q)) valid sound = absurd (ground arith)

answered-StaysSound :
    (ws : ℕ) (id : Text) (subs : Subscriptions) (r : Relay)
    (s : Outcome StoreError (List StoredEvent) × Connection) (fs : List Filter)
    (a : List StoredEvent)
    → Returns fs a r.store s
    → AllBounded subs
    → IsSound r
    → StaysSound (answered ws id subs (put_connection ws subs r) (wrap s))
unfolding answered
answered-StaysSound ws id subs r (ok events, c) fs a (same, p) bounded sound =
    (put-IsSound ws subs c r sound (subst IsValid (sym same) sound.database) bounded, tt)
answered-StaysSound ws id subs r (err sqlite_error, c) fs a (same, p) bounded sound =
    let valid = subst IsValid (sym same) sound.database in
    (
      put-IsSound ws (remove text_eq id subs) c (put_connection ws subs (record r { store = c }))
          (put-IsSound ws subs c r sound valid bounded) valid
          (All-remove text_eq AreBounded id subs bounded),
      tt,
    )
answered-StaysSound ws id subs r (err encode_error, c) fs a (same, p) bounded sound = (
  put-IsSound ws subs c r sound (subst IsValid (sym same) sound.database) bounded,
  inr (inr (inl refl)),
)
answered-StaysSound ws id subs r (err overflow_error, c) fs a (same, inl p) bounded sound =
    absurd (ground arith)
answered-StaysSound ws id subs r (err (invalid_filter x), c) fs a (same, inl p) bounded sound =
    absurd (ground arith)
answered-StaysSound ws id subs r (err overflow_error, c) fs a (same, inr (inl (p, _))) bounded
      sound =
    absurd (ground arith)
answered-StaysSound ws id subs r (err (invalid_filter x), c) fs a (same, inr (inl (p, _))) bounded
      sound =
    absurd (ground arith)
answered-StaysSound ws id subs r (err overflow_error, c) fs a (same, inr (inr (p, _))) bounded
      sound =
    absurd (ground arith)
answered-StaysSound ws id subs r (err (invalid_filter x), c) fs a (same, inr (inr (p, _))) bounded
      sound =
    absurd (ground arith)

subscribe-StaysSound :
    (ws : ℕ) (id : Text) (subs : Subscriptions) (raw : List Json) (r : Relay)
    (n : Outcome FilterError (List Filter))
    → normalize_filters raw ≡ n
    → get_connection ws r ≡ some subs
    → IsSound r
    → StaysSound (subscribe sqlite_storage ws id subs r n)
unfolding subscribe sqlite_storage
subscribe-StaysSound ws id subs raw r (err e) passed known sound =
    let bounded = known-AllBounded ws subs r sound known in
    (
      put-IsSound ws (remove text_eq id subs) r.store r sound sound.database
          (All-remove text_eq AreBounded id subs bounded),
      tt,
    )
subscribe-StaysSound ws id subs raw r (ok filters) passed known sound =
    let bounded = known-AllBounded ws subs r sound known in
    let (_, within, checked) = normalize_filters-AreBounded raw filters passed in
    answered-StaysSound ws id (set text_eq id filters (remove text_eq id subs)) r
      (query filters r.store) filters (answer r.store.db filters)
      (query_lem filters r.store sound.database checked)
      (All-set text_eq AreBounded id filters (remove text_eq id subs) within
        (All-remove text_eq AreBounded id subs bounded))
      sound

module _ (ws : ℕ) (r : Relay) (subs : Subscriptions) (known : get_connection ws r ≡ some subs)
    (sound : IsSound r) where
  request-StaysSound :
      (o : Option Text) (raw : List Json) → StaysSound (request sqlite_storage ws o raw r)
  request-StaysSound none raw = (sound, tt)
  request-StaysSound (some id) raw =
      rw known (subscribe-StaysSound ws id subs raw r (normalize_filters raw) refl known sound)

  handle_req-StaysSound :
      (payload : List Json) → StaysSound (handle_req sqlite_storage ws payload r)
  unfolding handle_req
  handle_req-StaysSound (command ∷ id ∷ f ∷ raw) = request-StaysSound (as_str id) (f ∷ raw)
  handle_req-StaysSound [] = (sound, tt)
  handle_req-StaysSound (command ∷ []) = (sound, tt)
  handle_req-StaysSound (command ∷ id ∷ []) = (sound, tt)

  unsubscribe-StaysSound : (o : Option Text) → StaysSound (unsubscribe ws o r)
  unsubscribe-StaysSound none = (sound, tt)
  unsubscribe-StaysSound (some id) =
      let bounded = known-AllBounded ws subs r sound known in
      rw known (
        put-IsSound ws (remove text_eq id subs) r.store r sound sound.database
            (All-remove text_eq AreBounded id subs bounded),
        tt,
      )

  handle_close-StaysSound : (payload : List Json) → StaysSound (handle_close ws payload r)
  unfolding handle_close
  handle_close-StaysSound (command ∷ id ∷ []) = unsubscribe-StaysSound (as_str id)
  handle_close-StaysSound [] = (sound, tt)
  handle_close-StaysSound (command ∷ []) = (sound, tt)
  handle_close-StaysSound (command ∷ id ∷ x ∷ more) = (sound, tt)

module _ (lib : Crypto) (verify : Bool) (now ws : ℕ) (r : Relay) where
  settle-StaysSound :
      (raw : Json) (o : Outcome Raised StoredEvent)
      → validate_event lib now verify raw ≡ o
      → IsSound r
      → StaysSound (settle_event lib verify sqlite_storage none ws raw r o)
  settle-StaysSound raw (err e) h sound =
      let (no_key_error, no_untyped) = validate_event_safe lib now verify raw in
      refuse-StaysSound ws (given_id raw) e r (λ p. no_key_error (h ∙ ap err p))
        (λ p. no_untyped (h ∙ ap err p)) sound
  settle-StaysSound raw (ok e) h sound =
      let (valid, _) = (validate_event_iff lib now verify raw e).0 h in
      confirm-StaysSound ws e r (sqlite_storage.save_event e r.store)
        (save_event-Saved lib now verify e r.store valid)
        (committed-IsValid e none 1000 none r.store.db valid.id valid.pubkey sound.database) sound

  handle_event-StaysSound :
      (payload : List Json)
      → IsSound r
      → StaysSound (handle_event lib verify sqlite_storage none now ws payload r)
  unfolding handle_event
  handle_event-StaysSound (command ∷ raw ∷ []) sound =
      settle-StaysSound raw (validate_event lib now verify raw) refl sound
  handle_event-StaysSound [] sound = (sound, tt)
  handle_event-StaysSound (command ∷ []) sound = (sound, tt)
  handle_event-StaysSound (command ∷ raw ∷ x ∷ more) sound = (sound, tt)

  module _ (subs : Subscriptions) (known : get_connection ws r ≡ some subs)
      (sound : IsSound r) where
    command-StaysSound :
        (payload : List Json) (o : Option Text)
        → StaysSound (handle_command lib verify sqlite_storage none now ws payload r o)
    command-StaysSound payload none = (sound, tt)
    command-StaysSound payload (some command) =
        when-StaysSound (text_eq command (codes "EVENT")) _ _
          (handle_event-StaysSound payload sound)
          (when-StaysSound (text_eq command (codes "REQ")) _ _
            (handle_req-StaysSound ws r subs known sound payload)
            (when-StaysSound (text_eq command (codes "CLOSE")) _ _
              (handle_close-StaysSound ws r subs known sound payload) (sound, tt)))

    array-StaysSound :
        (o : Option (List Json))
        → StaysSound (handle_array lib verify sqlite_storage none now ws r o)
    array-StaysSound none = (sound, tt)
    array-StaysSound (some payload) = command-StaysSound payload (command_of payload)

    -- In a relay without a witness, on the SQLite storage, whatever a connected socket sends, the
    -- handler leaves the database valid and every stored filter within the bounds, and raises nothing
    -- but four errors: of an event with a lone surrogate in a text, of an event whose key is no point
    -- of the curve, of a filter with a lone surrogate in a text, and an error of `json.loads` other
    -- than JSONDecodeError.
    pub handle_message-StaysSound :
        (message : Parsed)
        → StaysSound (handle_message lib verify sqlite_storage none now ws message r)
    unfolding handle_message
    handle_message-StaysSound not_json = (sound, tt)
    handle_message-StaysSound not_loaded = (sound, inr (inr (inr refl)))
    handle_message-StaysSound (parsed payload) = array-StaysSound (as_list payload)

    pub serve-IsSound :
        (message : Parsed) → IsSound (serve lib verify sqlite_storage none now ws message r)
    unfolding serve
    serve-IsSound message =
        end-IsSound ws (handle_message lib verify sqlite_storage none now ws message r).relay
          (handle_message lib verify sqlite_storage none now ws message r).uncaught
          (handle_message-StaysSound message).0
