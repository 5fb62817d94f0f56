-- ===== src/Relay/Publish.antt =====
-- The EVENT command on the SQLite storage: what an OK says of the database.
use spurline.Prelude.{
  ℕ, Bool, true, false, ◌&&◌, not, ◌≡◌, ◌⊎◌, inl, inr, refl, ap, ◌∙◌, none, [], ◌∷◌, ◌++◌, arith,
  Outcome, ok, err, Bool-cases, if◌then◌else◌,
}
use spurline.Json.{Json, str}
use spurline.Events.{Crypto, StoredEvent, validate_event}
use spurline.Events.Validity.{IsValid, validate_event_iff}
use spurline.Events.Encodable.{IsValid-encodable}
use spurline.Filters.{fits_int64}
use spurline.Store.{
  Database, Connection, StoreError, sqlite_error, overflow_error, encode_error, invalid_filter,
  has_event, row_of, save,
}
use spurline.Store.Effects.{committed}
use spurline.Store.Refusal.{IsEncodable}
use spurline.Store.Atomic.{IsAtomic, Refuses, save-IsAtomic, save_overflow}
use spurline.Store.Preserve.{committed-new, committed_events}
use spurline.Storage.{Failure, storage_error, raised, wrap, sqlite_storage}
use spurline.Relay.{
  okay, nothing, duplicate, unconfirmed, Relay, Handled, confirm, broadcast, handle_event,
}

-- the two ways in which a save by the storage ends
abbrev pub Saved : StoredEvent → Connection → Outcome Failure Bool × Connection → Type 0
Saved e c (r, c') =
    ((r ≡ ok (not (has_event e.id c.db.events))) × (c'.db ≡ (committed e none 1000 none c.db).1))
    ⊎ ((r ≡ err storage_error) × (c'.db ≡ c.db))

wrap-Saved :
    (e : StoredEvent) (c : Connection) (r : Outcome StoreError Bool × Connection)
    → IsAtomic (committed e none 1000 none c.db) c.db r
    → Saved e c (wrap r)
wrap-Saved e c (ok b, c') (inl (p, q)) =
    inl (ground (arith, committed-new e none 1000 none c.db), q)
wrap-Saved e c (ok b, c') (inr (p, q)) = absurd (ground arith)
wrap-Saved e c (err x, c') (inl (p, q)) = absurd (ground arith)
wrap-Saved e c (err sqlite_error, c') (inr (p, q)) = inr (refl, q)
wrap-Saved e c (err overflow_error, c') (inr (p, q)) = absurd (ground arith)
wrap-Saved e c (err encode_error, c') (inr (p, q)) = absurd (ground arith)
wrap-Saved e c (err (invalid_filter x), c') (inr (p, q)) = absurd (ground arith)

wrap-Refuses :
    (e : StoredEvent) (c : Connection) (r : Outcome StoreError Bool × Connection)
    → Refuses overflow_error r.0
    → r.1.db ≡ c.db
    → Saved e c (wrap r)
wrap-Refuses e c (ok b, c') (inl p) q = absurd (ground arith)
wrap-Refuses e c (ok b, c') (inr p) q = absurd (ground arith)
wrap-Refuses e c (err sqlite_error, c') h q = inr (refl, q)
wrap-Refuses e c (err overflow_error, c') h q = inr (refl, q)
wrap-Refuses e c (err encode_error, c') (inl p) q = absurd (ground arith)
wrap-Refuses e c (err encode_error, c') (inr p) q = absurd (ground arith)
wrap-Refuses e c (err (invalid_filter x), c') (inl p) q = absurd (ground arith)
wrap-Refuses e c (err (invalid_filter x), c') (inr p) q = absurd (ground arith)

-- A valid event has texts that can be bound.
IsValid-IsEncodable :
    (lib : Crypto) (now : ℕ) (verify : Bool) (e : StoredEvent)
    → IsValid lib now verify e
    → IsEncodable e
IsValid-IsEncodable lib now verify e valid =
    let (id, pubkey, content, sig, tags) = IsValid-encodable lib now verify e valid in
    record { id = id; pubkey = pubkey; content = content; sig = sig; tags = tags }

pub save_event-Saved :
    (lib : Crypto) (now : ℕ) (verify : Bool) (e : StoredEvent) (c : Connection)
    → IsValid lib now verify e
    → Saved e c (sqlite_storage.save_event e c)
unfolding sqlite_storage
save_event-Saved lib now verify e c valid =
    let texts = IsValid-IsEncodable lib now verify e valid in
    elim (Bool-cases (fits_int64 e.created_at && fits_int64 e.kind)) [
      | inl fits ↦ elim (save-IsAtomic e none 1000 none c fits) [
        | inl atomic ↦ wrap-Saved e c (save e none 1000 none c) atomic
        | inr encoding ↦ absurd (encoding.0 texts)
      ]
      | inr big ↦
          let (refuses, same) = save_overflow e none 1000 none c big texts in
          wrap-Refuses e c (save e none 1000 none c) refuses same
    ]

is_new : {b : Bool} → ◌≡◌ {A = Outcome Failure Bool} (ok true) (ok (not b)) → b ≡ false
is_new {b = b} h = ground arith

is_old : {b : Bool} → ◌≡◌ {A = Outcome Failure Bool} (ok false) (ok (not b)) → b ≡ true
is_old {b = b} h = ground arith

module _ (lib : Crypto) (verify : Bool) (now ws : ℕ) (command raw : Json) (r : Relay) where
  -- what happens to a valid event that is to be stored
  abbrev pub Published : StoredEvent → Handled → Type 0
  Published e h =
      ((has_event e.id r.store.db.events ≡ false)
        × (h.sent ≡ (ws, okay (str e.id) true nothing) ∷ broadcast e r.connections)
        × (h.relay.store.db.events ≡ r.store.db.events ++ row_of e ∷ []))
      ⊎ (((has_event e.id r.store.db.events ≡ true)
            × (h.sent ≡ (ws, okay (str e.id) true duplicate) ∷ [])
            × (h.relay.store.db.events ≡ r.store.db.events))
          ⊎ ((h.sent ≡ (ws, okay (str e.id) false unconfirmed) ∷ [])
              × (h.relay.store.db ≡ r.store.db)))

  pub confirm-Published :
      (e : StoredEvent) (s : Outcome Failure Bool × Connection)
      → Saved e r.store s
      → Published e (confirm ws e r s)
        × ((confirm ws e r s).uncaught ≡ none)
        × ((confirm ws e r s).relay.connections ≡ r.connections)
  unfolding confirm
  confirm-Published e (ok true, c) (inl (p, q)) = (
    inl (
      is_new p,
      refl,
      ap (λ (d : Database). d.events) q
          ∙ committed_events e none 1000 none r.store.db
          ∙ ap (λ b. if b then r.store.db.events else r.store.db.events ++ row_of e ∷ [])
              (is_new p),
    ),
    refl,
    refl,
  )
  confirm-Published e (ok false, c) (inl (p, q)) = (
    inr (
        inl (
          is_old p,
          refl,
          ap (λ (d : Database). d.events) q
              ∙ committed_events e none 1000 none r.store.db
              ∙ ap (λ b. if b then r.store.db.events else r.store.db.events ++ row_of e ∷ [])
                  (is_old p),
        )),
    refl,
    refl,
  )
  confirm-Published e (ok b, c) (inr (p, q)) = absurd (ground arith)
  confirm-Published e (err x, c) (inl (p, q)) = absurd (ground arith)
  confirm-Published e (err storage_error, c) (inr (p, q)) = (inr (inr (refl, q)), refl, refl)
  confirm-Published e (err (raised x), c) (inr (p, q)) = absurd (ground arith)

  -- In a relay without a witness, on the SQLite storage, an EVENT with a valid event raises nothing,
  -- leaves the subscriptions, and does one of three things. It stores an event with a new id, says OK and broadcasts the event. It
  -- says OK for a stored id as a duplicate, with no broadcast and the same events. Or it says that
  -- storage could not confirm, with no broadcast and the database as it was.
  pub handle_event_lem :
      (e : StoredEvent)
      → validate_event lib now verify raw ≡ ok e
      → let h = handle_event lib verify sqlite_storage none now ws (command ∷ raw ∷ []) r in
        Published e h × (h.uncaught ≡ none) × (h.relay.connections ≡ r.connections)
  unfolding handle_event
  handle_event_lem e valid =
      let (checked, _) = (validate_event_iff lib now verify raw e).0 valid in
      rw valid (
        confirm-Published e (sqlite_storage.save_event e r.store)
          (save_event-Saved lib now verify e r.store checked))
