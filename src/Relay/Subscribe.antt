-- ===== src/Relay/Subscribe.antt =====
-- The REQ and CLOSE commands on the SQLite storage.
use spurline.Prelude.{
  ℕ, ◌==◌, Bool-cases, all, ap, sym, ◌∙◌, subst, true, false, ◌≡◌, ◌≢◌, ◌↔◌, ◌⊎◌, inl, inr, refl,
  Option, none, some, List, [], ◌∷◌, arith, Outcome, ok, err,
}
use spurline.Prelude.Text.{Text, text_eq, text_eq_iff}
use spurline.Prelude.Dict.{
  find, set, remove, find-set, find-remove, find-set_other, find-remove_other,
}
use spurline.Json.{Json, str}
use spurline.Events.{StoredEvent}
use spurline.Filters.{Filter, FilterError, normalize_filters}
use spurline.Filters.Bounds.{normalize_filters-AreBounded}
use spurline.Store.{
  Connection, StoreError, sqlite_error, overflow_error, encode_error, invalid_filter,
}
use spurline.Store.Invariant.{IsValid}
use spurline.Store.Query.{query, is_bindable}
use spurline.Store.Query.Answer.{answer}
use spurline.Store.Query.Result.{Returns, query_lem}
use spurline.Storage.{Failure, raised, wrap, sqlite_storage}
use spurline.Relay.{
  Relay, failure, Handled, Subscriptions, closed, invalid_filters, query_failed, get_connection,
  put_connection, send_events, answered, subscribe, handle_req, handle_close,
}

pub nat_eq_iff : (a b : ℕ) → ((a == b) ≡ true) ↔ (a ≡ b)
nat_eq_iff a b = (λ h. ground arith, λ h. ground arith)

abbrev filters_of : Text → Option Subscriptions → Option (List Filter)
filters_of id none = none
filters_of id (some subs) = find text_eq id subs

-- the filters of a subscription of a socket
abbrev pub subscription : ℕ → Text → Relay → Option (List Filter)
subscription ws id r = filters_of id (get_connection ws r)

-- Nothing but the subscription `id` of the socket `ws` is changed.
abbrev pub Keeps : ℕ → Text → Relay → Relay → Type 0
Keeps ws id r r' =
    (s : ℕ) (i : Text) → (s ≢ ws) ⊎ (i ≢ id) → subscription s i r' ≡ subscription s i r

module _ (ws : ℕ) (id : Text) (subs : Subscriptions) (r : Relay) where
  subscription-put : subscription ws id (put_connection ws subs r) ≡ find text_eq id subs
  subscription-put = ap (filters_of id) (find-set ◌==◌ nat_eq_iff ws subs r.connections)

  subscription-put_other :
      (other : ℕ)
      → other ≢ ws
      → subscription other id (put_connection ws subs r) ≡ subscription other id r
  subscription-put_other other h =
      ap (filters_of id) (find-set_other ◌==◌ nat_eq_iff ws other subs r.connections h)

-- New subscriptions of a socket that differ from the old ones at `id` only.
put-Keeps :
    (ws : ℕ) (id : Text) (subs subs' : Subscriptions) (r : Relay)
    → get_connection ws r ≡ some subs
    → ((i : Text) → i ≢ id → find text_eq i subs' ≡ find text_eq i subs)
    → Keeps ws id r (put_connection ws subs' r)
put-Keeps ws id subs subs' r known same s i h = elim (Bool-cases (s == ws)) [
  | inr other ↦
      subscription-put_other ws i subs' r s (λ e. absurd (ground (arith, nat_eq_iff s ws)))
  | inl here ↦
      let at : s ≡ ws = ground arith in
      elim h [
        | inl e ↦ absurd (e at)
        | inr e ↦
            subst (λ x. subscription x i (put_connection ws subs' r) ≡ subscription x i r) (sym at)
              (subscription-put ws i subs' r ∙ same i e ∙ sym (ap (filters_of i) known))
      ]
]

-- the subscriptions of a connection without `id`, and with `id` as the last one
remove-same :
    (id i : Text) (subs : Subscriptions)
    → i ≢ id
    → find text_eq i (remove text_eq id subs) ≡ find text_eq i subs
remove-same id i subs h = find-remove_other text_eq text_eq_iff id i subs h

replace-same :
    (id i : Text) (filters : List Filter) (subs : Subscriptions)
    → i ≢ id
    → find text_eq i (set text_eq id filters (remove text_eq id subs)) ≡ find text_eq i subs
replace-same id i filters subs h =
    find-set_other text_eq text_eq_iff id i filters (remove text_eq id subs) h
    ∙ remove-same id i subs h

-- a socket without the subscription, and everything else as it was
abbrev pub Dropped : ℕ → Text → Relay → Relay → Type 0
Dropped ws id r r' = (subscription ws id r' ≡ none) × Keeps ws id r r'

drop-Dropped :
    (ws : ℕ) (id : Text) (subs : Subscriptions) (r : Relay)
    → get_connection ws r ≡ some subs
    → Dropped ws id r (put_connection ws (remove text_eq id subs) r)
drop-Dropped ws id subs r known = (
  subscription-put ws id (remove text_eq id subs) r ∙ find-remove text_eq id subs,
  put-Keeps ws id subs (remove text_eq id subs) r known (λ i h. remove-same id i subs h),
)

-- A CLOSE from a connected socket removes that one subscription, keeps all others of all sockets,
-- sends nothing and raises nothing.
pub handle_close_lem :
    (ws : ℕ) (id : Text) (command : Json) (r : Relay) (subs : Subscriptions)
    → get_connection ws r ≡ some subs
    → let h = handle_close ws (command ∷ str id ∷ []) r in
      Dropped ws id r h.relay × (h.sent ≡ []) × (h.uncaught ≡ none) × (h.relay.store ≡ r.store)
unfolding handle_close
handle_close_lem ws id command r subs known =
    rw known (drop-Dropped ws id subs r known, refl, refl, refl)

module _ (ws : ℕ) (id : Text) (command f : Json) (raw : List Json) (r : Relay)
    (subs : Subscriptions) where
  -- A REQ from a connected socket whose filters break a bound is answered by CLOSED with the error.
  -- It ends a subscription of that id, keeps all others, and runs no query.
  pub handle_req_refused :
      (e : FilterError)
      → get_connection ws r ≡ some subs
      → normalize_filters (f ∷ raw) ≡ err e
      → let h = handle_req sqlite_storage ws (command ∷ str id ∷ f ∷ raw) r in
        Dropped ws id r h.relay
        × (h.sent ≡ (ws, closed id (invalid_filters e)) ∷ [])
        × (h.uncaught ≡ none)
        × (h.relay.store ≡ r.store)
  unfolding handle_req subscribe
  handle_req_refused e known bad =
      rw known (rw bad (drop-Dropped ws id subs r known, refl, refl, refl))

  -- what the relay does after it has registered the filters
  abbrev pub Served : List Filter → Handled → Type 0
  Served filters h =
      ((h.uncaught ≡ none)
        × (h.sent ≡ send_events ws id (answer r.store.db filters))
        × (subscription ws id h.relay ≡ some filters))
      ⊎ (((h.uncaught ≡ none)
            × (h.sent ≡ (ws, closed id query_failed) ∷ [])
            × (subscription ws id h.relay ≡ none)
            × (r.store.faults ≢ []))
          ⊎ ((h.uncaught ≡ some (failure (raised encode_error)))
              × (h.sent ≡ [])
              × (all is_bindable filters ≡ false)))

  abbrev after_query : Outcome Failure (List StoredEvent) × Connection → List Filter → Handled
  after_query s filters =
      let subs' = set text_eq id filters (remove text_eq id subs) in
      answered ws id subs' (put_connection ws subs' r) s

  answered_lem :
      (filters : List Filter) (s : Outcome StoreError (List StoredEvent) × Connection)
      → get_connection ws r ≡ some subs
      → Returns filters (answer r.store.db filters) r.store s
      → let h = after_query (wrap s) filters in
        Served filters h × Keeps ws id r h.relay × (h.relay.store.db ≡ r.store.db)
  unfolding answered
  answered_lem filters (ok events, c) known (same, inl p) =
      let subs' = set text_eq id filters (remove text_eq id subs) in
      let events_eq : events ≡ answer r.store.db filters = ground arith in
      (
        inl (
          refl,
          ap (send_events ws id) events_eq,
          subscription-put ws id subs' r
              ∙ find-set text_eq text_eq_iff id filters (remove text_eq id subs),
        ),
        put-Keeps ws id subs subs' r known (λ i h. replace-same id i filters subs h),
        same,
      )
  answered_lem filters (err sqlite_error, c) known (same, inr (inl (p, some_fault))) =
      let subs' = set text_eq id filters (remove text_eq id subs) in
      let registered : Relay = record {
        connections = set ◌==◌ ws subs' r.connections;
        store = c;
      } in
      let (gone, kept) =
        drop-Dropped ws id subs' registered (find-set ◌==◌ nat_eq_iff ws subs' r.connections) in
      (
        inr (inl (refl, refl, gone, some_fault)),
        λ s i h.
            kept s i h
            ∙ put-Keeps ws id subs subs' r known (λ i h. replace-same id i filters subs h) s i h,
        same,
      )
  answered_lem filters (err encode_error, c) known (same, inr (inr (p, bad))) = (
    inr (inr (refl, refl, bad)),
    put-Keeps ws id subs (set text_eq id filters (remove text_eq id subs)) r known
        (λ i h. replace-same id i filters subs h),
    same,
  )
  answered_lem filters (ok events, c) known (same, inr (inl (p, _))) = absurd (ground arith)
  answered_lem filters (ok events, c) known (same, inr (inr (p, _))) = absurd (ground arith)
  answered_lem filters (err x, c) known (same, inl p) = absurd (ground arith)
  answered_lem filters (err overflow_error, c) known (same, inr (inl (p, _))) =
      absurd (ground arith)
  answered_lem filters (err overflow_error, c) known (same, inr (inr (p, _))) =
      absurd (ground arith)
  answered_lem filters (err (invalid_filter x), c) known (same, inr (inl (p, _))) =
      absurd (ground arith)
  answered_lem filters (err (invalid_filter x), c) known (same, inr (inr (p, _))) =
      absurd (ground arith)
  answered_lem filters (err encode_error, c) known (same, inr (inl (p, _))) = absurd (ground arith)
  answered_lem filters (err sqlite_error, c) known (same, inr (inr (p, _))) = absurd (ground arith)

  -- A REQ from a connected socket whose filters pass, on a valid database, is answered by the events
  -- of the specification in their order and an EOSE, and its filters are stored in place of any that
  -- the id had. If SQLite fails, it is answered by CLOSED and the id has no filters. If a filter has a
  -- text with a lone surrogate, UnicodeEncodeError leaves the handler and nothing is sent. Other
  -- subscriptions and the database stay in each case.
  pub handle_req_lem :
      (filters : List Filter)
      → get_connection ws r ≡ some subs
      → normalize_filters (f ∷ raw) ≡ ok filters
      → IsValid r.store.db
      → let h = handle_req sqlite_storage ws (command ∷ str id ∷ f ∷ raw) r in
        Served filters h × Keeps ws id r h.relay × (h.relay.store.db ≡ r.store.db)
  unfolding handle_req subscribe sqlite_storage
  handle_req_lem filters known passed valid =
      let (_, _, bounded) = normalize_filters-AreBounded (f ∷ raw) filters passed in
      let served =
        answered_lem filters (query filters r.store) known
          (query_lem filters r.store valid bounded) in
      rw known (rw passed served)
