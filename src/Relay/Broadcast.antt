-- ===== src/Relay/Broadcast.antt =====
-- To whom an event is sent.
use spurline.Prelude.{
  ℕ, Bool, true, false, ◌≡◌, ◌↔◌, ◌⊎◌, inl, inr, refl, sym, if◌then◌else◌, List, [], ◌∷◌, ◌++◌, Any,
  arith,
}
use spurline.Events.{StoredEvent, to_dict}
use spurline.Filters.{matches_any_filter}
use spurline.Relay.{Message, event, Subscriptions, Sent, notify, broadcast}

abbrev pub IsSent : ℕ → Message → Sent → Type 0
IsSent ws m sent = Any (λ x. (x.0 ≡ ws) × (x.1 ≡ m)) sent

-- The message is that of a subscription one of whose filters the event matches.
abbrev pub IsNotified : StoredEvent → Message → Subscriptions → Type 0
IsNotified e m subs =
    Any (λ sub. (matches_any_filter e sub.1 ≡ true) × (m ≡ event sub.0 (to_dict e))) subs

abbrev pub IsDue : StoredEvent → ℕ → Message → List (ℕ × Subscriptions) → Type 0
IsDue e ws m connections = Any (λ conn. (conn.0 ≡ ws) × IsNotified e m conn.1) connections

IsSent-append :
    (ws : ℕ) (m : Message) (xs ys : Sent)
    → IsSent ws m (xs ++ ys) ↔ (IsSent ws m xs ⊎ IsSent ws m ys)
IsSent-append ws m [] ys = (inr, elim [ inl e ↦ absurd e | inr e ↦ e ])
IsSent-append ws m (x ∷ xs) ys = (
  elim [
    | inl e ↦ inl (inl e)
    | inr e ↦ elim ((IsSent-append ws m xs ys).0 e) [ inl f ↦ inl (inr f) | inr f ↦ inr f ]
  ],
  elim [
    | inl e ↦ elim e [ inl f ↦ inl f | inr f ↦ inr ((IsSent-append ws m xs ys).1 (inl f)) ]
    | inr e ↦ inr ((IsSent-append ws m xs ys).1 (inr e))
  ],
)

notify_step :
    (b : Bool) (ws s : ℕ) (m first : Message) (rest : Sent) (N : Type 0)
    → IsSent s m rest ↔ ((ws ≡ s) × N)
    → IsSent s m (if b then (ws, first) ∷ rest else rest)
      ↔ ((ws ≡ s) × (((b ≡ true) × (m ≡ first)) ⊎ N))
notify_step true ws s m first rest N (f, g) = (
  elim [ inl h ↦ (h.0, inl (refl, sym h.1)) | inr h ↦ ((f h).0, inr (f h).1) ],
  λ h. elim h.1 [ inl k ↦ inl (h.0, sym k.1) | inr k ↦ inr (g (h.0, k)) ],
)
notify_step false ws s m first rest N (f, g) = (
  λ h. ((f h).0, inr (f h).1),
  λ h. elim h.1 [ inl k ↦ absurd (ground (arith, k.0)) | inr k ↦ g (h.0, k) ],
)

module _ (e : StoredEvent) where
  notify_iff :
      (ws s : ℕ) (m : Message) (subs : Subscriptions)
      → IsSent s m (notify e ws subs) ↔ ((ws ≡ s) × IsNotified e m subs)
  unfolding notify
  notify_iff ws s m [] = (λ h. absurd h, λ h. absurd h.1)
  notify_iff ws s m ((id, filters) ∷ subs) =
      notify_step (matches_any_filter e filters) ws s m (event id (to_dict e)) (notify e ws subs) _
        (notify_iff ws s m subs)

  -- A broadcast sends a message to a socket exactly if the socket has a subscription with a filter
  -- that the event matches, and the message is the event under that subscription's id.
  pub broadcast_iff :
      (s : ℕ) (m : Message) (connections : List (ℕ × Subscriptions))
      → IsSent s m (broadcast e connections) ↔ IsDue e s m connections
  unfolding broadcast
  broadcast_iff s m [] = (λ h. h, λ h. h)
  broadcast_iff s m ((ws, subs) ∷ connections) = (
    λ h. elim ((IsSent-append s m (notify e ws subs) (broadcast e connections)).0 h) [
      | inl f ↦ inl ((notify_iff ws s m subs).0 f)
      | inr f ↦ inr ((broadcast_iff s m connections).0 f)
    ],
    elim [
      | inl f ↦
          (IsSent-append s m (notify e ws subs) (broadcast e connections)).1
            (inl ((notify_iff ws s m subs).1 f))
      | inr f ↦
          (IsSent-append s m (notify e ws subs) (broadcast e connections)).1
            (inr ((broadcast_iff s m connections).1 f))
    ],
  )
