-- ===== src/Witness/Accept.antt =====
-- When `accept` queues a job with an event.
use spurline.Prelude.{
  ℕ, ◌+◌, ◌*◌, ◌/◌, ◌≤◌, ◌<◌, max, Bool, true, ◌≡◌, ◌⊎◌, Option, none, some, List, any, Outcome, ok,
  err,
}
use spurline.Prelude.Text.{Text}
use spurline.Prelude.Int.{eq_ℤ}
use spurline.Json.{Json, Fields, value}
use spurline.Events.{Crypto, StoredEvent, Raised, unicode_error, key_not_parsed, validate_event}
use spurline.Receipts.{Codec, event_error, signed_event_digest}
use spurline.Clock.{Reading, WitnessClock}
use spurline.Clock.Latch.{IsUncertaintyOf}
use spurline.Store.{Connection, JobInputs, save}
use spurline.Witness.{
  View, Authority, opened, not_opened, authority_failed, WitnessSettings, is_subject_kind,
  receipt_subject, lift_store, IssueError, receipt_error,
}
use spurline.Witness.Issue.{margin}

-- what holds of a job that `accept` queues
pub record IsObserved (lib : Crypto) (codec : Codec) (now : ℕ) (reading : Reading)
    (clock : WitnessClock) (view : View) (event : StoredEvent) (job : JobInputs) : Type 0 where
  pub subject : job.subject ≡ event
  pub subject_kind : is_subject_kind (value event.kind) ≡ true
  -- the event was validated with its signature, and the job has its digest
  pub digest :
      signed_event_digest lib codec now (receipt_subject event) ≡ ok job.signed_event_digest
  pub permitted : view.witnessing_permitted ≡ true
  pub granted_kind : any (λ k. eq_ℤ k (value event.kind)) view.subject_kinds ≡ true
  pub authorization : job.authorization_event_id ≡ view.authorization_event_id
  pub observed : job.observed_at_ms ≡ reading.wall / 1000
  pub uncertainty : IsUncertaintyOf clock.mode job.clock_uncertainty_ms
  pub begun :
      max view.issued_at view.not_before * 1000 + margin job.clock_uncertainty_ms
      ≤ job.observed_at_ms
  pub not_ended : job.observed_at_ms + margin job.clock_uncertainty_ms < view.not_after * 1000

-- the result of `accept` and the connection after it
abbrev pub saved_part :
    Outcome IssueError Bool × Connection × WitnessClock → Outcome IssueError Bool × Connection
saved_part (r, c, clock') = (r, c)

module _ (lib : Crypto) (codec : Codec) (sign : ℕ → Text → List (List Text) → Json)
    (settings : WitnessSettings) (now : ℕ) (reading : Reading) (file : Option Fields)
    (clock : WitnessClock) (event : StoredEvent) where
  -- a save of the event, with a job only where the view and the clock allow it
  abbrev pub SavesWith : Authority → Connection → Outcome IssueError Bool × Connection → Type 0
  SavesWith authority c s =
      (s ≡ lift_store (save event none 1000 none c))
      ⊎ ((v : View) × (job : JobInputs) × (authority ≡ opened (some v))
          × (s ≡ lift_store (save event (some job) settings.queue_limit none c))
          × IsObserved lib codec now reading clock v event job)

  -- an exception that `accept` lets pass, with nothing saved
  abbrev pub Escapes : Connection → Outcome IssueError Bool × Connection → Type 0
  Escapes c s =
      (x : Raised) × ((x ≡ unicode_error) ⊎ (x ≡ key_not_parsed))
      × (validate_event lib now true (receipt_subject event) ≡ err x)
      × (s ≡ (err (receipt_error (event_error x)), c))

  abbrev pub Accepts : Authority → Connection → Outcome IssueError Bool × Connection → Type 0
  Accepts authority c s =
      SavesWith authority c s
      ⊎ ((is_subject_kind (value event.kind) ≡ true)
          × (Escapes c s ⊎ ((authority ≡ not_opened) × (s ≡ (err authority_failed, c)))))
