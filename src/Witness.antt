-- ===== src/Witness.antt =====
-- src/spurline/automatic_witness.py: `AutomaticWitness` on the SQLite store. The view of the
-- witness authorization, which witness.py computes from its own database, is an input.
mod Issue
mod Timely
mod Accept
mod Worker
mod Evolution
mod Tests
mod ReceiptTests
use spurline.Prelude.{
  ℕ, suc, ◌+◌, ◌-◌, ◌*◌, ◌/◌, Bool, true, false, ◌&&◌, ◌||◌, not, Option, none, some, List, [], ◌∷◌,
  ◌++◌, any, filter, max, ltb, leb, ◌==◌, if◌then◌else◌, Outcome, ok, err,
}
use spurline.Prelude.Int.{ℤ, pos, pos_part, eq_ℤ}
use spurline.Prelude.Text.{Text, codes, text_eq, starts_with}
use spurline.Json.{Json, null, num, str, obj, Fields, end, field, Number, int, value}
use spurline.Events.{Crypto, StoredEvent, Raised, invalid, to_dict, validate_event}
use spurline.Receipts.{
  Codec, canonical_json, clock_basis, receipt_tags, ReceiptError, event_error, refused,
  verify_receipt, signed_event_digest,
}
use spurline.Store.{
  Connection, StoreError, Action, pure, ◌>>=◌, ◌>>◌, JobInputs, JobRow, JobState, pending, issued,
  unavailable, is_pending, save, witness_rows, witness_update,
}
use spurline.Clock.{
  ClockMode, bounded, operational, system, ClockUnavailable, no_evidence, Reading, WitnessClock,
  sample,
}

-- what the witness reads of the view of the authorization
pub record View : Type 0 where
  pub witnessing_permitted : Bool
  pub subject_kinds : List ℤ
  pub policy_lines : List Text
  pub issued_at : ℕ
  pub not_before : ℕ
  pub not_after : ℕ
  pub authorization_event_id : Text
  pub policy_sha256 : Text

-- the settings of the witness, with the public key of `service_nsec`
pub record WitnessSettings : Type 0 where
  pub clock_mode : ClockMode
  pub receipt_version : ℕ
  pub max_delay_seconds : ℕ
  pub queue_limit : ℕ
  pub witness_pubkey : Text

-- `_within`
unfoldable pub within_grant : View → ℕ → Option ℕ → Bool
within_grant view now none =
    leb (max view.issued_at view.not_before * 1000) now && ltb now (view.not_after * 1000)
within_grant view now (some uncertainty) =
    leb (max view.issued_at view.not_before * 1000 + uncertainty) now
    && ltb (now + uncertainty) (view.not_after * 1000)

-- `_policy_allows_mode`: the set of the markers is the expected one
abbrev pub expected_marker : ClockMode → Option Text
expected_marker bounded = none
expected_marker operational = some (codes "Spurline-Clock-Profile: operational-v1")
expected_marker system = some (codes "Spurline-Clock-Profile: system-v1")

abbrev pub are_exactly : List Text → Option Text → Bool
are_exactly [] none = true
are_exactly (m ∷ ms) none = false
are_exactly [] (some marker) = false
are_exactly (m ∷ ms) (some marker) = text_eq m marker && not (any (λ n. not (text_eq n marker)) ms)

abbrev pub is_bounded : ClockMode → Bool
is_bounded bounded = true
is_bounded _ = false

unfoldable pub policy_allows_mode : WitnessSettings → View → Bool
policy_allows_mode settings view =
    are_exactly
      (filter (λ line. starts_with line (codes "Spurline-Clock-Profile:")) view.policy_lines)
      (expected_marker settings.clock_mode)
    && (is_bounded settings.clock_mode || leb settings.max_delay_seconds 60)

-- the view, or none for a CommissioningError, and a sample of the clock
abbrev pub Conditions : Type 0
Conditions = Option View × Outcome ClockUnavailable (ℕ × Option ℕ)

-- the conditions under which `accept` queues a job
unfoldable pub admits : WitnessSettings → View → ℤ → ℕ → Option ℕ → Bool
unfolding within_grant policy_allows_mode
admits settings view kind now uncertainty =
    view.witnessing_permitted
    && (any (λ k. eq_ℤ k kind) view.subject_kinds
        && (policy_allows_mode settings view && within_grant view now uncertainty))

abbrev pub job_of : WitnessSettings → View → ℕ → Option ℕ → StoredEvent → Text → JobInputs
job_of settings view now uncertainty event digest = record {
  subject = event;
  signed_event_digest = digest;
  receipt_version = settings.receipt_version;
  observed_at_ms = now;
  clock_uncertainty_ms = uncertainty;
  authorization_event_id = view.authorization_event_id;
  witness_policy_digest = view.policy_sha256;
  witness_pubkey = settings.witness_pubkey;
}

-- the job that is queued with an event, if any
unfoldable pub job_for : WitnessSettings → Conditions → StoredEvent → Text → Option JobInputs
job_for settings (none, clock) event digest = none
job_for settings (some view, err e) event digest = none
job_for settings (some view, ok (now, uncertainty)) event digest =
    if admits settings view (value event.kind) now uncertainty
    then some (job_of settings view now uncertainty event digest)
    else none

abbrev pub is_subject_kind : ℤ → Bool
is_subject_kind kind = eq_ℤ kind (pos 1415) || eq_ℤ kind (pos 1416)

-- why a pending job is given up: the conditions of `issue`
unfoldable pub may_issue : WitnessSettings → View → JobInputs → ℕ → Option ℕ → Bool
unfolding within_grant policy_allows_mode
may_issue settings view job now uncertainty =
    view.witnessing_permitted
    && (policy_allows_mode settings view
        && ((job.receipt_version == settings.receipt_version)
            && (text_eq view.authorization_event_id job.authorization_event_id
                && (text_eq job.witness_pubkey settings.witness_pubkey
                    && (within_grant view now uncertainty
                        && (leb job.observed_at_ms now
                            && leb now
                                (job.observed_at_ms + settings.max_delay_seconds * 1000)))))))

abbrev pub issue_time : WitnessSettings → Conditions → JobInputs → Option ℕ
issue_time settings (none, clock) job = none
issue_time settings (some view, err e) job = none
issue_time settings (some view, ok (now, uncertainty)) job =
    if may_issue settings view job now uncertainty then some now else none

-- the content and the tags of the receipt
abbrev pub number : ℕ → Json
number n = num (int (pos n))

abbrev pub uncertainty_json : Option ℕ → Json
uncertainty_json none = null
uncertainty_json (some n) = number n

abbrev pub clock_fields : ℕ → Fields
clock_fields version =
    if version == 1
    then end
    else field (codes "clock_accuracy") (str (codes "unspecified"))
        (field (codes "clock_basis") (str (clock_basis version)) end)

unfoldable pub receipt_body : JobInputs → ℕ → Fields
receipt_body job now = field (codes "signed_event_digest") (str job.signed_event_digest) (
    field (codes "observed_at_ms") (number job.observed_at_ms) (
      field (codes "clock_uncertainty_ms") (uncertainty_json job.clock_uncertainty_ms) (
        field (codes "authorization_event_id") (str job.authorization_event_id) (
          field (codes "witness_policy_digest") (str job.witness_policy_digest) (
            field (codes "schema") (str (codes "org.spurline.observation-receipt")) (
              field (codes "schema_version") (number job.receipt_version) (
                field (codes "subject_profile") (str (codes "nostr-schnorr-secp256k1-v1")) (
                  field (codes "event_id") (str job.subject.id) (
                    field (codes "issued_at_ms") (number now) (
                      field (codes "validation") (str (codes "event-id-and-signature")) (
                        field (codes "observation_mode") (str (codes "live"))
                          (clock_fields job.receipt_version))))))))))))

-- `status`
pub record Status : Type 0 where
  pub state : Option JobState
  pub receipt_event_id : Option Text

abbrev pub receipt_id : Option StoredEvent → Option Text
receipt_id none = none
receipt_id (some receipt) = some receipt.id

abbrev pub status_of : List JobRow → Status
status_of [] = record { state = none; receipt_event_id = none }
status_of (row ∷ rows) = record {
  state = some row.state;
  receipt_event_id = receipt_id row.receipt;
}

unfoldable pub status : Text → Action Status
status digest = do rows ← witness_rows (some digest); pure (status_of rows)

-- what `accept` reads of the authority's database: the view, none for a CommissioningError, or another
-- exception, such as one of SQLite
pub data Authority : Type 0 where
  opened : Option View → Authority
  not_opened : Authority

-- a call that may raise an error of the store, of the authority's database, of the checks of an event or a receipt, or the
-- IndexError of a digest without a row
pub data IssueError : Type 0 where
  store_error : StoreError → IssueError
  receipt_error : ReceiptError → IssueError
  no_row authority_failed : IssueError

abbrev pub lift_store :
    {A : Type 0} → Outcome StoreError A × Connection → Outcome IssueError A × Connection
lift_store (ok a, c) = (ok a, c)
lift_store (err e, c) = (err (store_error e), c)

abbrev pub done :
    {A : Type 0} → Outcome IssueError A × Connection → Outcome IssueError (Unit {0}) × Connection
done (ok a, c) = (ok tt, c)
done (err e, c) = (err e, c)

-- The view is computed first, so the clock is sampled only where that succeeds.
abbrev pub conditions :
    Option View → Reading → Option Fields → WitnessClock → Conditions × WitnessClock
conditions none reading file clock = ((none, err no_evidence), clock)
conditions (some view) reading file clock =
    let (sampled, clock') = sample reading file clock in ((some view, sampled), clock')

abbrev pub receipt_subject : StoredEvent → Json
receipt_subject e = obj (to_dict e)

-- `except (EventValidationError, CommissioningError)` of `accept`
abbrev pub is_caught : ReceiptError → Bool
is_caught (event_error (invalid why)) = true
is_caught (refused why) = true
is_caught _ = false

-- `AutomaticWitness`; `sign` is the signed event that stroma makes of a time, a content and tags
module _ (lib : Crypto) (codec : Codec) (sign : ℕ → Text → List (List Text) → Json)
    (settings : WitnessSettings) where
  -- the digest of an event whose kind is witnessed, which does not depend on the relay's settings
  abbrev pub digest_of : ℕ → StoredEvent → Outcome ReceiptError Text
  digest_of now event = signed_event_digest lib codec now (receipt_subject event)

  -- the result of a save, with the clock
  abbrev pub with_clock :
      WitnessClock
      → Outcome StoreError Bool × Connection
      → Outcome IssueError Bool × Connection × WitnessClock
  with_clock clock s = let (r, c) = lift_store s in (r, c, clock)

  abbrev pub accept_with :
      StoredEvent
      → Outcome ReceiptError Text
      → Authority
      → Reading
      → Option Fields
      → Connection
      → WitnessClock
      → Outcome IssueError Bool × Connection × WitnessClock
  accept_with event (err e) authority reading file c clock =
      if is_caught e
      then with_clock clock (save event none 1000 none c)
      else (err (receipt_error e), c, clock)
  accept_with event (ok digest) not_opened reading file c clock = (err authority_failed, c, clock)
  accept_with event (ok digest) (opened view) reading file c clock =
      let (conds, clock') = conditions view reading file clock in
      with_clock clock'
        (save event (job_for settings conds event digest) settings.queue_limit none c)

  -- `accept`, at the time `now`, with the authority, the clocks and the monitor's file of that time
  unfoldable pub accept :
      ℕ
      → Authority
      → Reading
      → Option Fields
      → StoredEvent
      → Connection
      → WitnessClock
      → Outcome IssueError Bool × Connection × WitnessClock
  accept now authority reading file event c clock =
      if is_subject_kind (value event.kind)
      then accept_with event (digest_of now event) authority reading file c clock
      else with_clock clock (save event none 1000 none c)

  -- the receipt of a job at a time, signed
  unfoldable pub receipt_for : JobInputs → ℕ → ℕ → Json
  receipt_for job now kind =
      sign (now / 1000) (canonical_json (obj (receipt_body job now)))
        (receipt_tags job.subject.id job.subject.pubkey kind job.receipt_version)

  abbrev pub save_receipt :
      Text → Outcome Raised StoredEvent → Connection → Outcome IssueError (Unit {0}) × Connection
  save_receipt digest (err e) c = (err (receipt_error (event_error e)), c)
  save_receipt digest (ok e) c = done (lift_store (save e none 1000 (some digest) c))

  abbrev pub if_verified :
      ℕ
      → Text
      → Json
      → Outcome ReceiptError Json
      → Connection
      → Outcome IssueError (Unit {0}) × Connection
  if_verified now digest receipt (err e) c = (err (receipt_error e), c)
  if_verified now digest receipt (ok body) c =
      save_receipt digest (validate_event lib now true receipt) c

  -- the end of `issue`: give up, or sign, verify and save
  abbrev pub conclude :
      ℕ → Text → JobInputs → Option ℕ → Connection → Outcome IssueError (Unit {0}) × Connection
  conclude now digest job none c = lift_store (witness_update digest true c)
  conclude now digest job (some at) c =
      let receipt = receipt_for job at (pos_part (value job.subject.kind)) in
      if_verified now digest receipt
        (verify_receipt lib codec now receipt (receipt_subject job.subject)) c

  abbrev pub issue_row :
      ℕ → Text → Conditions → List JobRow → Connection → Outcome IssueError (Unit {0}) × Connection
  issue_row now digest conds [] c = (err no_row, c)
  issue_row now digest conds (row ∷ rows) c =
      if is_pending row.state
      then conclude now digest row.inputs (issue_time settings conds row.inputs) c
      else (ok tt, c)

  abbrev pub with_rows :
      ℕ
      → Text
      → Conditions
      → Outcome StoreError (List JobRow) × Connection
      → Outcome IssueError (Unit {0}) × Connection
  with_rows now digest conds (err e, c) = (err (store_error e), c)
  with_rows now digest conds (ok rows, c) = issue_row now digest conds rows c

  -- `issue`, with the conditions at the time of the call
  unfoldable pub issue :
      ℕ → Conditions → Text → Connection → Outcome IssueError (Unit {0}) × Connection
  issue now conds digest c = with_rows now digest conds (witness_rows (some digest) c)
