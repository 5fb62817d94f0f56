-- ===== src/Witness/Timely.antt =====
-- src/spurline/automatic_witness.py: the conditions under which `issue` stores a receipt.
use spurline.Prelude.{
  ℕ, ◌+◌, ◌*◌, ◌≤◌, ◌<◌, max, true, false, ◌≡◌, Option, some, List, [], ◌∷◌, All, Any, ok,
}
use spurline.Prelude.Text.{Text, codes, starts_with}
use spurline.Json.{Json}
use spurline.Events.{Crypto}
use spurline.Receipts.{Codec}
use spurline.Clock.{ClockMode, bounded, operational, system}
use spurline.Store.{JobRow, JobInputs, pending}
use spurline.Witness.{View, WitnessSettings, Conditions}
use spurline.Witness.Issue.{margin}

abbrev profile : Text
profile = codes "Spurline-Clock-Profile:"

-- Of the lines that state a clock profile, there is one, and all are the marker.
pub record MarkedBy (lines : List Text) (marker : Text) : Type 0 where
  pub marked : Any (λ line. line ≡ marker) lines
  pub only : All (λ line. (starts_with line profile ≡ true) → line ≡ marker) lines

-- The policy states the clock mode, and a mode other than bounded has at most 60 seconds of delay.
abbrev pub StatesMode : ClockMode → List Text → ℕ → Type 0
StatesMode bounded lines delay = All (λ line. starts_with line profile ≡ false) lines
StatesMode operational lines delay =
    MarkedBy lines (codes "Spurline-Clock-Profile: operational-v1") × (delay ≤ 60)
StatesMode system lines delay =
    MarkedBy lines (codes "Spurline-Clock-Profile: system-v1") × (delay ≤ 60)

-- what holds of the view, of the time and of its uncertainty when a receipt is made
pub record IsTimely (settings : WitnessSettings) (view : View) (job : JobInputs) (at : ℕ)
    (u : Option ℕ) : Type 0 where
  pub permitted : view.witnessing_permitted ≡ true
  pub mode : StatesMode settings.clock_mode view.policy_lines settings.max_delay_seconds
  pub same_authorization : view.authorization_event_id ≡ job.authorization_event_id
  pub own_key : job.witness_pubkey ≡ settings.witness_pubkey
  pub same_version : job.receipt_version ≡ settings.receipt_version
  pub begun : max view.issued_at view.not_before * 1000 + margin u ≤ at
  pub not_ended : at + margin u < view.not_after * 1000
  pub after_observation : job.observed_at_ms ≤ at
  pub in_time : at ≤ job.observed_at_ms + settings.max_delay_seconds * 1000

-- the conditions of a receipt at a time
abbrev pub TimelyUnder : WitnessSettings → Conditions → JobInputs → Type 0
TimelyUnder settings conds job =
    (view : View) × (at : ℕ) × (u : Option ℕ) × (conds ≡ (some view, ok (at, u)))
    × IsTimely settings view job at u

module _ (lib : Crypto) (codec : Codec) (sign : ℕ → Text → List (List Text) → Json)
    (settings : WitnessSettings) (now : ℕ) (digest : Text) (conds : Conditions) where
  -- the first job of the digest is pending, and the conditions allow its receipt
  abbrev pub FirstIsTimely : List JobRow → Type 0
  FirstIsTimely [] = ⊥
  FirstIsTimely (row ∷ rows) = (row.state ≡ pending) × TimelyUnder settings conds row.inputs
