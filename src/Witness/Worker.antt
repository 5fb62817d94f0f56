-- ===== src/Witness/Worker.antt =====
-- `AutomaticWitness.run` and `check_clock` of src/spurline/automatic_witness.py: one pass of the
-- worker over the rows, and the delay before the next. The flag that stops the worker is left out.
use spurline.Prelude.{
  ℕ, ◌+◌, ◌++◌, ◌*◌, ◌^◌, min, Bool, false, Option, none, some, List, [], ◌∷◌, Outcome, ok, err,
  if◌then◌else◌,
}
use spurline.Prelude.Text.{Text}
use spurline.Json.{Json, Fields}
use spurline.Events.{Crypto, StoredEvent}
use spurline.Receipts.{Codec}
use spurline.Clock.{Reading, WitnessClock, sample}
use spurline.Store.{Connection, StoreError, JobRow, is_pending, witness_rows, witness_update}
use spurline.Witness.{
  WitnessSettings, Conditions, IssueError, no_row, store_error, lift_store, issue,
}

-- `check_clock`: the result of the sample is dropped
unfoldable pub check_clock : Reading → Option Fields → WitnessClock → WitnessClock
check_clock reading file clock = (sample reading file clock).1

-- the failures in a row after a pass, and the delay in milliseconds
unfoldable pub failures_after : Bool → ℕ → ℕ
failures_after raised failures = if raised then min (failures + 1) 5 else 0

unfoldable pub delay_after : Bool → ℕ → ℕ
delay_after raised failures = if raised then min (2 ^ min (failures + 1) 5) 30 * 1000 else 250

-- what a pass did: its end, the connection, and the receipts that were broadcast
pub record Pass : Type 0 where
  pub result : Outcome IssueError (Unit {0})
  pub connection : Connection
  pub broadcast : List StoredEvent

module _ (lib : Crypto) (codec : Codec) (sign : ℕ → Text → List (List Text) → Json)
    (settings : WitnessSettings) (now : ℕ) (conds : Text → Conditions) where
  abbrev pub of_call : Outcome IssueError (Unit {0}) × Connection → List StoredEvent → Pass
  of_call (r, c) sent = record { result = r; connection = c; broadcast = sent }

  -- An issued row without a receipt would make `json.loads` raise.
  abbrev pub announce_row : Text → Option StoredEvent → Connection → Pass
  announce_row digest none c = record { result = err no_row; connection = c; broadcast = [] }
  announce_row digest (some receipt) c =
      of_call (lift_store (witness_update digest false c)) (receipt ∷ [])

  -- the body of the loop over the rows
  unfoldable pub process_row : JobRow → Connection → Pass
  process_row row c =
      if is_pending row.state
      then of_call (issue lib codec sign settings now (conds row.digest) row.digest c) []
      else announce_row row.digest row.receipt c

  abbrev pub go_on : Pass → Pass → Outcome IssueError (Unit {0}) → Pass
  go_on p later (err e) = p
  go_on p later (ok u) = record later { broadcast = p.broadcast ++ later.broadcast }

  abbrev pub then_pass : Pass → (Connection → Pass) → Pass
  then_pass p next = go_on p (next p.connection) p.result

  unfoldable pub process_rows : List JobRow → Connection → Pass
  process_rows [] c = record { result = ok tt; connection = c; broadcast = [] }
  process_rows (row ∷ rows) c = then_pass (process_row row c) (process_rows rows)

  abbrev pub pass_over : Outcome StoreError (List JobRow) × Connection → Pass
  pass_over (err e, c) = record { result = err (store_error e); connection = c; broadcast = [] }
  pass_over (ok rows, c) = process_rows rows c

  -- one pass of `run`
  unfoldable pub work : Connection → Pass
  work c = pass_over (witness_rows none c)
