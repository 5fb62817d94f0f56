-- ===== src/Clock.antt =====
-- src/spurline/automatic_witness.py: `WitnessClock`. The two clocks are read in microseconds, so the
-- source's .250 seconds are 250000 of them, and `int(wall * 1000)` divides by 1000.
pub mod Latch
mod Tests
use spurline.Prelude.{
  ℕ, suc, ◌+◌, ◌/◌, Bool, true, false, ◌&&◌, ◌||◌, Option, none, some, List, [], ◌∷◌, ltb, leb,
  if◌then◌else◌, Outcome, ok, err,
}
use spurline.Prelude.Int.{ℤ, pos, negsuc}
use spurline.Prelude.Text.{Text, codes, text_eq}
use spurline.Json.{Json, null, num, str, Fields, Number, int, bool, lookup, as_dict}

pub data ClockMode : Type 0 where
  bounded operational system : ClockMode

-- ClockUnavailable, by its two messages
pub data ClockUnavailable : Type 0 where
  discontinuity no_evidence : ClockUnavailable

-- the readings of the two clocks
pub record Reading : Type 0 where
  pub wall : ℕ
  pub monotonic : ℕ

pub record WitnessClock : Type 0 where
  pub mode : ClockMode
  pub previous : Reading
  pub failed : Bool

-- `abs((wall - old_wall) - (monotonic - old_monotonic)) > .250`, without the differences
unfoldable pub is_jump : Reading → Reading → Bool
is_jump old now =
    ltb (250000 + (old.wall + now.monotonic)) (now.wall + old.monotonic)
    || ltb (250000 + (now.wall + old.monotonic)) (old.wall + now.monotonic)

-- `0 <= a - b <= limit`
unfoldable pub within : ℕ → ℤ → ℤ → Bool
within limit (pos a) (pos b) = leb b a && leb a (b + limit)
within limit (pos a) (negsuc b) = leb (a + suc b) limit
within limit (negsuc a) (pos b) = false
within limit (negsuc a) (negsuc b) = leb a b && leb b (a + limit)

-- `type(value) is int`
abbrev pub exact_int : Option Json → Option ℤ
exact_int (some (num (int n))) = some n
exact_int _ = none

abbrev pub is_true : Option Json → Bool
is_true (some (num (bool true))) = true
is_true _ = false

abbrev pub is_null : Option Json → Bool
is_null (some null) = true
is_null _ = false

abbrev pub is_str_of : Text → Option Json → Bool
is_str_of t (some (str s)) = text_eq s t
is_str_of t _ = false

-- an integer that passes a test
abbrev pub passes : (ℤ → Bool) → Option ℤ → Bool
passes test none = false
passes test (some n) = test n

-- the uncertainty of the bounded mode: from 0 to 1000
abbrev pub bounded_uncertainty : Option ℤ → Option ℕ
bounded_uncertainty (some (pos n)) = if leb n 1000 then some n else none
bounded_uncertainty _ = none

abbrev pub operational_ok : ℕ → Fields → ℤ → Bool
operational_ok now health checked =
    is_str_of (codes "operational") (lookup (codes "mode") health)
    && (is_null (lookup (codes "uncertainty_ms") health)
        && (is_str_of (codes "systemd-timesyncd") (lookup (codes "source") health)
            && passes
                (λ last_sync.
                  within 7200000 checked last_sync && within 7200000 (pos now) last_sync)
                (exact_int (lookup (codes "last_sync_at_ms") health))))

abbrev pub with_uncertainty : ℕ → Option ℕ → Outcome ClockUnavailable (ℕ × Option ℕ)
with_uncertainty now none = err no_evidence
with_uncertainty now (some u) = ok (now, some u)

-- the checks of each mode on a file whose check is at `checked`
abbrev pub by_mode : ClockMode → ℕ → Fields → Option ℤ → Outcome ClockUnavailable (ℕ × Option ℕ)
by_mode mode now health none = err no_evidence
by_mode bounded now health (some checked) =
    with_uncertainty now (bounded_uncertainty (exact_int (lookup (codes "uncertainty_ms") health)))
by_mode operational now health (some checked) =
    if operational_ok now health checked then ok (now, none) else err no_evidence
by_mode system now health (some checked) = err no_evidence

abbrev pub fresh : ℕ → Option ℤ → Option ℤ
fresh now none = none
fresh now (some checked) = if within 30000 (pos now) checked then some checked else none

-- the file of the time monitor, at the time `now` in milliseconds; none stands for one that cannot be
-- read, or is no JSON of an object. Each failure of a check ends in the same error.
unfoldable pub check_evidence :
    ClockMode → ℕ → Option Fields → Outcome ClockUnavailable (ℕ × Option ℕ)
check_evidence mode now none = err no_evidence
check_evidence mode now (some health) =
    if is_true (lookup (codes "synchronized") health)
    then by_mode mode now health (fresh now (exact_int (lookup (codes "checked_at_ms") health)))
    else err no_evidence

abbrev pub evidence_or_none :
    ClockMode → ℕ → Option Fields → Outcome ClockUnavailable (ℕ × Option ℕ)
evidence_or_none system now file = ok (now, none)
evidence_or_none mode now file = check_evidence mode now file

-- `sample`: the time in milliseconds and its uncertainty, and the clock after it
unfoldable pub sample :
    Reading → Option Fields → WitnessClock → Outcome ClockUnavailable (ℕ × Option ℕ) × WitnessClock
sample now file clock =
    let failed = clock.failed || is_jump clock.previous now in
    (
      if failed then err discontinuity else evidence_or_none clock.mode (now.wall / 1000) file,
      record clock { previous = now; failed = failed },
    )
