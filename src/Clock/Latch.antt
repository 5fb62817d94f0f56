-- ===== src/Clock/Latch.antt =====
-- What a sample of the clock says, and the latch of a discontinuity.
use spurline.Prelude.{
  if◌then◌else◌, ℕ, ◌+◌, ◌/◌, ◌≤◌, Bool, true, false, ◌||◌, ◌≡◌, inl, inr, refl, Option, none, some,
  List, [], ◌∷◌, All, arith, Outcome, ok, err, Bool-cases,
}
use spurline.Prelude.Int.{ℤ, pos, negsuc}
use spurline.Prelude.{leb}
use spurline.Prelude.Text.{codes}
use spurline.Json.{Fields, lookup}
use spurline.Clock.{
  with_uncertainty, bounded_uncertainty, exact_int, is_true, ClockMode, bounded, operational,
  system, ClockUnavailable, discontinuity, Reading, WitnessClock, is_jump, check_evidence,
  evidence_or_none, sample, fresh, by_mode,
}

-- the results of samples one after the other
abbrev pub samples :
    List (Reading × Option Fields) → WitnessClock → List (Outcome ClockUnavailable (ℕ × Option ℕ))
samples [] clock = []
samples ((now, file) ∷ more) clock =
    let (result, clock') = sample now file clock in result ∷ samples more clock'

stays_failed :
    (more : List (Reading × Option Fields)) (clock : WitnessClock)
    → clock.failed ≡ true
    → All (λ result. result ≡ err discontinuity) (samples more clock)
unfolding sample
stays_failed [] clock h = tt
stays_failed ((now, file) ∷ more) clock h = (rw h refl, stays_failed more _ (rw h refl))

-- A sample at which the wall clock has moved against the monotonic clock by more than a quarter of a
-- second since the last one fails, and so does every sample after it, whatever the clocks and the
-- file say then.
pub sample-jump :
    (now : Reading) (file : Option Fields) (clock : WitnessClock)
    (more : List (Reading × Option Fields))
    → is_jump clock.previous now ≡ true
    → All (λ result. result ≡ err discontinuity) (samples ((now, file) ∷ more) clock)
unfolding sample
sample-jump now file clock more h = (ground (arith, h), stays_failed more _ (ground (arith, h)))

-- the two clocks have moved by the same, up to a quarter of a second
abbrev pub AreSteady : Reading → Reading → Type 0
AreSteady old now =
    (now.wall + old.monotonic ≤ 250000 + (old.wall + now.monotonic))
    × (old.wall + now.monotonic ≤ 250000 + (now.wall + old.monotonic))

-- the uncertainty that the mode gives: a number up to 1000 for the bounded mode, else none
abbrev pub IsUncertaintyOf : ClockMode → Option ℕ → Type 0
IsUncertaintyOf bounded u = (n : ℕ) × (u ≡ some n) × (n ≤ 1000)
IsUncertaintyOf operational u = u ≡ none
IsUncertaintyOf system u = u ≡ none

if_ok :
    {A : Type 0} (b : Bool) (e : ClockUnavailable) (m : Outcome ClockUnavailable A) (a : A)
    → (if b then err e else m) ≡ ok a
    → (b ≡ false) × (m ≡ ok a)
if_ok true e m a h = absurd (ground (arith, h))
if_ok false e m a h = (refl, h)

bounded_lem :
    (now t : ℕ) (u : Option ℕ) (n : Option ℤ)
    → with_uncertainty now (bounded_uncertainty n) ≡ ok (t, u)
    → (t ≡ now) × IsUncertaintyOf bounded u
bounded_lem now t u none h = absurd (ground arith)
bounded_lem now t u (some (negsuc n)) h = absurd (ground arith)
bounded_lem now t u (some (pos n)) h = elim (Bool-cases (leb n 1000)) [
  | inl small ↦ (ground arith, (n, ground arith, ground arith))
  | inr big ↦ absurd (ground arith)
]

by_mode-lem :
    (now t : ℕ) (u : Option ℕ) (health : Fields) (checked : Option ℤ)
    → by_mode bounded now health checked ≡ ok (t, u)
    → (t ≡ now) × IsUncertaintyOf bounded u
by_mode-lem now t u health none h = absurd (ground arith)
by_mode-lem now t u health (some checked) h =
    bounded_lem now t u (exact_int (lookup (codes "uncertainty_ms") health)) h

evidence-IsUncertaintyOf :
    (mode : ClockMode) (now t : ℕ) (u : Option ℕ) (file : Option Fields)
    → evidence_or_none mode now file ≡ ok (t, u)
    → (t ≡ now) × IsUncertaintyOf mode u
unfolding check_evidence
evidence-IsUncertaintyOf system now t u file h = ground arith
evidence-IsUncertaintyOf operational now t u none h = absurd (ground arith)
evidence-IsUncertaintyOf operational now t u (some health) h = ground arith
evidence-IsUncertaintyOf bounded now t u none h = absurd (ground arith)
evidence-IsUncertaintyOf bounded now t u (some health) h =
    elim (Bool-cases (is_true (lookup (codes "synchronized") health))) [
      | inl e ↦
          by_mode-lem now t u health (fresh now (exact_int (lookup (codes "checked_at_ms") health)))
            (rw e at h)
      | inr e ↦ absurd (ground (arith, e, h))
    ]

-- A sample that succeeds gives the wall clock in milliseconds, and an uncertainty of at most a second
-- in the bounded mode and none in the others. The latch was not set, and the two clocks have moved by
-- the same since the last sample, up to a quarter of a second.
pub sample_lem :
    (now : Reading) (file : Option Fields) (clock : WitnessClock) (t : ℕ) (u : Option ℕ)
    → (sample now file clock).0 ≡ ok (t, u)
    → (t ≡ now.wall / 1000)
      × IsUncertaintyOf clock.mode u
      × (clock.failed ≡ false)
      × AreSteady clock.previous now
unfolding sample is_jump
sample_lem now file clock t u h =
    let (steady, given) =
      if_ok (clock.failed || is_jump clock.previous now) discontinuity _ (t, u) h in
    let (time, uncertainty) =
      evidence-IsUncertaintyOf clock.mode (now.wall / 1000) t u file given in
    (time, uncertainty, ground arith, (ground arith, ground arith))
