-- ===== src/Clock/Tests.antt =====
-- `WitnessClock` of src/spurline/automatic_witness.py, on a steady clock and on a jump.
use spurline.Prelude.{◌/◌, true, false, ◌≡◌, refl, some, [], ◌∷◌, All, ok, err}
use spurline.Prelude.Int.{pos}
use spurline.Prelude.Text.{codes, text_eq}
use spurline.Json.{num, Fields, end, field, int, bool}
use spurline.Clock.{
  bounded, discontinuity, Reading, WitnessClock, is_jump, sample, check_evidence, within,
}
use spurline.Clock.Latch.{samples, sample-jump, IsUncertaintyOf, AreSteady, sample_lem}

abbrev clock : WitnessClock
clock = record {
  mode = bounded;
  previous = record { wall = 5000000; monotonic = 1000000 };
  failed = false;
}

abbrev later : Reading
later = record { wall = 6000000; monotonic = 2000000 }

abbrev jumped : Reading
jumped = record { wall = 8000000; monotonic = 2000000 }

abbrev health : Fields
health = field (codes "synchronized") (num (bool true)) (
    field (codes "checked_at_ms") (num (int (pos 5990)))
      (field (codes "uncertainty_ms") (num (int (pos 7))) end))

steady_run : (sample later (some health) clock).0 ≡ ok (6000, some 7)
unfolding sample is_jump check_evidence within text_eq
steady_run = refl

sample_lem_example :
    (6000 ≡ 6000000 / 1000)
    × IsUncertaintyOf bounded (some 7)
    × (false ≡ false)
    × AreSteady clock.previous later
sample_lem_example = sample_lem later (some health) clock 6000 (some 7) steady_run

is_jump-jumped : is_jump clock.previous jumped ≡ true
unfolding is_jump
is_jump-jumped = refl

sample-jump_example :
    All
      (λ result. result ≡ err discontinuity)
      (samples ((jumped, some health) ∷ (jumped, some health) ∷ []) clock)
sample-jump_example =
    sample-jump jumped (some health) clock ((jumped, some health) ∷ []) is_jump-jumped
