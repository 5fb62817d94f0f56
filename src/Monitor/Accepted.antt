-- ===== src/Monitor/Accepted.antt =====
-- The monitor's file against the checks of the witness clock.
use spurline.Prelude.{
  ℕ, Bool, true, false, ◌&&◌, ◌≡◌, ◌↔◌, refl, sym, ◌∙◌, Option, none, some, arith, Outcome, ok, err,
  if◌then◌else◌, Bool-cases, inl, inr,
}
use spurline.Prelude.Int.{ℤ, pos}
use spurline.Prelude.Text.{Text, codes, text_eq, text_eq_iff}
use spurline.Json.{null}
use spurline.Clock.{ClockUnavailable, operational, no_evidence, check_evidence, within}
use spurline.Monitor.{collect, health, report, is_recent}

abbrev accept_if : Bool → ℕ → Outcome ClockUnavailable (ℕ × Option ℕ)
accept_if b t = if b then ok (t, none) else err no_evidence

report_accepted :
    (checked t : ℕ) (last_sync : ℤ) (b : Bool)
    → check_evidence operational t (some (report checked last_sync b))
      ≡ accept_if
          (b
            && (within 30000 (pos t) (pos checked)
                && (within 7200000 (pos checked) last_sync && within 7200000 (pos t) last_sync)))
          t
unfolding check_evidence text_eq
report_accepted checked t last_sync true = elim (Bool-cases (within 30000 (pos t) (pos checked))) [
  | inl e ↦ rw e refl
  | inr e ↦ rw e refl
]
report_accepted checked t last_sync false = refl

if_accepted : (b : Bool) (t : ℕ) → (accept_if b t ≡ ok (t, none)) ↔ (b ≡ true)
if_accepted true t = (λ h. refl, λ h. refl)
if_accepted false t = (λ h. absurd (ground (arith, h)), λ h. absurd (ground (arith, h)))

-- The outputs say that the service is active and synchronized, and the last synchronization was within
-- two hours before the start of the check, its end, and the sample.
abbrev pub IsHealthy : ℕ → Option Text → Option Text → Option ℤ → ℕ → ℕ → Type 0
IsHealthy checked (some active) (some synchronized) (some last_sync) now t =
    (active ≡ codes "active")
    × (synchronized ≡ codes "yes")
    × (within 7200000 (pos checked) last_sync ≡ true)
    × (within 7200000 (pos now) last_sync ≡ true)
    × (within 7200000 (pos t) last_sync ≡ true)
    × (within 30000 (pos t) (pos checked) ≡ true)
IsHealthy checked _ _ _ now t = ⊥

monitor_error :
    (checked t : ℕ)
    → check_evidence operational t (some (health checked false null (codes "monitor-error")))
      ≡ err no_evidence
unfolding check_evidence text_eq
monitor_error checked t = refl

refused :
    (checked t : ℕ)
    → (check_evidence operational t (some (health checked false null (codes "monitor-error")))
        ≡ ok (t, none))
      ↔ ⊥
refused checked t = (λ h. ground (arith, monitor_error checked t, h), λ h. absurd h)

-- The witness clock in its operational mode accepts what the monitor wrote, at a time up to thirty
-- seconds after the start of the check, exactly if no command failed and the host was healthy.
pub collect_iff :
    (checked : ℕ) (active synchronized : Option Text) (last_sync : Option ℤ) (now t : ℕ)
    → (check_evidence operational t (some (collect checked active synchronized last_sync now))
        ≡ ok (t, none))
      ↔ IsHealthy checked active synchronized last_sync now t
unfolding collect is_recent
collect_iff checked (some a) (some s) (some l) now t =
    let b = text_eq a (codes "active") && (text_eq s (codes "yes") && is_recent checked now l) in
    let accepted = report_accepted checked t l b in
    let test =
      if_accepted
        (b
          && (within 30000 (pos t) (pos checked)
              && (within 7200000 (pos checked) l && within 7200000 (pos t) l)))
        t in
    (
      λ h.
          let passed = test.0 (sym accepted ∙ h) in
          (
            (text_eq_iff a (codes "active")).0 (ground (arith, passed)),
            (text_eq_iff s (codes "yes")).0 (ground (arith, passed)),
            ground (arith, passed),
            ground (arith, passed),
            ground (arith, passed),
            ground (arith, passed),
          ),
      λ (is_active, is_synchronized, r₁, r₂, r₃, r₄).
          accepted
          ∙ test.1 (
              ground (
                arith,
                (text_eq_iff a (codes "active")).1 is_active,
                (text_eq_iff s (codes "yes")).1 is_synchronized,
                r₁,
                r₂,
                r₃,
                r₄,
              )),
    )
collect_iff checked none s l now t = refused checked t
collect_iff checked (some a) none l now t = refused checked t
collect_iff checked (some a) (some s) none now t = refused checked t
