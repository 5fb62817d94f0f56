-- ===== src/Monitor.antt =====
-- src/spurline/clock_monitor.py: `collect`, the health file that the operational mode of the witness
-- clock reads. A command's output is none where it raises, and so is the time of the sync file.
mod Accepted
mod Tests
use spurline.Prelude.{ℕ, Bool, true, false, ◌&&◌, Option, none, some, List, [], ◌∷◌, if◌then◌else◌}
use spurline.Prelude.Int.{ℤ, pos}
use spurline.Prelude.Text.{Text, codes, text_eq}
use spurline.Json.{Json, null, num, str, Fields, end, field, Number, int, bool}
use spurline.Clock.{within}

abbrev pub max_sync_age_ms : ℕ
max_sync_age_ms = 7200000

-- `result`, with what the checks fill in
abbrev pub health : ℕ → Bool → Json → Text → Fields
health checked synchronized last_sync reason = field (codes "mode") (str (codes "operational")) (
    field (codes "source") (str (codes "systemd-timesyncd")) (
      field (codes "synchronized") (num (bool synchronized)) (
        field (codes "checked_at_ms") (num (int (pos checked))) (
          field (codes "uncertainty_ms") null (
            field (codes "last_sync_at_ms") last_sync (field (codes "reason") (str reason) end))))))

-- `recent`
unfoldable pub is_recent : ℕ → ℕ → ℤ → Bool
is_recent checked now last_sync =
    within max_sync_age_ms (pos checked) last_sync && within max_sync_age_ms (pos now) last_sync

abbrev pub reason_of : Bool → Text
reason_of b = if b then codes "ok" else codes "unsynchronized-or-stale"

abbrev pub report : ℕ → ℤ → Bool → Fields
report checked last_sync b = health checked b (num (int last_sync)) (reason_of b)

-- `collect`: the start of the check, the outputs of the two commands, the time of the sync file in
-- milliseconds, and the time after them
unfoldable pub collect : ℕ → Option Text → Option Text → Option ℤ → ℕ → Fields
collect checked (some active) (some synchronized) (some last_sync) now = report checked last_sync (
    text_eq active (codes "active")
    && (text_eq synchronized (codes "yes") && is_recent checked now last_sync))
collect checked _ _ _ now = health checked false null (codes "monitor-error")
