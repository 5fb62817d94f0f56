-- ===== src/Monitor/Tests.antt =====
-- src/spurline/clock_monitor.py on a healthy host.
use spurline.Prelude.{◌↔◌, ◌≡◌, refl, none, some, ok}
use spurline.Prelude.Int.{pos}
use spurline.Prelude.Text.{codes, text_eq}
use spurline.Clock.{operational, check_evidence, within}
use spurline.Monitor.{collect, is_recent}
use spurline.Monitor.Accepted.{IsHealthy, collect_iff}

collect_run :
    check_evidence operational 10500
      (some (collect 10000 (some (codes "active")) (some (codes "yes")) (some (pos 9000)) 10010))
    ≡ ok (10500, none)
unfolding check_evidence collect is_recent within text_eq
collect_run = refl

collect_iff_example :
    (check_evidence operational 10500
        (some (collect 10000 (some (codes "active")) (some (codes "yes")) (some (pos 9000)) 10010))
      ≡ ok (10500, none))
    ↔ IsHealthy 10000 (some (codes "active")) (some (codes "yes")) (some (pos 9000)) 10010 10500
collect_iff_example =
    collect_iff 10000 (some (codes "active")) (some (codes "yes")) (some (pos 9000)) 10010 10500
