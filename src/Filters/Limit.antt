-- ===== src/Filters/Limit.antt =====
-- The number of events that a query may return.
use spurline.Prelude.{ℕ, ◌≡◌, ◌⊎◌}
use spurline.Prelude.Int.{ℤ, pos, ◌≤ℤ◌}

abbrev pub IsGranted : ℕ → ℕ → ℤ → Type 0
IsGranted ceiling granted n = (n ≤ℤ pos granted) ⊎ (granted ≡ ceiling)
