-- ===== src/Settings/Usable.antt =====
-- What settings satisfy that `from_env` returns.
use spurline.Prelude.{
  bind-ok, subst, ℕ, ◌≤◌, true, false, ◌≡◌, ◌⊎◌, inl, inr, refl, Option, none, some, [], ◌∷◌, arith,
  Outcome, ok, Option-cases, Bool-cases,
}
use spurline.Prelude.Int.{ℤ, pos, ◌≤ℤ◌}
use spurline.Prelude.Text.{Text, codes, text_eq, text_eq_iff, text_in}
use spurline.Settings.{
  Settings, SettingsError, is_absent, check_key, clock_modes, post_init, made, settings_of,
  from_parsed, get_or, from_env, receipt_version, Env,
}

-- The key is there, and stroma derives an npub from it.
abbrev pub HasKey : (Text → Option Text) → Option Text → Type 0
HasKey npub_of key =
    (secret : Text) × (npub : Text) × (key ≡ some secret) × (npub_of secret ≡ some npub)

-- Settings that the program can run with.
pub record IsUsable (npub_of : Text → Option Text) (s : Settings) : Type 0 where
  -- the clock mode has a receipt version from 1 to 3
  pub version : (v : ℕ) × (receipt_version s.witness_clock_mode ≡ some v) × (1 ≤ v) × (v ≤ 3)
  pub witness_key : s.witness_enabled ≡ true → HasKey npub_of s.service_nsec
  pub clock_file :
      s.witness_enabled ≡ true
      → (receipt_version s.witness_clock_mode ≡ some 3)
        ⊎ ((path : Text) × (s.witness_clock_file ≡ some path))
  pub limits : (pos 1 ≤ℤ s.witness_queue_limit) × (pos 1 ≤ℤ s.witness_max_delay_seconds)
  pub management :
      (text_eq s.service_management (codes "independent") ≡ true)
      ⊎ ((text_eq s.service_management (codes "mainstay-managed") ≡ true)
          × HasKey npub_of s.service_nsec)

ok-injective : {s t : Settings} → ◌≡◌ {A = Outcome SettingsError Settings} (ok s) (ok t) → s ≡ t
ok-injective {s = s} {t = t} h = cc

module _ (npub_of : Text → Option Text) where
  check_key-HasKey :
      (key : Option Text)
      → check_key npub_of key ≡ ok tt
      → is_absent key ≡ false
      → HasKey npub_of key
  check_key-HasKey none h k = absurd (ground arith)
  check_key-HasKey (some []) h k = absurd (ground arith)
  check_key-HasKey (some (c ∷ s)) h k = elim (Option-cases (npub_of (c ∷ s))) [
    | inl e ↦ absurd (ground arith)
    | inr (npub, e) ↦ (c ∷ s, npub, refl, e)
  ]

  has_version :
      (mode : Text)
      → text_in mode clock_modes ≡ true
      → (v : ℕ) × (receipt_version mode ≡ some v) × (1 ≤ v) × (v ≤ 3)
  unfolding receipt_version
  has_version mode h = elim (Bool-cases (text_eq mode (codes "bounded"))) [
    | inl e ↦ (1, ground arith, omega arith, omega arith)
    | inr e ↦ elim (Bool-cases (text_eq mode (codes "operational"))) [
      | inl f ↦ (2, ground arith, omega arith, omega arith)
      | inr f ↦ (3, ground arith, omega arith, omega arith)
    ]
  ]

  system_version :
      (mode : Text) → text_eq mode (codes "system") ≡ true → receipt_version mode ≡ some 3
  unfolding receipt_version text_eq
  system_version mode h = rw ((text_eq_iff mode (codes "system")).0 h) refl

  post_init-IsUsable : (s : Settings) → post_init npub_of s ≡ ok tt → IsUsable npub_of s
  unfolding post_init receipt_version
  post_init-IsUsable s h = record {
    version = has_version s.witness_clock_mode (ground arith);
    witness_key = λ on. check_key-HasKey s.service_nsec (ground arith) (ground arith);
    clock_file = λ on. elim (Option-cases s.witness_clock_file) [
      | inl e ↦ inl (system_version s.witness_clock_mode (ground arith))
      | inr (path, e) ↦ inr (path, e)
    ];
    limits = ground arith;
    management = elim (Bool-cases (text_eq s.service_management (codes "independent"))) [
      | inl e ↦ inl e
      | inr e ↦ inr (ground arith, check_key-HasKey s.service_nsec (ground arith) (ground arith))
    ];
  }

  made-IsUsable : (settings s : Settings) → made npub_of settings ≡ ok s → IsUsable npub_of s
  made-IsUsable settings s h =
      let (_, passed, same) = bind-ok (post_init npub_of settings) _ s h in
      subst (IsUsable npub_of) (ok-injective same) (post_init-IsUsable settings passed)

  parsed-IsUsable :
      (env : Env) (q d p : Option ℤ) (s : Settings)
      → from_parsed npub_of env q d p ≡ ok s
      → IsUsable npub_of s
  parsed-IsUsable env (some q) (some d) (some p) s h = made-IsUsable (settings_of env q d p) s h
  parsed-IsUsable env none d p s h = absurd (ground arith)
  parsed-IsUsable env (some q) none p s h = absurd (ground arith)
  parsed-IsUsable env (some q) (some d) none s h = absurd (ground arith)

  -- Settings that `from_env` returns name a clock mode with a receipt version from 1 to 3, have
  -- limits of at least 1, and one of the two management modes. Where witnessing is on or the service
  -- is managed, there is a key from which stroma derives an npub, and where witnessing is on, the mode
  -- is the system's or there is a clock file.
  pub from_env-IsUsable :
      (parse_int : Text → Option ℤ) (env : Env) (s : Settings)
      → from_env parse_int npub_of env ≡ ok s
      → IsUsable npub_of s
  unfolding from_env
  from_env-IsUsable parse_int env s h =
      parsed-IsUsable env
        (parse_int (get_or (env (codes "SPURLINE_WITNESS_QUEUE_LIMIT")) (codes "1000")))
        (parse_int (get_or (env (codes "SPURLINE_WITNESS_MAX_DELAY_SECONDS")) (codes "60")))
        (parse_int (get_or (env (codes "SPURLINE_PORT")) (codes "8080"))) s h
