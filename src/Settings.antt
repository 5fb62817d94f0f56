-- ===== src/Settings.antt =====
-- src/spurline/config.py: the settings, their validation, and the environment.
mod Usable
mod Tests
use spurline.Prelude.{
  ℕ, ◌+◌, Bool, true, false, ◌&&◌, ◌||◌, not, Option, none, some, List, [], ◌∷◌, map, any, ltb, leb,
  if◌then◌else◌, Outcome, ok, err, ◌>>=◌, ◌>>◌, raise_if,
}
use spurline.Prelude.Int.{ℤ, pos, ltb_ℤ}
use spurline.Prelude.Text.{Text, codes, text_eq, text_in}

-- the messages of ValueError
pub data SettingsError : Type 0 where
  bad_clock_mode no_service_key no_clock_file bad_limits bad_management no_managed_key :
      SettingsError
  invalid_key not_an_int : SettingsError

pub record Settings : Type 0 where
  pub host : Text
  pub port : ℤ
  pub database_path : Text
  pub verify_signatures : Bool
  pub public_url : Option Text
  pub service_nsec : Option Text
  pub service_management : Text
  pub witness_enabled : Bool
  pub witness_clock_file : Option Text
  pub witness_clock_mode : Text
  pub witness_queue_limit : ℤ
  pub witness_max_delay_seconds : ℤ

-- `not value`, of a text or None
abbrev pub is_absent : Option Text → Bool
is_absent none = true
is_absent (some []) = true
is_absent (some (c ∷ s)) = false

abbrev pub clock_modes : List Text
clock_modes = codes "bounded" ∷ codes "operational" ∷ codes "system" ∷ []

abbrev pub management_modes : List Text
management_modes = codes "independent" ∷ codes "mainstay-managed" ∷ []

-- `not path`: a Path is always true
abbrev pub is_absent_path : Option Text → Bool
is_absent_path none = true
is_absent_path (some path) = false

-- `service_npub`, where stroma gives the npub of a secret, or refuses it
abbrev pub check_key : (Text → Option Text) → Option Text → Outcome SettingsError (Unit {0})
check_key npub_of none = ok tt
check_key npub_of (some []) = ok tt
check_key npub_of (some (c ∷ s)) = elim (npub_of (c ∷ s)) [
  | none ↦ err invalid_key
  | some npub ↦ ok tt
]

-- `__post_init__`
unfoldable pub post_init : (Text → Option Text) → Settings → Outcome SettingsError (Unit {0})
post_init npub_of s = do
  raise_if (not (text_in s.witness_clock_mode clock_modes)) bad_clock_mode
  raise_if (s.witness_enabled && is_absent s.service_nsec) no_service_key
  raise_if
      (s.witness_enabled
        && (not (text_eq s.witness_clock_mode (codes "system"))
            && is_absent_path s.witness_clock_file))
      no_clock_file
  raise_if (ltb_ℤ s.witness_queue_limit (pos 1) || ltb_ℤ s.witness_max_delay_seconds (pos 1))
      bad_limits
  raise_if (not (text_in s.service_management management_modes)) bad_management
  raise_if (text_eq s.service_management (codes "mainstay-managed") && is_absent s.service_nsec)
      no_managed_key
  check_key npub_of s.service_nsec

-- `witness_receipt_version`
unfoldable pub receipt_version : Text → Option ℕ
receipt_version mode =
    if text_eq mode (codes "bounded")
    then some 1
    else if text_eq mode (codes "operational")
    then some 2
    else if text_eq mode (codes "system")
    then some 3
    else none

-- the environment
abbrev pub Env : Type 0
Env = Text → Option Text

abbrev pub get_or : Option Text → Text → Text
get_or none default = default
get_or (some v) default = v

-- `os.getenv(name) or None`
abbrev pub or_none : Option Text → Option Text
or_none none = none
or_none (some []) = none
or_none (some (c ∷ s)) = some (c ∷ s)

-- `raw.lower()`, of the ASCII letters
abbrev pub lower : Text → Text
lower s = map (λ c. if leb 65 c && leb c 90 then c + 32 else c) s

abbrev pub off_words : List Text
off_words = codes "0" ∷ codes "false" ∷ codes "no" ∷ codes "off" ∷ []

-- `_env_bool`
unfoldable pub env_bool : Option Text → Bool → Bool
env_bool none default = default
env_bool (some raw) default = not (text_in (lower raw) off_words)

-- the settings of an environment, with its numbers parsed, before `__post_init__`
abbrev pub settings_of : Env → ℤ → ℤ → ℤ → Settings
settings_of env queue_limit max_delay port = record {
  host = get_or (env (codes "SPURLINE_HOST")) (codes "127.0.0.1");
  port = port;
  database_path = get_or (env (codes "SPURLINE_DATABASE")) (codes "spurline.sqlite3");
  verify_signatures = env_bool (env (codes "SPURLINE_VERIFY_SIGNATURES")) true;
  public_url = or_none (env (codes "SPURLINE_PUBLIC_URL"));
  service_nsec = or_none (env (codes "SPURLINE_SERVICE_NSEC"));
  service_management = get_or (env (codes "SPURLINE_SERVICE_MANAGEMENT")) (codes "independent");
  witness_enabled = env_bool (env (codes "SPURLINE_WITNESS_ENABLED")) false;
  witness_clock_file = or_none (env (codes "SPURLINE_WITNESS_CLOCK_FILE"));
  witness_clock_mode = get_or (env (codes "SPURLINE_WITNESS_CLOCK_MODE")) (codes "bounded");
  witness_queue_limit = queue_limit;
  witness_max_delay_seconds = max_delay;
}

-- the constructor
abbrev pub made : (Text → Option Text) → Settings → Outcome SettingsError Settings
made npub_of settings = do post_init npub_of settings; ok settings

-- Each `int` of a text that is no integer raises ValueError.
abbrev pub from_parsed :
    (Text → Option Text) → Env → Option ℤ → Option ℤ → Option ℤ → Outcome SettingsError Settings
from_parsed npub_of env (some queue_limit) (some max_delay) (some port) =
    made npub_of (settings_of env queue_limit max_delay port)
from_parsed npub_of env _ _ _ = err not_an_int

-- `from_env`
unfoldable pub from_env :
    (Text → Option ℤ) → (Text → Option Text) → Env → Outcome SettingsError Settings
from_env parse_int npub_of env =
    from_parsed npub_of env
      (parse_int (get_or (env (codes "SPURLINE_WITNESS_QUEUE_LIMIT")) (codes "1000")))
      (parse_int (get_or (env (codes "SPURLINE_WITNESS_MAX_DELAY_SECONDS")) (codes "60")))
      (parse_int (get_or (env (codes "SPURLINE_PORT")) (codes "8080")))
