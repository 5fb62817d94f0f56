-- ===== src/Settings/Tests.antt =====
-- src/spurline/config.py with an environment that turns witnessing on.
use spurline.Prelude.{true, ◌≡◌, refl, Option, none, some, ok, if◌then◌else◌}
use spurline.Prelude.Int.{ℤ, pos}
use spurline.Prelude.Text.{Text, codes, text_eq}
use spurline.Settings.{Settings, Env, from_env, post_init, env_bool}
use spurline.Settings.Usable.{IsUsable, from_env-IsUsable}

abbrev env : Env
env name =
    if text_eq name (codes "SPURLINE_WITNESS_ENABLED")
    then some (codes "Yes")
    else if text_eq name (codes "SPURLINE_WITNESS_CLOCK_MODE")
    then some (codes "system")
    else if text_eq name (codes "SPURLINE_SERVICE_NSEC")
    then some (codes "nsec1x")
    else none

-- every text read as 60, and every secret accepted
abbrev sixty : Text → Option ℤ
sixty text = some (pos 60)

abbrev same_npub : Text → Option Text
same_npub secret = some secret

abbrev settings : Settings
settings = record {
  host = codes "127.0.0.1";
  port = pos 60;
  database_path = codes "spurline.sqlite3";
  verify_signatures = true;
  public_url = none;
  service_nsec = some (codes "nsec1x");
  service_management = codes "independent";
  witness_enabled = true;
  witness_clock_file = none;
  witness_clock_mode = codes "system";
  witness_queue_limit = pos 60;
  witness_max_delay_seconds = pos 60;
}

from_env_run : from_env sixty same_npub env ≡ ok settings
unfolding from_env post_init env_bool text_eq
from_env_run = refl

from_env-IsUsable_example : IsUsable same_npub settings
from_env-IsUsable_example = from_env-IsUsable same_npub sixty env settings from_env_run
