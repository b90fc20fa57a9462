-- ===== src/Isp/Settings.antt =====
-- isp-adapter/src/config.js. Its `loadDotEnv` and `bool` are those of gateway-agent/src/config.js, word
-- for word.
use guardtime.Base.{ℤ, String, Bool, true, Option, parse_int}
use guardtime.Agent.Config.Load.{Env, load_dot_env, bool, text}

-- A port that is no number is `none`.
pub record Settings : Type 0 where
  pub port : Option ℤ
  pub adapter_token : String
  pub default_tenant_id : String
  pub default_bng_id : String
  pub simulation_mode : Bool

abbrev pub settings_of : Env → Settings
unfolding parse_int text bool
settings_of env = record {
  port = parse_int (text env "PORT" "4100");
  adapter_token = text env "ADAPTER_TOKEN" "";
  default_tenant_id = text env "DEFAULT_TENANT_ID" "default-isp";
  default_bng_id = text env "DEFAULT_BNG_ID" "bng-01";
  simulation_mode = bool env "SIMULATION_MODE" true;
}

-- `loadConfig`, over the text of the .env file.
unfoldable pub load_config : (file : Option String) → Env → Settings
unfolding load_dot_env parse_int text bool
load_config file env = settings_of (load_dot_env file env)
