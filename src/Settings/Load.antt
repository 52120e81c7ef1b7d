-- ===== src/Settings/Load.antt =====
-- `Settings::new` of src/settings.rs: the defaults, then a file, then the command line.
use keyserver_rust.Prelude.{Option, none, some, List, [], ◌∷◌, Outcome, done, try, ok_or, unwrap}
use keyserver_rust.Prelude.Bytes.{Bytes, text}
use keyserver_rust.Prelude.Steps.{◌>>=◌}
use keyserver_rust.Prelude.Int.{ℤ}
use keyserver_rust.Crates.Environment.{
  ConfigValue, string, nil, integer, ConfigCrate, Matches, Dirs,
}
use keyserver_rust.Settings.{Settings}

-- The value of an `Option<&str>`.
abbrev pub from_option : Option Bytes → ConfigValue
from_option none = nil
from_option (some s) = string s

-- `if let Some(v) = matches.value_of(name)`, and `if let Ok(v) = value_t!(matches, name, i64)`.
abbrev pub given_string : Option Bytes → Option ConfigValue
given_string none = none
given_string (some s) = some (string s)

abbrev pub given_integer : Option ℤ → Option ConfigValue
given_integer none = none
given_integer (some n) = some (integer n)

-- What the command line sets, in order.
abbrev pub arguments : Matches → List (Bytes × Option ConfigValue)
arguments m =
    (text "bind", given_string (m.value_of (text "bind")))
    ∷ (text "node_ip", given_string (m.value_of (text "node-ip")))
    ∷ (text "rpc_port", given_integer (m.value_i64 (text "rpc-port")))
    ∷ (text "rpc_username", given_string (m.value_of (text "rpc-username")))
    ∷ (text "rpc_password", given_string (m.value_of (text "rpc-password")))
    ∷ (text "zmq_port", given_integer (m.value_i64 (text "zmq-port")))
    ∷ (text "secret", given_string (m.value_of (text "secret")))
    ∷ (text "db_path", given_string (m.value_of (text "db-path")))
    ∷ (text "network", given_string (m.value_of (text "network")))
    ∷ []

module _ (dirs : Dirs) where
  -- The defaults, in order.
  abbrev pub defaults : dirs.PathBuf → List (Bytes × ConfigValue)
  defaults home_dir =
      (text "bind", string (text "127.0.0.1:8080"))
      ∷ (text "node_ip", string (text "127.0.0.1"))
      ∷ (text "rpc_port", string (text "18443"))
      ∷ (text "rpc_username", string (text "username"))
      ∷ (text "rpc_password", string (text "password"))
      ∷ (text "zmq_port", string (text "28332"))
      ∷ (text "secret", string (text "secret"))
      ∷ (text "db_path", from_option (dirs.to_str (dirs.push home_dir (text ".keyserver-rust/db"))))
      ∷ (text "network", string (text "regnet"))
      ∷ []

  -- `default_config.to_str()`
  abbrev pub default_config : dirs.PathBuf → Option Bytes
  default_config home_dir = dirs.to_str (dirs.push home_dir (text ".keyserver-rust/config"))

-- `matches.value_of("config").unwrap_or(default_config_str)`
abbrev pub unwrap_or {ℓ} : {A : Type ℓ} → Option A → A → A
unwrap_or none a = a
unwrap_or (some b) a = b

module _ (c : ConfigCrate) where
  -- The calls of `set_default`, each with its `?`.
  unfoldable pub set_defaults :
      c.Config → List (Bytes × ConfigValue) → Outcome c.ConfigError c.Config
  set_defaults s [] = done s
  set_defaults s ((key, value) ∷ rest) =
      try (λ e. e) (c.set_default s key value) >>= λ s'. set_defaults s' rest

  -- The calls of `set` for the values that are given.
  unfoldable pub set_given :
      c.Config → List (Bytes × Option ConfigValue) → Outcome c.ConfigError c.Config
  set_given s [] = done s
  set_given s ((key, none) ∷ rest) = set_given s rest
  set_given s ((key, some value) ∷ rest) =
      try (λ e. e) (c.set s key value) >>= λ s'. set_given s' rest

  -- `Settings::new`
  unfoldable pub new_settings : Matches → Dirs → Outcome c.ConfigError Settings
  unfolding set_defaults set_given
  new_settings m dirs = ok_or (c.message (text "no home directory")) dirs.home_dir >>= λ home_dir.
      set_defaults c.new (defaults dirs home_dir) >>= λ s₁.
      unwrap (default_config dirs home_dir) >>= λ default_config_str.
      try (λ e. e) (c.merge s₁ (unwrap_or (m.value_of (text "config")) default_config_str))
      >>= λ s₂. set_given s₂ (arguments m) >>= λ s₃. try (λ e. e) (c.try_into s₃)
