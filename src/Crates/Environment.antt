-- ===== src/Crates/Environment.antt =====
-- What src/settings.rs calls: the crates config, clap and dirs, with the laws that it relies on.
use keyserver_rust.Prelude.{
  ℕ, ◌≡◌, Bool, true, ◌&&◌, ◌||◌, ◌==◌, leb, Option, none, some, [], ◌∷◌, Result, ok, if◌then◌else◌,
}
use keyserver_rust.Prelude.Int.{ℤ}
use keyserver_rust.Prelude.Bytes.{Bytes, text, bytes_eq}
use keyserver_rust.Bitcoin.Network.{deserialize_network}
use keyserver_rust.Settings.{Settings}

-- `config::Value`, as far as the source makes one: of a string, of a missing string, of an `i64`.
pub data ConfigValue : Type 0 where
  string : Bytes → ConfigValue
  nil : ConfigValue
  integer : ℤ → ConfigValue

-- config
pub record ConfigCrate : Type 1 where
  pub Config : Type 0
  pub ConfigError : Type 0
  -- `ConfigError::Message`
  pub message : Bytes → ConfigError
  pub new : Config
  pub set_default : Config → Bytes → ConfigValue → Result ConfigError Config
  -- `merge(File::with_name(path).required(false))`
  pub merge : Config → Bytes → Result ConfigError Config
  pub set : Config → Bytes → ConfigValue → Result ConfigError Config
  pub try_into : Config → Result ConfigError Settings

-- clap: `value_of(name)`, and `value_t!(matches, name, i64)` without its error.
pub record Matches : Type 0 where
  pub value_of : Bytes → Option Bytes
  pub value_i64 : Bytes → Option ℤ

-- dirs, and the standard library's paths
pub record Dirs : Type 1 where
  pub PathBuf : Type 0
  pub home_dir : Option PathBuf
  pub push : PathBuf → Bytes → PathBuf
  pub to_str : PathBuf → Option Bytes

-- The first value there is.
abbrev pub or_else {ℓ} : {A : Type ℓ} → Option A → Option A → Option A
or_else none b = b
or_else (some a) b = some a

-- A plain key: lower-case letters and underscores, no path expression.
unfoldable pub is_plain : Bytes → Bool
is_plain [] = true
is_plain (c ∷ cs) = (leb 97 c && leb c 122 || c == 95) && is_plain cs

-- The value of a key by its layers: what was set, what the files say, the default.
abbrev pub effective : (o s d : Bytes → Option ConfigValue) → Bytes → Option ConfigValue
effective o s d j = or_else (o j) (or_else (s j) (d j))

abbrev pub read {ℓ} : {A : Type ℓ} → (ConfigValue → Option A) → Option ConfigValue → Option A
read f none = none
read f (some v) = f v

-- The fields of the settings, read from the values of their names.
pub record HasFields (as_string : ConfigValue → Option Bytes) (as_port : ConfigValue → Option ℕ)
    (value : Bytes → Option ConfigValue) (r : Settings) : Type 0 where
  pub bind : read as_string (value (text "bind")) ≡ some r.bind
  pub node_ip : read as_string (value (text "node_ip")) ≡ some r.node_ip
  pub rpc_port : read as_port (value (text "rpc_port")) ≡ some r.rpc_port
  pub rpc_username : read as_string (value (text "rpc_username")) ≡ some r.rpc_username
  pub rpc_password : read as_string (value (text "rpc_password")) ≡ some r.rpc_password
  pub zmq_port : read as_port (value (text "zmq_port")) ≡ some r.zmq_port
  pub secret : read as_string (value (text "secret")) ≡ some r.secret
  pub db_path : read as_string (value (text "db_path")) ≡ some r.db_path
  pub network_name : Bytes
  pub network_text : read as_string (value (text "network")) ≡ some network_name
  pub network : deserialize_network network_name ≡ some r.network

-- A configuration has three layers: what is set goes before what the files say, and that before the
-- defaults. Setting a plain key changes its layer there and does not fail; merging a file may fail.
-- `file` is what the file at a path says, the same during the start of the server.
pub record ConfigLaws (c : ConfigCrate) : Type 0 where
  pub file : Bytes → Bytes → Option ConfigValue
  pub as_string : ConfigValue → Option Bytes
  pub as_port : ConfigValue → Option ℕ
  pub overrides : c.Config → Bytes → Option ConfigValue
  pub sources : c.Config → Bytes → Option ConfigValue
  pub default : c.Config → Bytes → Option ConfigValue
  pub overrides-new : (j : Bytes) → overrides c.new j ≡ none
  pub sources-new : (j : Bytes) → sources c.new j ≡ none
  pub default-new : (j : Bytes) → default c.new j ≡ none
  pub set_default_lem :
      (s : c.Config) (k : Bytes) (v : ConfigValue)
      → is_plain k ≡ true
      → (s' : c.Config) × (c.set_default s k v ≡ ok s')
        × ((j : Bytes) → overrides s' j ≡ overrides s j)
        × ((j : Bytes) → sources s' j ≡ sources s j)
        × ((j : Bytes) → default s' j ≡ (if bytes_eq k j then some v else default s j))
  pub set_lem :
      (s : c.Config) (k : Bytes) (v : ConfigValue)
      → is_plain k ≡ true
      → (s' : c.Config) × (c.set s k v ≡ ok s')
        × ((j : Bytes) → overrides s' j ≡ (if bytes_eq k j then some v else overrides s j))
        × ((j : Bytes) → sources s' j ≡ sources s j)
        × ((j : Bytes) → default s' j ≡ default s j)
  pub merge_lem :
      (s s' : c.Config) (path j : Bytes)
      → c.merge s path ≡ ok s'
      → (overrides s' j ≡ overrides s j)
        × (sources s' j ≡ or_else (file path j) (sources s j))
        × (default s' j ≡ default s j)
  -- A field is read from the value of its name.
  pub try_into_lem :
      (s : c.Config) (r : Settings)
      → c.try_into s ≡ ok r
      → HasFields as_string as_port (effective (overrides s) (sources s) (default s)) r
