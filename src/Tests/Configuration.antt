-- ===== src/Tests/Configuration.antt =====
-- `Settings::new` at a concrete environment, with a stand-in for the configuration crate: a triple
-- of layers, one file, and ports in digits.
use keyserver_rust.Prelude.{
  ℕ, ◌≡◌, refl, Option, none, some, [], ◌++◌, Result, ok, err, Outcome, done, fail, panic,
  done-injective, subst, sym, ap, ok_or, ok_or-eq-done, if◌then◌else◌,
}
use keyserver_rust.Prelude.Bytes.{Bytes, text, bytes_eq}
use keyserver_rust.Prelude.Int.{pos}
use keyserver_rust.Prelude.Decimal.{number_after}
use keyserver_rust.Prelude.Steps.{◌>>=◌, >>=-eq-done}
use keyserver_rust.Bitcoin.Network.{mainnet, deserialize_network}
use keyserver_rust.Crates.Environment.{
  ConfigValue, string, nil, integer, ConfigCrate, Matches, Dirs, or_else, effective, read,
  HasFields, ConfigLaws,
}
use keyserver_rust.Settings.{Settings}
use keyserver_rust.Settings.Load.{new_settings}
use keyserver_rust.Settings.Precedence.{IsNew, new_settings-IsNew}

abbrev Layer : Type 0
Layer = Bytes → Option ConfigValue

abbrev with_value : Layer → Bytes → ConfigValue → Layer
with_value l k v j = if bytes_eq k j then some v else l j

abbrev as_string : ConfigValue → Option Bytes
as_string (string s) = some s
as_string nil = none
as_string (integer n) = none

abbrev as_port : ConfigValue → Option ℕ
as_port (string s) = some (number_after 0 s)
as_port (integer (pos n)) = some n
as_port other = none

-- The one file there is says the port and the network.
abbrev file : Bytes → Layer
file path j =
    if bytes_eq path (text "my.toml")
    then (if bytes_eq j (text "rpc_port")
        then some (string (text "1"))
        else if bytes_eq j (text "network")
        then some (string (text "mainnet"))
        else none)
    else none

unfoldable pub field : {A : Type 0} → (ConfigValue → Option A) → Layer → Bytes → Outcome Bytes A
field f v k = ok_or k (read f (v k))

abbrev fields : Layer → Outcome Bytes Settings
fields v = field as_string v (text "bind") >>= λ bind. field as_string v (text "node_ip") >>= λ ip.
    field as_port v (text "rpc_port") >>= λ rpc. field as_string v (text "rpc_username") >>= λ user.
    field as_string v (text "rpc_password") >>= λ word. field as_port v (text "zmq_port") >>= λ zmq.
    field as_string v (text "secret") >>= λ secret. field as_string v (text "db_path") >>= λ db.
    field as_string v (text "network") >>= λ name.
    ok_or name (deserialize_network name) >>= λ network. done (record {
      bind = bind;
      node_ip = ip;
      rpc_port = rpc;
      rpc_username = user;
      rpc_password = word;
      zmq_port = zmq;
      secret = secret;
      db_path = db;
      network = network;
    })

abbrev result : Outcome Bytes Settings → Result Bytes Settings
result (done s) = ok s
result (fail e) = err e
result panic = err []

result-eq-ok : (o : Outcome Bytes Settings) (s : Settings) → result o ≡ ok s → o ≡ done s
result-eq-ok (done t) s e = cc
result-eq-ok (fail f) s e = cc
result-eq-ok panic s e = cc

field-eq-done :
    {A : Type 0} (f : ConfigValue → Option A) (v : Layer) (k : Bytes) {a : A}
    → field f v k ≡ done a
    → read f (v k) ≡ some a
unfolding field
field-eq-done f v k e = ok_or-eq-done k (read f (v k)) e

fields_lem : (v : Layer) (s : Settings) → fields v ≡ done s → HasFields as_string as_port v s
fields_lem v s e =
    let (bind, e₁, r₁) = >>=-eq-done (field as_string v (text "bind")) _ e in
    let (ip, e₂, r₂) = >>=-eq-done (field as_string v (text "node_ip")) _ r₁ in
    let (rpc, e₃, r₃) = >>=-eq-done (field as_port v (text "rpc_port")) _ r₂ in
    let (user, e₄, r₄) = >>=-eq-done (field as_string v (text "rpc_username")) _ r₃ in
    let (word, e₅, r₅) = >>=-eq-done (field as_string v (text "rpc_password")) _ r₄ in
    let (zmq, e₆, r₆) = >>=-eq-done (field as_port v (text "zmq_port")) _ r₅ in
    let (secret, e₇, r₇) = >>=-eq-done (field as_string v (text "secret")) _ r₆ in
    let (db, e₈, r₈) = >>=-eq-done (field as_string v (text "db_path")) _ r₇ in
    let (name, e₉, r₉) = >>=-eq-done (field as_string v (text "network")) _ r₈ in
    let (network, named, r) = >>=-eq-done (ok_or name (deserialize_network name)) _ r₉ in
    let same : _ ≡ s = done-injective r in
    subst (HasFields as_string as_port v) same (record {
      bind = field-eq-done as_string v (text "bind") e₁;
      node_ip = field-eq-done as_string v (text "node_ip") e₂;
      rpc_port = field-eq-done as_port v (text "rpc_port") e₃;
      rpc_username = field-eq-done as_string v (text "rpc_username") e₄;
      rpc_password = field-eq-done as_string v (text "rpc_password") e₅;
      zmq_port = field-eq-done as_port v (text "zmq_port") e₆;
      secret = field-eq-done as_string v (text "secret") e₇;
      db_path = field-eq-done as_string v (text "db_path") e₈;
      network_name = name;
      network_text = field-eq-done as_string v (text "network") e₉;
      network = ok_or-eq-done name (deserialize_network name) named;
    })

ok-injective : {A : Type 0} {a b : A} → ◌≡◌ {A = Result Bytes A} (ok a) (ok b) → a ≡ b
ok-injective e = cc

abbrev pub config : ConfigCrate
config = record {
  Config = Layer × Layer × Layer;
  ConfigError = Bytes;
  message = λ m. m;
  new = (λ j. none, λ j. none, λ j. none);
  set_default = λ c k v. ok (c.0, c.1, with_value c.2 k v);
  merge = λ c path. ok (c.0, λ j. or_else (file path j) (c.1 j), c.2);
  set = λ c k v. ok (with_value c.0 k v, c.1, c.2);
  try_into = λ c. result (fields (effective c.0 c.1 c.2));
}

merged :
    (c c' : Layer × Layer × Layer) (path j : Bytes)
    → config.merge c path ≡ ok c'
    → (c'.0 j ≡ c.0 j) × (c'.1 j ≡ or_else (file path j) (c.1 j)) × (c'.2 j ≡ c.2 j)
merged c c' path j e =
    let same = ok-injective e in
    (
      ap (λ (d : Layer × Layer × Layer). d.0 j) (sym same),
      ap (λ (d : Layer × Layer × Layer). d.1 j) (sym same),
      ap (λ (d : Layer × Layer × Layer). d.2 j) (sym same),
    )

pub config_laws : ConfigLaws config
config_laws = record {
  file = file;
  as_string = as_string;
  as_port = as_port;
  overrides = λ c. c.0;
  sources = λ c. c.1;
  default = λ c. c.2;
  overrides-new = λ j. refl;
  sources-new = λ j. refl;
  default-new = λ j. refl;
  set_default_lem =
      λ c k v plain. ((c.0, c.1, with_value c.2 k v), refl, λ j. refl, λ j. refl, λ j. refl);
  set_lem = λ c k v plain. ((with_value c.0 k v, c.1, c.2), refl, λ j. refl, λ j. refl, λ j. refl);
  merge_lem = λ c c' path j e. merged c c' path j e;
  try_into_lem = λ c s e. fields_lem (effective c.0 c.1 c.2) s (result-eq-ok _ s e);
}

-- The command line gives a bind address and a file; a port that is no number is dropped.
abbrev matches : Matches
matches = record {
  value_of = λ name.
      if bytes_eq name (text "bind")
      then some (text "0.0.0.0:80")
      else if bytes_eq name (text "config")
      then some (text "my.toml")
      else if bytes_eq name (text "rpc-port")
      then some (text "x")
      else none;
  value_i64 = λ name. none;
}

abbrev pub dirs : Dirs
dirs = record {
  PathBuf = Bytes;
  home_dir = some (text "/root");
  push = λ p s. p ++ (text "/" ++ s);
  to_str = λ p. some p;
}

new_settings_gives :
    new_settings config matches dirs
    ≡ done (record {
      bind = text "0.0.0.0:80";
      node_ip = text "127.0.0.1";
      rpc_port = 1;
      rpc_username = text "username";
      rpc_password = text "password";
      zmq_port = 28332;
      secret = text "secret";
      db_path = text "/root/.keyserver-rust/db";
      network = mainnet;
    })
unfolding new_settings text bytes_eq deserialize_network field
new_settings_gives = refl

new_settings-IsNew_example :
    IsNew config config_laws matches dirs (new_settings config matches dirs)
new_settings-IsNew_example = new_settings-IsNew config config_laws matches dirs
