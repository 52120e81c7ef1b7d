-- ===== src/Bitcoin/Script.antt =====
-- The output scripts of src/bitcoin/mod.rs: pay to a public key hash, and the `OP_RETURN` that
-- announces a keyserver.
pub mod Shape
pub mod RoundTrip
pub mod Scenarios
use keyserver_rust.Prelude.{
  ℕ, ◌+◌, ◌-◌, ◌%◌, Option, none, some, List, [], ◌∷◌, ◌++◌, not, leb, ◌==◌, if◌then◌else◌, length,
  get_or, drop,
}
use keyserver_rust.Prelude.Bytes.{Bytes, text, bytes_eq, slice}
use keyserver_rust.Prelude.Utf8.{from_utf8}
use keyserver_rust.Models.{Output}
use keyserver_rust.Crates.{CashAddr}
use keyserver_rust.Bitcoin.Network.{into_addr_network}
use keyserver_rust.Settings.{Settings}

abbrev pub price : ℕ
price = 5

abbrev pub keyserver_prefix : Bytes
keyserver_prefix = b'k' ∷ b'e' ∷ b'y' ∷ b's' ∷ b'e' ∷ b'r' ∷ b'v' ∷ b'e' ∷ b'r' ∷ []

abbrev pub p2pkh_pre : Bytes
p2pkh_pre = 118 ∷ 169 ∷ 20 ∷ []

abbrev pub p2pkh_post : Bytes
p2pkh_post = 136 ∷ 172 ∷ []

unfoldable pub extract_pubkey_hash : Bytes → Option Bytes
extract_pubkey_hash raw_script =
    if not (length raw_script == 25)
    then none
    else if not (bytes_eq (slice 0 3 raw_script) p2pkh_pre)
    then none
    else if not (bytes_eq (slice 23 25 raw_script) p2pkh_post)
    then none
    else some (slice 3 23 raw_script)

-- `base_url.len() as u8`, added to 29 in a `u8`.
unfoldable pub op_return_length : Bytes → ℕ
op_return_length base_url = (29 + length base_url % 256) % 256

unfoldable pub generate_outputs : Bytes → Bytes → Bytes → List Output
unfolding op_return_length
generate_outputs pk_hash base_url put_pk_hash =
    record { amount = some price; script = p2pkh_pre ++ (pk_hash ++ p2pkh_post) }
    ∷ record {
      amount = some 0;
      script =
          (106 ∷ op_return_length base_url ∷ []) ++ (keyserver_prefix ++ (put_pk_hash ++ base_url));
    }
    ∷ []

module _ (c : CashAddr) (settings : Settings) where
  -- `format!("http://{}", SETTINGS.bind)`
  unfoldable pub own_url : Bytes
  own_url = text "http://" ++ settings.bind

  -- What follows the length test, on the host's bytes.
  unfoldable pub parse_host : Bytes → Bytes → Option (Bytes × c.Address)
  unfolding own_url
  parse_host script raw_host = elim (from_utf8 raw_host) [
    | none ↦ none
    | some url ↦
        if bytes_eq url own_url
        then none
        else some (url, c.address (slice 11 31 script) (into_addr_network settings.network))
  ]

  unfoldable pub extract_op_return : Bytes → Option (Bytes × c.Address)
  unfolding parse_host
  extract_op_return script =
      if leb (length script) 31
      then none
      else if not (get_or script 0 0 == 106)
      then none
      else if not (get_or script 1 0 == length script - 2)
      then none
      else if not (bytes_eq (slice 2 11 script) keyserver_prefix)
      then none
      else parse_host script (drop 31 script)
