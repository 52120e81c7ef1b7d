-- ===== src/Bitcoin/Network.antt =====
-- The three networks of src/bitcoin/mod.rs and their names in the address crate.
use keyserver_rust.Prelude.{
  ◌≡◌, refl, sym, subst, ◌↔◌, Bool, true, false, Option, none, some, arith, if◌then◌else◌,
}
use keyserver_rust.Prelude.Bytes.{Bytes, text, bytes_eq, bytes_eq_iff}
use keyserver_rust.Models.{AddrNetwork, main, test, regtest}

pub data Network : Type 0 where
  mainnet testnet regnet : Network

-- `impl From<bitcoincash_addr::Network> for Network`
unfoldable pub from_addr_network : AddrNetwork → Network
from_addr_network main = mainnet
from_addr_network test = testnet
from_addr_network regtest = regnet

-- `impl Into<bitcoincash_addr::Network> for Network`
unfoldable pub into_addr_network : Network → AddrNetwork
into_addr_network mainnet = main
into_addr_network testnet = test
into_addr_network regnet = regtest

unfoldable pub to_string : Network → Bytes
to_string mainnet = text "mainnet"
to_string testnet = text "testnet"
to_string regnet = text "regnet"

-- The derived `Deserialize`, with the names in lower case.
unfoldable pub deserialize_network : Bytes → Option Network
deserialize_network name =
    if bytes_eq name (text "mainnet")
    then some mainnet
    else if bytes_eq name (text "testnet")
    then some testnet
    else if bytes_eq name (text "regnet")
    then some regnet
    else none

-- The derived `PartialEq`.
unfoldable pub network_eq : Network → Network → Bool
network_eq mainnet mainnet = true
network_eq testnet testnet = true
network_eq regnet regnet = true
network_eq _ _ = false

pub network_eq_iff : (m n : Network) → (network_eq m n ≡ true) ↔ (m ≡ n)
unfolding network_eq
network_eq_iff m n = ground arith

pub from-into : (n : Network) → from_addr_network (into_addr_network n) ≡ n
unfolding from_addr_network into_addr_network
from-into n = ground arith

name_read : (n : Network) → deserialize_network (to_string n) ≡ some n
unfolding deserialize_network to_string text bytes_eq
name_read mainnet = refl
name_read testnet = refl
name_read regnet = refl

read_name : (name : Bytes) (n : Network) → deserialize_network name ≡ some n → name ≡ to_string n
unfolding deserialize_network to_string
read_name name n e = ground (
  arith,
  bytes_eq_iff name (text "mainnet"),
  bytes_eq_iff name (text "testnet"),
  bytes_eq_iff name (text "regnet"),
)

-- The names that are read are those that are written.
pub deserialize_network_iff :
    (name : Bytes) (n : Network) → (deserialize_network name ≡ some n) ↔ (name ≡ to_string n)
deserialize_network_iff name n =
    (read_name name n, λ e. subst (λ t. deserialize_network t ≡ some n) (sym e) (name_read n))
