-- ===== src/Bitcoin/Wallet.antt =====
-- `WalletState` of src/bitcoin/mod.rs: the set of addresses that await a payment, behind its lock.
-- A `HashSet<Vec<u8>>` is a list without repetition; each method is one step under the lock.
pub mod Payments
pub mod Interleaving
pub mod Lifetime
pub mod Replay
use keyserver_rust.Prelude.{
  ◌≡◌, refl, Bool, true, false, ◌||◌, Option, none, some, List, [], ◌∷◌, arith, not, ◌==◌,
  if◌then◌else◌,
}
use keyserver_rust.Prelude.Bytes.{Bytes, bytes_eq, bytes_eq_iff}
use keyserver_rust.Models.{Transaction, TxOut}
use keyserver_rust.Bitcoin.Script.{price, extract_pubkey_hash}

abbrev pub WalletState : Type 0
WalletState = List Bytes

unfoldable pub contains : Bytes → WalletState → Bool
contains a [] = false
contains a (b ∷ w) = bytes_eq b a || contains a w

-- `HashSet::insert` and `HashSet::remove`, under the write lock.
unfoldable pub add : Bytes → WalletState → WalletState
unfolding contains
add a w = if contains a w then w else a ∷ w

unfoldable pub remove : Bytes → WalletState → WalletState
remove a [] = []
remove a (b ∷ w) = let rest = remove a w in if bytes_eq b a then rest else b ∷ rest

-- The last two tests of `check_p2pkh`, on the hash that was found.
unfoldable pub flush : Option Bytes → WalletState → Bool × WalletState
flush none w = (false, w)
flush (some pubkey_hash) w =
    if contains pubkey_hash w then (true, remove pubkey_hash w) else (false, w)

unfoldable pub check_p2pkh : TxOut → WalletState → Bool × WalletState
unfolding flush
check_p2pkh output w =
    if not (output.value == price)
    then (false, w)
    else flush (extract_pubkey_hash output.script_pubkey) w

-- `any`: the outputs after the first hit are not looked at.
unfoldable pub any_output : List TxOut → WalletState → Bool × WalletState
any_output [] w = (false, w)
any_output (o ∷ os) w =
    let (hit, w') = check_p2pkh o w in if hit then (true, w') else any_output os w'

unfoldable pub check_outputs : Transaction → WalletState → Bool × WalletState
unfolding any_output
check_outputs tx w = any_output tx.output w

pub contains-add :
    (a b : Bytes) (w : WalletState)
    → contains b (add a w) ≡ (if bytes_eq a b then true else contains b w)
unfolding add contains
contains-add a b w = ground (arith, bytes_eq_iff a b)

pub contains-remove :
    (a b : Bytes) (w : WalletState)
    → contains b (remove a w) ≡ (if bytes_eq a b then false else contains b w)
unfolding contains remove
contains-remove a b [] = ground arith
contains-remove a b (c ∷ w) =
    ground (arith, contains-remove a b w, bytes_eq_iff a b, bytes_eq_iff c a, bytes_eq_iff c b)
