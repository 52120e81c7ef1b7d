-- ===== src/Bitcoin/Wallet/Replay.antt =====
-- A payment that is offered twice to `check_outputs` of src/bitcoin/mod.rs.
use keyserver_rust.Prelude.{
  ◌≡◌, refl, subst, Bool, true, false, some, List, [], ◌∷◌, ◌++◌, arith, All,
}
use keyserver_rust.Prelude.Bytes.{Bytes, bytes_eq_refl}
use keyserver_rust.Models.{Transaction, TxOut}
use keyserver_rust.Bitcoin.Script.{price, extract_pubkey_hash}
use keyserver_rust.Bitcoin.Wallet.{WalletState, contains, check_outputs, contains-remove}
use keyserver_rust.Bitcoin.Wallet.Payments.{Pays, IsVerdict, check_outputs-IsVerdict}

-- Every output of the price pays to one address, if to any.
abbrev pub PaysOnly : Bytes → List TxOut → Type 0
PaysOnly h outputs =
    All (λ o. (k : Bytes) → o.value ≡ price → extract_pubkey_hash o.script_pubkey ≡ some k → k ≡ h)
      outputs

PaysOnly-at :
    (h : Bytes) (w : WalletState) (before : List TxOut) (o : TxOut) (after : List TxOut) (k : Bytes)
    → PaysOnly h (before ++ o ∷ after)
    → Pays w o k
    → k ≡ h
PaysOnly-at h w [] o after k only p = only.0 k p.0 p.1
PaysOnly-at h w (x ∷ before) o after k only p = PaysOnly-at h w before o after k only.1 p

refused_without :
    (h : Bytes) (w : WalletState) (outputs : List TxOut) (v : Bool × WalletState)
    → PaysOnly h outputs
    → contains h w ≡ false
    → IsVerdict w outputs v
    → v.0 ≡ false
refused_without h w outputs (true, w') only gone (before, o, after, k, split, _, pays, _) =
    let same : k ≡ h = PaysOnly-at h w before o after k (subst (PaysOnly h) split only) pays in
    absurd (cc (pays.2, same, gone))
refused_without h w outputs (false, w') only gone verdict = refl

flushed_after :
    (h : Bytes) (w : WalletState) (outputs : List TxOut) (v : Bool × WalletState)
    → PaysOnly h outputs
    → v.0 ≡ true
    → IsVerdict w outputs v
    → contains h v.1 ≡ false
flushed_after h w outputs (true, w') only hit (before, o, after, k, split, _, pays, flushed) =
    let same : k ≡ h = PaysOnly-at h w before o after k (subst (PaysOnly h) split only) pays in
    ground (arith, contains-remove k h w, bytes_eq_refl h)
flushed_after h w outputs (false, w') only hit verdict = cc

-- A transaction all of whose priced outputs pay to one address is accepted once: offered again to
-- the wallet that its acceptance leaves, it is refused.
check_outputs-replay :
    (h : Bytes) (tx : Transaction) (w : WalletState)
    → PaysOnly h tx.output
    → (check_outputs tx w).0 ≡ true
    → (check_outputs tx (check_outputs tx w).1).0 ≡ false
check_outputs-replay h tx w only hit =
    refused_without h (check_outputs tx w).1 tx.output (check_outputs tx (check_outputs tx w).1)
      only
      (flushed_after h w tx.output (check_outputs tx w) only hit (check_outputs-IsVerdict tx w))
      (check_outputs-IsVerdict tx (check_outputs tx w).1)
