-- ===== src/Bitcoin/Wallet/Payments.antt =====
-- When `check_outputs` of src/bitcoin/mod.rs accepts a transaction, and what it does to the wallet.
use keyserver_rust.Prelude.{
  ◌≡◌, refl, ap, subst, Bool, true, false, some, List, [], ◌∷◌, ◌++◌, arith, Bool-cases,
  Option-cases, All, inl, inr,
}
use keyserver_rust.Prelude.Bytes.{Bytes}
use keyserver_rust.Models.{Transaction, TxOut}
use keyserver_rust.Bitcoin.Script.{price, extract_pubkey_hash}
use keyserver_rust.Bitcoin.Wallet.{
  WalletState, contains, remove, check_p2pkh, any_output, check_outputs,
}

-- An output pays the price to an address of the wallet.
abbrev pub Pays : WalletState → TxOut → Bytes → Type 0
Pays w o h =
    (o.value ≡ price) × (extract_pubkey_hash o.script_pubkey ≡ some h) × (contains h w ≡ true)

abbrev pub PaysNothing : WalletState → TxOut → Type 0
PaysNothing w o = (h : Bytes) → ¬ Pays w o h

-- What a verdict on a list of outputs and the wallet after it say of the wallet before.
abbrev pub IsVerdict : WalletState → List TxOut → Bool × WalletState → Type 0
IsVerdict w outputs (true, w') =
    (before : List TxOut) × (o : TxOut) × (after : List TxOut) × (h : Bytes) × (outputs
      ≡ before ++ o ∷ after)
    × All (PaysNothing w) before
    × Pays w o h
    × (w' ≡ remove h w)
IsVerdict w outputs (false, w') = (w' ≡ w) × All (PaysNothing w) outputs

check_p2pkh_hit :
    (o : TxOut) (w : WalletState)
    → (check_p2pkh o w).0 ≡ true
    → (h : Bytes) × Pays w o h × ((check_p2pkh o w).1 ≡ remove h w)
unfolding check_p2pkh
check_p2pkh_hit o w e = elim (Option-cases (extract_pubkey_hash o.script_pubkey)) [
  | inl missing ↦ absurd (ground arith)
  | inr (h, found) ↦ (h, (ground arith, found, ground arith), ground arith)
]

pub check_p2pkh_miss :
    (o : TxOut) (w : WalletState)
    → (check_p2pkh o w).0 ≡ false
    → ((check_p2pkh o w).1 ≡ w) × PaysNothing w o
unfolding check_p2pkh
check_p2pkh_miss o w e = (ground arith, λ h p. ground arith)

IsVerdict-cons :
    (o : TxOut) (os : List TxOut) (w : WalletState) (v : Bool × WalletState)
    → PaysNothing w o
    → IsVerdict w os v
    → IsVerdict w (o ∷ os) v
IsVerdict-cons o os w (true, w') miss (before, p, after, h, split, none_before, pays, flushed) =
    (o ∷ before, p, after, h, ap (λ t. o ∷ t) split, (miss, none_before), pays, flushed)
IsVerdict-cons o os w (false, w') miss (same, all) = (same, (miss, all))

any_output-IsVerdict :
    (outputs : List TxOut) (w : WalletState) → IsVerdict w outputs (any_output outputs w)
unfolding any_output
any_output-IsVerdict [] w = (refl, tt)
any_output-IsVerdict (o ∷ os) w = elim (Bool-cases (check_p2pkh o w).0) [
  | inl hit ↦
      let (h, pays, flushed) = check_p2pkh_hit o w hit in
      rw hit ([], o, os, h, refl, tt, pays, flushed)
  | inr missed ↦
      let (same, miss) = check_p2pkh_miss o w missed in
      rw (missed, same) (IsVerdict-cons o os w _ miss (any_output-IsVerdict os w))
]

-- An accepted transaction has a first output that pays the price to an address of the wallet, and
-- that address alone is taken out; a refused one has no such output, and the wallet stays as it was.
pub check_outputs-IsVerdict :
    (tx : Transaction) (w : WalletState) → IsVerdict w tx.output (check_outputs tx w)
unfolding check_outputs
check_outputs-IsVerdict tx w = any_output-IsVerdict tx.output w

PaysNothing-at :
    (w : WalletState) (before : List TxOut) (o : TxOut) (after : List TxOut)
    → All (PaysNothing w) (before ++ o ∷ after)
    → PaysNothing w o
PaysNothing-at w [] o after all = all.0
PaysNothing-at w (b ∷ before) o after all = PaysNothing-at w before o after all.1

accepted_if_paid :
    (w : WalletState) (outputs before : List TxOut) (o : TxOut) (after : List TxOut) (h : Bytes)
    (v : Bool × WalletState)
    → outputs ≡ before ++ o ∷ after
    → Pays w o h
    → IsVerdict w outputs v
    → v.0 ≡ true
accepted_if_paid w outputs before o after h (true, w') split pays verdict = refl
accepted_if_paid w outputs before o after h (false, w') split pays (same, all) =
    absurd (PaysNothing-at w before o after (subst (All (PaysNothing w)) split all) h pays)

-- A transaction with an output that pays the price to an address of the wallet is accepted.
pub check_outputs-paid :
    (tx : Transaction) (w : WalletState) (before : List TxOut) (o : TxOut) (after : List TxOut)
    (h : Bytes)
    → tx.output ≡ before ++ o ∷ after
    → Pays w o h
    → (check_outputs tx w).0 ≡ true
check_outputs-paid tx w before o after h split pays =
    accepted_if_paid w tx.output before o after h (check_outputs tx w) split pays
      (check_outputs-IsVerdict tx w)
