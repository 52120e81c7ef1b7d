-- ===== src/Bitcoin/Wallet/Lifetime.antt =====
-- How often the addresses of `WalletState` in src/bitcoin/mod.rs are paid to, over any sequence of
-- calls of `add` and `check_outputs`.
use keyserver_rust.Prelude.{
  ℕ, suc, ◌+◌, ◌≤◌, ◌<◌, ◌≡◌, refl, ap, ◌∙◌, inl, inr, Bool, true, false, Option, none, some,
  Option-cases, List, [], ◌∷◌, ◌++◌, arith, All, length, ◌==◌, if◌then◌else◌,
}
use keyserver_rust.Prelude.Bytes.{Bytes, bytes_eq, bytes_eq_iff}
use keyserver_rust.Models.{Transaction, TxOut}
use keyserver_rust.Bitcoin.Script.{price, extract_pubkey_hash}
use keyserver_rust.Bitcoin.Wallet.{
  WalletState, contains, add, remove, check_outputs, contains-add, contains-remove,
}
use keyserver_rust.Bitcoin.Wallet.Payments.{Pays, PaysNothing, IsVerdict, check_outputs-IsVerdict}

-- A call on the wallet: an address is issued, or a transaction is offered.
pub data Event : Type 0 where
  issue : Bytes → Event
  pay : Transaction → Event

-- How many transactions are accepted, and the wallet at the end.
unfoldable pub run : List Event → WalletState → ℕ × WalletState
run [] w = (0, w)
run (issue a ∷ es) w = run es (add a w)
run (pay tx ∷ es) w =
    let verdict = check_outputs tx w in
    let rest = run es verdict.1 in ((if verdict.0 then suc rest.0 else rest.0), rest.1)

pub issued : List Event → ℕ
issued [] = 0
issued (issue a ∷ es) = suc (issued es)
issued (pay tx ∷ es) = issued es

length-remove-le : (a : Bytes) (w : WalletState) → length (remove a w) ≤ length w
unfolding remove
length-remove-le a [] = omega arith
length-remove-le a (b ∷ w) = ground (arith, length-remove-le a w)

length-remove-lt :
    (a : Bytes) (w : WalletState) → contains a w ≡ true → length (remove a w) < length w
unfolding contains remove
length-remove-lt a [] h = cc
length-remove-lt a (b ∷ w) h = ground (arith, length-remove-le a w, length-remove-lt a w)

pub length-add-le : (a : Bytes) (w : WalletState) → length (add a w) ≤ suc (length w)
unfolding add
length-add-le a w = ground arith

-- An acceptance costs the wallet an address.
pub verdict_cost :
    (outputs : List TxOut) (w : WalletState) (v : Bool × WalletState)
    → IsVerdict w outputs v
    → (if v.0 then suc (length v.1) else length v.1) ≤ length w
verdict_cost outputs w (true, w') (_, _, _, h, _, _, pays, flushed) =
    omega (arith, length-remove-lt h w pays.2, ap length flushed)
verdict_cost outputs w (false, w') (same, _) = omega (arith, ap length same)

-- The address that an output pays the price to, if it is in the wallet.
unfoldable pub known : Option Bytes → WalletState → Option Bytes
known none w = none
known (some k) w = if contains k w then some k else none

unfoldable pub payee_of : TxOut → WalletState → Option Bytes
unfolding known
payee_of o w = if o.value == price then known (extract_pubkey_hash o.script_pubkey) w else none

-- The address of the first output that pays the price to an address of the wallet.
unfoldable pub payee : List TxOut → WalletState → Option Bytes
unfolding payee_of
payee [] w = none
payee (o ∷ outputs) w =
    let rest = payee outputs w in elim (payee_of o w) [ none ↦ rest | some k ↦ some k ]

abbrev pub cons_payee : Option Bytes → List Bytes → List Bytes
cons_payee none rest = rest
cons_payee (some k) rest = k ∷ rest

-- The addresses that the accepted transactions pay to, one for each.
unfoldable pub payees : List Event → WalletState → List Bytes
payees [] w = []
payees (issue a ∷ es) w = payees es (add a w)
payees (pay tx ∷ es) w =
    let verdict = check_outputs tx w in
    let rest = payees es verdict.1 in
    if verdict.0 then cons_payee (payee tx.output w) rest else rest

abbrev pub count : Bytes → List Bytes → ℕ
count h [] = 0
count h (k ∷ l) = if bytes_eq k h then suc (count h l) else count h l

-- How often an address is issued.
abbrev pub issued_to : Bytes → List Event → ℕ
issued_to h [] = 0
issued_to h (issue a ∷ es) = if bytes_eq a h then suc (issued_to h es) else issued_to h es
issued_to h (pay tx ∷ es) = issued_to h es

-- 1 for an address of the wallet.
abbrev pub has : Bytes → WalletState → ℕ
has h w = if contains h w then 1 else 0

PaysNothing-payee_of : (w : WalletState) (o : TxOut) → PaysNothing w o → payee_of o w ≡ none
unfolding payee_of
PaysNothing-payee_of w o miss = elim (Option-cases (extract_pubkey_hash o.script_pubkey)) [
  | inl bad ↦ ground (arith, bad)
  | inr (k, found) ↦ ground (arith, found, miss k)
]

Pays-payee_of : (w : WalletState) (o : TxOut) (k : Bytes) → Pays w o k → payee_of o w ≡ some k
unfolding payee_of
Pays-payee_of w o k pays = ground (arith, pays.0, pays.1, pays.2)

payee-paid :
    (w : WalletState) (before : List TxOut) (o : TxOut) (after : List TxOut) (k : Bytes)
    → All (PaysNothing w) before
    → Pays w o k
    → payee (before ++ o ∷ after) w ≡ some k
unfolding payee
payee-paid w [] o after k none_before pays = rw (Pays-payee_of w o k pays, payee) refl
payee-paid w (b ∷ before) o after k none_before pays =
    rw (PaysNothing-payee_of w b none_before.0, payee)
      (payee-paid w before o after k none_before.1 pays)

-- What a verdict costs an address.
verdict_count :
    (h : Bytes) (rest : List Bytes) (outputs : List TxOut) (w : WalletState)
    (v : Bool × WalletState)
    → IsVerdict w outputs v
    → count h (if v.0 then cons_payee (payee outputs w) rest else rest) + has h v.1
      ≤ count h rest + has h w
verdict_count h rest outputs w (true, w') (before, o, after, k, split, none_before, pays, flushed) =
    rw (split, payee-paid w before o after k none_before pays, flushed)
      (ground (arith, contains-remove k h w, bytes_eq_iff k h, pays.2))
verdict_count h rest outputs w (false, w') (same, miss) = rw same (omega arith)

verdict_length :
    (rest : List Bytes) (outputs : List TxOut) (w : WalletState) (v : Bool × WalletState)
    → IsVerdict w outputs v
    → length (if v.0 then cons_payee (payee outputs w) rest else rest)
      ≡ (if v.0 then suc (length rest) else length rest)
verdict_length rest outputs w (true, w') (before, o, after, k, split, none_before, pays, flushed) =
    rw (split, payee-paid w before o after k none_before pays) refl
verdict_length rest outputs w (false, w') verdict = refl

payees-count :
    (h : Bytes) (es : List Event) (w : WalletState)
    → count h (payees es w) + has h (run es w).1 ≤ issued_to h es + has h w
unfolding payees run
payees-count h [] w = omega arith
payees-count h (issue a ∷ es) w = ground (arith, payees-count h es (add a w), contains-add a h w)
payees-count h (pay tx ∷ es) w = omega (
  arith,
  payees-count h es (check_outputs tx w).1,
  verdict_count h (payees es (check_outputs tx w).1) tx.output w (check_outputs tx w)
      (check_outputs-IsVerdict tx w),
)

length-payees : (es : List Event) (w : WalletState) → length (payees es w) ≡ (run es w).0
unfolding payees run
length-payees [] w = refl
length-payees (issue a ∷ es) w = length-payees es (add a w)
length-payees (pay tx ∷ es) w =
    verdict_length (payees es (check_outputs tx w).1) tx.output w (check_outputs tx w)
      (check_outputs-IsVerdict tx w)
    ∙ rw (length-payees es (check_outputs tx w).1) refl

length-run :
    (es : List Event) (w : WalletState) → (run es w).0 + length (run es w).1 ≤ issued es + length w
unfolding run issued
length-run [] w = omega arith
length-run (issue a ∷ es) w = omega (arith, length-run es (add a w), length-add-le a w)
length-run (pay tx ∷ es) w = ground (
  arith,
  length-run es (check_outputs tx w).1,
  verdict_cost tx.output w (check_outputs tx w) (check_outputs-IsVerdict tx w),
)

-- However calls of `add` and `check_outputs` follow one another, each call as a whole before the
-- next, each accepted transaction pays to one address, and no address buys more acceptances than it
-- was issued or was there at the start: for every address, the accepted transactions that pay to
-- it, and one more if it is left in the wallet, are no more than the times that it was issued, and
-- one more if it was there at the start. In total too, the acceptances and the addresses that are
-- left are no more than the addresses issued and those that were there.
pub accepted-le-issued :
    (es : List Event) (w : WalletState)
    → (length (payees es w) ≡ (run es w).0)
      × ((h : Bytes) → count h (payees es w) + has h (run es w).1 ≤ issued_to h es + has h w)
      × ((run es w).0 + length (run es w).1 ≤ issued es + length w)
accepted-le-issued es w = (length-payees es w, λ h. payees-count h es w, length-run es w)
