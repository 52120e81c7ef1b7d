-- ===== src/Bitcoin/Wallet/Interleaving.antt =====
-- `check_p2pkh` of src/bitcoin/mod.rs under concurrent calls: it takes the lock of the wallet once
-- to look for the address and once more to remove it, and other calls may run between the two.
use keyserver_rust.Prelude.{
  ℕ, zero, suc, ◌≡◌, refl, Bool, true, false, not, ◌==◌, Option, none, some, Option-cases, List, [],
  ◌∷◌, ◌++◌, All, inl, inr, arith, if◌then◌else◌, Bool-cases,
}
use keyserver_rust.Prelude.Bytes.{Bytes, bytes_eq, bytes_eq_iff, bytes_eq_refl}
use keyserver_rust.Models.{TxOut}
use keyserver_rust.Bitcoin.Script.{price, extract_pubkey_hash}
use keyserver_rust.Bitcoin.Wallet.{
  WalletState, contains, add, remove, flush, check_p2pkh, contains-add, contains-remove,
}
use keyserver_rust.Bitcoin.Wallet.Payments.{Pays}

-- Where a call stands: before the read lock, between the locks with the hash that it found, or
-- returned.
pub data Call : Type 0 where
  calling : TxOut → Call
  holding accepted : Bytes → Call
  refused : Call

-- The part of a call under the read lock, on the hash of the script.
unfoldable pub look : Option Bytes → WalletState → Call
look none w = refused
look (some pubkey_hash) w = if contains pubkey_hash w then holding pubkey_hash else refused

-- One critical section of a call, with the tests before it.
unfoldable pub advance : Call → WalletState → Call × WalletState
unfolding look
advance (calling output) w = (
  (if not (output.value == price)
      then refused
      else look (extract_pubkey_hash output.script_pubkey) w),
  w,
)
advance (holding pubkey_hash) w = (accepted pubkey_hash, remove pubkey_hash w)
advance (accepted pubkey_hash) w = (accepted pubkey_hash, w)
advance refused w = (refused, w)

-- What a call has returned, if it has.
unfoldable pub verdict : Call → Option Bool
verdict (calling output) = none
verdict (holding pubkey_hash) = none
verdict (accepted pubkey_hash) = some true
verdict refused = some false

-- The call at a position goes on by one critical section.
unfoldable pub advance_at : ℕ → List Call → WalletState → List Call × WalletState
unfolding advance
advance_at i [] w = ([], w)
advance_at zero (c ∷ cs) w = ((advance c w).0 ∷ cs, (advance c w).1)
advance_at (suc i) (c ∷ cs) w = let rest = advance_at i cs w in (c ∷ rest.0, rest.1)

-- What the scheduler lets run: a critical section of a call, or the `add` of an invoice.
pub data Turn : Type 0 where
  turn : ℕ → Turn
  issue : Bytes → Turn

unfoldable pub interleave : List Turn → List Call → WalletState → List Call × WalletState
unfolding advance_at
interleave [] cs w = (cs, w)
interleave (turn i ∷ s) cs w = interleave s (advance_at i cs w).0 (advance_at i cs w).1
interleave (issue a ∷ s) cs w = interleave s cs (add a w)

abbrev pub issues : List Turn → List Bytes
issues [] = []
issues (turn i ∷ s) = issues s
issues (issue a ∷ s) = a ∷ issues s

-- The address that a call has found is one of a list.
abbrev pub IsBacked : List Bytes → Call → Type 0
IsBacked l (calling output) = Unit {0}
IsBacked l (holding h) = contains h l ≡ true
IsBacked l (accepted h) = contains h l ≡ true
IsBacked l refused = Unit {0}

-- The addresses of the first list are among those of the second.
abbrev pub IsWithin : List Bytes → List Bytes → Type 0
IsWithin w l = (h : Bytes) → contains h w ≡ true → contains h l ≡ true

-- A call that no other one disturbs returns the verdict of `check_p2pkh` after its two critical
-- sections, and leaves the wallet that `check_p2pkh` leaves.
pub advance-check_p2pkh :
    (o : TxOut) (w : WalletState)
    → (verdict (advance (advance (calling o) w).0 (advance (calling o) w).1).0
        ≡ some (check_p2pkh o w).0)
      × ((advance (advance (calling o) w).0 (advance (calling o) w).1).1 ≡ (check_p2pkh o w).1)
unfolding verdict advance look check_p2pkh flush
advance-check_p2pkh o w = elim (Option-cases (extract_pubkey_hash o.script_pubkey)) [
  | inl bad ↦ (ground (arith, bad), ground (arith, bad))
  | inr (h, found) ↦ (ground (arith, found), ground (arith, found))
]

look-IsBacked : (l w : List Bytes) (hash : Option Bytes) → IsWithin w l → IsBacked l (look hash w)
unfolding look
look-IsBacked l w none within = tt
look-IsBacked l w (some h) within = elim (Bool-cases (contains h w)) [
  | inl there ↦ rw (there) (within h there)
  | inr absent ↦ rw (absent) tt
]

advance-IsBacked :
    (l w : List Bytes) (c : Call) → IsWithin w l → IsBacked l c → IsBacked l (advance c w).0
unfolding advance
advance-IsBacked l w (calling o) within backed = elim (Bool-cases (o.value == price)) [
  | inl priced ↦ rw (priced) (look-IsBacked l w (extract_pubkey_hash o.script_pubkey) within)
  | inr other ↦ rw (other) tt
]
advance-IsBacked l w (holding h) within backed = backed
advance-IsBacked l w (accepted h) within backed = backed
advance-IsBacked l w refused within backed = tt

advance-IsWithin : (l w : List Bytes) (c : Call) → IsWithin w l → IsWithin (advance c w).1 l
unfolding advance
advance-IsWithin l w (calling o) within = within
advance-IsWithin l w (holding h) within = λ j e. within j (ground (arith, contains-remove h j w))
advance-IsWithin l w (accepted h) within = within
advance-IsWithin l w refused within = within

advance_at-IsBacked :
    (l w : List Bytes) (i : ℕ) (cs : List Call)
    → IsWithin w l
    → All (IsBacked l) cs
    → All (IsBacked l) (advance_at i cs w).0 × IsWithin (advance_at i cs w).1 l
unfolding advance_at
advance_at-IsBacked l w i [] within backed = (tt, within)
advance_at-IsBacked l w zero (c ∷ cs) within backed =
    ((advance-IsBacked l w c within backed.0, backed.1), advance-IsWithin l w c within)
advance_at-IsBacked l w (suc i) (c ∷ cs) within backed =
    let rest = advance_at-IsBacked l w i cs within backed.1 in ((backed.0, rest.0), rest.1)

add-IsWithin :
    (l w : List Bytes) (a : Bytes) → IsWithin w l → contains a l ≡ true → IsWithin (add a w) l
add-IsWithin l w a within known h e = elim (Bool-cases (bytes_eq a h)) [
  | inl same ↦ cc (known, (bytes_eq_iff a h).0 same)
  | inr other ↦ within h (ground (arith, contains-add a h w))
]

contains_head : (a : Bytes) (l : List Bytes) → contains a (a ∷ l) ≡ true
unfolding contains
contains_head a l = ground (arith, bytes_eq_refl a)

contains_tail : (a h : Bytes) (l : List Bytes) → contains h l ≡ true → contains h (a ∷ l) ≡ true
unfolding contains
contains_tail a h l e = ground arith

turns-IsBacked :
    (l : List Bytes) (s : List Turn) (cs : List Call) (w : WalletState)
    → IsWithin w l
    → IsWithin (issues s) l
    → All (IsBacked l) cs
    → All (IsBacked l) (interleave s cs w).0
unfolding interleave
turns-IsBacked l [] cs w within coming backed = backed
turns-IsBacked l (turn i ∷ s) cs w within coming backed =
    let now = advance_at-IsBacked l w i cs within backed in
    turns-IsBacked l s (advance_at i cs w).0 (advance_at i cs w).1 now.1 coming now.0
turns-IsBacked l (issue a ∷ s) cs w within coming backed =
    turns-IsBacked l s cs (add a w)
      (add-IsWithin l w a within (coming a (contains_head a (issues s))))
      (λ h e. coming h (contains_tail a h (issues s) e)) backed

contains_left : (h : Bytes) (l w : List Bytes) → contains h l ≡ true → contains h (l ++ w) ≡ true
unfolding contains
contains_left h [] w e = cc
contains_left h (a ∷ l) w e = ground (arith, contains_left h l w)

contains_right : (h : Bytes) (l w : List Bytes) → contains h w ≡ true → contains h (l ++ w) ≡ true
unfolding contains
contains_right h [] w e = e
contains_right h (a ∷ l) w e = ground (arith, contains_right h l w e)

abbrev pub calls : List TxOut → List Call
calls [] = []
calls (o ∷ outputs) = calling o ∷ calls outputs

calls-IsBacked : (l : List Bytes) (outputs : List TxOut) → All (IsBacked l) (calls outputs)
calls-IsBacked l [] = tt
calls-IsBacked l (o ∷ outputs) = (tt, calls-IsBacked l outputs)

-- However the critical sections of any calls and the `add`s of invoices are interleaved, each call
-- that has accepted a payment has done so for an address that was in the wallet at the start or was
-- issued meanwhile, and so will each call that has found an address.
pub interleave-IsBacked :
    (s : List Turn) (outputs : List TxOut) (w : WalletState)
    → All (IsBacked (issues s ++ w)) (interleave s (calls outputs) w).0
interleave-IsBacked s outputs w =
    turns-IsBacked (issues s ++ w) s (calls outputs) w (λ h e. contains_right h (issues s) w e)
      (λ h e. contains_left h (issues s) w e) (calls-IsBacked (issues s ++ w) outputs)

removed_absent : (h : Bytes) (w : WalletState) → contains h (remove h w) ≡ false
removed_absent h w = ground (arith, contains-remove h h w, bytes_eq_refl h)

-- Two calls whose outputs pay one address of the wallet: one after the other, only the first is
-- accepted; when both look for the address before either removes it, both are accepted.
pub interleave-race :
    (o o' : TxOut) (w : WalletState) (h : Bytes)
    → Pays w o h
    → Pays w o' h
    → ((interleave (turn 0 ∷ turn 0 ∷ turn 1 ∷ turn 1 ∷ []) (calling o ∷ calling o' ∷ []) w).0
        ≡ accepted h ∷ refused ∷ [])
      × ((interleave (turn 0 ∷ turn 1 ∷ turn 0 ∷ turn 1 ∷ []) (calling o ∷ calling o' ∷ []) w).0
          ≡ accepted h ∷ accepted h ∷ [])
unfolding interleave advance_at advance look
interleave-race o o' w h p p' = (
  rw (p.0, p.1, p.2, p'.0, p'.1, removed_absent h w) refl,
  rw (p.0, p.1, p.2, p'.0, p'.1, p.2) refl,
)
