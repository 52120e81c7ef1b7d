-- ===== src/Server/App/Tally.antt =====
-- How many payments the application of src/main.rs accepts, one request at a
-- time: no more than the invoices it answers.
use keyserver_rust.Prelude.{
  ℕ, suc, ◌+◌, ◌≤◌, ◌≡◌, refl, ap, true, false, Bool, Option, none, some, Outcome, done, fail,
  panic, arith, length, Bool-cases, inl, inr, Option-cases, Outcome-cases, if◌then◌else◌,
}
use keyserver_rust.Prelude.Bytes.{Bytes, text, bytes_eq}
use keyserver_rust.Models.{Payment}
use keyserver_rust.Crates.{Crates}
use keyserver_rust.Crates.Laws.{RocksLaws}
use keyserver_rust.Http.{Method, put_method, other_method, authorization}
use keyserver_rust.Settings.{Settings}
use keyserver_rust.Bitcoin.Wallet.{WalletState, check_outputs}
use keyserver_rust.Bitcoin.Wallet.Payments.{check_outputs-IsVerdict}
use keyserver_rust.Bitcoin.Wallet.Lifetime.{verdict_cost, length-add-le}
use keyserver_rust.Net.Payments.{read_payment, complete, after_check, payment_handler}
use keyserver_rust.Net.CheckPayment.{
  forward, answer, addresses, invoice_for, issue_invoice, check_authorization, decide_put, decide,
  follow, call,
}
use keyserver_rust.Server.Routes.{Target, keys, payments, elsewhere, Router, keys_resource}
use keyserver_rust.Server.App.{Exchange, pay_route, serve_at, serve}
use keyserver_rust.Server.App.Steps.{serving, background, Run, start, turn}

-- 1 for a success.
unfoldable pub successes : {E A : Type 0} → Outcome E A → ℕ
successes (done a) = 1
successes (fail e) = 0
successes panic = 0

-- A success for a PUT without an authorization header is an invoice.
unfoldable pub invoice_weight : Method → Option Bytes → ℕ → ℕ
invoice_weight put_method none n = n
invoice_weight put_method (some value) n = 0
invoice_weight (other_method name) header n = 0

-- A success for a POST to the payment endpoint is an accepted payment.
unfoldable pub payment_weight : Method → ℕ → ℕ
payment_weight put_method n = 0
payment_weight (other_method name) n = if bytes_eq name (text "POST") then n else 0

unfoldable pub invoices_of : {E A : Type 0} → Target → Exchange → Outcome E A → ℕ
unfolding successes invoice_weight
invoices_of keys e o =
    invoice_weight e.request.method (e.request.header authorization) (successes o)
invoices_of payments e o = 0
invoices_of elsewhere e o = 0

unfoldable pub payments_of : {E A : Type 0} → Target → Exchange → Outcome E A → ℕ
unfolding successes payment_weight
payments_of keys e o = 0
payments_of payments e o = payment_weight e.request.method (successes o)
payments_of elsewhere e o = 0

successes_le : {E A : Type 0} (o : Outcome E A) → successes o ≤ 1
unfolding successes
successes_le (done a) = omega arith
successes_le (fail e) = omega arith
successes_le panic = omega arith

module _ (x : Crates) (settings : Settings) where
  length-decide_put :
      (m : Method) (e : Exchange) (w : WalletState)
      → length (decide_put x settings e.rpc e.request e.time m w).1
        ≤ invoice_weight m
            (e.request.header authorization)
            (successes (decide_put x settings e.rpc e.request e.time m w).0)
          + length w
  unfolding decide_put check_authorization issue_invoice invoice_for invoice_weight successes
  length-decide_put (other_method name) e w = omega arith
  length-decide_put put_method e w = elim (Option-cases (e.request.header authorization)) [
    | inr (value, has) ↦ rw has (omega arith)
    | inl missing ↦ rw missing (elim (Outcome-cases (addresses x settings e.rpc e.request)) [
      | inl (both, found) ↦ rw found (omega (arith, length-add-le (x.body both.1) w))
      | inr (inl (f, failed)) ↦ rw failed (omega arith)
      | inr (inr panicked) ↦ rw panicked (omega arith)
    ])
  ]

  checked_length :
      (e : Exchange) (p : Payment) (tx_raw : Bytes) (w : WalletState) (v : Bool × WalletState)
      → (if v.0 then suc (length v.1) else length v.1) ≤ length w
      → successes (after_check x settings e.rpc p tx_raw v.0) + length v.1 ≤ length w
  unfolding after_check successes
  checked_length e p tx_raw w (true, w') cost =
      omega (arith, successes_le (complete x settings e.rpc p tx_raw))
  checked_length e p tx_raw w (false, w') cost = omega (arith, cost)

  handled_length :
      (e : Exchange) (w : WalletState)
      → successes (payment_handler x settings e.rpc e.request e.items w).0
          + length (payment_handler x settings e.rpc e.request e.items w).1
        ≤ length w
  unfolding payment_handler successes
  handled_length e w = elim (Outcome-cases (read_payment x e.request e.items)) [
    | inr (inl (f, failed)) ↦ rw failed (omega arith)
    | inr (inr panicked) ↦ rw panicked (omega arith)
    | inl (read, found) ↦
        let cost =
          verdict_cost read.2.output w (check_outputs read.2 w)
            (check_outputs-IsVerdict read.2 w) in
        rw found (checked_length e read.0 read.1 w (check_outputs read.2 w) cost)
  ]

  forwarded_wallet :
      (m : Method) (e : Exchange) (w : WalletState)
      → (decide_put x settings e.rpc e.request e.time m w).0 ≡ done forward
      → (decide_put x settings e.rpc e.request e.time m w).1 ≡ w
  unfolding decide_put check_authorization issue_invoice invoice_for
  forwarded_wallet (other_method name) e w passed = refl
  forwarded_wallet put_method e w passed = elim (Option-cases (e.request.header authorization)) [
    | inr (value, has) ↦ rw has refl
    | inl missing ↦ elim (Outcome-cases (addresses x settings e.rpc e.request)) [
      | inl (both, found) ↦ absurd (cc (rw (missing, found) at passed))
      | inr (inl (f, failed)) ↦ rw (missing, failed) refl
      | inr (inr panicked) ↦ rw (missing, panicked) refl
    ]
  ]

  module _ (router : Router) where
    length-keys :
        (e : Exchange) (w : WalletState) (d : x.Db)
        → length (serve_at x settings router keys e (w, d)).1.0
          ≤ invoices_of keys e (serve_at x settings router keys e (w, d)).0 + length w
    unfolding serve_at keys_resource call follow decide invoices_of successes
    length-keys e w d =
        let bound = length-decide_put e.request.method e w in
        elim (Outcome-cases (decide_put x settings e.rpc e.request e.time e.request.method w).0) [
          | inl (forward, passed) ↦
              rw passed (omega (arith, ap length (forwarded_wallet e.request.method e w passed)))
          | inl (answer resp, answered) ↦ rw answered (rw answered at bound)
          | inr (inl (f, failed)) ↦ rw failed (rw failed at bound)
          | inr (inr panicked) ↦ rw panicked (rw panicked at bound)
        ]

    pay_length :
        (m : Method) (e : Exchange) (w : WalletState) (d : x.Db)
        → payment_weight m (successes (pay_route x settings router m e (w, d)).0)
            + length (pay_route x settings router m e (w, d)).1.0
          ≤ length w
    unfolding pay_route payment_weight
    pay_length put_method e w d = omega arith
    pay_length (other_method name) e w d = elim (Bool-cases (bytes_eq name (text "POST"))) [
      | inl posted ↦ rw posted (handled_length e w)
      | inr missing ↦ rw missing (omega arith)
    ]

    length-serve_at :
        (t : Target) (e : Exchange) (w : WalletState) (d : x.Db)
        → payments_of t e (serve_at x settings router t e (w, d)).0
            + length (serve_at x settings router t e (w, d)).1.0
          ≤ invoices_of t e (serve_at x settings router t e (w, d)).0 + length w
    unfolding payments_of invoices_of
    length-serve_at keys e w d = omega (arith, length-keys e w d)
    length-serve_at payments e w d =
        unfold serve_at in omega (arith, pay_length e.request.method e w d)
    length-serve_at elsewhere e w d = unfold serve_at in omega arith

    module _ (laws : RocksLaws x.rocks) where
      -- The payments that a run accepts, and the invoices that it answers.
      unfoldable pub paid : {a b : WalletState × x.Db} → Run x laws settings router a b → ℕ
      unfolding payments_of
      paid start = 0
      paid (turn {b = m} r (serving e same)) =
          paid r + payments_of (router.target e.request) e (serve x settings router e m).0
      paid (turn r (background same step)) = paid r

      unfoldable pub invoiced : {a b : WalletState × x.Db} → Run x laws settings router a b → ℕ
      unfolding invoices_of
      invoiced start = 0
      invoiced (turn {b = m} r (serving e same)) =
          invoiced r + invoices_of (router.target e.request) e (serve x settings router e m).0
      invoiced (turn r (background same step)) = invoiced r

      -- Over any run of the application that answers its requests one at a time, with whatever
      -- steps in the background between them, the payments that the endpoint accepts and the addresses that still wait for one are together no more than
      -- the invoices that were answered and the addresses that waited at the start.
      pub paid-le-invoiced :
          (a b : WalletState × x.Db) (r : Run x laws settings router a b)
          → paid r + length b.0 ≤ invoiced r + length a.0
      unfolding paid invoiced serve
      paid-le-invoiced a b start = omega arith
      paid-le-invoiced a b (turn {b = m} r (background same step)) =
          omega (arith, paid-le-invoiced a m r, ap length same)
      paid-le-invoiced a b (turn {b = m} r (serving e same)) = omega (
        arith,
        paid-le-invoiced a m r,
        length-serve_at (router.target e.request) e m.0 m.1,
        ap (λ (s : WalletState × x.Db). length s.0) same,
      )
