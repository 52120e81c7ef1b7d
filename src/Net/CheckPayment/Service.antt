-- ===== src/Net/CheckPayment/Service.antt =====
-- What the middleware of src/net/payments.rs does to the service that it stands before.
use keyserver_rust.Prelude.{
  ◌≡◌, ◌≢◌, ℕ, refl, ◌⊎◌, inl, inr, Outcome, done, fail, panic, Option-cases,
}
use keyserver_rust.Prelude.Exec.{Exec, continue}
use keyserver_rust.Crates.{Crates, Rpc}
use keyserver_rust.Crates.Laws.{SubtleLaws, WebLaws}
use keyserver_rust.Http.{Request, Response, Method, put_method, other_method, authorization}
use keyserver_rust.Errors.{ServerError}
use keyserver_rust.Settings.{Settings}
use keyserver_rust.Bitcoin.Wallet.{WalletState}
use keyserver_rust.Net.CheckPayment.{
  Decision, forward, answer, check_authorization, decide_put, decide, follow, call,
}
use keyserver_rust.Net.CheckPayment.Tokens.{IsPaid, decide-forward_iff, invoice-ne-forward}

module _ (x : Crates) (settings : Settings) (subtle : SubtleLaws x.subtle)
    (web : WebLaws x.web) where
  decide_put_wallet :
      (r : Rpc) (req : Request) (now : ℕ) (w : WalletState) (method : Method)
      → (decide_put x settings r req now method w).0 ≡ done forward
      → (decide_put x settings r req now method w).1 ≡ w
  unfolding decide_put check_authorization
  decide_put_wallet r req now w (other_method name) e = refl
  decide_put_wallet r req now w put_method e = elim (Option-cases (req.header authorization)) [
    | inl missing ↦ absurd (
        invoice-ne-forward x settings subtle web r req now w
          (rw (missing, check_authorization) at e))
    | inr (value, has) ↦ rw (has, check_authorization)
  ]

  module _ {S : Type 0} (service : Request → Exec S (ServerError x) Response) where
    -- A request that is no PUT, or a PUT that is paid for, is answered by the inner service, and the
    -- wallet stays as it was.
    pub call-passes :
        (r : Rpc) (req : Request) (now : ℕ) (w : WalletState) (s : S)
        → (req.method ≢ put_method) ⊎ IsPaid x settings req
        → call x settings service r req now (w, s) ≡ ((service req s).0, (w, (service req s).1))
    unfolding call follow decide
    call-passes r req now w s passes =
        let forwarded : (decide x settings r req now w).0 ≡ done forward =
          (decide-forward_iff x settings subtle web r req now w).1 passes in
        let same : (decide x settings r req now w).1 ≡ w =
          decide_put_wallet r req now w req.method forwarded in
        rw (forwarded, same)

    stopped :
        (req : Request) (w : WalletState) (s : S) (o : Outcome (ServerError x) Decision)
        → o ≢ done forward
        → (continue o (follow x settings service req) (w, s)).1.1 ≡ s
    unfolding follow
    stopped req w s (done forward) stop = absurd (stop refl)
    stopped req w s (done (answer resp)) stop = refl
    stopped req w s (fail e) stop = refl
    stopped req w s panic stop = refl

    -- A PUT that is not paid for leaves the state of the inner service alone.
    pub call-stops :
        (r : Rpc) (req : Request) (now : ℕ) (w : WalletState) (s : S)
        → req.method ≡ put_method
        → ¬ IsPaid x settings req
        → (call x settings service r req now (w, s)).1.1 ≡ s
    unfolding call
    call-stops r req now w s method unpaid =
        stopped req (decide x settings r req now w).1 s (decide x settings r req now w).0 λ e.
          elim ((decide-forward_iff x settings subtle web r req now w).0 e) [
            | inl other ↦ other method
            | inr paid ↦ unpaid paid
          ]
