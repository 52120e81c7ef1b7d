-- ===== src/Net/CheckPayment/Totality.antt =====
-- The middleware of src/net/payments.rs does not panic: its slices of the header and of the path
-- stand at boundaries of characters.
use keyserver_rust.Prelude.{
  ℕ, zero, suc, ◌≤◌, ◌<◌, ◌≡◌, ◌≢◌, sym, subst, inl, inr, true, [], ◌∷◌, panic, arith, Bool-cases,
  Option-cases, Outcome-cases, All, length, get_or, leb, ok_or, ok_or-eq-done,
}
use keyserver_rust.Prelude.Bytes.{Bytes, str_from, str_to, is_char_boundary}
use keyserver_rust.Prelude.Steps.{>>=-ne-panic}
use keyserver_rust.Crates.{Crates, Rpc}
use keyserver_rust.Crates.Laws.{WebLaws, RpcLaws}
use keyserver_rust.Http.{Request, Method, put_method, other_method, authorization}
use keyserver_rust.Errors.{payment, invalid_auth}
use keyserver_rust.Settings.{Settings}
use keyserver_rust.Bitcoin.Wallet.{WalletState}
use keyserver_rust.Net.CheckPayment.{
  cut_pop, token_string, check_token, authorize, addresses, issue_invoice, check_authorization,
  decide_put, decide,
}
use keyserver_rust.Net.CheckPayment.Invoices.{IsKeyPath, addresses-ne-panic}

get_or_small : (s : Bytes) (i : ℕ) → All (λ b. b < 128) s → get_or s i 0 < 128
get_or_small [] i h = omega arith
get_or_small (b ∷ s) zero h = h.0
get_or_small (b ∷ s) (suc i) h = get_or_small s i h.1

-- Every place of an ASCII string is between characters.
ascii_boundary :
    (s : Bytes) (i : ℕ) → All (λ b. b < 128) s → i ≤ length s → is_char_boundary s i ≡ true
unfolding is_char_boundary
ascii_boundary s i h le = ground (arith, get_or_small s i h)

module _ (x : Crates) where
  cut_pop-ne-panic : (a : Bytes) → All (λ b. b < 128) a → cut_pop x a ≢ panic
  unfolding cut_pop str_to str_from
  cut_pop-ne-panic a ascii = elim (Bool-cases (leb 4 (length a))) [
    | inr short ↦ rw short (λ e. cc)
    | inl long ↦
        let cut : is_char_boundary a 4 ≡ true = ascii_boundary a 4 ascii (ground arith) in
        λ e. ground arith
  ]

  token_string-ne-panic : WebLaws x.web → (value : Bytes) → token_string x value ≢ panic
  unfolding token_string
  token_string-ne-panic web value =
      >>=-ne-panic (ok_or (payment invalid_auth) (x.to_str value)) (cut_pop x) (ground arith)
        λ a read.
          let (same, ascii) = web.ascii_to_str value a (ok_or-eq-done _ (x.to_str value) read) in
          cut_pop-ne-panic a (subst (All (λ b. b < 128)) (sym same) ascii)

module _ (x : Crates) (settings : Settings) where
  authorize-ne-panic :
      WebLaws x.web → (req : Request) (value : Bytes) → authorize x settings req value ≢ panic
  unfolding authorize check_token
  authorize-ne-panic web req value =
      >>=-ne-panic (token_string x value) _ (token_string-ne-panic x web value) λ t _.
        elim (Option-cases (x.base64_decode t)) [
          | inl bad ↦ rw (bad, check_token) (λ e. cc)
          | inr (token, decoded) ↦ rw (decoded, check_token) (λ e. cc)
        ]

  issue_invoice-ne-panic :
      (r : Rpc) (req : Request) (now : ℕ) (w : WalletState)
      → RpcLaws r
      → IsKeyPath req.path
      → (issue_invoice x settings r req now w).0 ≢ panic
  unfolding issue_invoice
  issue_invoice-ne-panic r req now w laws key = elim (Outcome-cases (addresses x settings r req)) [
    | inl (both, found) ↦ rw found (λ e. cc)
    | inr (inl (f, failed)) ↦ rw failed (λ e. cc)
    | inr (inr panicked) ↦ absurd (addresses-ne-panic x settings r req laws key panicked)
  ]

  decide_put-ne-panic :
      (web : WebLaws x.web) (r : Rpc) (req : Request) (now : ℕ) (w : WalletState) (m : Method)
      → RpcLaws r
      → IsKeyPath req.path
      → (decide_put x settings r req now m w).0 ≢ panic
  unfolding decide_put check_authorization
  decide_put-ne-panic web r req now w (other_method name) laws key = λ e. cc
  decide_put-ne-panic web r req now w put_method laws key =
      elim (Option-cases (req.header authorization)) [
        | inl missing ↦ rw missing (issue_invoice-ne-panic r req now w laws key)
        | inr (value, has) ↦ rw has (authorize-ne-panic web req value)
      ]

  -- The middleware does not panic on a request that is routed to the keys.
  pub decide-ne-panic :
      (web : WebLaws x.web) (r : Rpc) (req : Request) (now : ℕ) (w : WalletState)
      → RpcLaws r
      → IsKeyPath req.path
      → (decide x settings r req now w).0 ≢ panic
  unfolding decide
  decide-ne-panic web r req now w = decide_put-ne-panic web r req now w req.method
