-- ===== src/Net/CheckPayment/Invoices.antt =====
-- How the middleware of src/net/payments.rs answers a PUT without a token.
use keyserver_rust.Prelude.{
  ℕ, ◌≡◌, ◌≢◌, ◌<◌, refl, sym, ap, subst, ◌∙◌, inl, inr, true, none, [], ◌∷◌, ◌++◌, Outcome, done,
  fail, panic, arith, All, ok, Outcome-cases, map_err-eq-done, map_err-eq-panic, try-eq-done,
  done-injective, map_err,
}
use keyserver_rust.Prelude.Bytes.{Bytes, text, is_char_boundary, str_from}
use keyserver_rust.Prelude.Steps.{>>=-eq-done, >>=-ne-panic}
use keyserver_rust.Crates.{Crates, Rpc}
use keyserver_rust.Crates.Laws.{RpcLaws}
use keyserver_rust.Http.{Request, put_method, authorization}
use keyserver_rust.Errors.{ServerError, payment, addr_fetch_failed}
use keyserver_rust.Settings.{Settings}
use keyserver_rust.Bitcoin.Network.{from_addr_network, network_eq, network_eq_iff}
use keyserver_rust.Bitcoin.Wallet.{WalletState, add}
use keyserver_rust.Bitcoin.Client.{get_new_addr, get_new_addr-ne-panic}
use keyserver_rust.Net.Keys.{decode_address}
use keyserver_rust.Net.CheckPayment.{
  Decision, forward, answer, check_network, fresh_address, payment_details, invoice, put_address,
  addresses, invoice_for, issue_invoice, check_authorization, decide_put, decide,
}

module _ (x : Crates) (settings : Settings) where
  -- The addresses of an invoice: the path's, and one that the node gave, of a key on the
  -- configured network.
  pub record AreAddresses (r : Rpc) (req : Request) (put_addr addr : x.Address) : Type 0 where
    pub of_path : put_address x settings req ≡ done put_addr
    pub addr_str : Bytes
    pub given : get_new_addr r ≡ done addr_str
    pub decoded : x.decode addr_str ≡ ok addr
    pub on_network : from_addr_network (x.addr_network addr) ≡ settings.network
    pub of_key : x.is_key_hash addr ≡ true

  check_network_sound :
      (a addr : x.Address)
      → check_network x settings a ≡ done addr
      → (a ≡ addr)
        × (network_eq (from_addr_network (x.addr_network a)) settings.network ≡ true)
        × (x.is_key_hash a ≡ true)
  unfolding check_network
  check_network_sound a addr e = ground arith

  pub addresses_sound :
      (r : Rpc) (req : Request) (both : x.Address × x.Address)
      → addresses x settings r req ≡ done both
      → AreAddresses r req both.0 both.1
  unfolding addresses fresh_address
  addresses_sound r req both e =
      let (put_addr, of_path, e₁) = >>=-eq-done (put_address x settings req) _ e in
      let (addr, fresh, e₂) = >>=-eq-done (fresh_address x settings r) _ e₁ in
      let (name, given, e₃) = >>=-eq-done _ _ fresh in
      let (a, decoded, e₄) = >>=-eq-done (decode_address x name) _ e₃ in
      let (same, network, key) = check_network_sound a addr e₄ in
      subst (λ t. AreAddresses r req t.0 t.1) (done-injective e₂)
        (subst (AreAddresses r req put_addr) same (record {
          of_path = of_path;
          addr_str = name;
          given = map_err-eq-done _ _ given;
          decoded = try-eq-done _ _ decoded;
          on_network = (network_eq_iff _ _).0 network;
          of_key = key;
        }))

  fresh_address-ne-panic : (r : Rpc) → RpcLaws r → fresh_address x settings r ≢ panic
  unfolding fresh_address check_network
  fresh_address-ne-panic r laws =
      >>=-ne-panic (map_err (λ _. payment addr_fetch_failed) (get_new_addr r)) _
        (λ e. get_new_addr-ne-panic r laws (map_err-eq-panic _ _ e))
        λ name _.
          >>=-ne-panic (decode_address x name) (check_network x settings) (ground arith)
            λ a _. ground arith

-- The path of a request that is routed to the key resource: ASCII, and "/keys/" before the name.
pub record IsKeyPath (path : Bytes) : Type 0 where
  pub name : Bytes
  pub shape : path ≡ text "/keys/" ++ name
  pub ascii : All (λ b. b < 128) path

pub keys_boundary :
    (name : Bytes)
    → All (λ b. b < 128) (text "/keys/" ++ name)
    → is_char_boundary (text "/keys/" ++ name) 6 ≡ true
unfolding text is_char_boundary
keys_boundary [] h = refl
keys_boundary (b ∷ name) h = ground arith

module _ (x : Crates) (settings : Settings) where
  put_address-ne-panic : (req : Request) → IsKeyPath req.path → put_address x settings req ≢ panic
  unfolding put_address str_from
  put_address-ne-panic req key e =
      let cut : is_char_boundary req.path 6 ≡ true =
        ap (λ t. is_char_boundary t 6) key.shape
        ∙ keys_boundary key.name (subst (All (λ b. b < 128)) key.shape key.ascii) in
      ground arith

  pub addresses-ne-panic :
      (r : Rpc) (req : Request)
      → RpcLaws r
      → IsKeyPath req.path
      → addresses x settings r req ≢ panic
  unfolding addresses
  addresses-ne-panic r req laws key =
      >>=-ne-panic (put_address x settings req) _ (put_address-ne-panic req key) λ put_addr _.
        >>=-ne-panic (fresh_address x settings r) _ (fresh_address-ne-panic x settings r laws)
          λ addr _. ground arith

  -- How a PUT without a token is answered.
  abbrev pub IsInvoiced :
      Rpc → Request → ℕ → WalletState → Outcome (ServerError x) Decision × WalletState → Type 0
  IsInvoiced r req now w (done (answer resp), w') =
      (put_addr : x.Address) × (addr : x.Address) × AreAddresses x settings r req put_addr addr
      × (resp
          ≡ invoice x settings (payment_details x settings req now (x.body addr) (x.body put_addr)))
      × (w' ≡ add (x.body addr) w)
  IsInvoiced r req now w (done forward, w') = ⊥
  IsInvoiced r req now w (fail e, w') = w' ≡ w
  IsInvoiced r req now w (panic, w') = ⊥

  invoiced :
      (r : Rpc) (req : Request) (now : ℕ) (w : WalletState)
      → RpcLaws r
      → IsKeyPath req.path
      → IsInvoiced r req now w (issue_invoice x settings r req now w)
  unfolding issue_invoice invoice_for
  invoiced r req now w laws key = elim (Outcome-cases (addresses x settings r req)) [
    | inl (both, found) ↦
        rw found (both.0, both.1, addresses_sound x settings r req both found, refl, refl)
    | inr (inl (e, failed)) ↦ rw failed refl
    | inr (inr panicked) ↦ absurd (addresses-ne-panic r req laws key panicked)
  ]

  -- A PUT of a key without an authorization header, whatever its query string, even a token, never
  -- panics and never passes. It is answered
  -- by the invoice for the path's address and a fresh address of the node, on the configured
  -- network and of a key, which is added to the wallet; an error leaves the wallet alone.
  pub decide-IsInvoiced :
      (r : Rpc) (req : Request) (now : ℕ) (w : WalletState)
      → RpcLaws r
      → IsKeyPath req.path
      → req.method ≡ put_method
      → req.header authorization ≡ none
      → IsInvoiced r req now w (decide x settings r req now w)
  unfolding decide decide_put check_authorization
  decide-IsInvoiced r req now w laws key method missing =
      subst (λ m. IsInvoiced r req now w (decide_put x settings r req now m w)) (sym method)
        (subst (λ h. IsInvoiced r req now w (check_authorization x settings r req now h w))
          (sym missing) (invoiced r req now w laws key))
