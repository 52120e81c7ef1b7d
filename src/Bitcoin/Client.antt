-- ===== src/Bitcoin/Client.antt =====
-- `BitcoinClient` of src/bitcoin/client.rs: the calls to the node. What the node answers to a
-- request is the argument `r`.
use keyserver_rust.Prelude.{
  ◌≢◌, [], ◌∷◌, Outcome, fail, panic, try, ok_or, unwrap, arith, if◌then◌else◌, inl, inr,
  Bool-cases,
}
use keyserver_rust.Prelude.Bytes.{Bytes, text}
use keyserver_rust.Prelude.Steps.{◌>>=◌, >>=-ne-panic}
use keyserver_rust.Crates.{Crates, Rpc, RpcRequest}
use keyserver_rust.Crates.Laws.{RpcLaws}

pub data BitcoinError (r : Rpc) : Type 0 where
  http : r.HttpError → BitcoinError r
  rpc : r.RpcError → BitcoinError r
  json : r.JsonError → BitcoinError r
  empty_response : BitcoinError r

module _ (r : Rpc) where
  -- What both calls do with the response.
  unfoldable pub read_response : r.RpcResponse → Outcome (BitcoinError r) Bytes
  read_response response =
      if r.is_error response
      then (unwrap (r.error response) >>= λ e. fail (rpc e))
      else (ok_or empty_response (r.into_result response) >>= λ result. try json result)

  unfoldable pub call : RpcRequest → Outcome (BitcoinError r) Bytes
  unfolding read_response
  call request = try http (r.send_request request) >>= read_response

  unfoldable pub get_new_addr : Outcome (BitcoinError r) Bytes
  unfolding call
  get_new_addr = call (record { method = text "getnewaddress"; params = [] })

  unfoldable pub send_tx : Crates → Bytes → Outcome (BitcoinError r) Bytes
  unfolding call
  send_tx x raw_tx =
      call (record { method = text "sendrawtransaction"; params = x.hex_encode raw_tx ∷ [] })

  call-ne-panic : RpcLaws r → (request : RpcRequest) → call request ≢ panic
  unfolding call
  call-ne-panic laws request =
      >>=-ne-panic (try http (r.send_request request)) read_response (ground arith) λ a _.
        elim (Bool-cases (r.is_error a)) [
          | inl bad ↦ let (e, has) = laws.error_of_is_error a bad in ground (arith, has)
          | inr good ↦ ground arith
        ]

  -- The calls do not panic.
  pub get_new_addr-ne-panic : RpcLaws r → get_new_addr ≢ panic
  unfolding get_new_addr
  get_new_addr-ne-panic laws =
      call-ne-panic laws (record { method = text "getnewaddress"; params = [] })

  pub send_tx-ne-panic : RpcLaws r → (x : Crates) (raw_tx : Bytes) → send_tx x raw_tx ≢ panic
  unfolding send_tx
  send_tx-ne-panic laws x raw_tx =
      call-ne-panic laws
        (record { method = text "sendrawtransaction"; params = x.hex_encode raw_tx ∷ [] })
