-- ===== src/Server/Routes.antt =====
-- The resource `/keys/{addr}` of src/main.rs: the middleware around the two handlers of keys. What
-- the router takes for `{addr}` and its answer to a method without a route are parameters.
use keyserver_rust.Prelude.{
  ℕ, ◌≡◌, ◌≢◌, refl, ap, sym, subst, ◌⊎◌, inl, inr, Option, List, Bool-cases, if◌then◌else◌,
}
use keyserver_rust.Prelude.Bytes.{Bytes, text, bytes_eq}
use keyserver_rust.Prelude.Exec.{Exec, pure}
use keyserver_rust.Crates.{Crates, Rpc}
use keyserver_rust.Crates.Laws.{RocksLaws, SubtleLaws, WebLaws, DigestLaws}
use keyserver_rust.Http.{Request, Response, Method, put_method, other_method}
use keyserver_rust.Errors.{ServerError}
use keyserver_rust.Settings.{Settings}
use keyserver_rust.Bitcoin.Wallet.{WalletState}
use keyserver_rust.Db.Contents.{IsWellFormed}
use keyserver_rust.Db.Timestamps.{IsKept}
use keyserver_rust.Net.Keys.{get_key, put_key}
use keyserver_rust.Net.Keys.Reads.{IsGetKey-IsKept, get_key-IsGetKey}
use keyserver_rust.Net.Keys.Writes.{IsPutKey, put_key-IsPutKey}
use keyserver_rust.Net.CheckPayment.{call}
use keyserver_rust.Net.CheckPayment.Tokens.{IsPaid}
use keyserver_rust.Net.CheckPayment.Service.{call-passes, call-stops}

-- Where a request goes by its path.
pub data Target : Type 0 where
  keys payments elsewhere : Target

-- What the web framework does with a request.
pub record Router : Type 0 where
  pub target : Request → Target
  -- The extractor `Path<String>`
  pub addr : Request → Bytes
  -- The answer where no route of a resource has the method
  pub no_route : Response
  -- `actix_files::Files`
  pub static_file : Request → Response

module _ (x : Crates) (router : Router) where
  -- The two routes; the body comes as its chunks, and the clock is read twice at most.
  unfoldable pub route :
      Method → Request → List (Option Bytes) → ℕ → ℕ → Exec x.Db (ServerError x) Response
  route put_method req items now later = put_key x (router.addr req) items now later
  route (other_method name) req items now later =
      if bytes_eq name (text "GET") then get_key x (router.addr req) now else pure router.no_route

  abbrev pub handlers : List (Option Bytes) → ℕ → ℕ → Request → Exec x.Db (ServerError x) Response
  handlers items now later req = route req.method req items now later

  -- The resource, behind the middleware, which reads the clock for itself.
  unfoldable pub keys_resource :
      Settings
      → Rpc
      → Request
      → ℕ
      → List (Option Bytes)
      → ℕ
      → ℕ
      → Exec (WalletState × x.Db) (ServerError x) Response
  unfolding route
  keys_resource settings r req time items now later =
      call x settings (handlers items now later) r req time

  module _ (laws : RocksLaws x.rocks) where
    route-IsKept :
        (method : Method) (req : Request) (items : List (Option Bytes)) (now later : ℕ) (d : x.Db)
        → IsWellFormed x laws d
        → method ≢ put_method
        → IsKept x laws d now (route method req items now later d).1
    unfolding route
    route-IsKept put_method req items now later d wf other = absurd (other refl)
    route-IsKept (other_method name) req items now later d wf other =
        elim (Bool-cases (bytes_eq name (text "GET"))) [
          | inl got ↦ rw (got) (
              IsGetKey-IsKept x laws d (router.addr req) now (get_key x (router.addr req) now d)
                (get_key-IsGetKey x laws d (router.addr req) now wf))
          | inr missing ↦ rw (missing) (λ j. inl refl)
        ]

    put_or_not : (m : Method) → (m ≡ put_method) ⊎ (m ≢ put_method)
    put_or_not put_method = inl refl
    put_or_not (other_method name) = inr (λ e. cc)

    -- A request for a key that is not a PUT with the token of its URL in its authorization header,
    -- whatever else it is, a PUT with the token in its query string included, leaves a well-formed
    -- database as it is, but that values that have expired may be gone.
    pub keys_resource-IsKept :
        (settings : Settings) (subtle : SubtleLaws x.subtle) (web : WebLaws x.web) (r : Rpc)
        (req : Request) (time : ℕ) (items : List (Option Bytes)) (now later : ℕ) (w : WalletState)
        (d : x.Db)
        → IsWellFormed x laws d
        → (req.method ≡ put_method → ¬ IsPaid x settings req)
        → IsKept x laws d now (keys_resource settings r req time items now later (w, d)).1.1
    unfolding keys_resource
    keys_resource-IsKept settings subtle web r req time items now later w d wf unpaid =
        elim (put_or_not req.method) [
          | inl putting ↦
              subst (IsKept x laws d now)
                (sym (
                  call-stops x settings subtle web (handlers items now later) r req time w d putting
                    (unpaid putting)))
                (λ j. inl refl)
          | inr other ↦
              subst (IsKept x laws d now)
                (sym (
                  ap (λ e. e.1.1)
                    (call-passes x settings subtle web (handlers items now later) r req time w d
                      (inl other))))
                (route-IsKept req.method req items now later d wf other)
        ]

    routed-IsPutKey :
        (digests : DigestLaws x.hashes x.secp) (method : Method) (req : Request)
        (items : List (Option Bytes)) (now later : ℕ) (d : x.Db)
        → IsWellFormed x laws d
        → method ≡ put_method
        → IsPutKey x laws d
            (router.addr req)
            items
            now
            later
            ((route method req items now later d).0, (route method req items now later d).1)
    unfolding route
    routed-IsPutKey digests put_method req items now later d wf putting =
        put_key-IsPutKey x laws digests d (router.addr req) items now later wf
    routed-IsPutKey digests (other_method name) req items now later d wf putting = cc

    -- A PUT of a key with the token of its URL does on a well-formed database what `put_key` does:
    -- it stores authentic metadata that may follow the live one, or it fails and every key keeps
    -- its value, but for values that have expired; it does not panic. The wallet stays as it was.
    keys_resource-IsPutKey :
        (settings : Settings) (subtle : SubtleLaws x.subtle) (web : WebLaws x.web)
        (digests : DigestLaws x.hashes x.secp) (r : Rpc) (req : Request) (time : ℕ)
        (items : List (Option Bytes)) (now later : ℕ) (w : WalletState) (d : x.Db)
        → IsWellFormed x laws d
        → req.method ≡ put_method
        → IsPaid x settings req
        → IsPutKey x laws d (router.addr req) items now later (
          (keys_resource settings r req time items now later (w, d)).0,
          (keys_resource settings r req time items now later (w, d)).1.1,
        )
          × ((keys_resource settings r req time items now later (w, d)).1.0 ≡ w)
    unfolding keys_resource
    keys_resource-IsPutKey settings subtle web digests r req time items now later w d wf putting
          paid =
        rw (call-passes x settings subtle web (handlers items now later) r req time w d (inr paid))
          (routed-IsPutKey digests req.method req items now later d wf putting, refl)
