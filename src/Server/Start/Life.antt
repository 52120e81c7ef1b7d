-- ===== src/Server/Start/Life.antt =====
-- A server that `main` of src/main.rs has started: the steps of its requests and of the polls of
-- its background task come in any order, and its database compacts between them.
use keyserver_rust.Prelude.{ℕ, ok, ◌≡◌, ◌≢◌, true, Option, some, List, [], ◌∷◌, done, panic}
use keyserver_rust.Prelude.Bytes.{Bytes}
use keyserver_rust.Models.{Payload, AddressMetadata}
use keyserver_rust.Crates.{Crates, PeerNet}
use keyserver_rust.Crates.Laws.{RocksLaws, RpcLaws}
use keyserver_rust.Crates.System.{System}
use keyserver_rust.Bitcoin.Wallet.{WalletState, contains}
use keyserver_rust.Bitcoin.Client.{get_new_addr}
use keyserver_rust.Bitcoin.Network.{from_addr_network}
use keyserver_rust.Bitcoin.Wallet.Interleaving.{Call, calling, holding, accepted, refused}
use keyserver_rust.Db.Compaction.{IsCompacted}
use keyserver_rust.Net.CheckPayment.Invoices.{IsKeyPath}
use keyserver_rust.Server.Concurrent.{store_calls}
use keyserver_rust.Server.Concurrent.Safe.{IsSafe}
use keyserver_rust.Server.Routes.{keys, Router}
use keyserver_rust.Server.App.{Exchange}
use keyserver_rust.Server.Start.{Server}
use keyserver_rust.Server.Start.Pulls.{pulled}
use keyserver_rust.Server.Start.Workers.{Task, arrived, handling, paying, over, storing, step_at}

module _ (x : Crates) (Subscription : Type 0) (sys : System x Subscription)
    (laws : RocksLaws x.rocks) (router : Router) where
  -- An address that the node gave to the server's client: of a key, on the configured network.
  pub record IsGiven (s : Server x Subscription sys) (h : Bytes) : Type 0 where
    pub turn : ℕ
    pub addr_str : Bytes
    pub addr : x.Address
    pub given : get_new_addr (sys.node s.bitcoin_client turn) ≡ done addr_str
    pub decoded : x.decode addr_str ≡ ok addr
    pub on_network : from_addr_network (x.addr_network addr) ≡ s.settings.network
    pub of_key : x.is_key_hash addr ≡ true
    pub body : h ≡ x.body addr

  abbrev pub AreGiven : Server x Subscription sys → WalletState → Type 0
  AreGiven s w = (h : Bytes) → contains h w ≡ true → IsGiven s h

  -- A request meets the node as the server's client does, and the paths that are routed to the keys
  -- are ASCII and begin with "/keys/".
  abbrev pub IsServed : Server x Subscription sys → Exchange → Type 1
  IsServed s e =
      ((i : ℕ) × (e.rpc ≡ sys.node s.bitcoin_client i))
      × (router.target e.request ≡ keys → IsKeyPath e.request.path)

  -- The requests, and the polls that have come to the database, that have begun on a server, and
  -- its wallet and database, after any steps of theirs.
  pub data Life (s : Server x Subscription sys) : List (Task x) → WalletState × x.Db → Type 1 where
    started : Life s [] (s.wallet_state, s.key_db)
    arrives :
        {ts : List (Task x)} {a : WalletState × x.Db}
        → Life s ts a
        → (e : Exchange) → IsServed s e
        → Life s (arrived e ∷ ts) a
    polls :
        {ts : List (Task x)} {a : WalletState × x.Db}
        → Life s ts a
        → (n : PeerNet) (item : Option (Bytes × x.Address)) (addr : x.Address) (m : AddressMetadata)
          (p : Payload) (now later : ℕ)
        → pulled x n item ≡ some (addr, m, p)
        → Life s (storing (store_calls x addr m p now later) ∷ ts) a
    goes_on :
        {ts : List (Task x)} {a : WalletState × x.Db}
        → Life s ts a
        → (i : ℕ)
        → Life s
            (step_at x Subscription sys s.settings router i ts a).0
            (step_at x Subscription sys s.settings router i ts a).1
    compacted :
        {ts : List (Task x)} {w : WalletState} {d d' : x.Db}
        → Life s ts (w, d)
        → (t : ℕ) → IsCompacted x laws d d' t
        → Life s ts (w, d')

  -- The addresses that the node gives a request are those that it gives the client, and its error
  -- responses carry an error.
  abbrev pub IsOurs : Server x Subscription sys → Exchange → Type 0
  IsOurs s e =
      RpcLaws e.rpc
      × ((a : Bytes)
          → get_new_addr e.rpc ≡ done a
          → (i : ℕ) × (get_new_addr (sys.node s.bitcoin_client i) ≡ done a))

  -- The address that a call has found.
  abbrev pub IsFound : Server x Subscription sys → Call → Type 0
  IsFound s (calling o) = Unit {0}
  IsFound s (holding h) = IsGiven s h
  IsFound s (accepted h) = IsGiven s h
  IsFound s refused = Unit {0}

  -- A request that is over has not panicked, and what is left of another will not on sound answers
  -- of the database, nor write what is not sound; a payment that has found or taken its address has
  -- one that the node gave.
  unfoldable pub IsCalm : Server x Subscription sys → Task x → Type 0
  IsCalm s (arrived e) = IsOurs s e × (router.target e.request ≡ keys → IsKeyPath e.request.path)
  IsCalm s (handling e h) = IsSafe x laws h
  IsCalm s (paying e p tx_raw c outputs) = IsOurs s e × IsFound s c
  IsCalm s (over o) = o ≢ panic
  IsCalm s (storing h) = IsSafe x laws h
