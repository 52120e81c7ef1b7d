-- ===== src/Server/Start/Calm.antt =====
-- What stays true of the server of src/main.rs that `main` has started, however the steps of its
-- requests and polls interleave.
use keyserver_rust.Prelude.{
  ℕ, zero, suc, ◌≡◌, ◌≢◌, refl, sym, subst, Bool, true, false, Bool-cases, Option-cases, inl, inr,
  Option, none, some, List, [], ◌∷◌, All, Outcome, done, fail, panic, Outcome-cases, arith, ◌==◌,
}
use keyserver_rust.Prelude.Bytes.{Bytes, text, bytes_eq, bytes_eq_iff}
use keyserver_rust.Models.{Payment, TxOut}
use keyserver_rust.Crates.{Crates}
use keyserver_rust.Crates.Laws.{RocksLaws, DigestLaws, CodecLaws, WebLaws, RpcLaws}
use keyserver_rust.Crates.Environment.{ConfigCrate, Matches, Dirs, ConfigLaws}
use keyserver_rust.Crates.System.{System}
use keyserver_rust.Http.{Response, Method, put_method, other_method, authorization}
use keyserver_rust.Errors.{answer_route, ServerError}
use keyserver_rust.Bitcoin.Client.{get_new_addr}
use keyserver_rust.Bitcoin.Script.{price, extract_pubkey_hash}
use keyserver_rust.Bitcoin.Wallet.{WalletState, contains, add, contains-add, contains-remove}
use keyserver_rust.Bitcoin.Wallet.Interleaving.{
  Call, calling, holding, accepted, refused, look, advance,
}
use keyserver_rust.Net.CheckPayment.{
  forward, answer, addresses, invoice_for, issue_invoice, check_authorization, decide_put, decide,
}
use keyserver_rust.Net.CheckPayment.Invoices.{IsKeyPath, addresses_sound}
use keyserver_rust.Net.CheckPayment.Totality.{decide-ne-panic}
use keyserver_rust.Net.Payments.{read_payment, after_check}
use keyserver_rust.Net.Payments.Handled.{complete-ne-panic, read_payment-ne-panic}
use keyserver_rust.Server.Integrity.{IsIntegral, here, next, compacting, Reach-IsIntegral}
use keyserver_rust.Server.Concurrent.{Handler, ended, getting, deleting, putting, next_call}
use keyserver_rust.Server.Concurrent.Safe.{IsSafe}
use keyserver_rust.Server.Concurrent.Integrity.{
  get_started, put_started, poll_started, Started-IsSafe, next_call-IsSafe,
}
use keyserver_rust.Server.Routes.{Target, keys, payments, elsewhere, Router}
use keyserver_rust.Server.App.{Exchange}
use keyserver_rust.Server.Start.{Server, main, cors_options}
use keyserver_rust.Server.Start.Started.{IsStarted, main-IsStarted}
use keyserver_rust.Server.Start.Pulls.{pulled-IsPull}
use keyserver_rust.Server.Start.Workers.{
  Task, arrived, handling, paying, over, storing, decorated, settle, route_calls, pass, look_at,
  resume, open_payment, post_route, arrive, admit, step, step_at,
}
use keyserver_rust.Server.Start.Life.{
  Life, started, arrives, polls, goes_on, compacted, IsGiven, AreGiven, IsOurs, IsFound, IsCalm,
}

module _ (x : Crates) (Subscription : Type 0) (sys : System x Subscription)
    (laws : RocksLaws x.rocks) (router : Router) (s : Server x Subscription sys)
    (node : (i : ℕ) → RpcLaws (sys.node s.bitcoin_client i)) where
  abbrev Calm : Task x → Type 0
  Calm = IsCalm x Subscription sys laws router s

  abbrev Given : WalletState → Type 0
  Given = AreGiven x Subscription sys laws router s

  abbrev Ours : Exchange → Type 0
  Ours = IsOurs x Subscription sys laws router s

  served-IsOurs : (e : Exchange) (i : ℕ) → e.rpc ≡ sys.node s.bitcoin_client i → Ours e
  served-IsOurs e i same =
      subst
        (λ r.
          RpcLaws r
          × ((a : Bytes)
              → get_new_addr r ≡ done a
              → (j : ℕ) × (get_new_addr (sys.node s.bitcoin_client j) ≡ done a)))
        (sym same) (node i, λ a given. (i, given))

  decorated-ne-panic :
      (e : Exchange) (o : Outcome (ServerError x) Response)
      → o ≢ panic
      → decorated x Subscription sys s.settings router e o ≢ panic
  unfolding decorated answer_route
  decorated-ne-panic e (done resp) calm h = cc
  decorated-ne-panic e (fail f) calm h = cc
  decorated-ne-panic e panic calm h = calm refl

  settle-IsCalm :
      (e : Exchange) (h : Handler x)
      → IsSafe x laws h
      → Calm (settle x Subscription sys s.settings router e h)
  unfolding settle IsCalm IsSafe
  settle-IsCalm e (ended o) safe = decorated-ne-panic e o safe
  settle-IsCalm e (getting k rest) safe = safe
  settle-IsCalm e (deleting k rest) safe = safe
  settle-IsCalm e (putting k v rest) safe = safe

  after_check-ne-panic :
      (e : Exchange) (p : Payment) (tx_raw : Bytes) (hit : Bool)
      → Ours e
      → after_check x s.settings e.rpc p tx_raw hit ≢ panic
  unfolding after_check
  after_check-ne-panic e p tx_raw true ours = complete-ne-panic x s.settings e.rpc ours.0 p tx_raw
  after_check-ne-panic e p tx_raw false ours = λ h. cc

  look_at-IsCalm :
      (e : Exchange) (p : Payment) (tx_raw : Bytes) (outputs : List TxOut)
      → Ours e
      → Calm (look_at x Subscription sys s.settings router e p tx_raw outputs)
  unfolding look_at IsCalm
  look_at-IsCalm e p tx_raw [] ours =
      decorated-ne-panic e (after_check x s.settings e.rpc p tx_raw false)
        (after_check-ne-panic e p tx_raw false ours)
  look_at-IsCalm e p tx_raw (o ∷ outputs) ours = (ours, tt)

  look-IsFound :
      (hash : Option Bytes) (w : WalletState)
      → Given w
      → IsFound x Subscription sys laws router s (look hash w)
  unfolding look
  look-IsFound none w given = tt
  look-IsFound (some h) w given = elim (Bool-cases (contains h w)) [
    | inl there ↦ rw there (given h there)
    | inr absent ↦ rw absent tt
  ]

  resume-IsCalm :
      (e : Exchange) (p : Payment) (tx_raw : Bytes) (outputs : List TxOut) (c : Call)
      (w : WalletState)
      → Ours e
      → IsFound x Subscription sys laws router s c
      → Given w
      → Calm (resume x Subscription sys s.settings router e p tx_raw outputs c w).0
        × Given (resume x Subscription sys s.settings router e p tx_raw outputs c w).1
  unfolding resume advance IsCalm
  resume-IsCalm e p tx_raw outputs (calling o) w ours found given =
      elim (Bool-cases (o.value == price)) [
        | inl priced ↦
            rw priced ((ours, look-IsFound (extract_pubkey_hash o.script_pubkey) w given), given)
        | inr free ↦ rw free ((ours, tt), given)
      ]
  resume-IsCalm e p tx_raw outputs (holding h) w ours found given =
      ((ours, found), λ j there. given j (ground (arith, contains-remove h j w)))
  resume-IsCalm e p tx_raw outputs (accepted h) w ours found given = (
    decorated-ne-panic e (after_check x s.settings e.rpc p tx_raw true)
        (after_check-ne-panic e p tx_raw true ours),
    given,
  )
  resume-IsCalm e p tx_raw outputs refused w ours found given =
      (look_at-IsCalm e p tx_raw outputs ours, given)

  post_route-IsCalm :
      (m : Method) (e : Exchange)
      → Ours e
      → Calm (post_route x Subscription sys s.settings router m e)
  unfolding post_route open_payment IsCalm
  post_route-IsCalm put_method e ours = decorated-ne-panic e (done router.no_route) (λ h. cc)
  post_route-IsCalm (other_method name) e ours = elim (Bool-cases (bytes_eq name (text "POST"))) [
    | inr missing ↦ rw missing (decorated-ne-panic e (done router.no_route) (λ h. cc))
    | inl posted ↦ rw posted (elim (Outcome-cases (read_payment x e.request e.items)) [
      | inl (read, found) ↦ rw found (look_at-IsCalm e read.0 read.1 read.2.output ours)
      | inr (inl (f, failed)) ↦ rw failed (decorated-ne-panic e (fail f) (λ h. cc))
      | inr (inr panicked) ↦
          absurd (read_payment-ne-panic x s.settings e.rpc e.request e.items panicked)
    ])
  ]

  add-AreGiven :
      (a : Bytes) (w : WalletState)
      → IsGiven x Subscription sys laws router s a
      → Given w
      → Given (add a w)
  add-AreGiven a w fresh given j there = elim (Bool-cases (bytes_eq a j)) [
    | inl same ↦ subst (IsGiven x Subscription sys laws router s) ((bytes_eq_iff a j).0 same) fresh
    | inr other ↦ given j (ground (arith, contains-add a j w))
  ]

  decide_put-AreGiven :
      (m : Method) (e : Exchange) (w : WalletState)
      → Ours e
      → Given w
      → Given (decide_put x s.settings e.rpc e.request e.time m w).1
  unfolding decide_put check_authorization issue_invoice invoice_for
  decide_put-AreGiven (other_method name) e w ours given = given
  decide_put-AreGiven put_method e w ours given =
      elim (Option-cases (e.request.header authorization)) [
        | inr (value, has) ↦ rw has given
        | inl missing ↦ rw missing (elim (Outcome-cases (addresses x s.settings e.rpc e.request)) [
          | inr (inl (f, failed)) ↦ rw failed given
          | inr (inr panicked) ↦ rw panicked given
          | inl (both, found) ↦
              let fresh = addresses_sound x s.settings e.rpc e.request both found in
              let (i, from) = ours.1 fresh.addr_str fresh.given in
              rw found (
                add-AreGiven (x.body both.1) w
                  (record {
                    turn = i;
                    addr_str = fresh.addr_str;
                    addr = both.1;
                    given = from;
                    decoded = fresh.decoded;
                    on_network = fresh.on_network;
                    of_key = fresh.of_key;
                    body = refl;
                  })
                  given)
        ])
      ]

  module _ (codec : CodecLaws x.codecs) (digests : DigestLaws x.hashes x.secp)
      (web : WebLaws x.web) where
    route_calls-IsSafe :
        (m : Method) (e : Exchange)
        → IsSafe x laws (route_calls x Subscription sys s.settings router m e)
    unfolding route_calls IsSafe
    route_calls-IsSafe put_method e =
        Started-IsSafe x laws codec digests _
          (put_started (router.addr e.request) e.items e.now e.later)
    route_calls-IsSafe (other_method name) e = elim (Bool-cases (bytes_eq name (text "GET"))) [
      | inl got ↦
          rw got (Started-IsSafe x laws codec digests _ (get_started (router.addr e.request) e.now))
      | inr missing ↦ rw missing (λ h. cc)
    ]

    arrive-IsCalm :
        (t : Target) (e : Exchange) (w : WalletState)
        → Ours e
        → (t ≡ keys → IsKeyPath e.request.path)
        → Given w
        → Calm (arrive x Subscription sys s.settings router t e w).0
          × Given (arrive x Subscription sys s.settings router t e w).1
    unfolding arrive pass decide IsCalm answer_route
    arrive-IsCalm keys e w ours key given = (
      elim (Outcome-cases (decide x s.settings e.rpc e.request e.time w).0) [
        | inl (forward, passed) ↦ rw passed (
            settle-IsCalm e (route_calls x Subscription sys s.settings router e.request.method e)
              (route_calls-IsSafe e.request.method e))
        | inl (answer resp, answered) ↦ rw answered (decorated-ne-panic e (done resp) (λ h. cc))
        | inr (inl (f, failed)) ↦ rw failed (λ h. cc)
        | inr (inr panicked) ↦
            absurd
              (decide-ne-panic x s.settings web e.rpc e.request e.time w ours.0 (key refl) panicked)
      ],
      decide_put-AreGiven e.request.method e w ours given,
    )
    arrive-IsCalm payments e w ours key given = (post_route-IsCalm e.request.method e ours, given)
    arrive-IsCalm elsewhere e w ours key given =
        (decorated-ne-panic e (done (router.static_file e.request)) (λ h. cc), given)

    admit-IsCalm :
        (o : Option Response) (e : Exchange) (w : WalletState)
        → Ours e
        → (router.target e.request ≡ keys → IsKeyPath e.request.path)
        → Given w
        → Calm (admit x Subscription sys s.settings router o e w).0
          × Given (admit x Subscription sys s.settings router o e w).1
    unfolding admit IsCalm
    admit-IsCalm (some resp) e w ours key given = (λ h. cc, given)
    admit-IsCalm none e w ours key given =
        arrive-IsCalm (router.target e.request) e w ours key given

    -- What stays true of the wallet and the database.
    abbrev IsKept : WalletState × x.Db → Type 0
    IsKept a = IsIntegral x laws a.1 × Given a.0

    step-IsCalm :
        (t : Task x) (w : WalletState) (d : x.Db)
        → IsKept (w, d)
        → Calm t
        → Calm (step x Subscription sys s.settings router t (w, d)).0
          × IsKept (step x Subscription sys s.settings router t (w, d)).1
    unfolding step IsCalm
    step-IsCalm (arrived e) w d (integral, given) calm =
        let (then_calm, after) =
          admit-IsCalm (sys.intercept cors_options e.request) e w calm.0 calm.1 given in
        (then_calm, (integral, after))
    step-IsCalm (handling e h) w d (integral, given) calm =
        let (safe, after) = next_call-IsSafe x laws codec digests h d integral calm in
        (settle-IsCalm e (next_call x h d).0 safe, (after, given))
    step-IsCalm (paying e p tx_raw c outputs) w d (integral, given) calm =
        let (then_calm, after) = resume-IsCalm e p tx_raw outputs c w calm.0 calm.1 given in
        (then_calm, (integral, after))
    step-IsCalm (over o) w d kept calm = (calm, kept)
    step-IsCalm (storing h) w d (integral, given) calm =
        let (safe, after) = next_call-IsSafe x laws codec digests h d integral calm in
        (safe, (after, given))

    step_at-IsCalm :
        (i : ℕ) (ts : List (Task x)) (a : WalletState × x.Db)
        → IsKept a
        → All Calm ts
        → All Calm (step_at x Subscription sys s.settings router i ts a).0
          × IsKept (step_at x Subscription sys s.settings router i ts a).1
    unfolding step_at
    step_at-IsCalm i [] a kept calm = (tt, kept)
    step_at-IsCalm zero (t ∷ ts) (w, d) kept calm =
        let (head, after) = step-IsCalm t w d kept calm.0 in ((head, calm.1), after)
    step_at-IsCalm (suc i) (t ∷ ts) a kept calm =
        let (tail, after) = step_at-IsCalm i ts a kept calm.1 in ((calm.0, tail), after)

    Life-IsCalm :
        (ts : List (Task x)) (a : WalletState × x.Db)
        → IsKept (s.wallet_state, s.key_db)
        → Life x Subscription sys laws router s ts a
        → All Calm ts × IsKept a
    unfolding IsCalm
    Life-IsCalm ts a kept started = (tt, kept)
    Life-IsCalm ts a kept (arrives {ts = before} l e served) =
        let (calm, after) = Life-IsCalm before a kept l in
        (((served-IsOurs e served.0.0 served.0.1, served.1), calm), after)
    Life-IsCalm ts a kept (polls {ts = before} l n item addr m p now later brought) =
        let (calm, after) = Life-IsCalm before a kept l in
        let (auth, parsed) = pulled-IsPull x n item (addr, m, p) brought in
        let safe =
          Started-IsSafe x laws codec digests _ (poll_started addr m p now later auth parsed) in
        ((safe, calm), after)
    Life-IsCalm ts a kept (goes_on {ts = before} {a = b} l i) =
        let (calm, after) = Life-IsCalm before b kept l in step_at-IsCalm i before b after calm
    Life-IsCalm ts a kept (compacted {w = w} {d = d} {d' = d'} l t shrunk) =
        let (calm, (integral, given)) = Life-IsCalm ts (w, d) kept l in
        (
          calm,
          (
            Reach-IsIntegral x laws codec digests d d' integral (next here (compacting t shrunk)),
            given,
          ),
        )

    -- A server that `main` has started on an integral database, an empty one for instance, whose
    -- node answers errors that carry an error, stays sound however the critical sections of the
    -- wallet and the calls of the database of any requests and polls, and compaction, interleave,
    -- if the paths that are routed to the keys are ASCII and begin with "/keys/". No request that
    -- is over has panicked, and what is left of the others, and of the polls, will not on sound
    -- answers of the database. The database is integral. Every address that waits for a payment,
    -- and every one that a payment that is not over has found or was accepted for, was given by
    -- the node to this server's client and is of a key on the configured network.
    pub main-Life :
        (c : ConfigCrate) (config : ConfigLaws c) (m : Matches) (dirs : Dirs)
        → main x Subscription sys c m dirs ≡ done s
        → IsIntegral x laws s.key_db
        → (ts : List (Task x)) (a : WalletState × x.Db) → Life x Subscription sys laws router s ts a
        → All Calm ts × IsIntegral x laws a.1 × Given a.0
    main-Life c config m dirs ran integral ts a l =
        let (_, _, empty, _, _, _) =
          subst (IsStarted x Subscription sys c config m dirs) ran
            (main-IsStarted x Subscription sys c config m dirs) in
        let none_waits : Given s.wallet_state =
          subst Given (sym empty) (λ h there. unfold contains in (cc)) in
        let (calm, (sound, given)) = Life-IsCalm ts a (integral, none_waits) l in
        (calm, sound, given)
