-- ===== src/Server/Start/Started.antt =====
-- How `main` of src/main.rs ends.
use keyserver_rust.Prelude.{
  ℕ, ◌++◌, some, true, ◌≡◌, refl, subst, ◌⊎◌, inl, inr, [], List, Result, ok, err, Result-cases,
  Outcome, done, fail, panic, Outcome-cases,
}
use keyserver_rust.Prelude.Bytes.{Bytes, text}
use keyserver_rust.Prelude.Decimal.{decimal}
use keyserver_rust.Crates.{Crates}
use keyserver_rust.Crates.Environment.{ConfigCrate, Matches, Dirs, ConfigLaws}
use keyserver_rust.Crates.System.{OpenOptions, System}
use keyserver_rust.Settings.{Settings}
use keyserver_rust.Settings.Load.{new_settings}
use keyserver_rust.Settings.Precedence.{IsNew, new_settings-IsNew}
use keyserver_rust.Bitcoin.TxStream.{get_tx_stream, extract_details}
use keyserver_rust.Db.{ttl_filter}
use keyserver_rust.Server.Start.{
  node_url, stream_url, try_new, bitcoin_client, key_stream, Server, main,
}

module _ (x : Crates) (Subscription : Type 0) (sys : System x Subscription) (c : ConfigCrate)
    (laws : ConfigLaws c) (m : Matches) (dirs : Dirs) where
  -- The address of the node for a scheme and a port.
  abbrev pub node_at : Bytes → Settings → ℕ → Bytes
  node_at scheme settings port =
      scheme ++ (text "://" ++ (settings.node_ip ++ (text ":" ++ decimal port)))

  -- A new database where there is none, with the filter of expired values.
  abbrev pub with_filter : OpenOptions x
  with_filter = record {
    create_if_missing = true;
    filter_name = text "ttl";
    compaction_filter = ttl_filter x;
  }

  -- The settings are those of the command line, the file and the defaults, and the database at
  -- their path opens.
  abbrev pub IsOpened : Settings → x.Db → Type 0
  IsOpened settings d =
      IsNew c laws m dirs (done settings) × (sys.open_db with_filter settings.db_path ≡ ok d)

  -- The stream of the node's messages opens too.
  abbrev pub IsConnected : Settings → x.Db → List (Result Subscription Bytes) → Type 0
  IsConnected settings d messages =
      IsOpened settings d
      × (sys.listen (node_at (text "tcp") settings settings.zmq_port) ≡ ok messages)

  -- How `main` ends.
  abbrev pub IsStarted : Outcome sys.IoError (Server x Subscription sys) → Type 0
  IsStarted (done s) =
      (messages : List (Result Subscription Bytes)) × IsConnected s.settings s.key_db messages
      × (s.wallet_state ≡ [])
      × (s.bitcoin_client
          ≡ sys.http_client (node_at (text "http") s.settings s.settings.rpc_port)
              (some s.settings.rpc_username) (some s.settings.rpc_password))
      × (s.key_stream
          ≡ extract_details x Subscription s.settings (get_tx_stream x Subscription messages))
      × (sys.bind s.settings.bind ≡ ok tt)
  IsStarted (fail e) =
      (settings : Settings) × (d : x.Db) × (messages : List (Result Subscription Bytes))
      × IsConnected settings d messages
      × (sys.bind settings.bind ≡ err e)
  IsStarted panic =
      ((e : c.ConfigError) × IsNew c laws m dirs (fail e))
      ⊎ IsNew c laws m dirs panic
      ⊎ ((settings : Settings) × (e : x.RocksError) × IsNew c laws m dirs (done settings)
          × (sys.open_db with_filter settings.db_path ≡ err e))
      ⊎ ((settings : Settings) × (d : x.Db) × (e : sys.ZmqError) × IsOpened settings d
          × (sys.listen (node_at (text "tcp") settings settings.zmq_port) ≡ err e))

  streamed :
      (settings : Settings) (messages : List (Result Subscription Bytes))
      → sys.listen (node_at (text "tcp") settings settings.zmq_port) ≡ ok messages
      → key_stream x Subscription sys settings
        ≡ ok (extract_details x Subscription settings (get_tx_stream x Subscription messages))
  unfolding key_stream stream_url text
  streamed settings messages listening = rw (key_stream, listening) refl

  unstreamed :
      (settings : Settings) (e : sys.ZmqError)
      → sys.listen (node_at (text "tcp") settings settings.zmq_port) ≡ err e
      → key_stream x Subscription sys settings ≡ err e
  unfolding key_stream stream_url text
  unstreamed settings e failed = rw (key_stream, failed) refl

  -- With the settings, `main` ends as the three calls to the system decide.
  with_settings :
      (settings : Settings)
      → new_settings c m dirs ≡ done settings
      → IsNew c laws m dirs (done settings)
      → IsStarted (main x Subscription sys c m dirs)
  unfolding main try_new bitcoin_client node_url stream_url text
  with_settings settings loaded new =
      elim (Result-cases (sys.open_db with_filter settings.db_path)) [
        | inr (e, failed) ↦ rw (loaded, failed) (inr (inr (inl (settings, e, new, failed))))
        | inl (d, opened) ↦
            elim (Result-cases (sys.listen (node_at (text "tcp") settings settings.zmq_port))) [
              | inr (e, failed) ↦
                  rw (loaded, opened, unstreamed settings e failed)
                    (inr (inr (inr (settings, d, e, (new, opened), failed))))
              | inl (messages, listening) ↦ elim (Result-cases (sys.bind settings.bind)) [
                | inr (e, failed) ↦
                    rw (loaded, opened, streamed settings messages listening, failed)
                      (settings, d, messages, ((new, opened), listening), failed)
                | inl (u, bound) ↦
                    rw (loaded, opened, streamed settings messages listening, bound)
                      (messages, ((new, opened), listening), refl, refl, refl, bound)
              ]
            ]
      ]

  -- `main` ends in one of these ways. It serves, on an empty wallet, if the settings load, the
  -- database at their path opens, the stream at the node's ZMQ port opens and the address binds; it
  -- returns an error exactly where only the binding fails; and it panics if the settings fail to
  -- load, or panic, or the database or the stream does not open.
  pub main-IsStarted : IsStarted (main x Subscription sys c m dirs)
  unfolding main
  main-IsStarted =
      let new = new_settings-IsNew c laws m dirs in
      elim (Outcome-cases (new_settings c m dirs)) [
        | inl (settings, loaded) ↦
            with_settings settings loaded (subst (IsNew c laws m dirs) loaded new)
        | inr (inl (e, failed)) ↦ rw failed (inl (e, subst (IsNew c laws m dirs) failed new))
        | inr (inr panicked) ↦ rw panicked (inr (inl (subst (IsNew c laws m dirs) panicked new)))
      ]
