-- ===== src/Db/Scenarios.antt =====
-- The test `test_ttl_ok` of src/db.rs as a run on a database. The drawn key, the readings of the clock
-- and what a forced compaction does are arguments; the sleep is the time between two readings.
pub mod Expires
use keyserver_rust.Prelude.{ℕ, Bool, true, false, not, Option, none, some, [], Outcome, done}
use keyserver_rust.Prelude.Int.{pos, cast64}
use keyserver_rust.Prelude.Assert.{assert, unwrapping}
use keyserver_rust.Prelude.Exec.{Exec, lift, ◌>>=◌, ◌>>◌}
use keyserver_rust.Models.{Payload, AddressMetadata, main}
use keyserver_rust.Crates.{Crates}
use keyserver_rust.Crates.Client.{Client}
use keyserver_rust.Crypto.{secp256k1, to_raw_address}
use keyserver_rust.Db.{put, get}

abbrev pub is_some : {A : Type 0} → Option A → Bool
is_some none = false
is_some (some a) = true

-- The payload of the test, with a time to live of 10 seconds.
abbrev pub ttl_payload : ℕ → Payload
ttl_payload made = record { timestamp = cast64 made; ttl = pos 10; entries = [] }

module _ (x : Crates) (c : Client x) where
  abbrev pub ttl_metadata : ℕ → AddressMetadata
  ttl_metadata made = record {
    pub_key = [];
    serialized_payload = c.encode_payload (ttl_payload made);
    signature = [];
    scheme = 1;
  }

  unfoldable pub ttl_address : c.SecretKey → x.Address
  unfolding to_raw_address
  ttl_address sk = x.address (to_raw_address x (secp256k1 x.secp) (c.public_key sk)) main

  -- From the forced compaction on.
  unfoldable pub after_compaction : (x.Db → x.Db) → x.Address → ℕ → Exec x.Db ⊥ (Unit {0})
  after_compaction compact addr after = do
    λ d. (done tt, compact d)
    gone ← unwrapping (get x addr after)
    lift (assert (not (is_some gone)))

  unfoldable pub test_ttl_ok :
      (x.Db → x.Db) → c.SecretKey → (made before after : ℕ) → Exec x.Db ⊥ (Unit {0})
  unfolding after_compaction ttl_address
  test_ttl_ok compact sk made before after = do
    unwrapping (put x (ttl_address sk) (ttl_metadata made))
    found ← unwrapping (get x (ttl_address sk) before)
    lift (assert (is_some found))
    after_compaction compact (ttl_address sk) after
