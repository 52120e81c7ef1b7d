-- ===== src/Tests/Scenarios.antt =====
-- The tests of src/net and src/db.rs at concrete inputs.
use keyserver_rust.Prelude.{◌+◌, ◌≡◌, ◌↔◌, ◌≤◌, refl, done, panic, [], arith}
use keyserver_rust.Prelude.Bytes.{bytes_eq, text, str_from, is_char_boundary}
use keyserver_rust.Prelude.Int.{add64, cast64, ◌+ℤ◌}
use keyserver_rust.Errors.{error_response}
use keyserver_rust.Http.{respond, status_ok}
use keyserver_rust.Bitcoin.Network.{
  regnet, into_addr_network, from_addr_network, network_eq, to_string,
}
use keyserver_rust.Crypto.{validate, deserialize_public_key, deserialize_signature, verify}
use keyserver_rust.Db.{expired, get, put, check_timestamp}
use keyserver_rust.Net.Keys.{get_key, put_key}
use keyserver_rust.Net.Keys.Acceptance.{IsAcceptable, put_key_iff}
use keyserver_rust.Net.Keys.Scenarios.{
  test_index_put_get, test_index_put_ok, test_index_put_malformed_payload,
  test_index_put_invalid_address, test_index_get_invalid_address, test_index_get_not_found,
  generate_address_metadata,
}
use keyserver_rust.Net.Keys.Scenarios.Passes.{test_index_put_get_iff, net_tests-pass}
use keyserver_rust.Net.CheckPayment.Scenarios.{test_put_no_token}
use keyserver_rust.Net.CheckPayment.Scenarios.NoToken.{GivesAddress, test_put_no_token_iff}
use keyserver_rust.Bitcoin.Client.{get_new_addr}
use keyserver_rust.Net.CheckPayment.{call, base_url, merchant_url}
use keyserver_rust.Tests.Wire.{decode_request, encode_request, decode_details, encode_details}
use keyserver_rust.Prelude.{ap, ℕ, Option, none, some, ◌⊎◌, inl, inr, ◌<◌, Outcome, fail}
use keyserver_rust.Prelude.Bytes.{Bytes}
use keyserver_rust.Db.{ttl_filter, CompactionDecision, remove, keep}
use keyserver_rust.Db.Compaction.{IsCompacted}
use keyserver_rust.Db.Scenarios.{test_ttl_ok}
use keyserver_rust.Db.Scenarios.Expires.{test_ttl_ok_iff}
use keyserver_rust.Tests.World.{Store, crates, client, node}
use keyserver_rust.Tests.Payments.{settings}
use keyserver_rust.Tests.Meets.{
  rocks_laws, digest_laws, codec_laws, client_laws, healthy, payload_codec, ttl_codec,
}
use keyserver_rust.Tests.Database.{empty, empty-IsWellFormed, key, body}

put_get_runs :
    ((test_index_put_get crates client key regnet 100 101 102 3100 empty).0 ≡ done tt)
    × ((test_index_put_get crates client key regnet 100 101 102 3101 empty).0 ≡ panic)
unfolding test_index_put_get generate_address_metadata into_addr_network put_key get_key validate
    deserialize_public_key deserialize_signature verify check_timestamp get put expired add64 cast64
    ◌+ℤ◌ bytes_eq text error_response
put_get_runs = (refl, refl)

put_key_iff_example :
    ((put_key crates key body 120 120 empty).0 ≡ done (respond status_ok []))
    ↔ IsAcceptable crates healthy rocks_laws empty key body 120 120
put_key_iff_example =
    put_key_iff crates healthy rocks_laws digest_laws empty key body 120 120 empty-IsWellFormed

test_index_put_get_iff_example :
    ((test_index_put_get crates client key regnet 100 101 102 3101 empty).0 ≡ done tt)
    ↔ (3101 ≤ 100 + 3000)
test_index_put_get_iff_example =
    test_index_put_get_iff crates client rocks_laws healthy client_laws codec_laws digest_laws
      payload_codec key regnet 100 empty empty-IsWellFormed refl 101 102 3101 (omega arith)
      (omega arith)

net_tests-pass_example :
    ((test_index_put_ok crates client key regnet 100 101 102 empty).0 ≡ done tt)
    × ((test_index_put_malformed_payload crates client key regnet 100 101 102 empty).0 ≡ done tt)
    × ((test_index_put_invalid_address crates client key regnet 100 101 102 empty).0 ≡ done tt)
    × ((test_index_get_invalid_address crates 101 empty).0 ≡ done tt)
    × ((test_index_get_not_found crates client key regnet 100 101 empty).0 ≡ done tt)
net_tests-pass_example =
    net_tests-pass crates client rocks_laws healthy client_laws codec_laws digest_laws payload_codec
      key regnet 100 empty empty-IsWellFormed refl 101 102

put_no_token_runs :
    ((test_put_no_token crates client key settings (node key) 90 100 101 102 100 ([], empty)).0
      ≡ done tt)
    × ((test_put_no_token crates client key settings (node key) 90 100 101 102 99 ([], empty)).0
        ≡ panic)
    × ((test_put_no_token crates client key settings (node []) 90 100 101 102 100 ([], empty)).0
        ≡ panic)
unfolding test_put_no_token generate_address_metadata into_addr_network bytes_eq text call str_from
    is_char_boundary get_new_addr network_eq from_addr_network decode_request encode_request
    decode_details encode_details to_string base_url merchant_url
put_no_token_runs = (refl, refl, refl)

test_put_no_token_iff_example :
    ((test_put_no_token crates client key settings (node key) 90 100 101 102 100 ([], empty)).0
      ≡ done tt)
    ↔ ((settings.network ≡ regnet) × GivesAddress crates settings (node key) × (100 ≤ 100))
test_put_no_token_iff_example =
    test_put_no_token_iff crates settings (node key) client client_laws codec_laws digest_laws
      payload_codec key 90 100 101 102 100 [] empty

-- A compaction at 112 seconds that looks at every key.
abbrev by_decision : Bytes → Outcome crates.RocksError CompactionDecision → Option Bytes
by_decision v (done remove) = none
by_decision v _ = some v

abbrev compact_value : Option Bytes → Option Bytes
compact_value none = none
compact_value (some v) = by_decision v (ttl_filter crates v 112)

abbrev compact : Store → Store
compact d k = compact_value (d k)

compact-IsCompacted : (d : Store) → IsCompacted crates rocks_laws d (compact d) 112
compact-IsCompacted d k = go (d k) refl
  where
    decided :
        (v : Bytes) (o : Outcome crates.RocksError CompactionDecision)
        → ttl_filter crates v 112 ≡ o
        → (compact_value (some v) ≡ some v)
          ⊎ ((ttl_filter crates v 112 ≡ done remove) × (compact_value (some v) ≡ none))
    decided v (done remove) e = inr (e, ap (by_decision v) e)
    decided v (done keep) e = inl (ap (by_decision v) e)
    decided v (fail b) e = inl (ap (by_decision v) e)
    decided v panic e = inl (ap (by_decision v) e)

    go :
        (o : Option Bytes)
        → d k ≡ o
        → (compact_value (d k) ≡ d k)
          ⊎ ((v : Bytes) × (now : ℕ) × (d k ≡ some v)
              × (ttl_filter crates v now ≡ done remove)
              × (now ≤ 112)
              × (compact_value (d k) ≡ none))
    go none e = inl (rw e refl)
    go (some v) e = elim (decided v (ttl_filter crates v 112) refl) [
      | inl kept ↦ inl (rw e kept)
      | inr (gone, empty_now) ↦ inr (v, 112, e, gone, omega arith, rw e empty_now)
    ]

test_ttl_ok_iff_example :
    ((test_ttl_ok crates client compact key 100 100 112 empty).0 ≡ done tt)
    ↔ ((100 ≤ 100 + 10) × (100 + 10 < 112))
test_ttl_ok_iff_example =
    test_ttl_ok_iff crates rocks_laws healthy codec_laws client compact key 100 100 112
      (ttl_codec 100) empty empty-IsWellFormed 112 compact-IsCompacted (omega arith) (omega arith)
      (omega arith) (omega arith)
