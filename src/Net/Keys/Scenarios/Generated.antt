-- ===== src/Net/Keys/Scenarios/Generated.antt =====
-- What `generate_address_metadata` of the tests of src/net/mod.rs makes: a request that `put_key`
-- reads.
use keyserver_rust.Prelude.{true, All, ℕ, ◌≡◌, refl, sym, some, ok, [], ◌∷◌, done}
use keyserver_rust.Prelude.Bytes.{Bytes}
use keyserver_rust.Models.{AddressMetadata}
use keyserver_rust.Crates.{Crates}
use keyserver_rust.Crates.Laws.{DigestLaws, CodecLaws, is_visible}
use keyserver_rust.Crates.Client.{Client, ClientLaws}
use keyserver_rust.Bitcoin.Network.{Network, into_addr_network}
use keyserver_rust.Net.Keys.{read_body}
use keyserver_rust.Net.Keys.Reading.{IsRead}
use keyserver_rust.Net.Keys.Scenarios.{test_payload, test_metadata, generate_address_metadata}

-- What is encoded of the tests' payloads decodes to itself.
abbrev pub IsPayloadCodec : (x : Crates) → Client x → Type 0
IsPayloadCodec x c =
    (time : ℕ) → x.decode_payload (c.encode_payload (test_payload time)) ≡ some (test_payload time)

module _ (x : Crates) (c : Client x) where
  -- The body of the address of a secret key.
  abbrev pub own_body : c.SecretKey → Bytes
  own_body sk = x.hash160 (x.key_serialize (c.public_key sk))

  pub record IsGenerated (sk : c.SecretKey) (network : Network) (time : ℕ) : Type 0 where
    pub addr_str : Bytes
    pub addr : x.Address
    pub metadata : AddressMetadata
    pub ended :
        generate_address_metadata x c sk network time ≡ done (addr_str, x.encode_metadata metadata)
    pub owned : x.body addr ≡ own_body sk
    pub visible : All (λ b. is_visible b ≡ true) addr_str
    pub encoded : c.encode_base58 (own_body sk) (into_addr_network network) ≡ some addr_str
    pub read :
        IsRead x addr_str (some (x.encode_metadata metadata) ∷ []) addr metadata (test_payload time)

  module _ (laws : ClientLaws x c) (codec : CodecLaws x.codecs)
      (digests : DigestLaws x.hashes x.secp) (payloads : IsPayloadCodec x c) where
    test_metadata-IsRead :
        (sk : c.SecretKey) (msg : x.Message) (time : ℕ) (addr_str : Bytes) (addr : x.Address)
        → x.decode addr_str ≡ ok addr
        → x.body addr ≡ own_body sk
        → x.message_from_slice (x.sha256 (c.encode_payload (test_payload time))) ≡ some msg
        → IsRead x addr_str
            (some (x.encode_metadata (test_metadata x c sk msg time)) ∷ [])
            addr
            (test_metadata x c sk msg time)
            (test_payload time)
    unfolding read_body
    test_metadata-IsRead sk msg time addr_str addr decoded owned parsed = record {
      raw = x.encode_metadata (test_metadata x c sk msg time);
      received = refl;
      decoded = codec.decode-encode_metadata (test_metadata x c sk msg time);
      addressed = decoded;
      scheme = refl;
      authentic = record {
        key = c.public_key sk;
        sig = c.sign msg sk;
        msg = msg;
        key_parsed = laws.key_lem (c.public_key sk);
        owner = sym owned;
        sig_parsed = laws.sig_lem (c.sign msg sk);
        digest = parsed;
        verified = laws.verify-sign msg sk;
      };
      payload = payloads time;
    }

    pub generate_address_metadata-IsGenerated :
        (sk : c.SecretKey) (network : Network) (time : ℕ) → IsGenerated sk network time
    unfolding generate_address_metadata
    generate_address_metadata-IsGenerated sk network time =
        let raw = c.encode_payload (test_payload time) in
        let (msg, parsed) = digests.message_of_32 (x.sha256 raw) (digests.sha256_length raw) in
        let (addr_str, addr, encoded, decoded, owned, visible) =
          laws.decode-encode_base58 (own_body sk) (into_addr_network network)
            (laws.hash160_length (x.key_serialize (c.public_key sk))) in
        record {
          addr_str = addr_str;
          addr = addr;
          metadata = test_metadata x c sk msg time;
          ended = rw (encoded, parsed) refl;
          owned = owned;
          visible = visible;
          encoded = encoded;
          read = test_metadata-IsRead sk msg time addr_str addr decoded owned parsed;
        }
