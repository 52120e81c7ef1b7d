-- ===== src/Crates/Laws.antt =====
-- What the program relies on of the crates, as documented: the hypotheses of the theorems.
use keyserver_rust.Prelude.{
  [], ◌∷◌, arith, ◌≡◌, ◌↔◌, Option, none, some, ok, err, if◌then◌else◌, length, ℕ, Bool, true, leb,
  ltb, ◌&&◌, ◌<◌, All,
}
use keyserver_rust.Prelude.Bytes.{Bytes, bytes_eq}
use keyserver_rust.Models.{AddressMetadata, AddrNetwork}
use keyserver_rust.Crates.{Hashes, Subtle, Secp, CashAddr, Rocks, Codecs, Web, Rpc}

-- A SHA-256 digest has 32 bytes, and the signature library takes any 32 bytes as a message.
pub record DigestLaws (h : Hashes) (s : Secp) : Type 0 where
  pub sha256_length : (m : Bytes) → length (h.sha256 m) ≡ 32
  pub message_of_32 :
      (m : Bytes) → length m ≡ 32 → (w : s.Message) × (s.message_from_slice m ≡ some w)

-- `ct_eq` is equality.
pub record SubtleLaws (s : Subtle) : Type 0 where
  pub ct_eq_iff : (a b : Bytes) → (s.ct_eq a b ≡ 1) ↔ (a ≡ b)

-- An address made of a body and a network has them.
pub record AddressLaws (c : CashAddr) : Type 0 where
  pub body-address : (b : Bytes) (n : AddrNetwork) → c.body (c.address b n) ≡ b
  pub network-address : (b : Bytes) (n : AddrNetwork) → c.addr_network (c.address b n) ≡ n

-- A database is a map from keys to values. A call that fails leaves the map as it was.
pub record RocksLaws (r : Rocks) : Type 0 where
  pub contents : r.Db → Bytes → Option Bytes
  pub contents-get : (d : r.Db) (k j : Bytes) → contents (r.db_get d k).1 j ≡ contents d j
  pub get_ok :
      (d : r.Db) (k : Bytes) (v : Option Bytes) → (r.db_get d k).0 ≡ ok v → v ≡ contents d k
  pub put_ok :
      (d : r.Db) (k v j : Bytes)
      → (r.db_put d k v).0 ≡ ok tt
      → contents (r.db_put d k v).1 j ≡ (if bytes_eq k j then some v else contents d j)
  pub put_err :
      (d : r.Db) (k v j : Bytes) (e : r.RocksError)
      → (r.db_put d k v).0 ≡ err e
      → contents (r.db_put d k v).1 j ≡ contents d j
  pub delete_ok :
      (d : r.Db) (k j : Bytes)
      → (r.db_delete d k).0 ≡ ok tt
      → contents (r.db_delete d k).1 j ≡ (if bytes_eq k j then none else contents d j)
  pub delete_err :
      (d : r.Db) (k j : Bytes) (e : r.RocksError)
      → (r.db_delete d k).0 ≡ err e
      → contents (r.db_delete d k).1 j ≡ contents d j

-- What is encoded decodes to itself.
pub record CodecLaws (c : Codecs) : Type 0 where
  pub decode-encode_metadata :
      (m : AddressMetadata) → c.decode_metadata (c.encode_metadata m) ≡ some m

-- `to_str` takes every visible ASCII string, and only ASCII strings; base64 is visible and decodes to what
-- was encoded.
abbrev pub is_visible : ℕ → Bool
is_visible b = leb 32 b && ltb b 127

pub ascii_of_visible : (s : Bytes) → All (λ b. is_visible b ≡ true) s → All (λ b. b < 128) s
ascii_of_visible [] h = tt
ascii_of_visible (b ∷ s) h = (ground arith, ascii_of_visible s h.1)

pub record WebLaws (w : Web) : Type 0 where
  pub ascii_to_str : (s t : Bytes) → w.to_str s ≡ some t → (t ≡ s) × All (λ b. b < 128) s
  pub visible_to_str : (s : Bytes) → All (λ b. is_visible b ≡ true) s → w.to_str s ≡ some s
  pub base64_visible : (b : Bytes) → All (λ c. is_visible c ≡ true) (w.base64_encode b)
  pub decode-encode_base64 : (b : Bytes) → w.base64_decode (w.base64_encode b) ≡ some b

-- A response that says that it is an error carries one.
pub record RpcLaws (r : Rpc) : Type 0 where
  pub error_of_is_error :
      (a : r.RpcResponse) → r.is_error a ≡ true → (e : r.RpcError) × (r.error a ≡ some e)

-- A database none of whose calls fails.
pub record IsHealthy (r : Rocks) : Type 0 where
  pub get_healthy : (d : r.Db) (k : Bytes) → (v : Option Bytes) × ((r.db_get d k).0 ≡ ok v)
  pub put_healthy : (d : r.Db) (k v : Bytes) → (r.db_put d k v).0 ≡ ok tt
  pub delete_healthy : (d : r.Db) (k : Bytes) → (r.db_delete d k).0 ≡ ok tt
