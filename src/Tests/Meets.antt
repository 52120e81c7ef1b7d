-- ===== src/Tests/Meets.antt =====
-- The stand-in for the crates meets the laws.
use keyserver_rust.Prelude.{
  ltb, length-append, ℕ, zero, suc, ◌+◌, ◌<◌, ◌≡◌, ◌↔◌, refl, ap, ◌∙◌, Bool, true, false, Option,
  none, some, [], ◌∷◌, ◌++◌, Result, ok, err, arith, All, length, replicate, take-append,
  drop-append, Bool-cases, inl, inr,
}
use keyserver_rust.Prelude.Bytes.{Bytes, text, bytes_eq_refl, bytes_eq_iff}
use keyserver_rust.Models.{regtest, AddressMetadata}
use keyserver_rust.Crates.Client.{ClientLaws}
use keyserver_rust.Db.Scenarios.{ttl_payload}
use keyserver_rust.Net.Keys.Scenarios.Generated.{IsPayloadCodec}
use keyserver_rust.Prelude.Int.{ℤ, pos, negsuc, sub_ℕ, pos_part, neg_part, cast64}
use keyserver_rust.Crates.Laws.{
  IsHealthy, DigestLaws, SubtleLaws, RocksLaws, CodecLaws, WebLaws, RpcLaws, is_visible,
}
use keyserver_rust.Tests.Wire
use keyserver_rust.Tests.World.{
  base58_address, crates, client, length-pad, hashes, subtle, secp, rocks, codecs, web, node, ascii,
  letters, cons_some, numbers, decode_metadata_bytes,
}

message_of_32 : (m : Bytes) → length m ≡ 32 → (w : Bytes) × (secp.message_from_slice m ≡ some w)
message_of_32 m h = (m, ground (arith, h))

pub digest_laws : DigestLaws hashes secp
digest_laws = record { sha256_length = length-pad 32; message_of_32 = message_of_32 }

ct_eq_iff : (a b : Bytes) → (subtle.ct_eq a b ≡ 1) ↔ (a ≡ b)
ct_eq_iff a b = ground (arith, bytes_eq_iff a b)

pub subtle_laws : SubtleLaws subtle
subtle_laws = record { ct_eq_iff = ct_eq_iff }

pub stored_get :
    (d : rocks.Db) (k : Bytes) (v : Option Bytes) → (rocks.db_get d k).0 ≡ ok v → v ≡ d k
stored_get d k v e = cc

pub never_failed :
    {P : Type 0} (e : Unit {0}) → ◌≡◌ {A = Result (Unit {0}) (Unit {0})} (ok tt) (err e) → P
never_failed e h = cc

abbrev pub rocks_laws : RocksLaws rocks
rocks_laws = record {
  contents = λ d. d;
  contents-get = λ d k j. refl;
  get_ok = stored_get;
  put_ok = λ d k v j e. refl;
  put_err = λ d k v j e h. never_failed e h;
  delete_ok = λ d k j e. refl;
  delete_err = λ d k j e h. never_failed e h;
}

complete :
    (m : AddressMetadata)
    → ltb
        (length (m.pub_key ++ (m.serialized_payload ++ m.signature)))
        (length m.pub_key + length m.serialized_payload)
      ≡ false
complete m = ground (
  arith,
  length-append m.pub_key (m.serialized_payload ++ m.signature),
  length-append m.serialized_payload m.signature,
)

decode-encode_metadata :
    (m : AddressMetadata) → decode_metadata_bytes (codecs.encode_metadata m) ≡ some m
decode-encode_metadata m = rw (
  complete m,
  take-append (length m.pub_key) m.pub_key (m.serialized_payload ++ m.signature) refl,
  drop-append (length m.pub_key) m.pub_key (m.serialized_payload ++ m.signature) refl,
  take-append (length m.serialized_payload) m.serialized_payload m.signature refl,
  drop-append (length m.serialized_payload) m.serialized_payload m.signature refl,
)

pub codec_laws : CodecLaws codecs
codec_laws = record { decode-encode_metadata = decode-encode_metadata }

All_of_ascii : (s : Bytes) → ascii s ≡ true → All (λ b. b < 128) s
All_of_ascii [] h = tt
All_of_ascii (b ∷ s) h = (ground arith, All_of_ascii s (ground arith))

ascii_of_visible : (s : Bytes) → All (λ b. is_visible b ≡ true) s → ascii s ≡ true
ascii_of_visible [] h = refl
ascii_of_visible (b ∷ s) h = ground (arith, ascii_of_visible s h.1)

ascii_to_str : (s t : Bytes) → web.to_str s ≡ some t → (t ≡ s) × All (λ b. b < 128) s
ascii_to_str s t e = elim (Bool-cases (ascii s)) [
  | inl h ↦ (ground arith, All_of_ascii s h)
  | inr h ↦ absurd (ground arith)
]

visible_to_str : (s : Bytes) → All (λ b. is_visible b ≡ true) s → web.to_str s ≡ some s
visible_to_str s h = rw (ascii_of_visible s h)

letter_visible :
    (n : ℕ) (s : Bytes)
    → All (λ c. is_visible c ≡ true) s
    → All (λ c. is_visible c ≡ true) (replicate n 97 ++ 98 ∷ s)
letter_visible zero s h = (refl, h)
letter_visible (suc n) s h = (refl, letter_visible n s h)

letters_visible : (b : Bytes) → All (λ c. is_visible c ≡ true) (letters b)
letters_visible [] = tt
letters_visible (n ∷ ns) = letter_visible n (letters ns) (letters_visible ns)

numbers-letter :
    (n m : ℕ) (s : Bytes) → numbers m (replicate n 97 ++ 98 ∷ s) ≡ cons_some (m + n) (numbers 0 s)
numbers-letter zero m s = ap (λ t. cons_some t (numbers 0 s)) (omega arith)
numbers-letter (suc n) m s =
    numbers-letter n (suc m) s ∙ ap (λ t. cons_some t (numbers 0 s)) (omega arith)

pub numbers-letters : (b : Bytes) → numbers 0 (letters b) ≡ some b
numbers-letters [] = refl
numbers-letters (n ∷ ns) = numbers-letter n 0 (letters ns) ∙ rw (numbers-letters ns) (ground arith)

pub web_laws : WebLaws web
web_laws = record {
  ascii_to_str = ascii_to_str;
  visible_to_str = visible_to_str;
  base64_visible = letters_visible;
  decode-encode_base64 = numbers-letters;
}

error_of_is_error :
    (a : Bytes)
    → ◌≡◌ {A = Bool} false true
    → (e : Unit {0}) × (◌≡◌ {A = Option (Unit {0})} none (some e))
error_of_is_error a h = cc

pub rpc_laws : (reply : Bytes) → RpcLaws (node reply)
rpc_laws reply = record { error_of_is_error = error_of_is_error }

-- Every call of the database succeeds.
pub healthy : IsHealthy rocks
healthy = record {
  get_healthy = λ d k. (d k, refl);
  put_healthy = λ d k v. refl;
  delete_healthy = λ d k. refl;
}

pub client_laws : ClientLaws crates client
unfolding text
client_laws = record {
  key_lem = λ k. refl;
  sig_lem = λ s. refl;
  verify-sign = λ m k. bytes_eq_refl k;
  hash160_length = length-pad 20;
  decode-encode_base58 = λ b n h. (
    49 ∷ letters b,
    (b, regtest),
    refl,
    ap base58_address (numbers-letters b),
    refl,
    (refl, letters_visible b),
  );
  decode-encode_request = Wire.decode-encode_request;
  decode-encode_details = Wire.decode-encode_details;
  malformed = refl;
  invalid = ((tt, tt), refl);
}

sub_parts : (a : ℤ) → sub_ℕ (pos_part a) (neg_part a) ≡ a
sub_parts (pos n) = ground arith
sub_parts (negsuc n) = ground arith

pub payload_codec : IsPayloadCodec crates client
payload_codec time = rw (sub_parts (cast64 time)) refl

pub ttl_codec :
    (made : ℕ)
    → crates.decode_payload (client.encode_payload (ttl_payload made)) ≡ some (ttl_payload made)
ttl_codec made = rw (sub_parts (cast64 made)) refl
