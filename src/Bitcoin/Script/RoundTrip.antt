-- ===== src/Bitcoin/Script/RoundTrip.antt =====
-- The scripts that `generate_outputs` builds are read back by the extractors of src/bitcoin/mod.rs.
use keyserver_rust.Prelude.{
  ℕ, ◌+◌, ◌≤◌, ◌≡◌, ◌≢◌, ◌↔◌, true, none, some, List, [], arith, leb, map, if◌then◌else◌, length,
  get_or, ap, ◌∙◌, refl,
}
use keyserver_rust.Prelude.Bytes.{Bytes}
use keyserver_rust.Prelude.Utf8.{is_utf8}
use keyserver_rust.Models.{Output}
use keyserver_rust.Crates.{CashAddr}
use keyserver_rust.Bitcoin.Network.{into_addr_network}
use keyserver_rust.Settings.{Settings}
use keyserver_rust.Bitcoin.Script.{
  extract_pubkey_hash, own_url, parse_host, extract_op_return, generate_outputs, op_return_length,
}
use keyserver_rust.Bitcoin.Script.Shape.{
  extract_pubkey_hash-p2pkh, extract_op_return-announcement, announcement, extract_op_return_iff,
}

-- The script of an output by its position.
abbrev pub script_of : ℕ → List Output → Bytes
script_of i outputs = get_or (map (λ o. o.script) outputs) i []

-- The first output that is generated for a 20-byte hash pays to that hash.
pub extract_pubkey_hash-generate :
    (pk url body : Bytes)
    → length pk ≡ 20
    → extract_pubkey_hash (script_of 0 (generate_outputs pk url body)) ≡ some pk
unfolding generate_outputs
extract_pubkey_hash-generate pk url body n = extract_pubkey_hash-p2pkh pk n

op_return_length-eq_iff :
    (url : Bytes) → (op_return_length url ≡ 29 + length url) ↔ (length url ≤ 226)
unfolding op_return_length
op_return_length-eq_iff url = (λ e. omega arith, λ h. omega arith)

module _ (c : CashAddr) (settings : Settings) where
  -- What the second output's script is read as.
  announced :
      (pk url body : Bytes)
      → length body ≡ 20
      → extract_op_return c settings (script_of 1 (generate_outputs pk url body)) ≡ (
          if leb (length url) 0
          then none
          else if leb 227 (length url)
          then none
          else parse_host c settings (script_of 1 (generate_outputs pk url body)) url)
  unfolding generate_outputs
  announced pk url body n =
      extract_op_return-announcement c settings (op_return_length url) body url n
      ∙ ground (arith, op_return_length-eq_iff url)

  announced_short :
      (pk url body : Bytes) (a : c.Address)
      → length body ≡ 20
      → extract_op_return c settings (script_of 1 (generate_outputs pk url body)) ≡ some (url, a)
      → length url ≤ 226
  announced_short pk url body a n e = ground (arith, announced pk url body n)

  announced_shape :
      (pk url body : Bytes)
      → length url ≤ 226
      → script_of 1 (generate_outputs pk url body) ≡ announcement (29 + length url) body url
  unfolding generate_outputs
  announced_shape pk url body h =
      ap (λ n. announcement n body url) ((op_return_length-eq_iff url).1 h)

  -- The second output that is generated for a host and a body of 20 bytes is read back as that
  -- host and the body's address exactly if the host is UTF-8, has 1 to 226 bytes and is not the
  -- reading server's own.
  pub extract_op_return-generate_iff :
      (pk url body : Bytes)
      → length body ≡ 20
      → (extract_op_return c settings (script_of 1 (generate_outputs pk url body))
          ≡ some (url, c.address body (into_addr_network settings.network)))
        ↔ ((1 ≤ length url)
            × (length url ≤ 226)
            × (is_utf8 url ≡ true)
            × (url ≢ own_url c settings))
  extract_op_return-generate_iff pk url body n = (
    λ e.
        let short = announced_short pk url body _ n e in
        let (_, _, _, some_host, utf8, other, _) = (extract_op_return_iff c settings _ url _).0 e in
        (some_host, short, utf8, other),
    λ (some_host, short, utf8, other).
        (extract_op_return_iff c settings _ url _).1
          (body, announced_shape pk url body short, n, some_host, utf8, other, refl),
  )
