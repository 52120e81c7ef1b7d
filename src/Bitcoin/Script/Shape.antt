-- ===== src/Bitcoin/Script/Shape.antt =====
-- Which scripts `extract_pubkey_hash` and `extract_op_return` of src/bitcoin/mod.rs accept.
use keyserver_rust.Prelude.{
  ℕ, ◌+◌, ◌≤◌, ◌≡◌, ◌≢◌, ◌↔◌, refl, sym, ap, ◌∙◌, true, none, some, [], ◌∷◌, ◌++◌, arith, not, leb,
  ◌==◌, if◌then◌else◌, length, get_or, take, drop, length-append, take-append, drop-append,
  length-take, length-drop, take_all, drop-drop, cut, take-append-drop, ◌-◌,
}
use keyserver_rust.Prelude.Bytes.{Bytes, bytes_eq_iff, bytes_eq_refl, slice}
use keyserver_rust.Prelude.Utf8.{is_utf8, from_utf8}
use keyserver_rust.Crates.{CashAddr}
use keyserver_rust.Bitcoin.Network.{into_addr_network}
use keyserver_rust.Settings.{Settings}
use keyserver_rust.Bitcoin.Script.{
  p2pkh_pre, p2pkh_post, extract_pubkey_hash, keyserver_prefix, own_url, parse_host,
  extract_op_return,
}

-- The script that pays to a public key hash.
abbrev pub p2pkh : Bytes → Bytes
p2pkh h = p2pkh_pre ++ (h ++ p2pkh_post)

pub extract_pubkey_hash-p2pkh : (h : Bytes) → length h ≡ 20 → extract_pubkey_hash (p2pkh h) ≡ some h
unfolding extract_pubkey_hash
extract_pubkey_hash-p2pkh h n =
    rw (drop-append 20 h p2pkh_post n, take-append 20 h p2pkh_post n)
      (ground
        (arith, length-append h p2pkh_post, bytes_eq_refl p2pkh_pre, bytes_eq_refl p2pkh_post))

-- The three tests, read off a success.
extract_pubkey_hash_tests :
    (s h : Bytes)
    → extract_pubkey_hash s ≡ some h
    → (length s ≡ 25)
      × (slice 0 3 s ≡ p2pkh_pre)
      × (slice 23 25 s ≡ p2pkh_post)
      × (slice 3 23 s ≡ h)
unfolding extract_pubkey_hash
extract_pubkey_hash_tests s h e =
    ground (arith, bytes_eq_iff (slice 0 3 s) p2pkh_pre, bytes_eq_iff (slice 23 25 s) p2pkh_post)

p2pkh-eq_of_tests :
    (s h : Bytes)
    → length s ≡ 25
    → take 3 s ≡ p2pkh_pre
    → take 2 (drop 23 s) ≡ p2pkh_post
    → take 20 (drop 3 s) ≡ h
    → s ≡ p2pkh h
p2pkh-eq_of_tests s h n pre post mid =
    cut 3 20 23 s refl
    ∙ ap (λ t. t ++ (take 20 (drop 3 s) ++ drop 23 s)) pre
    ∙ ap (λ t. p2pkh_pre ++ (t ++ drop 23 s)) mid
    ∙ ap (λ t. p2pkh_pre ++ (h ++ t))
        (sym (take_all 2 (drop 23 s) (omega (arith, length-drop 23 s))) ∙ post)

-- A script yields a hash exactly if it is the 25-byte script that pays to that hash of 20 bytes.
pub extract_pubkey_hash_iff :
    (s h : Bytes) → (extract_pubkey_hash s ≡ some h) ↔ ((s ≡ p2pkh h) × (length h ≡ 20))
extract_pubkey_hash_iff s h = (
  λ e.
      let (n, pre, post, mid) = extract_pubkey_hash_tests s h e in
      (
        p2pkh-eq_of_tests s h n pre post mid,
        sym (ap length mid) ∙ length-take 20 (drop 3 s) (omega (arith, length-drop 3 s)),
      ),
  λ (e, n). ap extract_pubkey_hash e ∙ extract_pubkey_hash-p2pkh h n,
)

-- The announcement of a host for an address, with a given length byte.
abbrev pub announcement : ℕ → Bytes → Bytes → Bytes
announcement n body host = (106 ∷ n ∷ []) ++ (keyserver_prefix ++ (body ++ host))

module _ (c : CashAddr) (settings : Settings) where
  -- What an accepted announcement is.
  abbrev pub IsAnnouncement : Bytes → Bytes → c.Address → Type 0
  IsAnnouncement s u a =
      (body : Bytes) × (s ≡ announcement (29 + length u) body u)
      × (length body ≡ 20)
      × (1 ≤ length u)
      × (is_utf8 u ≡ true)
      × (u ≢ own_url c settings)
      × (a ≡ c.address body (into_addr_network settings.network))

  parse_host_tests :
      (s r u : Bytes) (a : c.Address)
      → parse_host c settings s r ≡ some (u, a)
      → (r ≡ u)
        × (is_utf8 u ≡ true)
        × (u ≢ own_url c settings)
        × (a ≡ c.address (slice 11 31 s) (into_addr_network settings.network))
  unfolding parse_host from_utf8
  parse_host_tests s r u a e = ground (arith, bytes_eq_iff r (own_url c settings))

  parse_host-eq :
      (s u : Bytes)
      → is_utf8 u ≡ true
      → u ≢ own_url c settings
      → parse_host c settings s u
        ≡ some (u, c.address (slice 11 31 s) (into_addr_network settings.network))
  unfolding parse_host from_utf8
  parse_host-eq s u h k = ground (arith, bytes_eq_iff u (own_url c settings))

  extract_op_return_tests :
      (s u : Bytes) (a : c.Address)
      → extract_op_return c settings s ≡ some (u, a)
      → (32 ≤ length s)
        × (get_or s 0 0 ≡ 106)
        × (get_or s 1 0 + 2 ≡ length s)
        × (slice 2 11 s ≡ keyserver_prefix)
        × (parse_host c settings s (drop 31 s) ≡ some (u, a))
  unfolding extract_op_return
  extract_op_return_tests s u a e = ground (arith, bytes_eq_iff (slice 2 11 s) keyserver_prefix)

take_two : (s : Bytes) → 2 ≤ length s → take 2 s ≡ get_or s 0 0 ∷ get_or s 1 0 ∷ []
take_two [] h = absurd (omega arith)
take_two (x ∷ []) h = absurd (omega arith)
take_two (x ∷ y ∷ s) h = refl

-- A long enough script with the prefix, cut into the parts of an announcement.
announcement-eq_of_tests :
    (s u : Bytes)
    → 32 ≤ length s
    → get_or s 0 0 ≡ 106
    → slice 2 11 s ≡ keyserver_prefix
    → drop 31 s ≡ u
    → s ≡ announcement (get_or s 1 0) (slice 11 31 s) u
announcement-eq_of_tests s u n op prefix host =
    cut 2 9 11 s refl
    ∙ ap (λ t. t ++ (take 9 (drop 2 s) ++ drop 11 s))
        (take_two s (omega arith) ∙ ap (λ t. t ∷ get_or s 1 0 ∷ []) op)
    ∙ ap (λ t. (106 ∷ get_or s 1 0 ∷ []) ++ (t ++ drop 11 s)) prefix
    ∙ ap (λ t. (106 ∷ get_or s 1 0 ∷ []) ++ (keyserver_prefix ++ t))
        (sym (take-append-drop 20 (drop 11 s))
          ∙ ap (λ t. take 20 (drop 11 s) ++ t) (drop-drop 11 20 31 s refl ∙ host))

module _ (c : CashAddr) (settings : Settings) where
  -- What the tests make of an announcement.
  pub extract_op_return-announcement :
      (n : ℕ) (body u : Bytes)
      → length body ≡ 20
      → extract_op_return c settings (announcement n body u) ≡ (
          if leb (length u) 0
          then none
          else if not (n == 29 + length u)
          then none
          else parse_host c settings (announcement n body u) u)
  unfolding extract_op_return
  extract_op_return-announcement n body u h =
      rw (drop-append 20 body u h)
        (ground (arith, length-append body u, bytes_eq_refl keyserver_prefix))

  IsAnnouncement-sound :
      (s u : Bytes) (a : c.Address)
      → extract_op_return c settings s ≡ some (u, a)
      → IsAnnouncement c settings s u a
  IsAnnouncement-sound s u a e =
      let (n, op, len, prefix, found) = extract_op_return_tests c settings s u a e in
      let (host, utf8, other, addr) = parse_host_tests c settings s (drop 31 s) u a found in
      let count : length (drop 31 s) ≡ length s - 31 = length-drop 31 s in
      let size : length (drop 31 s) ≡ length u = ap length host in
      (
        slice 11 31 s,
        announcement-eq_of_tests s u n op prefix host
            ∙ ap (λ t. announcement t (slice 11 31 s) u) (omega arith),
        length-take 20 (drop 11 s) (omega (arith, length-drop 11 s)),
        omega arith,
        utf8,
        other,
        addr,
      )

  IsAnnouncement-complete :
      (s u : Bytes) (a : c.Address)
      → IsAnnouncement c settings s u a
      → extract_op_return c settings s ≡ some (u, a)
  IsAnnouncement-complete s u a (body, shape, size, some_host, utf8, other, addr) =
      ap (extract_op_return c settings) shape
      ∙ extract_op_return-announcement (29 + length u) body u size
      ∙ rw
          (
            parse_host-eq c settings (announcement (29 + length u) body u) u utf8 other,
            take-append 20 body u size,
            ← addr,
          )
          (ground arith)

  -- A script is accepted with a host and an address exactly if it is the announcement of that host
  -- and of a body of 20 bytes, the length byte is 29 plus the host's length, the host is UTF-8, not
  -- empty and not this server's own, and the address is that body on the configured network.
  pub extract_op_return_iff :
      (s u : Bytes) (a : c.Address)
      → (extract_op_return c settings s ≡ some (u, a)) ↔ IsAnnouncement c settings s u a
  extract_op_return_iff s u a = (IsAnnouncement-sound s u a, IsAnnouncement-complete s u a)
