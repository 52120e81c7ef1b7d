-- ===== src/Db/Compaction.antt =====
-- Compaction of the database with the filter `ttl_filter` of src/db.rs.
use keyserver_rust.Prelude.{
  ℕ, ◌≡◌, ◌≤◌, ◌<◌, ◌^◌, sym, ap, ◌∙◌, ◌⊎◌, inl, inr, true, none, some, done, arith, Bool-cases,
  if◌then◌else◌,
}
use keyserver_rust.Prelude.Bytes.{Bytes}
use keyserver_rust.Crates.{Crates}
use keyserver_rust.Crates.Laws.{RocksLaws}
use keyserver_rust.Db.{expired, remove, keep, ttl_filter}
use keyserver_rust.Db.Contents.{IsStored, IsWellFormed, live, unexpired, unexpired_lem}
use keyserver_rust.Db.Expiry.{expired_mono}

module _ (x : Crates) where
  -- A stored value is decided without a panic: it is removed exactly if its payload has expired.
  ttl_filter_lem :
      (v : Bytes) (now : ℕ) (s : IsStored x v)
      → ttl_filter x v now ≡ done (if expired s.payload now then remove else keep)
  unfolding ttl_filter
  ttl_filter_lem v now s = rw (s.decoded, s.payload_decoded)

module _ (x : Crates) (laws : RocksLaws x.rocks) where
  open laws use {contents}

  -- A compaction that ends at a time keeps each value, or removes it at the filter's decision; it
  -- need not visit every key.
  abbrev pub IsCompacted : x.Db → x.Db → ℕ → Type 0
  IsCompacted d d' t =
      (k : Bytes)
      → (contents d' k ≡ contents d k)
        ⊎ ((v : Bytes) × (now : ℕ) × (contents d k ≡ some v)
            × (ttl_filter x v now ≡ done remove)
            × (now ≤ t)
            × (contents d' k ≡ none))

  pub removed-expired :
      (v : Bytes) (now : ℕ) (s : IsStored x v)
      → ttl_filter x v now ≡ done remove
      → expired s.payload now ≡ true
  removed-expired v now s e = elim (Bool-cases (expired s.payload now)) [
    | inl old ↦ old
    | inr fresh ↦ absurd (ground (arith, ttl_filter_lem x v now s, fresh))
  ]

  -- Compaction is not seen: what is live at its end, and at any later time that fits an `i64`, is
  -- what was live without it.
  pub live-compacted :
      (d d' : x.Db) (t later : ℕ) (k : Bytes)
      → IsWellFormed x laws d
      → IsCompacted d d' t
      → t ≤ later
      → later < 2 ^ 63
      → live x laws d' k later ≡ live x laws d k later
  unfolding unexpired
  live-compacted d d' t later k wf compacted h bound = elim (compacted k) [
    | inl same ↦ ap (unexpired x later) same
    | inr (v, now, found, decision, past, gone) ↦
        let s = wf k v found in
        let old : expired s.payload later ≡ true =
          expired_mono s.payload now later (omega arith) bound (removed-expired v now s decision) in
        ap (unexpired x later) gone
        ∙ sym (ap (unexpired x later) found ∙ unexpired_lem x later v s ∙ rw old)
  ]
