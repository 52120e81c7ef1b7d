-- ===== src/Db/Expiry.antt =====
-- When `expired` of src/db.rs says that a payload has expired.
use keyserver_rust.Prelude.{ℕ, ◌+◌, ◌≤◌, ◌<◌, ◌^◌, ◌≡◌, ◌↔◌, true, arith}
use keyserver_rust.Prelude.Int.{
  ℤ, pos, ◌+ℤ◌, ◌<ℤ◌, ltb_ℤ, IsI64, add64, add64-eq, cast64-eq, add64_overflow,
}
use keyserver_rust.Models.{Payload}
use keyserver_rust.Db.{expired}

ltb_ℤ_iff : (a b : ℤ) → (ltb_ℤ a b ≡ true) ↔ (a <ℤ b)
ltb_ℤ_iff a b = ground arith

-- Where the sum of timestamp and time to live fits an `i64` and so does the clock, a payload has
-- expired exactly if that sum is before the clock's reading.
pub expired_iff :
    (p : Payload) (now : ℕ)
    → IsI64 p.timestamp
    → IsI64 p.ttl
    → IsI64 (p.timestamp +ℤ p.ttl)
    → now < 2 ^ 63
    → (expired p now ≡ true) ↔ (p.timestamp +ℤ p.ttl <ℤ pos now)
unfolding expired
expired_iff p now ht hl hs hn =
    rw (add64-eq p.timestamp p.ttl ht hl hs, cast64-eq now hn)
      (ltb_ℤ_iff (p.timestamp +ℤ p.ttl) (pos now))

-- Where a non-negative timestamp and time to live sum past the range of an `i64`, the release
-- build's sum wraps to a negative number, and the payload counts as expired at every time that
-- fits an `i64`.
pub expired_overflow :
    (p : Payload) (t l now : ℕ)
    → p.timestamp ≡ pos t
    → p.ttl ≡ pos l
    → t < 2 ^ 63
    → l < 2 ^ 63
    → 2 ^ 63 ≤ t + l
    → now < 2 ^ 63
    → expired p now ≡ true
unfolding expired
expired_overflow p t l now et el ht hl hs hn =
    rw (et, el, cast64-eq now hn)
      ((ltb_ℤ_iff (add64 (pos t) (pos l)) (pos now)).1 (omega (arith, add64_overflow t l ht hl hs)))

-- As the clock goes on, what has expired stays expired.
pub expired_mono :
    (p : Payload) (now later : ℕ)
    → now ≤ later
    → later < 2 ^ 63
    → expired p now ≡ true
    → expired p later ≡ true
unfolding expired
expired_mono p now later h hl e = rw (cast64-eq later hl) (
    (ltb_ℤ_iff (add64 p.timestamp p.ttl) (pos later)).1 (
      omega (
        arith,
        (ltb_ℤ_iff (add64 p.timestamp p.ttl) (pos now)).0 (rw (cast64-eq now (omega arith)) at e),
      )))
