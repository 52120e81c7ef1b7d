-- ===== src/Server/Register/Order.antt =====
-- What the register of Server/Register keeps over any sequence of steps, one at a
-- time: the order of timestamps.
use keyserver_rust.Prelude.{
  ℕ, ◌≡◌, ◌≤◌, sym, ◌∙◌, ◌⊎◌, inl, inr, true, some, some-injective, arith, Bool-cases,
}
use keyserver_rust.Prelude.Bytes.{Bytes}
use keyserver_rust.Prelude.Int.{◌≤ℤ◌}
use keyserver_rust.Crates.{Crates}
use keyserver_rust.Crates.Laws.{RocksLaws, DigestLaws, CodecLaws}
use keyserver_rust.Db.{expired}
use keyserver_rust.Server.Integrity.{IsIntegral, Step, Reach, here, next, Reach-IsIntegral}
use keyserver_rust.Server.Register.{
  Registration, Change, keeps, lapses, renews, view, now_of, later_of,
}
use keyserver_rust.Server.Register.Refinement.{Step-Change}

module _ (x : Crates) (laws : RocksLaws x.rocks) where
  -- The key has an entry that is not older.
  abbrev pub HoldsNewer : x.Db → Bytes → Registration → Type 0
  HoldsNewer d k e =
      (e' : Registration) × (view x laws d k ≡ some e')
      × (e.payload.timestamp ≤ℤ e'.payload.timestamp)

  -- On the way from one database to another, an entry that is not older was held before a step at
  -- whose time it had expired.
  pub record HasLapsed (d d' : x.Db) (k : Bytes) (e : Registration) : Type 1 where
    pub before : x.Db
    pub after : x.Db
    pub there : Reach x laws d before
    pub step : Step x laws before after
    pub onwards : Reach x laws after d'
    pub entry : Registration
    pub held : view x laws before k ≡ some entry
    pub newer : e.payload.timestamp ≤ℤ entry.payload.timestamp
    pub time : ℕ
    pub past : time ≤ now_of x laws step
    pub old : expired entry.payload time ≡ true

  -- One change of a key that has a newer entry.
  changed_newer :
      (k : Bytes) (now later : ℕ) (d d' : x.Db) (e f : Registration)
      → Change x k now later (view x laws d k) (view x laws d' k)
      → view x laws d k ≡ some f
      → e.payload.timestamp ≤ℤ f.payload.timestamp
      → HoldsNewer d' k e ⊎ ((t : ℕ) × (t ≤ now) × (expired f.payload t ≡ true))
  changed_newer k now later d d' e f (keeps same) held newer = inl (f, same ∙ held, newer)
  changed_newer k now later d d' e f (lapses g t had past old gone) held newer =
      inr (t, past, cc (some-injective (sym had ∙ held), old))
  changed_newer k now later d d' e f (renews g has auth follows) held newer =
      elim (Bool-cases (expired f.payload now)) [
        | inl old ↦ inr (now, omega arith, old)
        | inr fresh ↦ inl (g, has, omega (arith, newer, (follows f held fresh).0))
      ]

  module _ (codec : CodecLaws x.codecs) (digests : DigestLaws x.hashes x.secp) where
    -- Over any sequence of requests, polls and compactions that run one at a time, each as a whole
    -- before the next, a key with an entry ends with one whose timestamp is not smaller, unless on
    -- the way an entry whose timestamp is not smaller was held and had expired at the time of a
    -- step. This says nothing of requests whose calls of the database interleave.
    pub Reach-HoldsNewer :
        (d d' : x.Db) (k : Bytes) (e : Registration)
        → IsIntegral x laws d
        → Reach x laws d d'
        → view x laws d k ≡ some e
        → HoldsNewer d' k e ⊎ HasLapsed d d' k e
    Reach-HoldsNewer d d' k e integral here held = inl (e, held, omega arith)
    Reach-HoldsNewer d d' k e integral (next {e = m} r step) held =
        elim (Reach-HoldsNewer d m k e integral r held) [
          | inr gap ↦ inr (record {
            before = gap.before;
            after = gap.after;
            there = gap.there;
            step = gap.step;
            onwards = next gap.onwards step;
            entry = gap.entry;
            held = gap.held;
            newer = gap.newer;
            time = gap.time;
            past = gap.past;
            old = gap.old;
          })
          | inl (f, has, newer) ↦
              elim (changed_newer k (now_of x laws step) (later_of x laws step) m d' e f
                (Step-Change x laws codec digests m d' k
                  (Reach-IsIntegral x laws codec digests d m integral r) step)
                has newer) [
                  | inl still ↦ inl still
                  | inr (t, past, old) ↦ inr (record {
                    before = m;
                    after = d';
                    there = r;
                    step = step;
                    onwards = here;
                    entry = f;
                    held = has;
                    newer = newer;
                    time = t;
                    past = past;
                    old = old;
                  })
                ]
        ]
