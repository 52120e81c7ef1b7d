-- ===== src/Tests/Concurrent.antt =====
-- Handlers of keys whose calls of the database interleave, at concrete inputs.
use keyserver_rust.Prelude.{
  ℕ, zero, suc, ◌<◌, ◌≤◌, length, arith, ◌≡◌, refl, true, false, some, none, List, [], ◌∷◌, done,
  fail, All, if◌then◌else◌,
}
use keyserver_rust.Prelude.Bytes.{bytes_eq}
use keyserver_rust.Prelude.Int.{pos, add64, cast64, ◌+ℤ◌}
use keyserver_rust.Models.{AddressMetadata, Payload, regtest}
use keyserver_rust.Http.{respond, status_ok}
use keyserver_rust.Errors.{validation, outdated, not_found}
use keyserver_rust.Db.{expired}
use keyserver_rust.Net.Keys.{get_key, put_key}
use keyserver_rust.Server.Integrity.{IsIntegral}
use keyserver_rust.Server.Concurrent.{
  Handler, ended, run, put_key_calls, get_key_calls, store_calls, next_call_at, interleave,
}
use keyserver_rust.Server.Concurrent.Alone.{run-handlers}
use keyserver_rust.Server.Concurrent.Safe.{IsSafe}
use keyserver_rust.Server.Concurrent.Integrity.{
  Together, begin, start, turn, put_started, get_started, Together-IsIntegral,
}
use keyserver_rust.Server.Concurrent.Fairness.{turns_of, IsAnswered, interleave-IsAnswered}
use keyserver_rust.Server.Concurrent.Overwritten.{put_race}
use keyserver_rust.Server.Concurrent.Dropped.{get_race}
use keyserver_rust.Tests.World.{Store, crates, codecs}
use keyserver_rust.Tests.Meets.{rocks_laws, codec_laws, digest_laws, healthy}
use keyserver_rust.Tests.Database.{key, metadata, payload, body, empty, empty-IsIntegral}

run-handlers_example :
    (run crates (put_key_calls crates key body 120 120) empty
      ≡ put_key crates key body 120 120 empty)
    × (run crates (get_key_calls crates key 120) empty ≡ get_key crates key 120 empty)
run-handlers_example = run-handlers crates key body 120 120 empty

-- A GET looks for the key between the two calls of a PUT.
abbrev handlers : List (Handler crates)
handlers = get_key_calls crates key 120 ∷ put_key_calls crates key body 120 120 ∷ []

abbrev looked : List (Handler crates) × Store
looked = next_call_at crates 1 handlers empty

abbrev between : List (Handler crates) × Store
between = next_call_at crates 0 looked.0 looked.1

abbrev stored : List (Handler crates) × Store
stored = next_call_at crates 1 between.0 between.1

together : Together crates rocks_laws empty stored.0 stored.1
together =
    turn
      (turn (turn (start (start begin (put_started key body 120 120)) (get_started key 120)) 1) 0) 1

Together-IsIntegral_example :
    All (IsSafe crates rocks_laws) stored.0 × IsIntegral crates rocks_laws stored.1
Together-IsIntegral_example =
    Together-IsIntegral crates rocks_laws codec_laws digest_laws empty stored.1 stored.0
      empty-IsIntegral together

abbrev schedule : List ℕ
schedule = 1 ∷ 0 ∷ 1 ∷ 0 ∷ 1 ∷ 0 ∷ []

fair : (j : ℕ) → j < length handlers → 3 ≤ turns_of j schedule
unfolding turns_of
fair zero below = omega arith
fair (suc zero) below = omega arith
fair (suc (suc j)) below = absurd (omega arith)

interleave-IsAnswered_example :
    All (IsAnswered crates) (interleave crates schedule handlers empty).0
    × IsIntegral crates rocks_laws (interleave crates schedule handlers empty).1
interleave-IsAnswered_example =
    interleave-IsAnswered crates rocks_laws codec_laws digest_laws schedule handlers empty
      empty-IsIntegral (get_started key 120, (put_started key body 120 120, tt)) fair

abbrev older : AddressMetadata
older = record metadata { serialized_payload = 99 ∷ 50 ∷ [] }

abbrev old_payload : Payload
old_payload = record payload { timestamp = pos 99 }

abbrev answered : Handler crates
answered = ended (done (respond status_ok []))

abbrev puts : List (Handler crates)
puts =
    store_calls crates (key, regtest) older old_payload 120 120
    ∷ store_calls crates (key, regtest) metadata payload 120 120
    ∷ []

live : expired payload 120 ≡ false
unfolding expired add64 cast64 ◌+ℤ◌
live = refl

dead : expired payload 151 ≡ true
unfolding expired add64 cast64 ◌+ℤ◌
dead = refl

put_race_example :
    ((interleave crates (1 ∷ 1 ∷ 0 ∷ []) puts empty).0
      ≡ ended (fail (validation outdated)) ∷ answered ∷ [])
    × ((interleave crates (1 ∷ 1 ∷ 0 ∷ []) puts empty).1 key
        ≡ some (codecs.encode_metadata metadata))
    × ((interleave crates (0 ∷ 1 ∷ 1 ∷ 0 ∷ []) puts empty).0 ≡ answered ∷ answered ∷ [])
    × ((interleave crates (0 ∷ 1 ∷ 1 ∷ 0 ∷ []) puts empty).1 key
        ≡ some (codecs.encode_metadata older))
put_race_example =
    put_race crates rocks_laws healthy (key, regtest) codec_laws older metadata old_payload payload
      120 120 120 120 empty refl refl refl live

-- A value that expires at 150 seconds.
abbrev held : Store
held k = if bytes_eq key k then some (codecs.encode_metadata metadata) else none

abbrev get_and_put : List (Handler crates)
get_and_put =
    get_key_calls crates key 151 ∷ store_calls crates (key, regtest) older old_payload 151 151 ∷ []

get_race_example :
    ((interleave crates (0 ∷ 0 ∷ 1 ∷ 1 ∷ []) get_and_put held).0
      ≡ ended (fail not_found) ∷ answered ∷ [])
    × ((interleave crates (0 ∷ 0 ∷ 1 ∷ 1 ∷ []) get_and_put held).1 key
        ≡ some (codecs.encode_metadata older))
    × ((interleave crates (0 ∷ 1 ∷ 1 ∷ 1 ∷ 0 ∷ []) get_and_put held).0
        ≡ ended (fail not_found) ∷ answered ∷ [])
    × ((interleave crates (0 ∷ 1 ∷ 1 ∷ 1 ∷ 0 ∷ []) get_and_put held).1 key ≡ none)
unfolding bytes_eq
get_race_example =
    get_race crates rocks_laws healthy (key, regtest) (codecs.encode_metadata metadata) metadata
      payload refl refl older old_payload key 151 151 151 held refl refl dead dead
