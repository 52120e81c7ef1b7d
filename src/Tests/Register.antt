-- ===== src/Tests/Register.antt =====
-- The register that the database implements, at concrete steps.
use keyserver_rust.Prelude.{◌≡◌, refl, ◌⊎◌, some}
use keyserver_rust.Prelude.Bytes.{bytes_eq}
use keyserver_rust.Prelude.Int.{add64, cast64}
use keyserver_rust.Crypto.{validate, deserialize_public_key, deserialize_signature, verify}
use keyserver_rust.Db.{expired, get, put, check_timestamp}
use keyserver_rust.Net.Keys.{put_key}
use keyserver_rust.Server.Integrity.{IsIntegral, Step, putting, here, next, Reach-IsIntegral}
use keyserver_rust.Server.Register.{Registration, Change, entry, view, now_of, later_of}
use keyserver_rust.Server.Register.Refinement.{Step-Change}
use keyserver_rust.Server.Register.Order.{HoldsNewer, HasLapsed, Reach-HoldsNewer}
use keyserver_rust.Tests.World.{Store, crates}
use keyserver_rust.Tests.Meets.{digest_laws, rocks_laws, codec_laws}
use keyserver_rust.Tests.Database.{key, metadata, payload, body, empty, empty-IsIntegral}

abbrev once : Store
once = (put_key crates key body 120 120 empty).1

abbrev twice : Store
twice = (put_key crates key body 130 130 once).1

first_put : Step crates rocks_laws empty once
first_put = putting key body 120 120 refl

Step-Change_example :
    Change crates key 120 120 (view crates rocks_laws empty key) (view crates rocks_laws once key)
unfolding now_of later_of
Step-Change_example =
    Step-Change crates rocks_laws codec_laws digest_laws empty once key empty-IsIntegral
      (putting key body 120 120 refl)

once-IsIntegral : IsIntegral crates rocks_laws once
once-IsIntegral =
    Reach-IsIntegral crates rocks_laws codec_laws digest_laws empty once empty-IsIntegral
      (next here first_put)

abbrev registration : Registration
registration = record { metadata = metadata; payload = payload }

once_holds : view crates rocks_laws once key ≡ some registration
unfolding put_key validate deserialize_public_key deserialize_signature verify check_timestamp get
    put expired add64 cast64 bytes_eq entry
once_holds = refl

Reach-HoldsNewer_example :
    HoldsNewer crates rocks_laws twice key registration
    ⊎ HasLapsed crates rocks_laws once twice key registration
Reach-HoldsNewer_example =
    Reach-HoldsNewer crates rocks_laws codec_laws digest_laws once twice key registration
      once-IsIntegral (next here (putting key body 130 130 refl)) once_holds
