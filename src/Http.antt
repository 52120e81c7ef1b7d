-- ===== src/Http.antt =====
-- The parts of actix-web's requests and responses that the program reads and builds.
use keyserver_rust.Prelude.{ℕ, Bool, true, false, Option, none, some, List, [], ◌∷◌, if◌then◌else◌}
use keyserver_rust.Prelude.Bytes.{Bytes}

pub data Method : Type 0 where
  put_method : Method
  other_method : Bytes → Method

-- The headers that the program looks up or sets.
pub data HeaderName : Type 0 where
  accept authorization content_type location pragma transfer_encoding : HeaderName

pub record Request : Type 0 where
  pub method : Method
  -- `headers().get(name)`
  pub header : HeaderName → Option Bytes
  -- `connection_info()`
  pub scheme : Bytes
  pub host : Bytes
  -- `uri().path()`, and the query string, at which the program does not look
  pub path : Bytes
  pub query : Option Bytes

pub record Response : Type 0 where
  pub status : ℕ
  pub headers : List (HeaderName × Bytes)
  pub body : Bytes

-- The statuses by the names of `HttpResponse`.
abbrev pub status_ok : ℕ
status_ok = 200

abbrev pub status_accepted : ℕ
status_accepted = 202

abbrev pub status_bad_request : ℕ
status_bad_request = 400

abbrev pub status_payment_required : ℕ
status_payment_required = 402

abbrev pub status_not_found : ℕ
status_not_found = 404

abbrev pub status_not_acceptable : ℕ
status_not_acceptable = 406

abbrev pub status_unsupported_media_type : ℕ
status_unsupported_media_type = 415

abbrev pub status_internal_server_error : ℕ
status_internal_server_error = 500

-- `HttpResponse::…().body(body)`
abbrev pub respond : ℕ → Bytes → Response
respond status body = record { status = status; headers = []; body = body }

-- The value that a response sets for a header.
unfoldable pub is_name : HeaderName → HeaderName → Bool
is_name accept accept = true
is_name authorization authorization = true
is_name content_type content_type = true
is_name location location = true
is_name pragma pragma = true
is_name transfer_encoding transfer_encoding = true
is_name _ _ = false

unfoldable pub find_header : HeaderName → List (HeaderName × Bytes) → Option Bytes
unfolding is_name
find_header name [] = none
find_header name ((n, v) ∷ hs) = if is_name n name then some v else find_header name hs
