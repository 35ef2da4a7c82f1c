-- ===== src/Grpc/Client.antt =====
-- src/grpc/client.rs: the shared client. The network is the record `Network`: what a dial and what
-- an exchange of a request come to, each after the calls made so far. A connection is a number.
pub mod Status
pub mod Unary
pub mod Reply
pub mod Retry
use construct_tui.Prelude.{ℕ, ◌^◌, Bool, Option, none, some, List, [], ◌∷◌, ◌++◌, if◌then◌else◌}
use construct_tui.Prelude.Bytes.{Bytes, bytes, split_once}
use construct_tui.Prelude.Decimal.{show_uint, parse_uint}
use construct_tui.Prelude.Trim.{trim, trim_start_matches}
use construct_tui.Prelude.Try.{Result}
use construct_tui.Grpc.Error.{GrpcError}

pub record GrpcClient : Type 0 where
  pub host : Bytes
  pub port : ℕ
  pub session : Option ℕ
  pub token : Option Bytes
  pub device_id : Option Bytes

abbrev pub Headers : Type 0
Headers = List (Bytes × Bytes)

pub data Call : Type 0 where
  dial : (host : Bytes) (port : ℕ) → Call
  request : (connection : ℕ) (path authority : Bytes) (headers : Headers) (body : Bytes) → Call

pub record Response : Type 0 where
  pub status : ℕ
  pub status_text : Bytes
  pub headers : Headers

-- What the steps of one exchange come to; the text of an error is the library's. After the last
-- of `polls` the capacity gives `None`.
pub record Exchange : Type 0 where
  pub built : Result Bytes (Unit {0})
  pub started : Result Bytes (Unit {0})
  pub capacity : ℕ
  pub polls : List (Option (Result Bytes ℕ) × ℕ)
  pub sent : Result Bytes (Unit {0})
  pub ended : Result Bytes (Unit {0})
  pub response : Result Bytes Response
  pub chunks : List (Result Bytes Bytes)
  pub trailers : Option Headers

pub record Network : Type 0 where
  pub connect : List Call → Result GrpcError ℕ
  pub exchange : List Call → Exchange

-- What stands before the first of these bytes.
abbrev pub until : ℕ → Bytes → Bytes
until c s = elim (split_once c s) [ none ↦ s | some (front, rest) ↦ front ]

abbrev pub port_or_443 : Option ℕ → ℕ
port_or_443 none = 443
port_or_443 (some port) = port

unfoldable pub parse_server_url : Bytes → Bytes × ℕ
unfolding trim trim_start_matches split_once parse_uint
parse_server_url url =
    let rest =
      trim_start_matches (bytes "http://") (trim_start_matches (bytes "https://") (trim url)) in
    let hostport = until b'/' rest in
    elim (split_once b':' hostport) [
      | none ↦ (hostport, 443)
      | some (host, port) ↦ (host, port_or_443 (parse_uint (2 ^ 16) port))
    ]

abbrev client_at : Bytes × ℕ → GrpcClient
client_at (host, port) = record {
  host = host;
  port = port;
  session = none;
  token = none;
  device_id = none;
}

unfoldable pub new_client : Bytes → GrpcClient
unfolding parse_server_url
new_client server_url = client_at (parse_server_url server_url)

abbrev pub set_token : Option Bytes → GrpcClient → GrpcClient
set_token token c = record c { token = token }

abbrev pub set_device_id : Option Bytes → GrpcClient → GrpcClient
set_device_id device_id c = record c { device_id = device_id }

abbrev pub invalidate : GrpcClient → GrpcClient
invalidate c = record c { session = none }

unfoldable pub authority : GrpcClient → Bytes
unfolding show_uint
authority c = c.host ++ (b':' ∷ show_uint c.port)

abbrev optional_header : Bytes → Option Bytes → Headers
optional_header name none = []
optional_header name (some value) = (name, value) ∷ []

abbrev bearer : Option Bytes → Option Bytes
bearer none = none
bearer (some token) = some (bytes "Bearer " ++ token)

unfoldable pub apply_auth_headers : Headers → Option Bytes → Option Bytes → Headers
apply_auth_headers builder token device_id =
    builder
    ++ (((bytes "content-type", bytes "application/grpc")
          ∷ (bytes "te", bytes "trailers")
          ∷ (bytes "grpc-encoding", bytes "identity")
          ∷ (bytes "user-agent", bytes "konstruct-tui/0.2.0")
          ∷ [])
        ++ (optional_header (bytes "authorization") (bearer token)
            ++ optional_header (bytes "x-device-id") device_id))
