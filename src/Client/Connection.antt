-- ===== src/Client/Connection.antt =====
-- The life of a client in iec61850/iec61850_client.go: `NewIedClient` with its options, `Connect`,
-- `State` and `Close`.
pub mod Quiet
pub mod Close
use go_libiec.Prelude.{ℕ, suc, String, Bool, false, Option, none, some, List, [], ◌∷◌, concat}
use go_libiec.Prelude.Int.{ℤ, pos, negsuc, div_trunc, low32}
use go_libiec.Itoa.{itoa}
use go_libiec.Constants.{ConnectionState, state_code, client_state}
use go_libiec.Client.Errors.{IedClientError, ok, already_connected, err}
use go_libiec.Control.{
  Event, create_connection, close_connection, destroy_connection, set_connect_timeout,
  set_request_timeout, connect, Client, clear_control_object_cache,
}

-- `IedClient`: its flag, and the cache of controls with the log of the calls.
pub record IedClient : Type 0 where
  pub without_timestamps : Bool
  pub control : Client

-- The answers of the library on the connection, which may depend on all the calls before.
pub record ConnectionApi : Type 0 where
  pub connected : List Event → String → ℕ → IedClientError
  pub get_state : List Event → ConnectionState

-- A call of the library on the connection.
abbrev pub call : Event → IedClient → IedClient
call e c = record c { control = record c.control { log = e ∷ c.control.log } }

unfoldable pub ied_connection_create : IedClient → IedClient
ied_connection_create c = call create_connection c

unfoldable pub ied_connection_close : IedClient → IedClient
ied_connection_close c = call close_connection c

unfoldable pub ied_connection_destroy : IedClient → IedClient
ied_connection_destroy c = call destroy_connection c

unfoldable pub ied_connection_set_connect_timeout : ℕ → IedClient → IedClient
ied_connection_set_connect_timeout ms c = call (set_connect_timeout ms) c

unfoldable pub ied_connection_set_request_timeout : ℕ → IedClient → IedClient
ied_connection_set_request_timeout ms c = call (set_request_timeout ms) c

-- `C.uint(timeout/1e6)`, of a `time.Duration` in nanoseconds.
unfoldable pub timeout_ms : ℤ → ℕ
timeout_ms timeout = low32 (div_trunc timeout 1000000)

-- The options that the package has: `ConnectTimeout`, `RequestTimeout` and `WithoutTimestamps`.
pub data ClientOption : Type 0 where
  connect_timeout request_timeout : ℤ → ClientOption
  without_timestamps : Bool → ClientOption

unfoldable pub apply_option : ClientOption → IedClient → IedClient
unfolding ied_connection_set_connect_timeout ied_connection_set_request_timeout timeout_ms
apply_option (connect_timeout t) c = ied_connection_set_connect_timeout (timeout_ms t) c
apply_option (request_timeout t) c = ied_connection_set_request_timeout (timeout_ms t) c
apply_option (without_timestamps flag) c = record c { without_timestamps = flag }

-- The loop over the options; a nil option is skipped.
unfoldable pub apply_options : List (Option ClientOption) → IedClient → IedClient
unfolding apply_option
apply_options [] c = c
apply_options (none ∷ os) c = apply_options os c
apply_options (some o ∷ os) c = apply_options os (apply_option o c)

-- A client before any call.
abbrev pub no_client : IedClient
no_client = record {
  without_timestamps = false;
  control = record { control_cache = none; log = [] };
}

-- `NewIedClient`
unfoldable pub new_ied_client : List (Option ClientOption) → IedClient
unfolding apply_options ied_connection_create
new_ied_client os = apply_options os (ied_connection_create no_client)

-- The verb `%d` of an `int`.
abbrev pub itoa_signed : ℤ → String
itoa_signed (pos n) = itoa n
itoa_signed (negsuc n) = concat ("-" ∷ itoa (suc n) ∷ [])

unfoldable pub connect_failed : String → ℤ → IedClientError → String
connect_failed host port e =
    concat
      ("failed to connect to " ∷ host ∷ ":" ∷ itoa_signed port ∷ ", clientError: " ∷ err e ∷ [])

-- The result of `Connect` for an answer of the library; `none` is nil.
unfoldable pub connect_result : String → ℤ → IedClientError → Option String
connect_result host port already_connected = none
connect_result host port ok = none
connect_result host port e = some (connect_failed host port e)

module _ (k : ConnectionApi) where
  -- The answer of `IedConnection_connect`, and the client after the call.
  unfoldable pub ied_connection_connect : String → ℕ → IedClient → IedClientError × IedClient
  ied_connection_connect host port c =
      let e = k.connected c.control.log host port in (e, call (connect host port e) c)

  -- `Connect`; the port is handed on as an `int32`.
  unfoldable pub connect_client : String → ℤ → IedClient → Option String × IedClient
  unfolding ied_connection_connect connect_result
  connect_client host port c =
      let (e, after) = ied_connection_connect host (low32 port) c in
      (connect_result host port e, after)

  unfoldable pub ied_connection_get_state : IedClient → ℕ
  ied_connection_get_state c = state_code (k.get_state c.control.log)

  -- `State`
  unfoldable pub state : IedClient → Option ConnectionState
  unfolding ied_connection_get_state
  state c = client_state (ied_connection_get_state c)

-- `Close`
unfoldable pub close : IedClient → IedClient
unfolding clear_control_object_cache ied_connection_close ied_connection_destroy
close c =
    ied_connection_destroy
      (ied_connection_close (record c { control = clear_control_object_cache c.control }))
