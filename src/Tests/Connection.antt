-- ===== src/Tests/Connection.antt =====
-- The theorems on the life of a client and on single reads (iec61850/iec61850_client.go), and on
-- numbers, with a small library.
use go_libiec.Prelude.{true, false, Option, none, some, List, [], ◌∷◌, ◌≡◌, refl}
use go_libiec.Prelude.Int.{pos}
use go_libiec.CStrings.{CHeap}
use go_libiec.Constants.{state_connected}
use go_libiec.Client.Errors.{ok, timeout}
use go_libiec.Control.{Event, close_connection, destroy_connection, direct_with_normal_security}
use go_libiec.Control.Balance.{control_handle, tally, opened, closed}
use go_libiec.Client.Connection.{
  IedClient, ConnectionApi, ClientOption, connect_timeout, without_timestamps, new_ied_client,
  connect_client, close,
}
use go_libiec.Client.Connection.Quiet.{ended}
use go_libiec.Client.Connection.Close.{Reach, start, later, connecting, operating, close-released}
use go_libiec.Client.Reads.{
  ReadApi, float64_of_float, read_boolean, read_float, read_string, read_int32, read_int64,
  read_unsigned32,
}
use go_libiec.Client.Reads.Answers.{Answered, reads-Answered}
use go_libiec.Tests.Control.{switches}

-- Every server can be reached.
abbrev pub reachable : ConnectionApi
reachable = record { connected = λ log host port. ok; get_state = λ log. state_connected }

abbrev pub options : List (Option ClientOption)
options = some (connect_timeout (pos 5_000_000_000)) ∷ none ∷ some (without_timestamps true) ∷ []

abbrev connected_client : IedClient
connected_client = (connect_client reachable "127.0.0.1" (pos 102) (new_ied_client options)).1

-- The client after one operate.
abbrev used_client : IedClient
used_client = record connected_client {
  control =
      (direct_with_normal_security switches "LD/GGIO1.SPCSO1" true connected_client.control).1;
}

used : Reach switches reachable used_client
used =
    later (later (start options) (connecting (new_ied_client options) "127.0.0.1" (pos 102)))
      (operating connected_client "LD/GGIO1.SPCSO1" true)

close-released_example :
    (log : List Event) × ((close used_client).control.log
      ≡ destroy_connection ∷ close_connection ∷ log)
    × (ended log ≡ 0)
    × (tally (opened (control_handle 3)) log ≡ tally (closed (control_handle 3)) log)
    × ((close used_client).control.control_cache ≡ none)
close-released_example = close-released switches reachable (control_handle 3) used

-- A server with a string, where all else times out.
abbrev one_string : ReadApi
one_string = record {
  read_boolean_value = λ ref fc. (timeout, false);
  read_float_value = λ ref fc. (ok, 0x3fc0_0000);
  read_string_value = λ ref fc. (ok, some "vendor");
  read_int32_value = λ ref fc. (timeout, 0);
  read_int64_value = λ ref fc. (timeout, 0);
  read_unsigned32_value = λ ref fc. (timeout, 0);
}

abbrev one_buffer : CHeap
one_buffer = record { next = 4; live = 3 ∷ [] }

reads-Answered_example :
    (Answered "LD/LLN0.NamPlt.vendor" false timeout false
        (read_boolean one_string "LD/LLN0.NamPlt.vendor" (pos 5) one_buffer).0
      × ((read_boolean one_string "LD/LLN0.NamPlt.vendor" (pos 5) one_buffer).1.live ≡ 3 ∷ []))
    × (Answered "LD/LLN0.NamPlt.vendor" 0 ok
          (float64_of_float 0x3fc0_0000)
          (read_float one_string "LD/LLN0.NamPlt.vendor" (pos 5) one_buffer).0
        × ((read_float one_string "LD/LLN0.NamPlt.vendor" (pos 5) one_buffer).1.live ≡ 3 ∷ []))
    × (Answered "LD/LLN0.NamPlt.vendor" "" ok "vendor"
          (read_string one_string "LD/LLN0.NamPlt.vendor" (pos 5) one_buffer).0
        × ((read_string one_string "LD/LLN0.NamPlt.vendor" (pos 5) one_buffer).1.live ≡ 5 ∷ 3 ∷ []))
    × (Answered "LD/LLN0.NamPlt.vendor" 0 timeout 0
          (read_int32 one_string "LD/LLN0.NamPlt.vendor" (pos 5) one_buffer).0
        × ((read_int32 one_string "LD/LLN0.NamPlt.vendor" (pos 5) one_buffer).1.live ≡ 3 ∷ []))
    × (Answered "LD/LLN0.NamPlt.vendor" 0 timeout 0
          (read_int64 one_string "LD/LLN0.NamPlt.vendor" (pos 5) one_buffer).0
        × ((read_int64 one_string "LD/LLN0.NamPlt.vendor" (pos 5) one_buffer).1.live ≡ 3 ∷ []))
    × (Answered "LD/LLN0.NamPlt.vendor" 0 timeout 0
          (read_unsigned32 one_string "LD/LLN0.NamPlt.vendor" (pos 5) one_buffer).0
        × ((read_unsigned32 one_string "LD/LLN0.NamPlt.vendor" (pos 5) one_buffer).1.live ≡ 3 ∷ []))
reads-Answered_example = reads-Answered one_string "LD/LLN0.NamPlt.vendor" (pos 5) one_buffer

-- 1.5, -2 and the smallest subnormal number.
floats :
    (float64_of_float 0x3fc0_0000 ≡ 0x3ff8_0000_0000_0000)
    × (float64_of_float 0xc000_0000 ≡ 0xc000_0000_0000_0000)
    × (float64_of_float 1 ≡ 0x36a0_0000_0000_0000)
unfolding float64_of_float
floats = (refl, refl, refl)
