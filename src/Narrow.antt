-- ===== src/Narrow.antt =====
-- The conversions of numbers on the way into the library: the options and `Connect` of
-- iec61850/iec61850_client.go, `Start` and `UpdateUTCTimeAttributeValue` of
-- iec61850/iec61850_server.go, and `CreateDataObjectCDC_APC` of iec61850/model.go.
use go_libiec.Prelude.{ℕ, String, false, ◌∷◌, ◌≡◌, ◌↔◌, refl}
use go_libiec.Prelude.Int.{
  ℤ, pos, div_trunc, low32, low64, signed32, FitsUint32, FitsUint64, FitsInt32, low32_iff,
  low64_iff, signed32-low32_iff,
}
use go_libiec.Client.Errors.{IedClientError}
use go_libiec.Control.{set_connect_timeout, set_request_timeout, connect}
use go_libiec.Client.Connection.{
  IedClient, ConnectionApi, connect_timeout, request_timeout, timeout_ms, apply_option,
  connect_client,
}
use go_libiec.Server.Library.{Ptr, ServerApi, ServerState, listen, update_time, create_apc}
use go_libiec.Server.Model.{create_data_object_cdc_apc}
use go_libiec.Server.Ied.{start, update_utc_time_attribute_value}

-- A timeout reaches the library in whole milliseconds exactly when their number is from 0 to
-- 2 ^ 32 - 1. A port, of a client or of a server, reaches it exactly when it is an `int32`; the time of
-- an update and the control model of an APC object reach it exactly when they are not negative and
-- below 2 ^ 64 and 2 ^ 32. In each case one call is made, and it is the one with that number.
pub numbers_kept :
    (k : ConnectionApi) (a : ServerApi) (c : IedClient) (s : ServerState) (host : String)
    (p attr : Ptr) (z : ℤ)
    → ((ms : ℕ) × ((apply_option (connect_timeout z) c).control.log
          ≡ set_connect_timeout ms ∷ c.control.log)
        × ((pos ms ≡ div_trunc z 1000000) ↔ FitsUint32 (div_trunc z 1000000)))
      × ((ms : ℕ) × ((apply_option (request_timeout z) c).control.log
            ≡ set_request_timeout ms ∷ c.control.log)
          × ((pos ms ≡ div_trunc z 1000000) ↔ FitsUint32 (div_trunc z 1000000)))
      × ((port : ℕ) × (e : IedClientError) × ((connect_client k host z c).1.control.log
            ≡ connect host port e ∷ c.control.log)
          × ((signed32 port ≡ z) ↔ FitsInt32 z))
      × ((port : ℕ) × ((start p z s).requests ≡ listen p port ∷ s.requests)
          × ((signed32 port ≡ z) ↔ FitsInt32 z))
      × ((v : ℕ) × ((update_utc_time_attribute_value p attr z s).requests
            ≡ update_time p attr v ∷ s.requests)
          × ((pos v ≡ z) ↔ FitsUint64 z))
      × ((m : ℕ) × ((create_data_object_cdc_apc a p host z s).1.requests
            ≡ create_apc host p 0 m false ∷ s.requests)
          × ((pos m ≡ z) ↔ FitsUint32 z))
unfolding apply_option connect_client start update_utc_time_attribute_value
    create_data_object_cdc_apc
numbers_kept k a c s host p attr z = (
  (timeout_ms z, refl, low32_iff (div_trunc z 1000000)),
  (timeout_ms z, refl, low32_iff (div_trunc z 1000000)),
  (low32 z, k.connected c.control.log host (low32 z), refl, signed32-low32_iff z),
  (low32 z, refl, signed32-low32_iff z),
  (low64 z, refl, low64_iff z),
  (low32 z, refl, low32_iff z),
)
