-- ===== src/Tests/Server.antt =====
-- The theorems on iec61850/model.go and iec61850/iec61850_server.go, and those on numbers, with a small
-- library.
use go_libiec.Prelude.{
  ℕ, true, false, Option, none, some, List, [], ◌∷◌, ◌++◌, length, ◌≡◌, ◌↔◌, refl,
}
use go_libiec.Prelude.Int.{pos, div_trunc, FitsUint32, FitsUint64, FitsInt32, signed32}
use go_libiec.Client.Errors.{IedClientError}
use go_libiec.Control.{connect, set_connect_timeout, set_request_timeout}
use go_libiec.Client.Connection.{
  connect_timeout, request_timeout, new_ied_client, apply_option, connect_client,
}
use go_libiec.Server.Library.{
  ServerApi, ServerState, data_attribute_model_type, listen, update_time, create_apc,
}
use go_libiec.Server.Model.{create_data_object_cdc_apc, get_child, set_trigger_options}
use go_libiec.Server.Ied.{start, update_utc_time_attribute_value}
use go_libiec.Server.Strings.{
  Operation, model, device, node, child, trigger, set, control_block, visible_string, perform_all,
  kept_by, perform_all-keeps,
}
use go_libiec.Narrow.{numbers_kept}
use go_libiec.Tests.Connection.{reachable, options}

-- Every node has the number of calls before it, and is an attribute.
abbrev attributes : ServerApi
attributes = record {
  answer = λ log r. some (length log);
  running = λ log p. true;
  model_type = λ log p. data_attribute_model_type;
}

abbrev fresh : ServerState
fresh = record { strings = record { next = 0; live = [] }; requests = [] }

abbrev construction : List Operation
construction =
    model "IED"
    ∷ device (some 0) "LD"
    ∷ node (some 1) "LLN0"
    ∷ child (some 2) "stVal"
    ∷ trigger (some 3) 1
    ∷ set (some 2) "DS1"
    ∷ control_block (some 2) "urcb01" "" false "DS1" 1 1 0 0 0
    ∷ visible_string (some 4) (some 3) "on"
    ∷ []

-- The state that the construction leads to.
abbrev or_fresh : Option ServerState → ServerState
or_fresh none = fresh
or_fresh (some s) = s

abbrev constructed : ServerState
constructed = or_fresh (perform_all attributes construction fresh)

constructed_lem : perform_all attributes construction fresh ≡ some constructed
unfolding perform_all get_child set_trigger_options
constructed_lem = refl

perform_all-keeps_example :
    (bs : List ℕ) × (constructed.strings.live ≡ bs ++ []) × (length bs ≡ kept_by construction)
perform_all-keeps_example =
    perform_all-keeps attributes construction fresh constructed constructed_lem

numbers_kept_example :
    ((ms : ℕ) × ((apply_option (connect_timeout (pos 70_000)) (new_ied_client options)).control.log
        ≡ set_connect_timeout ms ∷ (new_ied_client options).control.log)
      × ((pos ms ≡ div_trunc (pos 70_000) 1000000) ↔ FitsUint32 (div_trunc (pos 70_000) 1000000)))
    × ((ms : ℕ) × ((apply_option
            (request_timeout (pos 70_000))
            (new_ied_client options)).control.log
          ≡ set_request_timeout ms ∷ (new_ied_client options).control.log)
        × ((pos ms ≡ div_trunc (pos 70_000) 1000000) ↔ FitsUint32 (div_trunc (pos 70_000) 1000000)))
    × ((port : ℕ) × (e : IedClientError) × ((connect_client reachable "IED"
            (pos 70_000)
            (new_ied_client options)).1.control.log
          ≡ connect "IED" port e ∷ (new_ied_client options).control.log)
        × ((signed32 port ≡ pos 70_000) ↔ FitsInt32 (pos 70_000)))
    × ((port : ℕ) × ((start (some 4) (pos 70_000) fresh).requests ≡ listen (some 4) port ∷ [])
        × ((signed32 port ≡ pos 70_000) ↔ FitsInt32 (pos 70_000)))
    × ((v : ℕ) × ((update_utc_time_attribute_value (some 4) (some 3) (pos 70_000) fresh).requests
          ≡ update_time (some 4) (some 3) v ∷ [])
        × ((pos v ≡ pos 70_000) ↔ FitsUint64 (pos 70_000)))
    × ((m : ℕ) × ((create_data_object_cdc_apc attributes
            (some 4)
            "IED"
            (pos 70_000)
            fresh).1.requests
          ≡ create_apc "IED" (some 4) 0 m false ∷ [])
        × ((pos m ≡ pos 70_000) ↔ FitsUint32 (pos 70_000)))
numbers_kept_example =
    numbers_kept reachable attributes (new_ied_client options) fresh "IED" (some 4) (some 3)
      (pos 70_000)
