-- ===== src/Server/Ied.antt =====
-- iec61850/iec61850_server.go: the server, and the updates of its data model.
use go_libiec.Prelude.{ℕ, String, Bool}
use go_libiec.Prelude.Int.{ℤ, low32, low64}
use go_libiec.Server.Library.{
  Ptr, ServerApi, ServerState, ied_server_create, ied_server_start, ied_server_is_running,
  ied_server_stop, ied_server_destroy, ied_server_lock_data_model, ied_server_unlock_data_model,
  ied_server_update_utc_time_attribute_value, ied_server_update_float_attribute_value,
  ied_server_update_int32_attribute_value, ied_server_update_visible_string_attribute_value,
}
use go_libiec.Server.Model.{c_string_kept}

module _ (a : ServerApi) where
  unfoldable pub new_ied_server : Ptr → ServerState → Ptr × ServerState
  unfolding ied_server_create
  new_ied_server model = ied_server_create a model

  unfoldable pub is_running : Ptr → ServerState → Bool × ServerState
  unfolding ied_server_is_running
  is_running server = ied_server_is_running a server

-- The port is an `int`, handed on as an `int32`.
unfoldable pub start : Ptr → ℤ → ServerState → ServerState
unfolding ied_server_start
start server port = ied_server_start server (low32 port)

unfoldable pub stop : Ptr → ServerState → ServerState
unfolding ied_server_stop
stop server = ied_server_stop server

unfoldable pub destroy : Ptr → ServerState → ServerState
unfolding ied_server_destroy
destroy server = ied_server_destroy server

unfoldable pub lock_data_model : Ptr → ServerState → ServerState
unfolding ied_server_lock_data_model
lock_data_model server = ied_server_lock_data_model server

unfoldable pub unlock_data_model : Ptr → ServerState → ServerState
unfolding ied_server_unlock_data_model
unlock_data_model server = ied_server_unlock_data_model server

-- `C.uint64_t(value)` of an `int64`.
unfoldable pub update_utc_time_attribute_value : Ptr → Ptr → ℤ → ServerState → ServerState
unfolding ied_server_update_utc_time_attribute_value
update_utc_time_attribute_value server attr value =
    ied_server_update_utc_time_attribute_value server attr (low64 value)

unfoldable pub update_float_attribute_value : Ptr → Ptr → ℕ → ServerState → ServerState
unfolding ied_server_update_float_attribute_value
update_float_attribute_value server attr value =
    ied_server_update_float_attribute_value server attr value

unfoldable pub update_int32_attribute_value : Ptr → Ptr → ℕ → ServerState → ServerState
unfolding ied_server_update_int32_attribute_value
update_int32_attribute_value server attr value =
    ied_server_update_int32_attribute_value server attr value

-- The C string of the value is not freed.
unfoldable pub update_visible_string_attribute_value :
    Ptr → Ptr → String → ServerState → ServerState
unfolding c_string_kept ied_server_update_visible_string_attribute_value
update_visible_string_attribute_value server attr value =
    c_string_kept (ied_server_update_visible_string_attribute_value server attr value)
