-- ===== src/Server/Library.antt =====
-- The calls of libiec61850 that iec61850/model.go and iec61850/iec61850_server.go make
-- (iec61850/inc/iec61850/inc/iec61850_dynamic_model.h, iec61850_cdc.h, iec61850_model.h and
-- iec61850_server.h). Each is noted in a log, and the answers of the library may depend on the log.
use go_libiec.Prelude.{ℕ, String, Bool, Option, List, ◌∷◌}
use go_libiec.Prelude.Int.{ℤ}
use go_libiec.CStrings.{CHeap}

-- A pointer of the library; `none` is NULL.
abbrev pub Ptr : Type 0
Ptr = Option ℕ

-- `ModelNodeType`, the first field of every node.
pub data ModelNodeType : Type 0 where
  logical_device_model_type logical_node_model_type : ModelNodeType
  data_object_model_type data_attribute_model_type : ModelNodeType

-- A call with its arguments. Numbers are the patterns of their C types. The last one is no call: it
-- is the write of a field by Go.
pub data Request : Type 0 where
  create_model : String → Request
  destroy_model : Ptr → Request
  create_device : String → Ptr → Request
  create_node : String → Ptr → Request
  create_ens create_vss : String → Ptr → ℕ → Request
  create_sav : String → Ptr → ℕ → Bool → Request
  create_apc : String → Ptr → ℕ → ℕ → Bool → Request
  find_child : Ptr → String → Request
  create_set : String → Ptr → Request
  create_entry : Ptr → String → ℤ → Option String → Request
  create_rcb : String → Ptr → String → Bool → String → ℕ → ℕ → ℕ → ℕ → ℕ → Request
  create_server : Ptr → Request
  listen : Ptr → ℕ → Request
  ask_running stop_server destroy_server lock_model unlock_model : Ptr → Request
  update_time update_float update_int32 : Ptr → Ptr → ℕ → Request
  update_string : Ptr → Ptr → String → Request
  write_trigger_options : ℕ → ℕ → Request

-- The answers: a pointer, whether the server runs, and what a node is.
pub record ServerApi : Type 0 where
  pub answer : List Request → Request → Ptr
  pub running : List Request → Ptr → Bool
  pub model_type : List Request → ℕ → ModelNodeType

-- The C strings of the process, and the calls that were made, the last one first.
pub record ServerState : Type 0 where
  pub strings : CHeap
  pub requests : List Request

abbrev pub noted : Request → ServerState → ServerState
noted r s = record s { requests = r ∷ s.requests }

module _ (a : ServerApi) where
  abbrev pub asked : Request → ServerState → Ptr × ServerState
  asked r s = (a.answer s.requests r, noted r s)

  unfoldable pub ied_model_create : String → ServerState → Ptr × ServerState
  ied_model_create name = asked (create_model name)

  unfoldable pub logical_device_create : String → Ptr → ServerState → Ptr × ServerState
  logical_device_create name parent = asked (create_device name parent)

  unfoldable pub logical_node_create : String → Ptr → ServerState → Ptr × ServerState
  logical_node_create name parent = asked (create_node name parent)

  unfoldable pub cdc_ens_create : String → Ptr → ℕ → ServerState → Ptr × ServerState
  cdc_ens_create name parent options = asked (create_ens name parent options)

  unfoldable pub cdc_vss_create : String → Ptr → ℕ → ServerState → Ptr × ServerState
  cdc_vss_create name parent options = asked (create_vss name parent options)

  unfoldable pub cdc_sav_create : String → Ptr → ℕ → Bool → ServerState → Ptr × ServerState
  cdc_sav_create name parent options integer = asked (create_sav name parent options integer)

  unfoldable pub cdc_apc_create : String → Ptr → ℕ → ℕ → Bool → ServerState → Ptr × ServerState
  cdc_apc_create name parent options control integer =
      asked (create_apc name parent options control integer)

  unfoldable pub model_node_get_child : Ptr → String → ServerState → Ptr × ServerState
  model_node_get_child node name = asked (find_child node name)

  unfoldable pub data_set_create : String → Ptr → ServerState → Ptr × ServerState
  data_set_create name parent = asked (create_set name parent)

  unfoldable pub data_set_entry_create :
      Ptr → String → ℤ → Option String → ServerState → Ptr × ServerState
  data_set_entry_create set variable index component =
      asked (create_entry set variable index component)

  unfoldable pub report_control_block_create :
      String → Ptr → String → Bool → String → ℕ → ℕ → ℕ → ℕ → ℕ → ServerState → Ptr × ServerState
  report_control_block_create name parent rpt_id buffered set conf_ref trg_ops options buf_tm
        intg_pd =
      asked (create_rcb name parent rpt_id buffered set conf_ref trg_ops options buf_tm intg_pd)

  unfoldable pub ied_server_create : Ptr → ServerState → Ptr × ServerState
  ied_server_create model = asked (create_server model)

  unfoldable pub ied_server_is_running : Ptr → ServerState → Bool × ServerState
  ied_server_is_running p s = (a.running s.requests p, noted (ask_running p) s)

unfoldable pub ied_model_destroy : Ptr → ServerState → ServerState
ied_model_destroy p = noted (destroy_model p)

unfoldable pub ied_server_start : Ptr → ℕ → ServerState → ServerState
ied_server_start p port = noted (listen p port)

unfoldable pub ied_server_stop : Ptr → ServerState → ServerState
ied_server_stop p = noted (stop_server p)

unfoldable pub ied_server_destroy : Ptr → ServerState → ServerState
ied_server_destroy p = noted (destroy_server p)

unfoldable pub ied_server_lock_data_model : Ptr → ServerState → ServerState
ied_server_lock_data_model p = noted (lock_model p)

unfoldable pub ied_server_unlock_data_model : Ptr → ServerState → ServerState
ied_server_unlock_data_model p = noted (unlock_model p)

unfoldable pub ied_server_update_utc_time_attribute_value :
    Ptr → Ptr → ℕ → ServerState → ServerState
ied_server_update_utc_time_attribute_value p attr v = noted (update_time p attr v)

unfoldable pub ied_server_update_float_attribute_value : Ptr → Ptr → ℕ → ServerState → ServerState
ied_server_update_float_attribute_value p attr v = noted (update_float p attr v)

unfoldable pub ied_server_update_int32_attribute_value : Ptr → Ptr → ℕ → ServerState → ServerState
ied_server_update_int32_attribute_value p attr v = noted (update_int32 p attr v)

unfoldable pub ied_server_update_visible_string_attribute_value :
    Ptr → Ptr → String → ServerState → ServerState
ied_server_update_visible_string_attribute_value p attr v = noted (update_string p attr v)
