-- ===== src/Server/Model.antt =====
-- iec61850/model.go: the construction of a data model, its data sets and its control blocks.
use go_libiec.Prelude.{ℕ, String, Bool, false, none, some}
use go_libiec.Prelude.Int.{ℤ, negsuc, low32}
use go_libiec.CStrings.{malloc, free}
use go_libiec.Server.Library.{
  Ptr, ModelNodeType, data_attribute_model_type, ServerApi, ServerState, noted,
  write_trigger_options, ied_model_create, ied_model_destroy, logical_device_create,
  logical_node_create, cdc_ens_create, cdc_vss_create, cdc_sav_create, cdc_apc_create,
  model_node_get_child, data_set_create, data_set_entry_create, report_control_block_create,
}

-- `C.CString(s)` as the argument of a call: nobody has the pointer after the call.
unfoldable pub c_string_kept {ℓ} : {A : Type ℓ} → (ServerState → A) → ServerState → A
unfolding malloc
c_string_kept f s = let (p, h) = malloc s.strings in f (record s { strings = h })

-- `C.CString(s)` with a deferred `C.free`.
unfoldable pub c_string_freed :
    {A : Type 0} → (ServerState → A × ServerState) → ServerState → A × ServerState
unfolding malloc free
c_string_freed f s =
    let (p, h) = malloc s.strings in
    let (result, after) = f (record s { strings = h }) in
    (result, record after { strings = free p after.strings })

-- What becomes of `da.attribute.triggerOptions = …`: the write, a nil pointer, or a write past the
-- end of a node that is no attribute.
pub data Write : Type 0 where
  written : ServerState → Write
  nil_dereference beyond_object : Write

unfoldable pub write_at : ModelNodeType → ℕ → ℕ → ServerState → Write
write_at data_attribute_model_type p opts s = written (noted (write_trigger_options p opts) s)
write_at _ p opts s = beyond_object

module _ (a : ServerApi) where
  unfoldable pub new_ied_model : String → ServerState → Ptr × ServerState
  unfolding c_string_kept ied_model_create
  new_ied_model name = c_string_kept (ied_model_create a name)

  unfoldable pub create_logical_device : Ptr → String → ServerState → Ptr × ServerState
  unfolding c_string_kept logical_device_create
  create_logical_device model name = c_string_kept (logical_device_create a name model)

  unfoldable pub create_logical_node : Ptr → String → ServerState → Ptr × ServerState
  unfolding c_string_kept logical_node_create
  create_logical_node device name = c_string_kept (logical_node_create a name device)

  unfoldable pub create_data_object_cdc_ens : Ptr → String → ServerState → Ptr × ServerState
  unfolding c_string_kept cdc_ens_create
  create_data_object_cdc_ens node name = c_string_kept (cdc_ens_create a name node 0)

  unfoldable pub create_data_object_cdc_vss : Ptr → String → ServerState → Ptr × ServerState
  unfolding c_string_kept cdc_vss_create
  create_data_object_cdc_vss node name = c_string_kept (cdc_vss_create a name node 0)

  unfoldable pub create_data_object_cdc_sav : Ptr → String → Bool → ServerState → Ptr × ServerState
  unfolding c_string_kept cdc_sav_create
  create_data_object_cdc_sav node name is_integer =
      c_string_kept (cdc_sav_create a name node 0 is_integer)

  -- `C.uint(ctlModel)` of an `int`.
  unfoldable pub create_data_object_cdc_apc : Ptr → String → ℤ → ServerState → Ptr × ServerState
  unfolding c_string_kept cdc_apc_create
  create_data_object_cdc_apc node name ctl_model =
      c_string_kept (cdc_apc_create a name node 0 (low32 ctl_model) false)

  unfoldable pub get_child : Ptr → String → ServerState → Ptr × ServerState
  unfolding c_string_freed model_node_get_child
  get_child object name = c_string_freed (model_node_get_child a object name)

  unfoldable pub set_trigger_options : Ptr → ℕ → ServerState → Write
  unfolding write_at
  set_trigger_options none opts s = nil_dereference
  set_trigger_options (some p) opts s = write_at (a.model_type s.requests p) p opts s

  unfoldable pub create_data_set : Ptr → String → ServerState → Ptr × ServerState
  unfolding c_string_freed data_set_create
  create_data_set node name = c_string_freed (data_set_create a name node)

  unfoldable pub add_data_set_entry : Ptr → String → ServerState → Ptr × ServerState
  unfolding c_string_freed data_set_entry_create
  add_data_set_entry set ref = c_string_freed (data_set_entry_create a set ref (negsuc 0) none)

  -- The three strings are freed in the reverse order.
  unfoldable pub create_report_control_block :
      Ptr → String → String → Bool → String → ℕ → ℕ → ℕ → ℕ → ℕ → ServerState → Ptr × ServerState
  unfolding c_string_freed report_control_block_create
  create_report_control_block node name rpt_id buffered set conf_ref trg_ops rpt_opts buf_tm
        intg_pd =
      c_string_freed (
        c_string_freed (
          c_string_freed (
            report_control_block_create a name node rpt_id buffered set conf_ref trg_ops rpt_opts
              buf_tm intg_pd)))

-- `Destroy` of the model
unfoldable pub destroy_ied_model : Ptr → ServerState → ServerState
unfolding ied_model_destroy
destroy_ied_model model = ied_model_destroy model
