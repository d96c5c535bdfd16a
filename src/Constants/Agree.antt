-- ===== src/Constants/Agree.antt =====
-- The copied constants have the values of the headers.
use go_libiec.Prelude.{◌≡◌, refl, some}
use go_libiec.Constants.{
  FunctionalConstraint, fc_st, fc_mx, fc_sp, fc_sv, fc_cf, fc_dc, fc_sg, fc_se, fc_sr, fc_or, fc_bl,
  fc_ex, fc_co, fc_us, fc_ms, fc_rp, fc_br, fc_lg, fc_go, fc_all, fc_none, fc_code, go_fc,
  TriggerOption, trg_data_changed, trg_quality_changed, trg_data_update, trg_integrity, trg_gi,
  trg_opt_code, go_trg_opt, ReportOption, rpt_seq_num, rpt_time_stamp, rpt_reason_for_inclusion,
  rpt_data_set, rpt_data_reference, rpt_buffer_overflow, rpt_entry_id, rpt_conf_rev, rpt_opt_code,
  go_rpt_opt, ConnectionState, state_closed, state_connecting, state_connected, state_closing,
  state_code, client_state,
}

fc_agrees : (fc : FunctionalConstraint) → go_fc (fc_code fc) ≡ some fc
fc_agrees fc_st = refl
fc_agrees fc_mx = refl
fc_agrees fc_sp = refl
fc_agrees fc_sv = refl
fc_agrees fc_cf = refl
fc_agrees fc_dc = refl
fc_agrees fc_sg = refl
fc_agrees fc_se = refl
fc_agrees fc_sr = refl
fc_agrees fc_or = refl
fc_agrees fc_bl = refl
fc_agrees fc_ex = refl
fc_agrees fc_co = refl
fc_agrees fc_us = refl
fc_agrees fc_ms = refl
fc_agrees fc_rp = refl
fc_agrees fc_br = refl
fc_agrees fc_lg = refl
fc_agrees fc_go = refl
fc_agrees fc_all = refl
fc_agrees fc_none = refl

trg_agrees : (t : TriggerOption) → go_trg_opt t ≡ trg_opt_code t
trg_agrees trg_data_changed = refl
trg_agrees trg_quality_changed = refl
trg_agrees trg_data_update = refl
trg_agrees trg_integrity = refl
trg_agrees trg_gi = refl

rpt_agrees : (r : ReportOption) → go_rpt_opt r ≡ rpt_opt_code r
rpt_agrees rpt_seq_num = refl
rpt_agrees rpt_time_stamp = refl
rpt_agrees rpt_reason_for_inclusion = refl
rpt_agrees rpt_data_set = refl
rpt_agrees rpt_data_reference = refl
rpt_agrees rpt_buffer_overflow = refl
rpt_agrees rpt_entry_id = refl
rpt_agrees rpt_conf_rev = refl

state_agrees : (s : ConnectionState) → client_state (state_code s) ≡ some s
state_agrees state_closed = refl
state_agrees state_connecting = refl
state_agrees state_connected = refl
state_agrees state_closing = refl

-- The constants in Go agree with the headers: the number of every functional constraint and of every
-- connection state is read as that one, and every trigger option and every report option has
-- the same bit.
pub constants_agree :
    (fc : FunctionalConstraint) (t : TriggerOption) (r : ReportOption) (s : ConnectionState)
    → (go_fc (fc_code fc) ≡ some fc)
      × (go_trg_opt t ≡ trg_opt_code t)
      × (go_rpt_opt r ≡ rpt_opt_code r)
      × (client_state (state_code s) ≡ some s)
constants_agree fc t r s = (fc_agrees fc, trg_agrees t, rpt_agrees r, state_agrees s)
