-- ===== src/Constants.antt =====
-- The constants that the Go files copy from the headers: functional constraints and client states
-- (iec61850/types.go, iec61850/iec61850_client.go), trigger options and report options
-- (iec61850/iec61850_report.go).
pub mod Agree
use go_libiec.Prelude.{
  ℕ, ◌-◌, ◌^◌, Option, none, some, List, [], ◌∷◌, get_elem?, ◌==◌, if◌then◌else◌,
}

-- `FunctionalConstraint` of iec61850/inc/iec61850/inc/iec61850_common.h.
pub data FunctionalConstraint : Type 0 where
  fc_st fc_mx fc_sp fc_sv fc_cf fc_dc fc_sg fc_se fc_sr fc_or : FunctionalConstraint
  fc_bl fc_ex fc_co fc_us fc_ms fc_rp fc_br fc_lg fc_go fc_all fc_none : FunctionalConstraint

-- The value of the enumerator; -1 is the pattern of an `int`.
abbrev pub fc_code : FunctionalConstraint → ℕ
fc_code fc_st = 0
fc_code fc_mx = 1
fc_code fc_sp = 2
fc_code fc_sv = 3
fc_code fc_cf = 4
fc_code fc_dc = 5
fc_code fc_sg = 6
fc_code fc_se = 7
fc_code fc_sr = 8
fc_code fc_or = 9
fc_code fc_bl = 10
fc_code fc_ex = 11
fc_code fc_co = 12
fc_code fc_us = 13
fc_code fc_ms = 14
fc_code fc_rp = 15
fc_code fc_br = 16
fc_code fc_lg = 17
fc_code fc_go = 18
fc_code fc_all = 99
fc_code fc_none = 2 ^ 32 - 1

-- The `const` block of types.go up to the wildcard: the n-th name has the value n (`iota`).
abbrev pub fc_consts : List FunctionalConstraint
fc_consts =
    fc_st ∷ fc_mx ∷ fc_sp ∷ fc_sv ∷ fc_cf ∷ fc_dc ∷ fc_sg ∷ fc_se ∷ fc_sr ∷ fc_or ∷ fc_bl ∷ fc_ex
    ∷ fc_co ∷ fc_us ∷ fc_ms ∷ fc_rp ∷ fc_br ∷ fc_lg ∷ fc_go ∷ []

-- The constant of types.go that has the number.
abbrev pub go_fc : ℕ → Option FunctionalConstraint
go_fc n =
    let named = get_elem? fc_consts n in
    if n == 99 then some fc_all else if n == 2 ^ 32 - 1 then some fc_none else named

pub data TriggerOption : Type 0 where
  trg_data_changed trg_quality_changed trg_data_update trg_integrity trg_gi : TriggerOption

-- `TRG_OPT_…` of iec61850_common.h; the bit 128 has no name in Go.
abbrev pub trg_opt_code : TriggerOption → ℕ
trg_opt_code trg_data_changed = 1
trg_opt_code trg_quality_changed = 2
trg_opt_code trg_data_update = 4
trg_opt_code trg_integrity = 8
trg_opt_code trg_gi = 16

-- `TRG_OPT_…` of iec61850_report.go.
abbrev pub go_trg_opt : TriggerOption → ℕ
go_trg_opt trg_data_changed = 1
go_trg_opt trg_quality_changed = 2
go_trg_opt trg_data_update = 4
go_trg_opt trg_integrity = 8
go_trg_opt trg_gi = 16

pub data ReportOption : Type 0 where
  rpt_seq_num rpt_time_stamp rpt_reason_for_inclusion rpt_data_set rpt_data_reference : ReportOption
  rpt_buffer_overflow rpt_entry_id rpt_conf_rev : ReportOption

-- `RPT_OPT_…` of iec61850_common.h.
abbrev pub rpt_opt_code : ReportOption → ℕ
rpt_opt_code rpt_seq_num = 1
rpt_opt_code rpt_time_stamp = 2
rpt_opt_code rpt_reason_for_inclusion = 4
rpt_opt_code rpt_data_set = 8
rpt_opt_code rpt_data_reference = 16
rpt_opt_code rpt_buffer_overflow = 32
rpt_opt_code rpt_entry_id = 64
rpt_opt_code rpt_conf_rev = 128

-- `RPT_OPT_…` of iec61850_report.go.
abbrev pub go_rpt_opt : ReportOption → ℕ
go_rpt_opt rpt_seq_num = 1
go_rpt_opt rpt_time_stamp = 2
go_rpt_opt rpt_reason_for_inclusion = 4
go_rpt_opt rpt_data_set = 8
go_rpt_opt rpt_data_reference = 16
go_rpt_opt rpt_buffer_overflow = 32
go_rpt_opt rpt_entry_id = 64
go_rpt_opt rpt_conf_rev = 128

-- `IedConnectionState` of iec61850/inc/iec61850/inc/iec61850_client.h.
pub data ConnectionState : Type 0 where
  state_closed state_connecting state_connected state_closing : ConnectionState

-- An enumerator without a value is one more than the one before.
abbrev pub state_code : ConnectionState → ℕ
state_code state_closed = 0
state_code state_connecting = 1
state_code state_connected = 2
state_code state_closing = 3

-- The `const` block of iec61850_client.go (`iota`).
abbrev pub state_consts : List ConnectionState
state_consts = state_closed ∷ state_connecting ∷ state_connected ∷ state_closing ∷ []

-- `ClientState(state)`, as `State` returns it.
abbrev pub client_state : ℕ → Option ConnectionState
client_state = get_elem? state_consts
