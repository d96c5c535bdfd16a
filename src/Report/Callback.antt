-- ===== src/Report/Callback.antt =====
-- `goReportCallback` of iec61850/iec61850_report.go as a whole, as `reportCallbackBridge` of
-- iec61850/report_bridge.c calls it.
pub mod Lasting
use go_libiec.Prelude.{ℕ, Option, none, some, ◌>>=◌}
use go_libiec.Mms.Api.{MmsApi}
use go_libiec.Bridge.Flat.{Memory}
use go_libiec.Report.Build.{ClientReport, Report, build_report}
use go_libiec.Report.Registry.{HandlerEntry, Registry, deliver}

module _ (m : MmsApi) (malloc : ℕ → Option Memory) {H : Type 0} where
  -- The call of the handler with the report, after the lookup; without an entry nothing is called.
  unfoldable pub on_entry : Option (HandlerEntry H) → ClientReport → Option (Option (H × Report))
  on_entry none cr = some none
  on_entry (some e) cr = do
    report ← build_report m malloc e.rcb_ref cr
    some (some (e.handler, report))

  -- A report that arrives for a control block with the given callback: the handler that is called,
  -- and the report that it is given.
  unfoldable pub go_report_callback :
      Registry H → Option ℕ → ClientReport → Option (Option (H × Report))
  unfolding on_entry deliver
  go_report_callback r id cr = on_entry (deliver r id) cr
