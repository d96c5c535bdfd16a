-- ===== src/Tests/Callback.antt =====
-- The theorem on `goReportCallback` of iec61850/iec61850_report.go at a concrete subscription.
use go_libiec.Prelude.{String, none, some, ◌≡◌, refl, arith}
use go_libiec.Bridge.Tokens.{tokens}
use go_libiec.Report.Build.Entries.{entries_view}
use go_libiec.Report.Subscribe.{Session, subscribe_report, unsubscribe_report, enable, finish}
use go_libiec.Report.Callback.{go_report_callback}
use go_libiec.Report.Callback.Lasting.{
  Meanwhile, done, subscribing, unsubscribing, subscription_lasts,
}
use go_libiec.Tests.Library.{library, library_laws, with_gap}
use go_libiec.Tests.Bridge.{garbage}
use go_libiec.Tests.Report.{received}
use go_libiec.Tests.Subscribe.{server, server_laws, idle, idle-IsValid}

-- After subscribing to "a", to "c", which is accepted, and unsubscribing from "b".
abbrev subscribed : Session server String
subscribed = (subscribe_report server idle "a" none "print").1

abbrev second : Session server String
second = (subscribe_report server subscribed "c" none "store").1

abbrev left : Session server String
left = unsubscribe_report server second "b"

accepted : (subscribe_report server idle "a" none "print").0 ≡ none
unfolding subscribe_report enable finish
accepted = refl

meanwhile : Meanwhile server "a" subscribed left
unfolding subscribe_report enable finish
meanwhile = unsubscribing "b" (subscribing "c" none "store" done refl (omega arith)) refl

subscription_lasts_example :
    go_report_callback library
      (λ n. some garbage)
      left.registry
      (server.callback left.connection "a")
      received
    ≡ some (
        some (
          "print",
          record {
            rcb_ref = "a";
            data_set_ref = "IEDLD1/LLN0.ds1";
            sequence_no = 1;
            timestamp = 0;
            entries = entries_view library received 0 with_gap;
          },
        ))
unfolding tokens
subscription_lasts_example =
    subscription_lasts server_laws library library_laws (λ n. some garbage) idle "a" none "print"
      received with_gap garbage idle-IsValid (omega arith) accepted meanwhile refl (omega arith)
      refl
