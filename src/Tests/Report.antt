-- ===== src/Tests/Report.antt =====
-- The theorems on received reports of iec61850/iec61850_report.go at a concrete report.
use go_libiec.Prelude.{◌≡◌, refl, true, false, some, [], ◌∷◌, ◌++◌, arith}
use go_libiec.Mms.Value.{array}
use go_libiec.Values.{int64}
use go_libiec.Bridge.Flat.{stamps}
use go_libiec.Bridge.Tokens.{tokens}
use go_libiec.Report.Decode.{extract_flat_value}
use go_libiec.Report.Decode.View.{report_view}
use go_libiec.Report.Decode.RoundTrip.{extract_flat_value-eq}
use go_libiec.Report.Build.{ClientReport, build_report}
use go_libiec.Report.Build.Total.{build_entries-total}
use go_libiec.Prelude.{◌≢◌, ◌%◌}
use go_libiec.Report.Reason.{reason_string}
use go_libiec.Report.Reason.Names.{split_bar, set_names, reason_string-names}
use go_libiec.Report.Build.Entries.{entries_view, build_report-entries}
use go_libiec.Tests.Library.{library, library_laws, measured, with_gap}
use go_libiec.Tests.Bridge.{garbage}
use go_libiec.Bridge.Flat.{FlatMmsValue}
use go_libiec.Report.Build.{ReportEntry, build_entries}
use go_libiec.Prelude.{List, length, ◌≤◌}

extract_flat_value-eq_example :
    extract_flat_value 20 (stamps garbage 0 (tokens library measured) ++ [])
    ≡ some (report_view library measured, [])
unfolding tokens
extract_flat_value-eq_example =
    extract_flat_value-eq library library_laws measured garbage 0 20 [] (omega arith)

abbrev pub received : ClientReport
received = record {
  header = record {
    has_timestamp = false;
    has_seq_num = true;
    seq_num = 65537;
    has_reason_for_inclusion = true;
    timestamp = 5;
  };
  data_set_name = some "IEDLD1/LLN0.ds1";
  data_set_values = some (array with_gap);
  reason = λ i. 1;
}

build_report-entries_example :
    build_report library (λ n. some garbage) "IEDLD1/LLN0.BR.b1" received
    ≡ some (record {
      rcb_ref = "IEDLD1/LLN0.BR.b1";
      data_set_ref = "IEDLD1/LLN0.ds1";
      sequence_no = 1;
      timestamp = 0;
      entries = entries_view library received 0 with_gap;
    })
unfolding tokens
build_report-entries_example =
    build_report-entries library library_laws received (λ n. some garbage) "IEDLD1/LLN0.BR.b1"
      with_gap garbage refl (omega arith) refl

-- Two starts of structures and no end.
abbrev unended : List FlatMmsValue
unended = record (garbage 0) { typ = 100 } ∷ record (garbage 0) { typ = 100 } ∷ []

build_entries-total_example :
    (es : List ReportEntry) × (build_entries received 3 0 unended ≡ some es)
    × (length es ≤ length unended)
build_entries-total_example = build_entries-total received 3 0 unended (omega arith)

-- The value behind the NULL is not in the report.
gap_entries : entries_view library received 0 with_gap ≡ record { value = int64 7; reason = 1 } ∷ []
unfolding entries_view report_view
gap_entries = refl

known_bit : 73 % 64 ≢ 0
known_bit h = omega (arith, h)

reason_string-names_example : split_bar (reason_string 73) ≡ "DATA_CHANGE" ∷ "INTEGRITY" ∷ []
unfolding set_names
reason_string-names_example = reason_string-names 73 known_bit

two_reasons : reason_string 9 ≡ "DATA_CHANGE|INTEGRITY"
unfolding reason_string
two_reasons = refl
