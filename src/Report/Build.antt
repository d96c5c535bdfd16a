-- ===== src/Report/Build.antt =====
-- `buildReport` of iec61850/iec61850_report.go: the Go report of a received one.
pub mod Entries
pub mod Total
use go_libiec.Prelude.{
  ℕ, zero, suc, ◌+◌, ◌*◌, ◌%◌, ◌^◌, String, Bool, ◌||◌, Option, none, some, List, [], ◌∷◌, length,
  leb, ◌==◌, if◌then◌else◌, ◌>>=◌,
}
use go_libiec.Mms.Value.{MmsValue}
use go_libiec.Mms.Api.{MmsApi}
use go_libiec.Bridge.Flat.{FlatMmsValue, Memory, slice}
use go_libiec.Bridge.DataSet.{FlatArray, flatten_report_data_set}
use go_libiec.Values.{GoValue}
use go_libiec.Report.Decode.{extract_flat_value, go_string}

-- Which optional fields a report has, and those that the binding reads.
pub record ReportHeader : Type 0 where
  pub has_timestamp : Bool
  pub has_seq_num : Bool
  pub seq_num : ℕ
  pub has_reason_for_inclusion : Bool
  pub timestamp : ℕ

-- What the other accessors `ClientReport_…` of the library return for one report. `reason i` is the
-- reason for inclusion of the element `i`.
pub record ClientReport : Type 0 where
  pub header : ReportHeader
  pub data_set_name : Option String
  pub data_set_values : Option MmsValue
  pub reason : ℕ → ℕ

pub record ReportEntry : Type 0 where
  pub value : GoValue
  pub reason : ℕ

pub record Report : Type 0 where
  pub rcb_ref : String
  pub data_set_ref : String
  pub sequence_no : ℕ
  pub timestamp : ℕ
  pub entries : List ReportEntry

-- The entry of the element `i`: without reasons in the report its reason is 0.
abbrev pub entry_at : ClientReport → ℕ → GoValue → ReportEntry
entry_at cr i v = record {
  value = v;
  reason = if cr.header.has_reason_for_inclusion then cr.reason i else 0;
}

-- More than the calls that decoding a slice can make.
abbrev pub decode_fuel : List FlatMmsValue → ℕ
decode_fuel ts = suc (2 * length ts)

-- The loop over the flat slice, from the element `i` on. `none` means that the fuel ran out.
unfoldable pub build_entries : ClientReport → ℕ → ℕ → List FlatMmsValue → Option (List ReportEntry)
build_entries cr zero i ts = none
build_entries cr (suc f) i [] = some []
build_entries cr (suc f) i (elem ∷ rest) = do
  (v, rest') ← extract_flat_value (decode_fuel (elem ∷ rest)) (elem ∷ rest)
  entries ← build_entries cr f (suc i) rest'
  some (entry_at cr i v ∷ entries)

-- The flat slice of the array, empty if `cArr == nil || count <= 0`.
abbrev pub flat_slice : FlatArray → List FlatMmsValue
flat_slice a = elim a.arr [
  | none ↦ []
  | some mem ↦ if a.out_count == 0 || leb (2 ^ 31) a.out_count then [] else slice mem 0 a.out_count
]

unfoldable pub build_report : MmsApi → (ℕ → Option Memory) → String → ClientReport → Option Report
build_report m malloc rcb_ref cr = do
  let flat = flat_slice (flatten_report_data_set m malloc cr.data_set_values)
  entries ← build_entries cr (suc (length flat)) 0 flat
  some (record {
    rcb_ref = rcb_ref;
    data_set_ref = go_string cr.data_set_name;
    sequence_no = if cr.header.has_seq_num then cr.header.seq_num % 2 ^ 16 else 0;
    timestamp = if cr.header.has_timestamp then cr.header.timestamp % 2 ^ 64 else 0;
    entries = entries;
  })
