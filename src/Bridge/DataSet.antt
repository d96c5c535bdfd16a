-- ===== src/Bridge/DataSet.antt =====
-- `flattenReportDataSet` of iec61850/report_bridge.c: the values of a report as one flat array.
pub mod Exact
use go_libiec.Prelude.{ℕ, zero, suc, ◌+◌, Option, none, some, ◌==◌, if◌then◌else◌}
use go_libiec.Mms.Value.{MmsValue, height}
use go_libiec.Mms.Api.{MmsApi}
use go_libiec.Bridge.Flat.{Memory}
use go_libiec.Bridge.Count.{count_mms_elements, add_int}
use go_libiec.Bridge.Flatten.{Cursor, flatten_mms_value}

-- What the function returns: the array or NULL, and `*out_count`.
pub record FlatArray : Type 0 where
  pub arr : Option Memory
  pub out_count : ℕ

abbrev pub no_array : FlatArray
no_array = record { arr = none; out_count = 0 }

module _ (m : MmsApi) where
  -- The first `while (true)`, which ends only at a NULL: `fuel` rounds, of which the last one meets
  -- NULL where the accessors do what is documented. `depth` bounds the walk of one element.
  unfoldable pub count_elements : ℕ → ℕ → MmsValue → ℕ → ℕ → ℕ
  count_elements depth zero values i count = count
  count_elements depth (suc fuel) values i count = elim (m.get_element values i) [
    | none ↦ count
    | some val ↦
        count_elements depth fuel values (suc i)
          (add_int count (count_mms_elements m depth (some val)))
  ]

  -- The second `while (true)`, with its rounds bounded likewise.
  unfoldable pub flatten_elements : ℕ → ℕ → ℕ → MmsValue → ℕ → Cursor → Cursor
  flatten_elements depth zero max_len values i c = c
  flatten_elements depth (suc fuel) max_len values i c = elim (m.get_element values i) [
    | none ↦ c
    | some val ↦
        flatten_elements depth fuel max_len values (suc i)
          (flatten_mms_value m depth max_len (some val) c)
  ]

  -- Both loops end at the first NULL, at the latest behind the last element.
  abbrev pub loop_fuel : MmsValue → ℕ
  loop_fuel values = suc (m.get_array_size values)

  unfoldable pub fill : MmsValue → ℕ → Option Memory → FlatArray
  fill values count none = no_array
  fill values count (some mem) =
      let c =
        flatten_elements (height values) (loop_fuel values) count values 0
          (record { mem = mem; index = 0 }) in
      record { arr = some c.mem; out_count = c.index }

  -- `malloc` is given the number of tokens. The array is NULL where it fails.
  unfoldable pub flatten_report_data_set : (ℕ → Option Memory) → Option MmsValue → FlatArray
  unfolding fill
  flatten_report_data_set malloc none = no_array
  flatten_report_data_set malloc (some values) =
      let count = count_elements (height values) (loop_fuel values) values 0 0 in
      if count == 0 then no_array else fill values count (malloc count)
