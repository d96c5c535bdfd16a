-- ===== src/Client/DataSet.antt =====
-- The data set reads of iec61850/iec61850_client.go: `ReadDataSetValues`, `ReadDataSetFlat` and
-- `extractPrimitive`.
pub mod Flat
pub mod Keyed
use go_libiec.Prelude.{
  ℕ, zero, suc, ◌+◌, ◌%◌, ◌^◌, String, Bool, Option, none, some, List, [], ◌∷◌, concat, Dict,
  if◌then◌else◌,
}
use go_libiec.Mms.Types.{
  MmsType, mms_structure, mms_boolean, mms_bit_string, mms_integer, mms_unsigned, mms_float,
  mms_visible_string, mms_string, mms_utc_time,
}
use go_libiec.Mms.Value.{MmsValue, height}
use go_libiec.Mms.Api.{MmsApi}
use go_libiec.Values.{GoValue, MmsSlice, nil, bool, int64, uint32, float64, string, no_mms, mms}
use go_libiec.Report.Decode.{go_string}
use go_libiec.Client.Resolve.{resolve_value_inline}
use go_libiec.Schema.{SchemaLeaf, DataSetSchema, for_leaves}

-- `ClientDataSet`: the values that were read, an array with one element for each member, and the
-- number of members.
pub record ClientDataSet : Type 0 where
  pub data_set_values : MmsValue
  pub size : ℕ

-- What `IedConnection_readDataSetValues` gives: an error code, or the data set.
pub data ReadResult : Type 0 where
  failed : ℕ → ReadResult
  read : ClientDataSet → ReadResult

module _ (m : MmsApi) (without_timestamps : Bool) where
  -- `ReadDataSetFlat`'s leaf conversion; a `uint32` zero stands for a suppressed value.
  abbrev pub unless_uint32 : ℕ → GoValue
  unless_uint32 n = if without_timestamps then uint32 0 else uint32 (n % 2 ^ 32)

  unfoldable pub extract_typed : MmsValue → MmsType → GoValue
  extract_typed v mms_boolean = bool (m.scalars.get_boolean v)
  extract_typed v mms_float = float64 (m.to_double v)
  extract_typed v mms_integer = int64 (m.to_int64 v)
  extract_typed v mms_unsigned = int64 (m.to_int64 v)
  extract_typed v mms_string = string (go_string (m.scalars.to_string v))
  extract_typed v mms_visible_string = string (go_string (m.scalars.to_string v))
  extract_typed v mms_bit_string = unless_uint32 (m.scalars.get_bit_string_as_integer v)
  extract_typed v mms_utc_time = unless_uint32 (m.to_unix_timestamp v)
  extract_typed v _ = nil

  unfoldable pub extract_primitive : MmsValue → GoValue
  unfolding extract_typed
  extract_primitive v = extract_typed v (m.get_type v)

  -- `if inner := getElement(target, 0); inner != nil { target = inner }`
  abbrev pub or_inner : MmsValue → Option MmsValue → MmsValue
  or_inner target none = target
  or_inner target (some inner) = inner

  -- The first element of a structure stands for it.
  unfoldable pub unwrap_target : MmsValue → MmsType → MmsValue
  unwrap_target target mms_structure = or_inner target (m.get_element target 0)
  unwrap_target target _ = target

  -- The value below a leaf's element: NULL is skipped.
  abbrev pub flat_sub : Option MmsValue → Option GoValue
  flat_sub none = none
  flat_sub (some target) = some (extract_primitive (unwrap_target target (m.get_type target)))

  abbrev pub flat_at : Option MmsValue → Option ℕ → Option GoValue
  flat_at none da_idx = none
  flat_at (some top_val) none = some (extract_primitive top_val)
  flat_at (some top_val) (some k) = flat_sub (m.get_element top_val k)

  -- What the loop of `ReadDataSetFlat` stores for a leaf; none where it skips the leaf.
  unfoldable pub flat_leaf : MmsValue → SchemaLeaf → Option GoValue
  flat_leaf top_values leaf = flat_at (m.get_element top_values leaf.fcda_idx) leaf.da_idx

  -- The map after the call, and the error code if the read failed.
  unfoldable pub read_data_set_flat :
      ReadResult → DataSetSchema → Dict GoValue → Option ℕ × Dict GoValue
  unfolding flat_leaf
  read_data_set_flat (failed code) schema out = (some code, out)
  read_data_set_flat (read ds) schema out =
      (none, for_leaves (flat_leaf ds.data_set_values) schema.leaves out)

  -- The loop of `ReadDataSetValues` with `rounds` entries left, from the entry `i` on. The code
  -- takes the elements to be there: `none` stands for a fault on NULL.
  unfoldable pub read_values_loop : ℕ → ℕ → MmsValue → ℕ → Option MmsSlice
  read_values_loop depth zero values i = some no_mms
  read_values_loop depth (suc rounds) values i = elim (m.get_element values i) [
    | none ↦ none
    | some value ↦ elim (read_values_loop depth rounds values (suc i)) [
      | none ↦ none
      | some rest ↦ some (
          mms (m.get_type value)
            (resolve_value_inline m without_timestamps depth value (m.get_type value)) rest)
    ]
  ]

-- The results of `ReadDataSetValues`: the error code, the values, or a fault on a missing element.
pub data ValuesResult : Type 0 where
  error : ℕ → ValuesResult
  values : MmsSlice → ValuesResult
  fault : ValuesResult

abbrev pub or_fault : Option MmsSlice → ValuesResult
or_fault none = fault
or_fault (some s) = values s

module _ (m : MmsApi) (without_timestamps : Bool) where
  unfoldable pub read_data_set_values : ReadResult → ValuesResult
  unfolding read_values_loop
  read_data_set_values (failed code) = error code
  read_data_set_values (read ds) = or_fault (
      read_values_loop m without_timestamps (height ds.data_set_values) ds.size ds.data_set_values
        0)
