-- ===== src/Client/Resolve.antt =====
-- The conversion of MMS values in iec61850/iec61850_client.go: `resolveValue` with
-- `digIntoStructure`, and the optimised pair `resolveValueInline` and `digIntoStructureOptimized`.
pub mod Inline
pub mod View
use Prim.Native.String.{len}
use go_libiec.Prelude.{
  ℕ, zero, suc, ◌+◌, ◌%◌, ◌^◌, String, Bool, true, false, Option, none, some, ◌==◌, if◌then◌else◌,
}
use go_libiec.Mms.Types.{
  MmsType, mms_array, mms_structure, mms_boolean, mms_bit_string, mms_integer, mms_unsigned,
  mms_float, mms_visible_string, mms_string, mms_utc_time,
}
use go_libiec.Mms.Value.{MmsValue}
use go_libiec.Mms.Api.{MmsApi}
use go_libiec.Values.{
  GoValue, MmsSlice, append_mms, set_value_at, nil, bool, int, int64, uint32, float64, string,
  mms_slice, no_mms, mms,
}
use go_libiec.Report.Decode.{go_string}

-- `cStringToGoString`: a copy of the bytes up to the NUL, and "" for NULL or an empty string.
unfoldable pub c_string_to_go_string : Option String → String
c_string_to_go_string none = ""
c_string_to_go_string (some s) = if len s == 0 then "" else s

-- The two cases of `withoutTimestamps`: the literal `0` is an `int`.
abbrev pub unless : Bool → ℕ → GoValue
unless without_timestamps n = if without_timestamps then int 0 else uint32 (n % 2 ^ 32)

module _ (m : MmsApi) (without_timestamps : Bool) where
  -- The loop of `digIntoStructure` from the element `index` on; `fuel` bounds its rounds.
  unfoldable pub dig_loop : (MmsValue → MmsType → GoValue) → ℕ → MmsValue → ℕ → MmsSlice
  dig_loop rec zero v index = no_mms
  dig_loop rec (suc fuel) v index = elim (m.get_element v index) [
    | none ↦ no_mms
    | some value ↦
        mms (m.get_type value) (rec value (m.get_type value)) (dig_loop rec fuel v (suc index))
  ]

  -- `if vType != MMS_STRUCTURE { return nil }`, and the loop.
  unfoldable pub dig_into_structure : (MmsValue → MmsType → GoValue) → MmsValue → MmsType → MmsSlice
  unfolding dig_loop
  dig_into_structure rec v mms_structure = dig_loop rec (suc (m.get_array_size v)) v 0
  dig_into_structure rec v _ = no_mms

  -- The `switch` of `resolveValue`; `rec` is the recursive call.
  unfoldable pub resolve_typed : (MmsValue → MmsType → GoValue) → MmsValue → MmsType → GoValue
  unfolding dig_into_structure
  resolve_typed rec v mms_boolean = bool (m.scalars.get_boolean v)
  resolve_typed rec v mms_float = float64 (m.to_double v)
  resolve_typed rec v mms_integer = int64 (m.to_int64 v)
  resolve_typed rec v mms_unsigned = int64 (m.to_int64 v)
  resolve_typed rec v mms_string = string (go_string (m.scalars.to_string v))
  resolve_typed rec v mms_visible_string = string (go_string (m.scalars.to_string v))
  resolve_typed rec v mms_structure = mms_slice (dig_into_structure rec v mms_structure)
  resolve_typed rec v mms_array = mms_slice (dig_into_structure rec v mms_array)
  resolve_typed rec v mms_bit_string =
      unless without_timestamps (m.scalars.get_bit_string_as_integer v)
  resolve_typed rec v mms_utc_time = unless without_timestamps (m.to_unix_timestamp v)
  resolve_typed rec v _ = nil

  -- The first argument bounds the depth of the recursion.
  unfoldable pub resolve_value : ℕ → MmsValue → MmsType → GoValue
  unfolding resolve_typed
  resolve_value zero v t = nil
  resolve_value (suc depth) v t = resolve_typed (resolve_value depth) v t

  -- The loop of `digIntoStructureOptimized`: it appends an entry with the type only, and then sets
  -- the value of the entry in place.
  unfoldable pub dig_loop_optimized :
      (MmsValue → MmsType → GoValue) → ℕ → MmsValue → ℕ → MmsSlice → MmsSlice
  dig_loop_optimized rec zero v index go_values = go_values
  dig_loop_optimized rec (suc fuel) v index go_values = elim (m.get_element v index) [
    | none ↦ go_values
    | some value ↦ dig_loop_optimized rec fuel v (suc index) (
        set_value_at (append_mms go_values (m.get_type value) nil) index
          (rec value (m.get_type value)))
  ]

  unfoldable pub dig_into_structure_optimized :
      (MmsValue → MmsType → GoValue) → MmsValue → MmsType → MmsSlice
  unfolding dig_loop_optimized
  dig_into_structure_optimized rec v mms_structure =
      dig_loop_optimized rec (suc (m.get_array_size v)) v 0 no_mms
  dig_into_structure_optimized rec v _ = no_mms

  -- The `switch` of `resolveValueInline`: what is stored in `target.Value`.
  unfoldable pub resolve_typed_inline :
      (MmsValue → MmsType → GoValue) → MmsValue → MmsType → GoValue
  unfolding dig_into_structure_optimized c_string_to_go_string
  resolve_typed_inline rec v mms_boolean = bool (m.scalars.get_boolean v)
  resolve_typed_inline rec v mms_float = float64 (m.to_double v)
  resolve_typed_inline rec v mms_integer = int64 (m.to_int64 v)
  resolve_typed_inline rec v mms_unsigned = int64 (m.to_int64 v)
  resolve_typed_inline rec v mms_string = string (c_string_to_go_string (m.scalars.to_string v))
  resolve_typed_inline rec v mms_visible_string =
      string (c_string_to_go_string (m.scalars.to_string v))
  resolve_typed_inline rec v mms_structure =
      mms_slice (dig_into_structure_optimized rec v mms_structure)
  resolve_typed_inline rec v mms_array = mms_slice (dig_into_structure_optimized rec v mms_array)
  resolve_typed_inline rec v mms_bit_string =
      unless without_timestamps (m.scalars.get_bit_string_as_integer v)
  resolve_typed_inline rec v mms_utc_time = unless without_timestamps (m.to_unix_timestamp v)
  resolve_typed_inline rec v _ = nil

  unfoldable pub resolve_value_inline : ℕ → MmsValue → MmsType → GoValue
  unfolding resolve_typed_inline
  resolve_value_inline zero v t = nil
  resolve_value_inline (suc depth) v t = resolve_typed_inline (resolve_value_inline depth) v t
