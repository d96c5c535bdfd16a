-- ===== src/Bridge/Flatten.antt =====
-- `flatten_mms_value` of iec61850/report_bridge.c: the depth-first walk that writes the tokens.
pub mod Exact
use go_libiec.Prelude.{
  ℕ, zero, suc, ◌+◌, String, Bool, true, false, Option, none, some, leb, ltb, if◌then◌else◌,
}
use go_libiec.Mms.Types.{
  MmsType, type_code, mms_array, mms_structure, mms_boolean, mms_bit_string, mms_integer,
  mms_unsigned, mms_float, mms_octet_string, mms_visible_string, mms_string, mms_utc_time,
}
use go_libiec.Mms.Value.{MmsValue}
use go_libiec.Mms.Api.{MmsApi}
use go_libiec.Bridge.Flat.{
  Memory, FlatMmsValue, store, flat_struct_start, flat_struct_end, flat_array_start, flat_array_end,
}

-- The array and `*index`.
pub record Cursor : Type 0 where
  pub mem : Memory
  pub index : ℕ

-- `arr[*index].typ = t`
abbrev pub set_typ : ℕ → Cursor → Cursor
set_typ t c = record c { mem = store c.mem c.index (record (c.mem c.index) { typ = t }) }

-- `arr[*index].ival = n`, and the other fields
abbrev pub set_ival : ℕ → Cursor → Cursor
set_ival n c = record c { mem = store c.mem c.index (record (c.mem c.index) { ival = n }) }

abbrev pub set_dval : ℕ → Cursor → Cursor
set_dval n c = record c { mem = store c.mem c.index (record (c.mem c.index) { dval = n }) }

abbrev pub set_sval : Option String → Cursor → Cursor
set_sval s c = record c { mem = store c.mem c.index (record (c.mem c.index) { sval = s }) }

-- `(*index)++`
abbrev pub advance : Cursor → Cursor
advance c = record c { index = c.index + 1 }

-- A C `bool` as a number.
abbrev pub bool_to_int : Bool → ℕ
bool_to_int true = 1
bool_to_int false = 0

-- The markers round the elements.
abbrev pub start_marker : MmsType → ℕ
start_marker mms_structure = flat_struct_start
start_marker _ = flat_array_start

abbrev pub end_marker : MmsType → ℕ
end_marker mms_structure = flat_struct_end
end_marker _ = flat_array_end

module _ (m : MmsApi) where
  -- The loop over the elements `i, i + 1, …` with `rounds` of them left; `rec` is the recursive call.
  unfoldable pub flatten_loop :
      (Option MmsValue → Cursor → Cursor) → MmsValue → ℕ → ℕ → Cursor → Cursor
  flatten_loop rec v zero i c = c
  flatten_loop rec v (suc rounds) i c =
      flatten_loop rec v rounds (suc i) (rec (m.get_element v i) c)

  unfoldable pub flatten_composite :
      (Option MmsValue → Cursor → Cursor) → MmsType → MmsValue → ℕ → Cursor → Cursor
  flatten_composite rec t v max_len c =
      let c' = flatten_loop rec v (m.get_array_size v) 0 (advance (set_typ (start_marker t) c)) in
      if ltb c'.index max_len then advance (set_typ (end_marker t) c') else c'

  -- The ladder of `if`s on the type; `arr[*index].typ = t` is done.
  unfoldable pub flatten_typed :
      (Option MmsValue → Cursor → Cursor) → MmsType → MmsValue → ℕ → Cursor → Cursor
  unfolding flatten_composite
  flatten_typed rec mms_boolean v max_len c =
      advance (set_ival (bool_to_int (m.scalars.get_boolean v)) c)
  flatten_typed rec mms_float v max_len c = advance (set_dval (m.to_double v) c)
  flatten_typed rec mms_integer v max_len c = advance (set_ival (m.to_int64 v) c)
  flatten_typed rec mms_unsigned v max_len c = advance (set_ival (m.to_int64 v) c)
  flatten_typed rec mms_string v max_len c = advance (set_sval (m.scalars.to_string v) c)
  flatten_typed rec mms_visible_string v max_len c = advance (set_sval (m.scalars.to_string v) c)
  flatten_typed rec mms_octet_string v max_len c = advance (set_sval (m.scalars.to_string v) c)
  flatten_typed rec mms_bit_string v max_len c =
      advance (set_ival (m.scalars.get_bit_string_as_integer v) c)
  flatten_typed rec mms_utc_time v max_len c = advance (set_ival (m.to_unix_timestamp v) c)
  flatten_typed rec mms_structure v max_len c = flatten_composite rec mms_structure v max_len c
  flatten_typed rec mms_array v max_len c = flatten_composite rec mms_array v max_len c
  flatten_typed rec _ v max_len c = advance c

  -- The first argument bounds the depth of the recursion.
  unfoldable pub flatten_mms_value : ℕ → ℕ → Option MmsValue → Cursor → Cursor
  unfolding flatten_typed
  flatten_mms_value zero max_len val c = c
  flatten_mms_value (suc f) max_len none c = c
  flatten_mms_value (suc f) max_len (some v) c =
      if leb max_len c.index
      then c
      else flatten_typed (flatten_mms_value f max_len) (m.get_type v) v max_len
          (set_typ (type_code (m.get_type v)) c)
