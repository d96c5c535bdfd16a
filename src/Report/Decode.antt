-- ===== src/Report/Decode.antt =====
-- `extractFlatValue` of iec61850/iec61850_report.go: flat tokens back to a recursive Go value.
pub mod View
pub mod Total
pub mod RoundTrip
use go_libiec.Prelude.{
  ℕ, zero, suc, ◌%◌, ◌^◌, String, Bool, not, ◌||◌, Option, none, some, List, [], ◌∷◌, ◌==◌,
  if◌then◌else◌, ◌>>=◌,
}
use go_libiec.Mms.Types.{
  type_code, mms_boolean, mms_bit_string, mms_integer, mms_unsigned, mms_float, mms_octet_string,
  mms_visible_string, mms_string, mms_utc_time,
}
use go_libiec.Bridge.Flat.{FlatMmsValue}
use go_libiec.Values.{
  GoValue, AnySlice, nil, bool, int64, uint32, float64, string, any_slice, no_any, any,
}

-- The literals 100 and 102, and 101 and 103, of the function.
abbrev pub is_start : ℕ → Bool
is_start typ = typ == 100 || typ == 102

abbrev pub is_end : ℕ → Bool
is_end typ = typ == 101 || typ == 103

-- `C.GoString(s)`, and "" for NULL.
abbrev pub go_string : Option String → String
go_string none = ""
go_string (some s) = s

-- The cases of the `switch` that read one token; any other type is nil.
unfoldable pub leaf_value : FlatMmsValue → GoValue
leaf_value elem =
    if elem.typ == type_code mms_boolean
    then bool (not (elem.ival == 0))
    else if elem.typ == type_code mms_float
    then float64 elem.dval
    else if elem.typ == type_code mms_integer || elem.typ == type_code mms_unsigned
    then int64 elem.ival
    else if elem.typ == type_code mms_string
        || (elem.typ == type_code mms_visible_string || elem.typ == type_code mms_octet_string)
    then string (go_string elem.sval)
    else if elem.typ == type_code mms_bit_string
    then uint32 (elem.ival % 2 ^ 32)
    else if elem.typ == type_code mms_utc_time
    then uint32 (elem.ival % 2 ^ 32)
    else nil

-- The slice from `*pos` on is the argument, and the rest of it the second result. Each call costs a
-- unit of fuel; `none` means that it ran out, which the program never does.
unfoldable mutual
  pub extract_flat_value : ℕ → List FlatMmsValue → Option (GoValue × List FlatMmsValue)
  extract_flat_value zero ts = none
  extract_flat_value (suc f) [] = some (nil, [])
  extract_flat_value (suc f) (elem ∷ rest) =
      let composite = do (subs, rest') ← extract_subs f rest; some (any_slice subs, rest')
      in if is_start elem.typ then composite else some (leaf_value elem, rest)

  -- The loop that collects `subs`.
  pub extract_subs : ℕ → List FlatMmsValue → Option (AnySlice × List FlatMmsValue)
  extract_subs zero ts = none
  extract_subs (suc f) [] = some (no_any, [])
  extract_subs (suc f) (elem ∷ rest) =
      let more = do
        (sub, rest') ← extract_flat_value f (elem ∷ rest)
        (subs, rest'') ← extract_subs f rest'
        some (any sub subs, rest'')
      in if is_end elem.typ then some (no_any, rest) else more
