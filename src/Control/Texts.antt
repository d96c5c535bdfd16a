-- ===== src/Control/Texts.antt =====
-- The texts of the errors of iec61850/iec61850_control.go, and `mmsTypeName`.
use Prim.Native.Char.{code}
use go_libiec.Prelude.{
  ℕ, zero, suc, ◌/◌, ◌%◌, String, Bool, Option, none, some, List, [], ◌∷◌, concat, get_elem?, ltb,
  ◌==◌, if◌then◌else◌,
}
use go_libiec.Itoa.{itoa, or_empty}
use go_libiec.Mms.Types.{
  MmsType, mms_array, mms_structure, mms_boolean, mms_bit_string, mms_integer, mms_unsigned,
  mms_float, mms_octet_string, mms_visible_string, mms_generalized_time, mms_binary_time, mms_bcd,
  mms_obj_id, mms_string, mms_utc_time, mms_data_access_error, type_code,
}
use go_libiec.Client.Errors.{err}
use go_libiec.Control.{
  CtlVal, boolean, int32, float32, ControlError, create_failed, wrong_type, new_failed,
  operate_failed,
}

-- `mmsTypeName`, for a number that may be none of the constants.
unfoldable pub mms_type_name : Option MmsType → String
mms_type_name (some mms_array) = "MMS_ARRAY"
mms_type_name (some mms_structure) = "MMS_STRUCTURE"
mms_type_name (some mms_boolean) = "MMS_BOOLEAN"
mms_type_name (some mms_bit_string) = "MMS_BIT_STRING"
mms_type_name (some mms_integer) = "MMS_INTEGER"
mms_type_name (some mms_unsigned) = "MMS_UNSIGNED"
mms_type_name (some mms_float) = "MMS_FLOAT"
mms_type_name (some mms_octet_string) = "MMS_OCTET_STRING"
mms_type_name (some mms_visible_string) = "MMS_VISIBLE_STRING"
mms_type_name (some mms_generalized_time) = "MMS_GENERALIZED_TIME"
mms_type_name (some mms_binary_time) = "MMS_BINARY_TIME"
mms_type_name (some mms_bcd) = "MMS_BCD"
mms_type_name (some mms_obj_id) = "MMS_OBJ_ID"
mms_type_name (some mms_string) = "MMS_STRING"
mms_type_name (some mms_utc_time) = "MMS_UTC_TIME"
mms_type_name (some mms_data_access_error) = "MMS_DATA_ACCESS_ERROR"
mms_type_name none = "unknown"

-- The last `count` hexadecimal digits of `n`, the verbs `%02x`, `%04x` and `%08x`.
abbrev hex_digits : List String
hex_digits =
    "0" ∷ "1" ∷ "2" ∷ "3" ∷ "4" ∷ "5" ∷ "6" ∷ "7" ∷ "8" ∷ "9" ∷ "a" ∷ "b" ∷ "c" ∷ "d" ∷ "e" ∷ "f"
    ∷ []

unfoldable pub hex : ℕ → ℕ → String
hex zero n = ""
hex (suc count) n = concat (hex count (n / 16) ∷ or_empty (get_elem? hex_digits (n % 16)) ∷ [])

-- The characters that Go writes as a backslash and one more.
abbrev short_escapes : List (ℕ × String)
short_escapes =
    (34, "\"")
    ∷ (92, "\\")
    ∷ (7, "a")
    ∷ (8, "b")
    ∷ (9, "t")
    ∷ (10, "n")
    ∷ (11, "v")
    ∷ (12, "f")
    ∷ (13, "r")
    ∷ []

unfoldable pub find_escape : List (ℕ × String) → ℕ → Option String
find_escape [] c = none
find_escape ((k, e) ∷ es) c = if k == c then some e else find_escape es c

-- A character that Go does not print.
abbrev numbered : ℕ → String
numbered c =
    if ltb c 128
    then concat ("\\x" ∷ hex 2 c ∷ [])
    else if ltb c 65536
    then concat ("\\u" ∷ hex 4 c ∷ [])
    else concat ("\\U" ∷ hex 8 c ∷ [])

-- `is_print` is `strconv.IsPrint`, a table of Unicode.
module _ (is_print : ℕ → Bool) where
  -- The verb `%q` for the character `c`, which is the text `self`.
  abbrev quoted_char : ℕ → String → String
  quoted_char c self = elim (find_escape short_escapes c) [
    | some e ↦ concat ("\\" ∷ e ∷ [])
    | none ↦ if is_print c then self else numbered c
  ]

  unfoldable pub quoted_chars : String → String
  unfolding find_escape hex
  quoted_chars String.[] = ""
  quoted_chars (String.◌∷◌ c s) =
      concat (quoted_char (code c) (String.◌∷◌ c String.[]) ∷ quoted_chars s ∷ [])

  unfoldable pub quote : String → String
  unfolding quoted_chars
  quote s = concat ("\"" ∷ quoted_chars s ∷ "\"" ∷ [])

  -- The constructor that has failed; each operate calls one of them.
  abbrev pub constructor_name : CtlVal → String
  constructor_name (boolean b) = "MmsValue_newBoolean"
  constructor_name (int32 n) = "MmsValue_newIntegerFromInt32"
  constructor_name (float32 n) = "MmsValue_newFloat"

  -- The text of an error that an operate with the value `x` returns.
  unfoldable pub control_error_text : CtlVal → ControlError → String
  unfolding quote mms_type_name
  control_error_text x (create_failed ref) =
      concat ("error creating control object client for " ∷ quote ref ∷ [])
  control_error_text x (wrong_type ref got) = concat (
      "control "
      ∷ quote ref
      ∷ ": ctlVal MMS type is "
      ∷ itoa (type_code got)
      ∷ " ("
      ∷ mms_type_name (some got)
      ∷ "), want MMS_INTEGER for INC"
      ∷ [])
  control_error_text x (new_failed ref) =
      concat ("control " ∷ quote ref ∷ ": " ∷ constructor_name x ∷ " failed" ∷ [])
  control_error_text x (operate_failed ref code) =
      concat ("failed to operate " ∷ quote ref ∷ ": " ∷ err code ∷ [])
