-- ===== src/Mms/Types.antt =====
-- The MMS type tags: `MmsType` of iec61850/inc/mms/inc/mms_common.h and `MMSType` of
-- iec61850/types.go, with the names that iec61850/iec61850_control.go prints.
use go_libiec.Prelude.{ℕ, ◌≡◌, refl, Option, some, List, [], ◌∷◌, get_elem?}

-- The enumeration of mms_common.h.
pub data MmsType : Type 0 where
  mms_array mms_structure mms_boolean mms_bit_string mms_integer mms_unsigned mms_float : MmsType
  mms_octet_string mms_visible_string mms_generalized_time mms_binary_time mms_bcd : MmsType
  mms_obj_id mms_string mms_utc_time mms_data_access_error : MmsType

-- The values that mms_common.h gives to the enumerators.
abbrev pub type_code : MmsType → ℕ
type_code mms_array = 0
type_code mms_structure = 1
type_code mms_boolean = 2
type_code mms_bit_string = 3
type_code mms_integer = 4
type_code mms_unsigned = 5
type_code mms_float = 6
type_code mms_octet_string = 7
type_code mms_visible_string = 8
type_code mms_generalized_time = 9
type_code mms_binary_time = 10
type_code mms_bcd = 11
type_code mms_obj_id = 12
type_code mms_string = 13
type_code mms_utc_time = 14
type_code mms_data_access_error = 15

-- The `const` block of types.go: the n-th name has the value n (`iota`).
abbrev pub mms_type_consts : List MmsType
mms_type_consts =
    mms_array ∷ mms_structure ∷ mms_boolean ∷ mms_bit_string ∷ mms_integer ∷ mms_unsigned
    ∷ mms_float ∷ mms_octet_string ∷ mms_visible_string ∷ mms_generalized_time ∷ mms_binary_time
    ∷ mms_bcd ∷ mms_obj_id ∷ mms_string ∷ mms_utc_time ∷ mms_data_access_error ∷ []

-- `MMSType(t)` in Go reads a C number as one of the constants of types.go.
abbrev pub go_mms_type : ℕ → Option MmsType
go_mms_type = get_elem? mms_type_consts

-- The constants of types.go agree with the enumeration of the library: the number of every type is
-- read as that type.
pub go_mms_type-type_code : (t : MmsType) → go_mms_type (type_code t) ≡ some t
go_mms_type-type_code mms_array = refl
go_mms_type-type_code mms_structure = refl
go_mms_type-type_code mms_boolean = refl
go_mms_type-type_code mms_bit_string = refl
go_mms_type-type_code mms_integer = refl
go_mms_type-type_code mms_unsigned = refl
go_mms_type-type_code mms_float = refl
go_mms_type-type_code mms_octet_string = refl
go_mms_type-type_code mms_visible_string = refl
go_mms_type-type_code mms_generalized_time = refl
go_mms_type-type_code mms_binary_time = refl
go_mms_type-type_code mms_bcd = refl
go_mms_type-type_code mms_obj_id = refl
go_mms_type-type_code mms_string = refl
go_mms_type-type_code mms_utc_time = refl
go_mms_type-type_code mms_data_access_error = refl

pub MmsType-discrete : Discrete MmsType
MmsType-discrete = hlevel
