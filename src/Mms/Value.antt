-- ===== src/Mms/Value.antt =====
-- The value tree: `struct sMmsValue` of iec61850/inc/mms/inc_private/mms_value_internal.h.
use go_libiec.Prelude.{ℕ, zero, suc, ◌<◌, ◌≤◌, arith, max, Bool, Option, none, some, List, String}
use go_libiec.Mms.Types.{
  MmsType, mms_array, mms_structure, mms_boolean, mms_bit_string, mms_integer, mms_unsigned,
  mms_float, mms_octet_string, mms_visible_string, mms_generalized_time, mms_binary_time, mms_bcd,
  mms_obj_id, mms_string, mms_utc_time, mms_data_access_error,
}

-- `Asn1PrimitiveValue` of asn1_ber_primitive_value.h: the BER octets of an integer.
pub record Asn1PrimitiveValue : Type 0 where
  pub size : ℕ
  pub max_size : ℕ
  pub octets : List ℕ

-- `MmsDataAccessError` of iec61850/inc/mms/inc/mms_value.h.
pub data MmsDataAccessError : Type 0 where
  success_no_update no_response success object_invalidated hardware_fault : MmsDataAccessError
  temporarily_unavailable object_access_denied object_undefined invalid_address : MmsDataAccessError
  type_unsupported type_inconsistent object_attribute_inconsistent : MmsDataAccessError
  object_access_unsupported object_none_existent object_value_invalid unknown : MmsDataAccessError

-- One constructor for each `type` with the member of the union that it uses; a type that has no
-- member of the union carries nothing. `Components` is the array `components`, in which an entry
-- may be NULL.
mutual
  pub data MmsValue : Type 0 where
    array structure : Components → MmsValue
    boolean : Bool → MmsValue
    bit_string : ℕ → List ℕ → MmsValue
    integer unsigned : Asn1PrimitiveValue → MmsValue
    floating_point : ℕ → ℕ → List ℕ → MmsValue
    octet_string : ℕ → ℕ → List ℕ → MmsValue
    visible_string text_string : Option String → ℕ → MmsValue
    generalized_time bcd obj_id : MmsValue
    binary_time : ℕ → List ℕ → MmsValue
    utc_time : List ℕ → MmsValue
    data_access_error : MmsDataAccessError → MmsValue

  pub data Components : Type 0 where
    no_components : Components
    null_component : Components → Components
    component : MmsValue → Components → Components

-- The member `type`.
abbrev pub type_of : MmsValue → MmsType
type_of (array cs) = mms_array
type_of (structure cs) = mms_structure
type_of (boolean b) = mms_boolean
type_of (bit_string n b) = mms_bit_string
type_of (integer p) = mms_integer
type_of (unsigned p) = mms_unsigned
type_of (floating_point e w b) = mms_float
type_of (octet_string n m b) = mms_octet_string
type_of (visible_string s n) = mms_visible_string
type_of (text_string s n) = mms_string
type_of generalized_time = mms_generalized_time
type_of bcd = mms_bcd
type_of obj_id = mms_obj_id
type_of (binary_time n b) = mms_binary_time
type_of (utc_time b) = mms_utc_time
type_of (data_access_error e) = mms_data_access_error

-- The member `structure.size`, and an entry of `structure.components`: NULL outside the array.
abbrev pub components_size : Components → ℕ
components_size no_components = 0
components_size (null_component cs) = suc (components_size cs)
components_size (component v cs) = suc (components_size cs)

abbrev pub nth : Components → ℕ → Option MmsValue
nth no_components i = none
nth (null_component cs) zero = none
nth (null_component cs) (suc i) = nth cs i
nth (component v cs) zero = some v
nth (component v cs) (suc i) = nth cs i

-- The components of a value; a value of another type has none.
abbrev pub components_of : MmsValue → Components
components_of (array cs) = cs
components_of (structure cs) = cs
components_of _ = no_components

-- The height of a value: how deep a recursive walk of it goes.
unfoldable mutual
  pub height : MmsValue → ℕ
  height (array cs) = suc (height_components cs)
  height (structure cs) = suc (height_components cs)
  height _ = 1

  pub height_components : Components → ℕ
  height_components no_components = 0
  height_components (null_component cs) = height_components cs
  height_components (component v cs) = max (height v) (height_components cs)

pub height_pos : (v : MmsValue) → 0 < height v
unfolding height
height_pos (array cs) = omega arith
height_pos _ = omega arith

pub height_array : (cs : Components) (f : ℕ) → height (array cs) ≤ suc f → height_components cs ≤ f
unfolding height
height_array cs f h = omega arith

pub height_structure :
    (cs : Components) (f : ℕ) → height (structure cs) ≤ suc f → height_components cs ≤ f
unfolding height
height_structure cs f h = omega arith

pub height_array_le : (cs : Components) → height_components cs ≤ height (array cs)
unfolding height
height_array_le cs = omega arith
