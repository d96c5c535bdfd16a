-- ===== src/Mms/Api.antt =====
-- What the binding takes from libiec61850 about values: the accessors that mms_value.h declares
-- (iec61850/inc/mms/inc/mms_value.h). Their code is in a binary, so they are a parameter.
use go_libiec.Prelude.{ℕ, ◌^◌, ◌<◌, String, ◌≡◌, Bool, Option}
use go_libiec.Mms.Types.{MmsType}
use go_libiec.Mms.Value.{MmsValue, Components, array, structure, type_of, components_size, nth}

-- The scalars: a Boolean, a text, and the bits of a bit string. A C string is NULL or a text.
pub record MmsScalars : Type 0 where
  pub get_boolean : MmsValue → Bool
  pub to_string : MmsValue → Option String
  pub get_bit_string_as_integer : MmsValue → ℕ

-- The structure of a value, and its numbers. A `double` is the number of its 64-bit pattern and an `int64_t` its two's complement: the
-- binding only copies them.
pub record MmsApi : Type 0 where
  pub scalars : MmsScalars
  pub get_type : MmsValue → MmsType
  pub get_array_size : MmsValue → ℕ
  pub get_element : MmsValue → ℕ → Option MmsValue
  pub to_double : MmsValue → ℕ
  pub to_int64 : MmsValue → ℕ
  pub to_unix_timestamp : MmsValue → ℕ

-- What the documentation of the accessors says, as far as the binding relies on it: the type, the
-- size and the elements of an array or a structure (NULL past the end), and two `uint32_t` results.
pub record MmsLaws (m : MmsApi) : Type 0 where
  pub type_law : (v : MmsValue) → m.get_type v ≡ type_of v
  pub array_size : (cs : Components) → m.get_array_size (array cs) ≡ components_size cs
  pub structure_size : (cs : Components) → m.get_array_size (structure cs) ≡ components_size cs
  pub array_element : (cs : Components) (i : ℕ) → m.get_element (array cs) i ≡ nth cs i
  pub structure_element : (cs : Components) (i : ℕ) → m.get_element (structure cs) i ≡ nth cs i
  pub bits_range : (v : MmsValue) → m.scalars.get_bit_string_as_integer v < 2 ^ 32
  pub unix_range : (v : MmsValue) → m.to_unix_timestamp v < 2 ^ 32
