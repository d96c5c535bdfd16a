-- ===== src/Tests/Library.antt =====
-- A library of the value accessors, as functions of the value tree, and some values.
use go_libiec.Prelude.{
  ℕ, ◌+◌, ◌*◌, ◌%◌, ◌^◌, ◌<◌, String, refl, Bool, false, Option, none, List, [], ◌∷◌, arith,
}
use go_libiec.Mms.Value.{
  MmsValue, Components, structure, boolean, bit_string, integer, unsigned, floating_point,
  visible_string, text_string, utc_time, no_components, null_component, component, type_of,
  components_size, components_of, nth,
}
use go_libiec.Mms.Api.{MmsApi, MmsLaws}

-- The number of octets, the first one the highest.
abbrev pub number : ℕ → List ℕ → ℕ
number n [] = n
number n (b ∷ bs) = number (n * 256 + b) bs

abbrev pub text : MmsValue → Option String
text (visible_string s n) = s
text (text_string s n) = s
text v = none

abbrev pub int_of : MmsValue → ℕ
int_of (integer p) = number 0 p.octets
int_of (unsigned p) = number 0 p.octets
int_of v = 0

abbrev pub double_of : MmsValue → ℕ
double_of (floating_point e w b) = number 0 b
double_of v = 0

abbrev pub bits_of : MmsValue → ℕ
bits_of (bit_string n b) = number 0 b % 2 ^ 32
bits_of v = 0

abbrev pub unix_of : MmsValue → ℕ
unix_of (utc_time b) = number 0 b % 2 ^ 32
unix_of v = 0

abbrev pub bool_of : MmsValue → Bool
bool_of (boolean b) = b
bool_of v = false

abbrev pub library : MmsApi
library = record {
  scalars = record { get_boolean = bool_of; to_string = text; get_bit_string_as_integer = bits_of };
  get_type = type_of;
  get_array_size = λ v. components_size (components_of v);
  get_element = λ v i. nth (components_of v) i;
  to_double = double_of;
  to_int64 = int_of;
  to_unix_timestamp = unix_of;
}

bits_small : (v : MmsValue) → bits_of v < 2 ^ 32
bits_small (bit_string n b) = omega arith
bits_small v = omega arith

unix_small : (v : MmsValue) → unix_of v < 2 ^ 32
unix_small (utc_time b) = omega arith
unix_small v = omega arith

pub library_laws : MmsLaws library
library_laws = record {
  type_law = λ v. refl;
  array_size = λ cs. refl;
  structure_size = λ cs. refl;
  array_element = λ cs i. refl;
  structure_element = λ cs i. refl;
  bits_range = bits_small;
  unix_range = unix_small;
}

-- A measured value with its quality and time, and a position.
abbrev pub measured : MmsValue
measured = structure (
    component (structure (component (floating_point 8 32 (65 ∷ 32 ∷ 0 ∷ 0 ∷ [])) no_components)) (
      component (bit_string 13 (0 ∷ 0 ∷ []))
        (component (utc_time (1 ∷ 2 ∷ 3 ∷ 4 ∷ [])) no_components)))

abbrev pub position : MmsValue
position = integer (record { size = 1; max_size = 4; octets = 7 ∷ [] })

abbrev pub two_values : Components
two_values = component measured (component position no_components)

-- A NULL between two values.
abbrev pub with_gap : Components
with_gap = component position (null_component (component measured no_components))
