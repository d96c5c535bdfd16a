-- ===== src/Scl/DataSets.antt =====
-- `GetDataSet` of iec61850/scl_xml/scl.go: the data set of a reference `IEDLDevice/LNClass.name`.
pub mod Sound
pub mod Complete
use Prim.Native.Char.{Char, code}
use go_libiec.Prelude.{
  ℕ, String, Bool, Option, none, some, List, [], ◌∷◌, concat, str_eq, ◌==◌, if◌then◌else◌,
}
use go_libiec.Scl.Types.{DataSet, DataSetDetail, LDevice, AccessPoint, Ied, Scl}

-- The error results: the reference does not parse, or nothing has it.
pub data LookupError : Type 0 where
  bad_reference not_found : String → LookupError

pub data Lookup : Type 0 where
  ok : DataSetDetail → Lookup
  err : LookupError → Lookup

abbrev in_front : Char → List String → List String
in_front c [] = String.◌∷◌ c String.[] ∷ []
in_front c (s ∷ ss) = String.◌∷◌ c s ∷ ss

-- `strings.Split(s, "/")`
unfoldable pub split_slash : String → List String
split_slash String.[] = String.[] ∷ []
split_slash (String.◌∷◌ c s) =
    let rest = split_slash s in if code c == b'/' then String.[] ∷ rest else in_front c rest

-- `fmt.Sprintf("%s%s", ied.Name, lDevice.Inst)` and `fmt.Sprintf("%s.%s", LnClass, dSet.Name)`
abbrev pub device_ref : Ied → LDevice → String
device_ref ied ld = concat (ied.name ∷ ld.inst ∷ [])

abbrev pub set_ref : LDevice → DataSet → String
set_ref ld s = concat (ld.ln0.ln_class ∷ "." ∷ s.name ∷ [])

-- The loop over the data sets of a device.
unfoldable pub find_set : LDevice → List DataSet → String → Option DataSet
find_set ld [] b = none
find_set ld (s ∷ ss) b = if str_eq (set_ref ld s) b then some s else find_set ld ss b

-- The loop over the devices of an access point: it stops at the first of that name.
unfoldable pub find_in_devices : Ied → List LDevice → String → String → Option DataSet
find_in_devices ied [] a b = none
find_in_devices ied (ld ∷ lds) a b =
    if str_eq (device_ref ied ld) a
    then find_set ld ld.ln0.data_sets b
    else find_in_devices ied lds a b

-- The loop over the access points goes on where a device of that name lacks the data set.
unfoldable pub find_in_points : Ied → List AccessPoint → String → String → Option DataSet
find_in_points ied [] a b = none
find_in_points ied (p ∷ ps) a b = elim (find_in_devices ied p.l_devices a b) [
  | some s ↦ some s
  | none ↦ find_in_points ied ps a b
]

-- The loop over the IEDs; the name of the IED comes with the data set.
unfoldable pub find_in_ieds : List Ied → String → String → Option (String × DataSet)
find_in_ieds [] a b = none
find_in_ieds (ied ∷ ieds) a b = elim (find_in_points ied ied.access_points a b) [
  | some s ↦ some (ied.name, s)
  | none ↦ find_in_ieds ieds a b
]

abbrev pub detail : Scl → String × DataSet → DataSetDetail
detail scl (name, s) = record {
  data_set = s;
  ied_name = name;
  do_types = none;
  templates = scl.templates;
}

abbrev pub found_or_not : Scl → String → Option (String × DataSet) → Lookup
found_or_not scl ref none = err (not_found ref)
found_or_not scl ref (some found) = ok (detail scl found)

abbrev pub get_by_parts : Scl → String → List String → Lookup
get_by_parts scl ref (a ∷ b ∷ []) = found_or_not scl ref (find_in_ieds scl.ieds a b)
get_by_parts scl ref _ = err (bad_reference ref)

unfoldable pub get_data_set : Scl → String → Lookup
get_data_set scl ref = get_by_parts scl ref (split_slash ref)
