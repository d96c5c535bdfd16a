-- ===== src/Tests/Client.antt =====
-- The theorems on iec61850/iec61850_client.go at concrete values.
use go_libiec.Prelude.{◌≡◌, refl, true, false, none, some, [], ◌∷◌, arith}
use go_libiec.Mms.Types.{mms_structure}
use go_libiec.Mms.Value.{height, type_of}
use go_libiec.Values.{MmsSlice}
use go_libiec.Prelude.{lookup, List}
use go_libiec.Mms.Types.{mms_boolean, mms_bit_string}
use go_libiec.Values.{mms, no_mms, nil, bool, uint32}
use go_libiec.Scl.Types.{Da, da, no_das}
use go_libiec.Client.Explain.{explain_subs, find_da_name}
use go_libiec.Client.Explain.Paths.{explain_subs-trail}
use go_libiec.Schema.{DataSetSchema, apply_schema}
use go_libiec.Client.Resolve.{resolve_value, resolve_value_inline}
use go_libiec.Client.Resolve.Inline.{resolve_value_inline-eq}
use go_libiec.Client.Resolve.View.{data_view, resolve_value-eq}
use go_libiec.Client.DataSet.{read_data_set_values, read_data_set_flat, read, values}
use go_libiec.Client.DataSet.Flat.{data_set_of, read_data_set_flat-eq-apply}
use go_libiec.Tests.Library.{library, library_laws, measured, two_values}

resolve_value_inline-eq_example :
    resolve_value_inline library true 3 measured mms_structure
    ≡ resolve_value library true 3 measured mms_structure
resolve_value_inline-eq_example = resolve_value_inline-eq library true 3 measured mms_structure

resolve_value-eq_example :
    resolve_value library false 3 measured (type_of measured) ≡ data_view library false measured
unfolding height
resolve_value-eq_example = resolve_value-eq library library_laws false 3 measured (omega arith)

abbrev schema : DataSetSchema
schema = record {
  leaves =
      record { path = "IED/MMXU1.A.mag.f"; fcda_idx = 0; da_idx = some 0 }
      ∷ record { path = "IED/MMXU1.A.q"; fcda_idx = 0; da_idx = some 1 }
      ∷ record { path = "IED/GGIO1.Pos.stVal"; fcda_idx = 1; da_idx = none }
      ∷ [];
  fcda_count = 2;
}

read_data_set_flat-eq-apply_example :
    (s : MmsSlice) × (read_data_set_values library false (read (data_set_of two_values)) ≡ values s)
    × (read_data_set_flat library false (read (data_set_of two_values)) schema []
        ≡ (none, apply_schema schema s []))
read_data_set_flat-eq-apply_example =
    read_data_set_flat-eq-apply library library_laws two_values schema [] tt
      ((tt, refl), ((tt, tt), (refl, tt)))

abbrev status : List Da
status =
    da "stVal" "" "ST" nil no_das
    ∷ da "q" "" "ST" nil no_das
    ∷ da "t" "" "ST" nil no_das
    ∷ da "d" "" "DC" nil no_das
    ∷ []

abbrev status_values : MmsSlice
status_values = mms mms_boolean (bool true) (mms mms_bit_string (uint32 0) no_mms)

-- The quality is stored behind the name of the value.
explain_subs-trail_example :
    lookup "IED/GGIO1.Ind1.stVal.q" (explain_subs status "IED/GGIO1.Ind1" 0 status_values [])
    ≡ some (uint32 0)
unfolding find_da_name
explain_subs-trail_example =
    explain_subs-trail status "IED/GGIO1.Ind1" 0 1 status_values [] (uint32 0) (uint32 0) refl refl
