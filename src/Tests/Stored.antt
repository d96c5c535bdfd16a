-- ===== src/Tests/Stored.antt =====
-- Reading a data set by the schema built for it (iec61850/iec61850_client.go,
-- iec61850/iec61850_schema.go), at a small model.
use go_libiec.Prelude.{◌≡◌, refl, true, false, none, some, [], ◌∷◌, inr, lookup}
use go_libiec.Mms.Value.{Components, structure, boolean, bit_string, no_components, component}
use go_libiec.Values.{uint32}
use go_libiec.Client.Resolve.View.{data_view}
use go_libiec.Client.DataSet.{read, read_data_set_flat}
use go_libiec.Client.DataSet.Flat.{data_set_of}
use go_libiec.Client.DataSet.Keyed.{read_data_set_flat-stored}
use go_libiec.Scl.Types.{DataSetDetail}
use go_libiec.Scl.DoType.{search_do_type, find_do_type_id, do_type_id_in, find_do_type}
use go_libiec.Schema.{build_data_set_schema}
use go_libiec.Tests.Library.{library, library_laws}
use go_libiec.Tests.Scl.{IsInd1, one_query, detail, attribute, entry}

-- A position that is on, with its quality.
abbrev position : Components
position = component (boolean true) (component (bit_string 13 (0 ∷ 8 ∷ [])) no_components)

abbrev members : Components
members = component (structure position) (component (boolean false) no_components)

-- An object and an attribute of it that the constraint does not cover.
abbrev object_and_text : DataSetDetail
object_and_text = record detail {
  data_set = record { name = "ds2"; desc = ""; fcda = entry "" ∷ entry "d" ∷ [] };
}

-- The quality of the first entry, an object, is stored under its reference.
read_data_set_flat-stored_example :
    ((read_data_set_flat library false
        (read (data_set_of members))
        (build_data_set_schema object_and_text).0
        []).0
      ≡ none)
    × (lookup "IEDLD1/GGIO1.Ind1.q"
          (read_data_set_flat library false
            (read (data_set_of members))
            (build_data_set_schema object_and_text).0
            []).1
        ≡ some (uint32 8))
unfolding data_view search_do_type find_do_type_id do_type_id_in find_do_type
read_data_set_flat-stored_example =
    read_data_set_flat-stored library library_laws IsInd1 object_and_text members [] 0 (entry "")
      (structure position) "q" (uint32 8) refl one_query (refl, (refl, tt)) tt
      ((tt, tt), ((tt, tt), (refl, tt))) ((refl, (refl, tt)), ((refl, tt), (tt, tt))) refl refl
      (inr (
        1,
        attribute "q" "ST",
        position,
        bit_string 13 (0 ∷ 8 ∷ []),
        refl,
        refl,
        refl,
        refl,
        refl,
        refl,
      ))
