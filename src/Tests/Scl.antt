-- ===== src/Tests/Scl.antt =====
-- The theorems on iec61850/scl_xml/scl.go and iec61850/iec61850_schema.go at a small model.
use go_libiec.Prelude.{◌≡◌, refl, String, none, some, [], ◌∷◌, map, lookup}
use go_libiec.Values.{MmsSlice, nil, mms_slice, no_mms, mms, uint32, int64}
use go_libiec.Mms.Types.{mms_structure, mms_bit_string, mms_integer}
use go_libiec.Scl.Types.{
  Da, da, no_das, Do, DoType, DataTypeTemplates, FcdaEntry, DataSet, Ied, Scl, DataSetDetail,
}
use go_libiec.Scl.DoType.{get_do_type, search_do_type, find_do_type_id, do_type_id_in, find_do_type}
use go_libiec.Scl.DoType.Memo.{
  Query, resolve, calls, Unambiguous, calls-eq-resolve, get_do_type_collision,
}
use go_libiec.Scl.DataSets.{
  get_data_set, ok, split_slash, find_in_ieds, find_in_points, find_in_devices, find_set,
}
use go_libiec.Prelude.{inl}
use go_libiec.Scl.DataSets.Complete.{get_data_set_complete}
use go_libiec.Scl.DataSets.Sound.{AnyOf, Holds, get_data_set_sound}
use go_libiec.Schema.{
  SchemaLeaf, DataSetSchema, apply_schema, build_data_set_schema, build_leaves, fcda_leaves,
  da_leaves,
}
use go_libiec.Schema.Build.{build_data_set_schema-eq, expected_leaves}
use go_libiec.Schema.Apply.{apply_schema-lookup}

abbrev pub attribute : String → String → Da
attribute name fc = da name "" fc nil no_das

abbrev position_type : DoType
position_type = record {
  id = "SPS";
  das = attribute "stVal" "ST" ∷ attribute "q" "ST" ∷ attribute "d" "DC" ∷ [];
  desc = "";
  sdos = [];
}

abbrev state_type : DoType
state_type = record { id = "ENS"; das = attribute "stVal" "ST" ∷ []; desc = ""; sdos = [] }

abbrev object_of : String → Do
object_of typ = record { name = "Ind1"; typ = typ; desc = ""; das = [] }

abbrev templates : DataTypeTemplates
templates = record {
  l_node_types =
      record {
        id = "GGIO_1";
        ln_class = "GGIO";
        desc = "";
        dos = record { name = "Ind1"; typ = "SPS"; desc = ""; das = [] } ∷ [];
      }
      ∷ [];
  do_types = position_type ∷ [];
  da_types = [];
  enum_types = [];
}

abbrev pub entry : String → FcdaEntry
entry attr = record {
  ld_inst = "LD1";
  prefix = "";
  ln_class = "GGIO";
  ln_inst = "1";
  do_name = "Ind1";
  da_name = attr;
  fc = "ST";
}

abbrev events : DataSet
events = record { name = "ds1"; desc = ""; fcda = entry "" ∷ entry "stVal" ∷ [] }

abbrev model : Scl
model = record {
  ieds =
      record {
        name = "IED";
        typ = "";
        desc = "";
        config_version = "1";
        access_points =
            record {
              name = "AP1";
              l_devices =
                  record {
                    inst = "LD1";
                    lns = [];
                    ln0 = record {
                      inst = "";
                      ln_type = "";
                      ln_class = "LLN0";
                      data_sets = events ∷ [];
                    };
                  }
                  ∷ [];
            }
            ∷ [];
      }
      ∷ [];
  templates = templates;
}

abbrev pub detail : DataSetDetail
detail = record { data_set = events; ied_name = "IED"; do_types = none; templates = templates }

abbrev ind1 : Query
ind1 = record { prefix = ""; ln_class = "GGIO"; name = "Ind1" }

-- The one query of the tests.
abbrev pub IsInd1 : Query → Type 0
IsInd1 q = q ≡ ind1

pub one_query : Unambiguous templates IsInd1
one_query q r p s same = cc

calls-eq-resolve_example :
    calls detail (ind1 ∷ ind1 ∷ []) ≡ map (resolve templates) (ind1 ∷ ind1 ∷ [])
calls-eq-resolve_example =
    calls-eq-resolve IsInd1 detail (ind1 ∷ ind1 ∷ []) refl one_query (refl, (refl, tt))

-- Another query with the same key.
abbrev split_ind1 : Query
split_ind1 = record { prefix = "GG"; ln_class = "IO"; name = "Ind1" }

-- Templates in which the two queries have different answers.
abbrev two_types : DataTypeTemplates
two_types = record {
  l_node_types =
      record { id = "A"; ln_class = "GGIO"; desc = ""; dos = object_of "SPS" ∷ [] }
      ∷ record { id = "B"; ln_class = "IO"; desc = ""; dos = object_of "ENS" ∷ [] }
      ∷ [];
  do_types = position_type ∷ state_type ∷ [];
  da_types = [];
  enum_types = [];
}

abbrev two_answers : DataSetDetail
two_answers = record detail { templates = two_types }

get_do_type_collision_example :
    (calls two_answers (ind1 ∷ split_ind1 ∷ []) ≡ position_type ∷ position_type ∷ [])
    × (calls two_answers (split_ind1 ∷ ind1 ∷ []) ≡ state_type ∷ state_type ∷ [])
unfolding search_do_type find_do_type_id do_type_id_in find_do_type
get_do_type_collision_example =
    get_do_type_collision two_answers ind1 split_ind1 position_type state_type refl refl refl refl
      refl

get_data_set_sound_example :
    (a : String) × (b : String) × (split_slash "IEDLD1/LLN0.ds1" ≡ a ∷ b ∷ [])
    × AnyOf (λ (ied : Ied). (ied.name ≡ "IED") × Holds a b events ied) model.ieds
    × (detail.do_types ≡ none)
    × (detail.templates ≡ model.templates)
unfolding get_data_set split_slash find_in_ieds find_in_points find_in_devices find_set
get_data_set_sound_example = get_data_set_sound model "IEDLD1/LLN0.ds1" detail refl

get_data_set_complete_example : (d : DataSetDetail) × (get_data_set model "IEDLD1/LLN0.ds1" ≡ ok d)
unfolding split_slash
get_data_set_complete_example =
    get_data_set_complete model "IEDLD1/LLN0.ds1" "IEDLD1" "LLN0.ds1" (((tt, tt), tt), tt) refl
      (inl (inl (inl (refl, inl refl))))

build_data_set_schema-eq_example :
    (build_data_set_schema detail).0
    ≡ record { leaves = expected_leaves templates "IED" 0 events.fcda; fcda_count = 2 }
build_data_set_schema-eq_example =
    build_data_set_schema-eq IsInd1 detail refl one_query (refl, (refl, tt))

abbrev schema : DataSetSchema
schema = record {
  leaves =
      record { path = "IEDLD1/GGIO1.Ind1.stVal"; fcda_idx = 0; da_idx = some 0 }
      ∷ record { path = "IEDLD1/GGIO1.Ind1.q"; fcda_idx = 0; da_idx = some 1 }
      ∷ record { path = "IEDLD1/GGIO1.Ind2.stVal"; fcda_idx = 1; da_idx = none }
      ∷ [];
  fcda_count = 2;
}

abbrev read_values : MmsSlice
read_values =
    mms mms_structure (mms_slice (mms mms_integer (int64 7) (mms mms_bit_string (uint32 0) no_mms)))
      (mms mms_integer (int64 8) no_mms)

apply_schema-lookup_example :
    (lookup "IEDLD1/GGIO1.Ind1.q" (apply_schema schema read_values []) ≡ some (uint32 0))
    × (lookup "IEDLD1/GGIO1.Ind1.t" (apply_schema schema read_values []) ≡ none)
unfolding lookup
apply_schema-lookup_example =
    apply_schema-lookup schema read_values [] 1
      (record { path = "IEDLD1/GGIO1.Ind1.q"; fcda_idx = 0; da_idx = some 1 }) "IEDLD1/GGIO1.Ind1.t"
      ((refl, (refl, tt)), ((refl, tt), (tt, tt))) refl (refl, (refl, (refl, tt)))

build_data_set_schema_run :
    map (λ (l : SchemaLeaf). l.path) (build_data_set_schema detail).0.leaves
    ≡ "IEDLD1/GGIO1.Ind1.stVal" ∷ "IEDLD1/GGIO1.Ind1.q" ∷ "IEDLD1/GGIO1.Ind1.stVal" ∷ []
unfolding build_data_set_schema build_leaves fcda_leaves da_leaves get_do_type search_do_type
    find_do_type_id do_type_id_in find_do_type
build_data_set_schema_run = refl
