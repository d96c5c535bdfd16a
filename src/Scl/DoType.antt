-- ===== src/Scl/DoType.antt =====
-- `GetDOType` of iec61850/scl_xml/scl.go: the type of a data object, with its cache.
pub mod Memo
use go_libiec.Prelude.{
  String, Bool, ◌||◌, Option, none, some, List, [], ◌∷◌, Dict, lookup, insert, concat, str_eq,
  if◌then◌else◌,
}
use go_libiec.Scl.Types.{Do, DoType, no_do_type, LNodeType, DataTypeTemplates, DataSetDetail}

-- The key that the builder writes.
abbrev pub cache_key : String → String → String → String
cache_key prefix ln_class name = concat (prefix ∷ ln_class ∷ "/" ∷ name ∷ [])

-- The inner loop over `lNodeType.DO`: the type of the first object of that name, "" if there is none.
unfoldable pub do_type_id_in : List Do → String → String
do_type_id_in [] name = ""
do_type_id_in (d ∷ dos) name = if str_eq d.name name then d.typ else do_type_id_in dos name

-- The loop over the `LNodeType`s: it stops at the first that fits, whether it has the object or not.
unfoldable pub find_do_type_id : List LNodeType → String → String → String → String
unfolding do_type_id_in
find_do_type_id [] prefix ln_class name = ""
find_do_type_id (t ∷ ts) prefix ln_class name =
    if str_eq t.id (concat (prefix ∷ ln_class ∷ [])) || str_eq t.ln_class ln_class
    then do_type_id_in t.dos name
    else find_do_type_id ts prefix ln_class name

-- The loop over the `DOType`s.
unfoldable pub find_do_type : List DoType → String → Option DoType
find_do_type [] id = none
find_do_type (t ∷ ts) id = if str_eq t.id id then some t else find_do_type ts id

-- The two loops of the function, on the templates alone.
unfoldable pub search_do_type : DataTypeTemplates → String → String → String → Option DoType
unfolding find_do_type_id find_do_type
search_do_type t prefix ln_class name =
    find_do_type t.do_types (find_do_type_id t.l_node_types prefix ln_class name)

-- `ds.DOTypes[key]`; a nil map holds nothing.
abbrev pub cached : Option (Dict DoType) → String → Option DoType
cached none key = none
cached (some d) key = lookup key d

-- `ds.DOTypes[key] = t`, after the map was made if it was nil.
abbrev pub remember : Option (Dict DoType) → String → DoType → Option (Dict DoType)
remember none key t = some (insert key t [])
remember (some d) key t = some (insert key t d)

-- The result and the data set after the call.
unfoldable pub get_do_type : DataSetDetail → String → String → String → DoType × DataSetDetail
get_do_type ds prefix ln_class name = elim (cached ds.do_types (cache_key prefix ln_class name)) [
  | some typ ↦ (typ, ds)
  | none ↦ elim (search_do_type ds.templates prefix ln_class name) [
    | some typ ↦
        (typ, record ds { do_types = remember ds.do_types (cache_key prefix ln_class name) typ })
    | none ↦ (no_do_type, ds)
  ]
]
