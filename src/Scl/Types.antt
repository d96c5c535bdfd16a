-- ===== src/Scl/Types.antt =====
-- The data structures of iec61850/scl_xml/scl.go.
use go_libiec.Prelude.{ℕ, String, List, [], ◌∷◌, Option, Dict}
use go_libiec.Values.{GoValue}

-- `DA` holds a slice of itself: `Das` is a `[]DA`. The fields of an attribute are its name, its
-- type, its functional constraint, its value and its parts.
mutual
  pub data Da : Type 0 where
    da : String → String → String → GoValue → Das → Da

  pub data Das : Type 0 where
    no_das : Das
    more_das : Da → Das → Das

abbrev pub da_name : Da → String
da_name (da name typ fc val parts) = name

abbrev pub da_type : Da → String
da_type (da name typ fc val parts) = typ

abbrev pub da_fc : Da → String
da_fc (da name typ fc val parts) = fc

abbrev pub da_list : Das → List Da
da_list no_das = []
da_list (more_das a as') = a ∷ da_list as'

pub record Sdo : Type 0 where
  pub name : String
  pub typ : String
  pub das : List Da

pub record DoType : Type 0 where
  pub id : String
  pub das : List Da
  pub desc : String
  pub sdos : List Sdo

-- The zero value, `DOType{}`.
abbrev pub no_do_type : DoType
no_do_type = record { id = ""; das = []; desc = ""; sdos = [] }

pub record Do : Type 0 where
  pub name : String
  pub typ : String
  pub desc : String
  pub das : List Da

pub record LNodeType : Type 0 where
  pub id : String
  pub ln_class : String
  pub desc : String
  pub dos : List Do

pub record Bda : Type 0 where
  pub name : String
  pub typ : String
  pub val : GoValue

pub record DaType : Type 0 where
  pub id : String
  pub bdas : List Bda
  pub das : List Da

pub record EnumVal : Type 0 where
  pub ord : ℕ
  pub name : String

pub record EnumType : Type 0 where
  pub id : String
  pub enum_vals : List EnumVal

pub record DataTypeTemplates : Type 0 where
  pub l_node_types : List LNodeType
  pub do_types : List DoType
  pub da_types : List DaType
  pub enum_types : List EnumType

pub record FcdaEntry : Type 0 where
  pub ld_inst : String
  pub prefix : String
  pub ln_class : String
  pub ln_inst : String
  pub do_name : String
  pub da_name : String
  pub fc : String

pub record DataSet : Type 0 where
  pub name : String
  pub desc : String
  pub fcda : List FcdaEntry

-- `DAI` and `SDI` hold slices of one another.
mutual
  pub data Dai : Type 0 where
    dai : String → String → Sdis → Dai

  pub data Sdi : Type 0 where
    sdi : String → Dais → Sdis → Sdi

  pub data Dais : Type 0 where
    no_dais : Dais
    more_dais : Dai → Dais → Dais

  pub data Sdis : Type 0 where
    no_sdis : Sdis
    more_sdis : Sdi → Sdis → Sdis

pub record Doi : Type 0 where
  pub desc : String
  pub name : String
  pub dais : Dais
  pub sdis : Sdis

pub record Ln : Type 0 where
  pub inst : String
  pub prefix : String
  pub ln_type : String
  pub ln_class : String
  pub dois : List Doi

pub record Ln0 : Type 0 where
  pub inst : String
  pub ln_type : String
  pub ln_class : String
  pub data_sets : List DataSet

pub record LDevice : Type 0 where
  pub inst : String
  pub lns : List Ln
  pub ln0 : Ln0

pub record AccessPoint : Type 0 where
  pub name : String
  pub l_devices : List LDevice

pub record Ied : Type 0 where
  pub name : String
  pub typ : String
  pub desc : String
  pub config_version : String
  pub access_points : List AccessPoint

pub record Scl : Type 0 where
  pub ieds : List Ied
  pub templates : DataTypeTemplates

-- `DataSetDetail`; `do_types` is the cache, `none` while the map is nil.
pub record DataSetDetail : Type 0 where
  pub data_set : DataSet
  pub ied_name : String
  pub do_types : Option (Dict DoType)
  pub templates : DataTypeTemplates
