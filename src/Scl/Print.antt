-- ===== src/Scl/Print.antt =====
-- The `Print` methods of iec61850/scl_xml/scl.go: a line of the output without its end is a text.
use go_libiec.Prelude.{
  ℕ, zero, suc, ◌+◌, String, not, ◌&&◌, List, [], ◌∷◌, ◌++◌, concat, str_eq, if◌then◌else◌,
}
use go_libiec.Itoa.{itoa}
use go_libiec.Scl.Types.{
  Da, da, Das, no_das, more_das, Do, LNodeType, DoType, Bda, DaType, EnumVal, EnumType,
  DataTypeTemplates, Dai, dai, Dais, no_dais, more_dais, Sdi, sdi, Sdis, no_sdis, more_sdis, Doi,
  Ln, LDevice, AccessPoint, Ied, Scl,
}

-- A loop that prints every element.
unfoldable pub each : {A : Type 0} → (A → List String) → List A → List String
each print [] = []
each print (x ∷ xs) = print x ++ each print xs

-- `getIndentation`
unfoldable pub get_indentation : ℕ → String
get_indentation zero = ""
get_indentation (suc depth) = concat ("  " ∷ get_indentation depth ∷ [])

abbrev pub line : ℕ → List String → String
line depth parts = concat (get_indentation depth ∷ parts)

-- `Val.Print`
unfoldable pub val_print : ℕ → String → List String
val_print depth value = line depth ("Value: " ∷ value ∷ []) ∷ []

-- The loop of `SDI.Print` over its attributes; their own sub-objects are not printed.
unfoldable pub sdi_dais_print : ℕ → Dais → List String
unfolding val_print
sdi_dais_print depth no_dais = []
sdi_dais_print depth (more_dais (dai name value subs) rest) =
    line depth ("DAI: " ∷ name ∷ []) ∷ (val_print (depth + 1) value ++ sdi_dais_print depth rest)

-- `SDI.Print`; nested sub-objects are not printed.
unfoldable pub sdi_print : ℕ → Sdi → List String
unfolding sdi_dais_print
sdi_print depth (sdi name dais subs) =
    line depth ("SDI: " ∷ name ∷ []) ∷ sdi_dais_print (depth + 1) dais

unfoldable pub sdis_print : ℕ → Sdis → List String
unfolding sdi_print
sdis_print depth no_sdis = []
sdis_print depth (more_sdis s rest) = sdi_print depth s ++ sdis_print depth rest

-- `DAI.Print`
unfoldable pub dai_print : ℕ → Dai → List String
unfolding sdis_print
dai_print depth (dai name value subs) =
    line depth ("DAI Name: " ∷ name ∷ ", Value: " ∷ value ∷ []) ∷ sdis_print (depth + 1) subs

unfoldable pub dais_print : ℕ → Dais → List String
unfolding dai_print
dais_print depth no_dais = []
dais_print depth (more_dais d rest) = dai_print depth d ++ dais_print depth rest

-- `DOI.Print`
unfoldable pub doi_print : ℕ → Doi → List String
unfolding dais_print sdis_print
doi_print depth d =
    line depth ("DOI Name: " ∷ d.name ∷ ", Desc: " ∷ d.desc ∷ [])
    ∷ (dais_print (depth + 1) d.dais ++ sdis_print (depth + 1) d.sdis)

-- `LN.Print`
unfoldable pub ln_print : ℕ → Ln → List String
unfolding each doi_print
ln_print depth l =
    line depth (
      "LN Inst: " ∷ l.inst ∷ ", Prefix: " ∷ l.prefix ∷ ", LnType: " ∷ l.ln_type ∷ ", LnClass: "
      ∷ l.ln_class ∷ [])
    ∷ each (doi_print (depth + 1)) l.dois

unfoldable pub l_device_print : ℕ → LDevice → List String
unfolding each ln_print
l_device_print depth d = line depth ("LDevice: " ∷ d.inst ∷ []) ∷ each (ln_print (depth + 1)) d.lns

unfoldable pub access_point_print : ℕ → AccessPoint → List String
unfolding each l_device_print
access_point_print depth a =
    line depth ("AccessPoint: " ∷ a.name ∷ []) ∷ each (l_device_print (depth + 1)) a.l_devices

-- `IED.Print`
unfoldable pub ied_print : ℕ → Ied → List String
unfolding each access_point_print
ied_print depth i =
    line depth ("IED Name: " ∷ i.name ∷ ", Type: " ∷ i.typ ∷ ", Desc: " ∷ i.desc ∷ [])
    ∷ each (access_point_print (depth + 1)) i.access_points

-- The test of `DO.Print`, `DA.Print` and `BDA.Print`: an element without a name or a type is skipped.
abbrev pub named : String → String → List String → List String
named name typ lines = if not (str_eq name "") && not (str_eq typ "") then lines else []

-- `DO.Print` and `BDA.Print`, with their word.
abbrev pub typed_line : ℕ → String → String → String → String
typed_line depth word name typ = line depth (word ∷ ": " ∷ name ∷ ", Type: " ∷ typ ∷ [])

unfoldable pub do_print : ℕ → Do → List String
do_print depth d = named d.name d.typ (typed_line depth "DO" d.name d.typ ∷ [])

unfoldable pub bda_print : ℕ → Bda → List String
bda_print depth b = named b.name b.typ (typed_line depth "BDA" b.name b.typ ∷ [])

-- `DA.Print`
unfoldable mutual
  pub da_print : ℕ → Da → List String
  da_print depth (da name typ fc value parts) =
      let below = das_print (depth + 1) parts in
      named name typ (typed_line depth "DA" name typ ∷ below)

  pub das_print : ℕ → Das → List String
  das_print depth no_das = []
  das_print depth (more_das a rest) = da_print depth a ++ das_print depth rest

unfoldable pub l_node_type_print : ℕ → LNodeType → List String
unfolding each do_print
l_node_type_print depth t =
    line depth ("LNodeType: " ∷ t.id ∷ []) ∷ each (do_print (depth + 1)) t.dos

unfoldable pub do_type_print : ℕ → DoType → List String
unfolding each da_print
do_type_print depth t = line depth ("DOType: " ∷ t.id ∷ []) ∷ each (da_print (depth + 1)) t.das

unfoldable pub da_type_print : ℕ → DaType → List String
unfolding each bda_print da_print
da_type_print depth t =
    line depth ("DAType: " ∷ t.id ∷ [])
    ∷ (each (bda_print (depth + 1)) t.bdas ++ each (da_print (depth + 1)) t.das)

abbrev pub enum_val_line : ℕ → EnumVal → List String
enum_val_line depth v = line depth ("EnumVal: Ord: " ∷ itoa v.ord ∷ ", Name: " ∷ v.name ∷ []) ∷ []

unfoldable pub enum_type_print : ℕ → EnumType → List String
unfolding each
enum_type_print depth t =
    line depth ("EnumType: " ∷ t.id ∷ []) ∷ each (enum_val_line (depth + 1)) t.enum_vals

-- `DataTypeTemplates.Print`
unfoldable pub templates_print : ℕ → DataTypeTemplates → List String
unfolding each l_node_type_print do_type_print da_type_print enum_type_print
templates_print depth t =
    line depth ("DataTypeTemplates:" ∷ [])
    ∷ (each (l_node_type_print (depth + 1)) t.l_node_types
        ++ (each (do_type_print (depth + 1)) t.do_types
            ++ (each (da_type_print (depth + 1)) t.da_types
                ++ each (enum_type_print (depth + 1)) t.enum_types)))

-- `SCL.Print`
unfoldable pub scl_print : Scl → List String
unfolding each ied_print templates_print
scl_print s = each (ied_print 0) s.ieds ++ templates_print 0 s.templates
