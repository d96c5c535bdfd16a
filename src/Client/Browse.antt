-- ===== src/Client/Browse.antt =====
-- The browsing of a server into an SCL model in iec61850/iec61850_client.go: `BrowseDataAttributesSCL`,
-- `BrowseSDISCL` and `BrowseModelToSCL`.
pub mod View
pub mod Model
pub mod Print
pub mod Shown
use go_libiec.Prelude.{
  ℕ, zero, suc, String, Option, none, some, List, [], ◌∷◌, concat, ◌⊎◌, inl, inr, ◌>>=◌,
}
use go_libiec.Client.Errors.{IedClientError}
use go_libiec.Scl.Types.{
  Dai, dai, Dais, no_dais, more_dais, Sdi, sdi, Sdis, no_sdis, more_sdis, Doi, Ln, Ln0, LDevice,
  AccessPoint, Ied, Scl, DataTypeTemplates,
}

-- The directory services of the library (iec61850/inc/iec61850/inc/iec61850_client.h): an error, or the
-- names of a list. The binding does not look at the error of a logical node's directory: it has the
-- list, or `none` for NULL.
pub record Directory : Type 0 where
  pub device_list : IedClientError ⊎ List String
  pub device_directory : String → IedClientError ⊎ List String
  pub node_directory : String → Option (List String)
  pub data_directory : String → IedClientError ⊎ List String

-- `fmt.Sprintf("%s.%s", ref, name)`
abbrev pub child_ref : String → String → String
child_ref ref name = concat (ref ∷ "." ∷ name ∷ [])

-- The loops over the names; `rec`, `rec_dai` and `rec_sdi` are the recursive calls.
unfoldable pub attribute_loop : (String → Option Sdis) → String → List String → Option Dais
attribute_loop rec ref [] = some no_dais
attribute_loop rec ref (name ∷ names) = do
  subs ← rec (child_ref ref name)
  rest ← attribute_loop rec ref names
  some (more_dais (dai name "SomeValue" subs) rest)

unfoldable pub sdo_loop :
    (String → Option Dais) → (String → Option Sdis) → String → List String → Option Sdis
sdo_loop rec_dai rec_sdi ref [] = some no_sdis
sdo_loop rec_dai rec_sdi ref (name ∷ names) = do
  dais ← rec_dai (child_ref ref name)
  subs ← rec_sdi (child_ref ref name)
  rest ← sdo_loop rec_dai rec_sdi ref names
  some (more_sdis (sdi name dais subs) rest)

-- After a failed request the list is empty.
abbrev pub on_names {ℓ} :
    {A : Type ℓ} → A → (List String → Option A) → IedClientError ⊎ List String → Option A
on_names empty loop (inl e) = some empty
on_names empty loop (inr names) = loop names

abbrev pub object_ref : String → String → String → String
object_ref device node object = concat (device ∷ "/" ∷ node ∷ "." ∷ object ∷ [])

abbrev pub node_ref : String → String → String
node_ref device node = concat (device ∷ "/" ∷ node ∷ [])

abbrev pub no_ln0 : Ln0
no_ln0 = record { inst = ""; ln_type = ""; ln_class = ""; data_sets = [] }

-- The IED that the function makes of a device.
abbrev pub ied_of : String → List Ln → Ied
ied_of device lns = record {
  name = device;
  typ = "";
  desc = "";
  config_version = "";
  access_points =
      record {
        name = concat (device ∷ "_AP" ∷ []);
        l_devices = record { inst = device; lns = lns; ln0 = no_ln0 } ∷ [];
      }
      ∷ [];
}

abbrev pub no_templates : DataTypeTemplates
no_templates = record { l_node_types = []; do_types = []; da_types = []; enum_types = [] }

abbrev pub model_of : Option (List Ied) → IedClientError ⊎ Option Scl
model_of loop = inr (do ieds ← loop; some (record { ieds = ieds; templates = no_templates }))

module _ (d : Directory) where
  -- The first argument bounds the depth of the recursion; `none` means that it was too small, or that
  -- the NULL list of a logical node was handed to `LinkedList_getNext`, where the program faults.
  unfoldable mutual
    pub browse_data_attributes_scl : ℕ → String → Option Dais
    browse_data_attributes_scl zero ref = none
    browse_data_attributes_scl (suc f) ref =
        on_names no_dais (attribute_loop (browse_sdi_scl f) ref) (d.data_directory ref)

    pub browse_sdi_scl : ℕ → String → Option Sdis
    browse_sdi_scl zero ref = none
    browse_sdi_scl (suc f) ref =
        on_names no_sdis (sdo_loop (browse_data_attributes_scl f) (browse_sdi_scl f) ref)
          (d.data_directory ref)

  -- The loop over the data objects of a node.
  unfoldable pub object_loop : ℕ → String → String → List String → Option (List Doi)
  object_loop f device node [] = some []
  object_loop f device node (object ∷ objects) = do
    dais ← browse_data_attributes_scl f (object_ref device node object)
    rest ← object_loop f device node objects
    some (record { desc = ""; name = object; dais = dais; sdis = no_sdis } ∷ rest)

  -- The loop over the logical nodes of a device.
  unfoldable pub node_loop : ℕ → String → List String → Option (List Ln)
  node_loop f device [] = some []
  node_loop f device (node ∷ nodes) = do
    objects ← d.node_directory (node_ref device node)
    dois ← object_loop f device node objects
    rest ← node_loop f device nodes
    some (record { inst = node; prefix = ""; ln_type = ""; ln_class = ""; dois = dois } ∷ rest)

  -- What the round of one device adds: nothing where its directory could not be read.
  abbrev pub on_device :
      ℕ → String → IedClientError ⊎ List String → Option (List Ied) → Option (List Ied)
  on_device f device (inl e) rest = rest
  on_device f device (inr nodes) rest = do
    lns ← node_loop f device nodes
    ieds ← rest
    some (ied_of device lns ∷ ieds)

  -- The loop over the devices.
  unfoldable pub device_loop : ℕ → List String → Option (List Ied)
  device_loop f [] = some []
  device_loop f (device ∷ devices) =
      on_device f device (d.device_directory device) (device_loop f devices)

  abbrev pub on_device_list : ℕ → IedClientError ⊎ List String → IedClientError ⊎ Option Scl
  on_device_list f (inl e) = inl e
  on_device_list f (inr devices) = model_of (device_loop f devices)

  -- `BrowseModelToSCL`: the error, or the model.
  unfoldable pub browse_model_to_scl : ℕ → IedClientError ⊎ Option Scl
  unfolding device_loop
  browse_model_to_scl f = on_device_list f d.device_list
