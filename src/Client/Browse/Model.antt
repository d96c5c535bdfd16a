-- ===== src/Client/Browse/Model.antt =====
-- What `BrowseModelToSCL` of iec61850/iec61850_client.go returns for a server.
use go_libiec.Prelude.{
  ℕ, ◌+◌, ◌≤◌, String, ◌≡◌, refl, ap, ◌∙◌, some, concat, List, [], ◌∷◌, map, ◌⊎◌, inl, inr,
}
use go_libiec.Client.Errors.{IedClientError}
use go_libiec.Scl.Types.{Doi, no_sdis, Ln, Ied, Scl}
use go_libiec.Client.Browse.{
  Directory, object_ref, object_loop, node_loop, device_loop, browse_model_to_scl, on_device_list,
  model_of,
}
use go_libiec.Client.Browse.View.{
  Trees, Lists, Below, depth, dais_view, browse_data_attributes_scl-eq,
}

-- A server: its devices with the error or the nodes of their directories, the nodes with their data
-- objects, and the trees of names below these.
pub record DataObject : Type 0 where
  pub name : String
  pub below : Trees

pub record Node : Type 0 where
  pub name : String
  pub objects : List DataObject

pub record Device : Type 0 where
  pub name : String
  pub nodes : IedClientError ⊎ List Node

module _ (d : Directory) (f : ℕ) where
  -- The directories are those of the server, and the trees are not deeper than `f` allows.
  abbrev pub ServesObjects : String → String → List DataObject → Type 0
  ServesObjects device node [] = Unit
  ServesObjects device node (o ∷ os) =
      (Lists d (concat (device ∷ "/" ∷ node ∷ "." ∷ o.name ∷ [])) o.below
        × Below d (concat (device ∷ "/" ∷ node ∷ "." ∷ o.name ∷ [])) o.below
        × (depth o.below + 1 ≤ f))
      × ServesObjects device node os

  abbrev pub ServesNodes : String → List Node → Type 0
  ServesNodes device [] = Unit
  ServesNodes device (n ∷ ns) =
      ((d.node_directory (concat (device ∷ "/" ∷ n.name ∷ []))
          ≡ some (map (λ (o : DataObject). o.name) n.objects))
        × ServesObjects device n.name n.objects)
      × ServesNodes device ns

  abbrev pub ServesDevice : String → IedClientError ⊎ List Node → Type 0
  ServesDevice device (inl e) = d.device_directory device ≡ inl e
  ServesDevice device (inr nodes) =
      (d.device_directory device ≡ inr (map (λ (n : Node). n.name) nodes))
      × ServesNodes device nodes

  abbrev pub ServesDevices : List Device → Type 0
  ServesDevices [] = Unit
  ServesDevices (v ∷ vs) = ServesDevice v.name v.nodes × ServesDevices vs

abbrev pub object_view : DataObject → Doi
object_view o = record { desc = ""; name = o.name; dais = dais_view o.below; sdis = no_sdis }

abbrev pub node_view : Node → Ln
node_view n = record {
  inst = n.name;
  prefix = "";
  ln_type = "";
  ln_class = "";
  dois = map object_view n.objects;
}

-- A device with its nodes: an IED of its name, with one access point and in this one device.
abbrev pub ied_view : String → List Node → Ied
ied_view device nodes = record {
  name = device;
  typ = "";
  desc = "";
  config_version = "";
  access_points =
      record {
        name = concat (device ∷ "_AP" ∷ []);
        l_devices =
            record {
              inst = device;
              lns = map node_view nodes;
              ln0 = record { inst = ""; ln_type = ""; ln_class = ""; data_sets = [] };
            }
            ∷ [];
      }
      ∷ [];
}

-- The model has no templates.
abbrev pub model_view : List Ied → Scl
model_view ieds = record {
  ieds = ieds;
  templates = record { l_node_types = []; do_types = []; da_types = []; enum_types = [] };
}

-- The devices whose directory can be read.
abbrev pub devices_view : List Device → List Ied
devices_view [] = []
devices_view (v ∷ vs) =
    let rest = devices_view vs in
    elim v.nodes [ inl e ↦ rest | inr nodes ↦ ied_view v.name nodes ∷ rest ]

module _ (d : Directory) (f : ℕ) where
  object_loop-eq :
      (device node : String) (os : List DataObject)
      → ServesObjects d f device node os
      → object_loop d f device node (map (λ (o : DataObject). o.name) os)
        ≡ some (map object_view os)
  unfolding object_loop
  object_loop-eq device node [] s = refl
  object_loop-eq device node (o ∷ os) s =
      rw
        (
          browse_data_attributes_scl-eq d f (object_ref device node o.name) o.below s.0.0 s.0.1
              s.0.2,
          object_loop-eq device node os s.1,
        )
        refl

  node_loop-eq :
      (device : String) (ns : List Node)
      → ServesNodes d f device ns
      → node_loop d f device (map (λ (n : Node). n.name) ns) ≡ some (map node_view ns)
  unfolding node_loop
  node_loop-eq device [] s = refl
  node_loop-eq device (n ∷ ns) s =
      rw (s.0.0, object_loop-eq device n.name n.objects s.0.1, node_loop-eq device ns s.1) refl

  device_step :
      (device : String) (nodes : IedClientError ⊎ List Node) (vs : List Device) (rest : List String)
      → ServesDevice d f device nodes
      → device_loop d f rest ≡ some (devices_view vs)
      → device_loop d f (device ∷ rest)
        ≡ some (devices_view (record { name = device; nodes = nodes } ∷ vs))
  unfolding device_loop
  device_step device (inl e) vs rest s ih = rw s ih
  device_step device (inr nodes) vs rest s ih = rw (s.0, node_loop-eq device nodes s.1, ih) refl

  device_loop-eq :
      (vs : List Device)
      → ServesDevices d f vs
      → device_loop d f (map (λ (v : Device). v.name) vs) ≡ some (devices_view vs)
  unfolding device_loop
  device_loop-eq [] s = refl
  device_loop-eq (v ∷ vs) s = device_step v.name v.nodes vs _ s.0 (device_loop-eq vs s.1)

  -- For a server whose directories list its devices, nodes, objects and the trees of names below them,
  -- with a depth above that of the trees, browsing ends with a model that has one IED for each
  -- device whose directory can be read, in order, with all its nodes, objects and attributes.
  pub browse_model_to_scl-eq :
      (vs : List Device)
      → d.device_list ≡ inr (map (λ (v : Device). v.name) vs)
      → ServesDevices d f vs
      → browse_model_to_scl d f ≡ inr (some (model_view (devices_view vs)))
  unfolding browse_model_to_scl
  browse_model_to_scl-eq vs listed s =
      ap (on_device_list d f) listed ∙ ap model_of (device_loop-eq vs s)
