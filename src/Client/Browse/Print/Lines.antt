-- ===== src/Client/Browse/Print/Lines.antt =====
-- What `BrowseModel` of iec61850/iec61850_client.go prints for a server.
use go_libiec.Prelude.{
  ℕ, zero, suc, ◌+◌, ◌≤◌, String, ◌≡◌, refl, ap, ◌∙◌, Option, some, List, [], ◌∷◌, ◌++◌, map, ◌⊎◌,
  inl, inr, arith,
}
use go_libiec.Client.Errors.{IedClientError}
use go_libiec.Client.Browse.{Directory, child_ref, object_ref}
use go_libiec.Client.Browse.View.{
  tree, Trees, no_trees, more_trees, names, Below, depth, Describes, on_names-eq,
}
use go_libiec.Client.Browse.Model.{
  DataObject, Node, Device, ServesObjects, ServesNodes, ServesDevice, ServesDevices,
}
use go_libiec.Client.Browse.Print.{
  attribute_line, object_line, node_line, device_line, nodes_failed, print_attributes,
  browse_data_attributes, print_objects, print_nodes, print_device, print_devices, on_list,
  browse_model,
}

-- The names of the trees, each above those below it, which stand two spaces further to the right.
unfoldable pub tree_lines : ℕ → Trees → List String
tree_lines spaces no_trees = []
tree_lines spaces (more_trees (tree n ts) rest) =
    attribute_line spaces n ∷ (tree_lines (spaces + 2) ts ++ tree_lines spaces rest)

abbrev pub objects_lines : List DataObject → List String
objects_lines [] = []
objects_lines (o ∷ os) = object_line o.name ∷ (tree_lines 6 o.below ++ objects_lines os)

abbrev pub nodes_lines : List Node → List String
nodes_lines [] = []
nodes_lines (n ∷ ns) = node_line n.name ∷ (objects_lines n.objects ++ nodes_lines ns)

abbrev pub nodes_or_error : String → IedClientError ⊎ List Node → List String
nodes_or_error device (inl e) = nodes_failed device e ∷ []
nodes_or_error device (inr nodes) = nodes_lines nodes

abbrev pub devices_lines : List Device → List String
devices_lines [] = []
devices_lines (v ∷ vs) = (device_line v.name ∷ nodes_or_error v.name v.nodes) ++ devices_lines vs

module _ (d : Directory) where
  print_attributes-eq :
      (f spaces : ℕ) (rec : String → Option (List String)) (ref : String) (ts : Trees)
      → Describes d f rec (tree_lines (spaces + 2))
      → Below d ref ts
      → depth ts ≤ f
      → print_attributes rec ref spaces (names ts) ≡ some (tree_lines spaces ts)
  unfolding print_attributes Below depth tree_lines
  print_attributes-eq f spaces rec ref no_trees w b h = refl
  print_attributes-eq f spaces rec ref (more_trees (tree n ts) rest) w b h =
      rw
        (
          w (child_ref ref n) ts b.0 b.1.0 (omega arith),
          print_attributes-eq f spaces rec ref rest w b.1.1 (omega arith),
        )
        refl

  browse_data_attributes-eq :
      (f spaces : ℕ)
      → Describes d f (λ ref. browse_data_attributes d f ref spaces) (tree_lines spaces)
  unfolding browse_data_attributes tree_lines
  browse_data_attributes-eq zero spaces = λ ref ts l b h. absurd (omega (arith, h))
  browse_data_attributes-eq (suc f) spaces =
      let w = browse_data_attributes-eq f (spaces + 2) in
      λ ref ts l b h.
        on_names-eq d []
          (print_attributes (λ r. browse_data_attributes d f r (spaces + 2)) ref spaces)
          (tree_lines spaces) ref ts l refl
          (print_attributes-eq f spaces (λ r. browse_data_attributes d f r (spaces + 2)) ref ts w b
            (omega (arith, h)))

module _ (d : Directory) (f : ℕ) where
  print_objects-eq :
      (device node : String) (os : List DataObject)
      → ServesObjects d f device node os
      → print_objects d f device node (map (λ (o : DataObject). o.name) os)
        ≡ some (objects_lines os)
  unfolding print_objects
  print_objects-eq device node [] s = refl
  print_objects-eq device node (o ∷ os) s =
      rw
        (
          browse_data_attributes-eq d f 6 (object_ref device node o.name) o.below s.0.0 s.0.1 s.0.2,
          print_objects-eq device node os s.1,
        )
        refl

  print_nodes-eq :
      (device : String) (ns : List Node)
      → ServesNodes d f device ns
      → print_nodes d f device (map (λ (n : Node). n.name) ns) ≡ some (nodes_lines ns)
  unfolding print_nodes
  print_nodes-eq device [] s = refl
  print_nodes-eq device (n ∷ ns) s =
      rw (s.0.0, print_objects-eq device n.name n.objects s.0.1, print_nodes-eq device ns s.1) refl

  print_device-eq :
      (device : String) (nodes : IedClientError ⊎ List Node)
      → ServesDevice d f device nodes
      → print_device d f device (d.device_directory device)
        ≡ some (device_line device ∷ nodes_or_error device nodes)
  print_device-eq device (inl e) s = rw s
  print_device-eq device (inr nodes) s = rw (s.0, print_nodes-eq device nodes s.1) refl

  print_devices-eq :
      (vs : List Device)
      → ServesDevices d f vs
      → print_devices d f (map (λ (v : Device). v.name) vs) ≡ some (devices_lines vs)
  unfolding print_devices
  print_devices-eq [] s = refl
  print_devices-eq (v ∷ vs) s =
      rw (print_device-eq v.name v.nodes s.0, print_devices-eq vs s.1) refl

  -- For a server whose directories list its devices, nodes, objects and the trees of names below them,
  -- with a depth above that of the trees, `BrowseModel` ends, and prints every name once, above those
  -- below it, an attribute two spaces right of its parent; a device whose directory cannot be read
  -- has the error in place of its nodes.
  pub browse_model-eq :
      (vs : List Device)
      → d.device_list ≡ inr (map (λ (v : Device). v.name) vs)
      → ServesDevices d f vs
      → browse_model d f ≡ some (devices_lines vs)
  unfolding browse_model
  browse_model-eq vs listed s = ap (on_list d f) listed ∙ print_devices-eq vs s
