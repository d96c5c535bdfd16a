-- ===== src/Client/Browse/Shown.antt =====
-- How much `Print` of iec61850/scl_xml/scl.go shows of the model that `BrowseModelToSCL` of
-- iec61850/iec61850_client.go builds.
use go_libiec.Prelude.{
  ℕ, zero, suc, ◌+◌, ◌≡◌, refl, String, some, List, [], ◌∷◌, map, ◌⊎◌, inl, inr,
}
use go_libiec.Client.Errors.{IedClientError}
use go_libiec.Scl.Types.{Scl}
use go_libiec.Scl.Print.{
  each, sdi_dais_print, sdi_print, sdis_print, dai_print, dais_print, doi_print, ln_print,
  l_device_print, access_point_print, ied_print, scl_print,
}
use go_libiec.Client.Browse.{Directory, browse_model_to_scl}
use go_libiec.Client.Browse.View.{tree, Trees, no_trees, more_trees, dais_view, sdis_view}
use go_libiec.Client.Browse.Model.{
  DataObject, Node, Device, ServesDevices, object_view, node_view, ied_view, model_view,
  devices_view, browse_model_to_scl-eq,
}

-- The first levels of the trees, of the objects, and of the devices.
unfoldable pub cut : ℕ → Trees → Trees
cut zero ts = no_trees
cut (suc k) no_trees = no_trees
cut (suc k) (more_trees (tree n ts) rest) = more_trees (tree n (cut k ts)) (cut (suc k) rest)

abbrev pub cut_object : ℕ → DataObject → DataObject
cut_object k o = record { name = o.name; below = cut k o.below }

abbrev pub cut_node : ℕ → Node → Node
cut_node k n = record { name = n.name; objects = map (cut_object k) n.objects }

abbrev pub cut_nodes : ℕ → IedClientError ⊎ List Node → IedClientError ⊎ List Node
cut_nodes k (inl e) = inl e
cut_nodes k (inr nodes) = inr (map (cut_node k) nodes)

abbrev pub cut_device : ℕ → Device → Device
cut_device k v = record { name = v.name; nodes = cut_nodes k v.nodes }

sdi_dais_print-cut :
    (d : ℕ) (ts : Trees) → sdi_dais_print d (dais_view ts) ≡ sdi_dais_print d (dais_view (cut 1 ts))
unfolding sdi_dais_print dais_view cut
sdi_dais_print-cut d no_trees = refl
sdi_dais_print-cut d (more_trees (tree n ts) rest) = rw (sdi_dais_print-cut d rest) refl

sdis_print-cut :
    (d : ℕ) (ts : Trees) → sdis_print d (sdis_view ts) ≡ sdis_print d (sdis_view (cut 2 ts))
unfolding sdis_print sdi_print sdis_view cut
sdis_print-cut d no_trees = refl
sdis_print-cut d (more_trees (tree n ts) rest) =
    rw (sdi_dais_print-cut (d + 1) ts, sdis_print-cut d rest) refl

dais_print-cut :
    (d : ℕ) (ts : Trees) → dais_print d (dais_view ts) ≡ dais_print d (dais_view (cut 3 ts))
unfolding dais_print dai_print dais_view cut
dais_print-cut d no_trees = refl
dais_print-cut d (more_trees (tree n ts) rest) =
    rw (sdis_print-cut (d + 1) ts, dais_print-cut d rest) refl

doi_print-cut :
    (d : ℕ) (o : DataObject)
    → doi_print d (object_view o) ≡ doi_print d (object_view (cut_object 3 o))
unfolding doi_print
doi_print-cut d o = rw (dais_print-cut (d + 1) o.below) refl

objects_print-cut :
    (d : ℕ) (os : List DataObject)
    → each (doi_print d) (map object_view os)
      ≡ each (doi_print d) (map object_view (map (cut_object 3) os))
unfolding each
objects_print-cut d [] = refl
objects_print-cut d (o ∷ os) = rw (doi_print-cut d o, objects_print-cut d os) refl

nodes_print-cut :
    (d : ℕ) (ns : List Node)
    → each (ln_print d) (map node_view ns) ≡ each (ln_print d) (map node_view (map (cut_node 3) ns))
unfolding each ln_print
nodes_print-cut d [] = refl
nodes_print-cut d (n ∷ ns) = rw (objects_print-cut (d + 1) n.objects, nodes_print-cut d ns) refl

ied_print-cut :
    (d : ℕ) (device : String) (ns : List Node)
    → ied_print d (ied_view device ns) ≡ ied_print d (ied_view device (map (cut_node 3) ns))
unfolding ied_print access_point_print l_device_print each
ied_print-cut d device ns = rw (nodes_print-cut (d + 1 + 1 + 1) ns) refl

device_print-cut :
    (d : ℕ) (device : String) (nodes : IedClientError ⊎ List Node) (vs : List Device)
    → each (ied_print d) (devices_view vs)
      ≡ each (ied_print d) (devices_view (map (cut_device 3) vs))
    → each (ied_print d) (devices_view (record { name = device; nodes = nodes } ∷ vs))
      ≡ each (ied_print d) (
          devices_view
            (cut_device 3 (record { name = device; nodes = nodes }) ∷ map (cut_device 3) vs))
unfolding each
device_print-cut d device (inl e) vs ih = ih
device_print-cut d device (inr ns) vs ih = rw (ied_print-cut d device ns, ih) refl

devices_print-cut :
    (d : ℕ) (vs : List Device)
    → each (ied_print d) (devices_view vs)
      ≡ each (ied_print d) (devices_view (map (cut_device 3) vs))
devices_print-cut d [] = refl
devices_print-cut d (v ∷ vs) = device_print-cut d v.name v.nodes vs (devices_print-cut d vs)

-- For a server whose directories list its devices, nodes, objects and the trees of names below them,
-- browsing ends with a model, and `Print` shows of it what it shows of a server with the first three
-- levels of names below every data object alone: what lies deeper is not printed.
pub browse_model_to_scl-shown :
    (d : Directory) (f : ℕ) (vs : List Device)
    → d.device_list ≡ inr (map (λ (v : Device). v.name) vs)
    → ServesDevices d f vs
    → (s : Scl) × (browse_model_to_scl d f ≡ inr (some s))
      × (scl_print s ≡ scl_print (model_view (devices_view (map (cut_device 3) vs))))
unfolding scl_print
browse_model_to_scl-shown d f vs listed s = (
  model_view (devices_view vs),
  browse_model_to_scl-eq d f vs listed s,
  rw (devices_print-cut 0 vs) refl,
)
