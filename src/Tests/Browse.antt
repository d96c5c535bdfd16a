-- ===== src/Tests/Browse.antt =====
-- The browsing of iec61850/iec61850_client.go on a small server.
use go_libiec.Prelude.{
  ◌≡◌, refl, some, none, List, [], ◌∷◌, map, inl, inr, str_eq, if◌then◌else◌, arith,
}
use go_libiec.Client.Errors.{err, access_denied, object_does_not_exist}
use go_libiec.Client.Browse.{Directory, browse_model_to_scl}
use go_libiec.Client.Browse.View.{tree, Trees, no_trees, more_trees, Below, depth, dais_view}
use go_libiec.Client.Browse.Model.{Device, devices_view, model_view, browse_model_to_scl-eq}
use go_libiec.Client.Browse.Shown.{cut_device, browse_model_to_scl-shown}
use go_libiec.Scl.Types.{Scl}
use go_libiec.Scl.Print.{get_indentation, dais_print, scl_print}
use go_libiec.Client.Browse.Print.{print_spaces, browse_model}
use go_libiec.Client.Browse.Print.Lines.{devices_lines, tree_lines, browse_model-eq}

-- A server with two devices; the directory of the second cannot be read.
abbrev server : Directory
server = record {
  device_list = inr ("LD1" ∷ "LD2" ∷ []);
  device_directory = λ device. if str_eq device "LD1" then inr ("LLN0" ∷ []) else inl access_denied;
  node_directory = λ ref. if str_eq ref "LD1/LLN0" then some ("Mod" ∷ []) else none;
  data_directory = λ ref.
      if str_eq ref "LD1/LLN0.Mod"
      then inr ("stVal" ∷ "origin" ∷ [])
      else if str_eq ref "LD1/LLN0.Mod.origin"
      then inr ("orCat" ∷ [])
      else inl object_does_not_exist;
}

abbrev attributes : Trees
attributes =
    more_trees (tree "stVal" no_trees)
      (more_trees (tree "origin" (more_trees (tree "orCat" no_trees) no_trees)) no_trees)

attributes-Below : Below server "LD1/LLN0.Mod" attributes
unfolding Below
attributes-Below = (
  inr (object_does_not_exist, refl),
  (tt, (refl, ((inr (object_does_not_exist, refl), (tt, tt)), tt))),
)

abbrev devices : List Device
devices =
    record {
      name = "LD1";
      nodes = inr (
          record { name = "LLN0"; objects = record { name = "Mod"; below = attributes } ∷ [] }
          ∷ []);
    }
    ∷ record { name = "LD2"; nodes = inl access_denied }
    ∷ []

browse_model_to_scl-eq_example :
    browse_model_to_scl server 3 ≡ inr (some (model_view (devices_view devices)))
unfolding depth
browse_model_to_scl-eq_example =
    browse_model_to_scl-eq server 3 devices refl
      ((refl, ((refl, ((refl, attributes-Below, omega arith), tt)), tt)), (refl, tt))

browse_model-eq_example : browse_model server 3 ≡ some (devices_lines devices)
unfolding depth
browse_model-eq_example =
    browse_model-eq server 3 devices refl
      ((refl, ((refl, ((refl, attributes-Below, omega arith), tt)), tt)), (refl, tt))

printed :
    devices_lines devices
    ≡ "LD: LD1" ∷ "  LN: LLN0" ∷ "    DO: Mod" ∷ "      DA: stVal" ∷ "      DA: origin"
      ∷ "        DA: orCat" ∷ "LD: LD2"
      ∷ "Failed to retrieve logical nodes for device LD2. Error: IED_ERROR_ACCESS_DENIED" ∷ []
unfolding tree_lines print_spaces err
printed = refl

browse_model_to_scl-shown_example :
    (s : Scl) × (browse_model_to_scl server 3 ≡ inr (some s))
    × (scl_print s ≡ scl_print (model_view (devices_view (map (cut_device 3) devices))))
unfolding depth
browse_model_to_scl-shown_example =
    browse_model_to_scl-shown server 3 devices refl
      ((refl, ((refl, ((refl, attributes-Below, omega arith), tt)), tt)), (refl, tt))

-- Of four names below one another the fourth is not printed.
four_levels :
    dais_print 0 (
      dais_view (
        more_trees
          (tree "a" (
            more_trees
              (tree "b" (more_trees (tree "c" (more_trees (tree "d" no_trees) no_trees)) no_trees))
              no_trees))
          no_trees))
    ≡ "DAI Name: a, Value: SomeValue" ∷ "  SDI: b" ∷ "    DAI: c" ∷ "      Value: SomeValue" ∷ []
unfolding dais_print dais_view get_indentation
four_levels = refl
