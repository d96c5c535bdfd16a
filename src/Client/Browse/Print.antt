-- ===== src/Client/Browse/Print.antt =====
-- `BrowseModel` and `BrowseDataAttributes` of iec61850/iec61850_client.go, which print what they find:
-- a line of the output without its end is a text.
pub mod Lines
use go_libiec.Prelude.{
  ℕ, zero, suc, ◌+◌, String, Option, none, some, List, [], ◌∷◌, ◌++◌, concat, ◌⊎◌, inl, inr, ◌>>=◌,
}
use go_libiec.Client.Errors.{IedClientError, err}
use go_libiec.Client.Browse.{Directory, child_ref, object_ref, node_ref, on_names}

-- `printSpaces`
unfoldable pub print_spaces : ℕ → String
print_spaces zero = ""
print_spaces (suc n) = concat (" " ∷ print_spaces n ∷ [])

abbrev pub attribute_line : ℕ → String → String
attribute_line spaces name = concat (print_spaces spaces ∷ "DA: " ∷ name ∷ [])

abbrev pub object_line : String → String
object_line name = concat ("    DO: " ∷ name ∷ [])

abbrev pub node_line : String → String
node_line name = concat ("  LN: " ∷ name ∷ [])

abbrev pub device_line : String → String
device_line name = concat ("LD: " ∷ name ∷ [])

abbrev pub list_failed : IedClientError → String
list_failed e = concat ("Failed to retrieve logical device list. Error: " ∷ err e ∷ [])

abbrev pub nodes_failed : String → IedClientError → String
nodes_failed device e =
    concat ("Failed to retrieve logical nodes for device " ∷ device ∷ ". Error: " ∷ err e ∷ [])

-- The loop over the names below a reference; `rec` is the recursive call.
unfoldable pub print_attributes :
    (String → Option (List String)) → String → ℕ → List String → Option (List String)
print_attributes rec ref spaces [] = some []
print_attributes rec ref spaces (name ∷ names) = do
  below ← rec (child_ref ref name)
  rest ← print_attributes rec ref spaces names
  some (attribute_line spaces name ∷ (below ++ rest))

module _ (d : Directory) where
  -- The first argument bounds the depth of the recursion, as in `BrowseDataAttributesSCL`; the list of
  -- a directory that fails is NULL, and the NULL list of a logical node is a fault, `none`.
  unfoldable pub browse_data_attributes : ℕ → String → ℕ → Option (List String)
  unfolding print_attributes
  browse_data_attributes zero ref spaces = none
  browse_data_attributes (suc f) ref spaces =
      on_names [] (print_attributes (λ r. browse_data_attributes f r (spaces + 2)) ref spaces)
        (d.data_directory ref)

  -- The loop over the data objects of a node.
  unfoldable pub print_objects : ℕ → String → String → List String → Option (List String)
  print_objects f device node [] = some []
  print_objects f device node (object ∷ objects) = do
    below ← browse_data_attributes f (object_ref device node object) 6
    rest ← print_objects f device node objects
    some (object_line object ∷ (below ++ rest))

  -- The loop over the logical nodes of a device.
  unfoldable pub print_nodes : ℕ → String → List String → Option (List String)
  print_nodes f device [] = some []
  print_nodes f device (node ∷ nodes) = do
    names ← d.node_directory (node_ref device node)
    objects ← print_objects f device node names
    rest ← print_nodes f device nodes
    some (node_line node ∷ (objects ++ rest))

  -- The round of one device.
  abbrev pub print_device : ℕ → String → IedClientError ⊎ List String → Option (List String)
  print_device f device (inl e) = some (device_line device ∷ nodes_failed device e ∷ [])
  print_device f device (inr nodes) = do
    lines ← print_nodes f device nodes
    some (device_line device ∷ lines)

  unfoldable pub print_devices : ℕ → List String → Option (List String)
  unfolding print_nodes
  print_devices f [] = some []
  print_devices f (device ∷ devices) = do
    lines ← print_device f device (d.device_directory device)
    rest ← print_devices f devices
    some (lines ++ rest)

  abbrev pub on_list : ℕ → IedClientError ⊎ List String → Option (List String)
  on_list f (inl e) = some (list_failed e ∷ [])
  on_list f (inr devices) = print_devices f devices

  -- `BrowseModel`
  unfoldable pub browse_model : ℕ → Option (List String)
  unfolding print_devices
  browse_model f = on_list f d.device_list
