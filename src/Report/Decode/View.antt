-- ===== src/Report/Decode/View.antt =====
-- The Go value that an MMS value stands for in a report.
use go_libiec.Mms.Value.{
  MmsValue, Components, array, structure, boolean, bit_string, integer, unsigned, floating_point,
  octet_string, visible_string, text_string, utc_time, no_components, null_component, component,
}
use go_libiec.Mms.Api.{MmsApi}
use go_libiec.Values.{
  GoValue, AnySlice, nil, bool, int64, uint32, float64, string, any_slice, no_any, any,
}
use go_libiec.Report.Decode.{go_string}

module _ (m : MmsApi) where
  -- A structure or an array is the slice of its elements, NULL left out; a type that the bridge does
  -- not read is nil.
  unfoldable mutual
    pub report_view : MmsValue → GoValue
    report_view (array cs) = any_slice (components_view cs)
    report_view (structure cs) = any_slice (components_view cs)
    report_view (boolean b) = bool (m.scalars.get_boolean (boolean b))
    report_view (bit_string n b) = uint32 (m.scalars.get_bit_string_as_integer (bit_string n b))
    report_view (integer p) = int64 (m.to_int64 (integer p))
    report_view (unsigned p) = int64 (m.to_int64 (unsigned p))
    report_view (floating_point e w b) = float64 (m.to_double (floating_point e w b))
    report_view (octet_string n k b) = string (go_string (m.scalars.to_string (octet_string n k b)))
    report_view (visible_string s n) = string (go_string (m.scalars.to_string (visible_string s n)))
    report_view (text_string s n) = string (go_string (m.scalars.to_string (text_string s n)))
    report_view (utc_time b) = uint32 (m.to_unix_timestamp (utc_time b))
    report_view _ = nil

    pub components_view : Components → AnySlice
    components_view no_components = no_any
    components_view (null_component cs) = components_view cs
    components_view (component v cs) = any (report_view v) (components_view cs)
