-- ===== src/Tests/Bridge.antt =====
-- The theorems on iec61850/report_bridge.c at concrete values.
use go_libiec.Prelude.{◌≡◌, refl, none, some, length, arith}
use go_libiec.Mms.Value.{array, height}
use go_libiec.Bridge.Flat.{Memory}
use go_libiec.Bridge.Count.{count_mms_elements, count_loop}
use go_libiec.Bridge.Count.Exact.{count_mms_elements-eq}
use go_libiec.Bridge.Flatten.{flatten_mms_value}
use go_libiec.Bridge.Flatten.Exact.{put, flatten_mms_value-eq}
use go_libiec.Bridge.Tokens.{tokens}
use go_libiec.Bridge.DataSet.{flatten_report_data_set}
use go_libiec.Bridge.DataSet.Exact.{data_set_tokens, Flattened, flatten_report_data_set-eq}
use go_libiec.Tests.Library.{library, library_laws, measured, two_values}

-- What malloc leaves in the array.
abbrev pub garbage : Memory
garbage = λ i. record { typ = 9; ival = 9; dval = 9; sval = none }

count_mms_elements-eq_example :
    count_mms_elements library 4 (some measured) ≡ length (tokens library measured)
unfolding height tokens
count_mms_elements-eq_example =
    count_mms_elements-eq library library_laws 4 measured (omega arith) (omega arith)

count_measured : count_mms_elements library 4 (some measured) ≡ 7
unfolding count_mms_elements count_loop
count_measured = refl

flatten_mms_value-eq_example :
    flatten_mms_value library 3 9 (some measured) (record { mem = garbage; index = 2 })
    ≡ put (tokens library measured) (record { mem = garbage; index = 2 })
unfolding height tokens
flatten_mms_value-eq_example =
    flatten_mms_value-eq library library_laws 3 9 measured (record { mem = garbage; index = 2 })
      (omega arith) (omega arith)

flatten_report_data_set-eq_example :
    flatten_report_data_set library (λ n. some garbage) (some (array two_values))
    ≡ Flattened (data_set_tokens library two_values) (some garbage)
unfolding tokens
flatten_report_data_set-eq_example =
    flatten_report_data_set-eq library library_laws (λ n. some garbage) two_values (omega arith)
