-- ===== src/Lib.antt =====
-- Verification of the Go binding of libiec61850 (iec61850/).
--
-- The binding calls the C library libiec61850 through cgo. A small C file,
-- iec61850/report_bridge.c, receives the reports of the library, turns their values into one flat
-- array of tokens and hands the rest to Go. The Go files read data sets, decode reports, keep the
-- report handlers, operate controls, and look names up in an SCL model. The library itself is a
-- binary with headers (iec61850/inc): what is used of it is a record of functions, a parameter of
-- the definitions, with the documented behaviour as a second record of laws where a theorem relies
-- on it.
--
-- Prelude: Boolean tests, lists over the native numbers, Go maps as association lists, and texts.
-- Mms: `MmsType` (Mms/Types), the value tree `struct sMmsValue` (Mms/Value), and the value
--   accessors `MmsValue_...` with their laws (Mms/Api).
-- Bridge (iec61850/report_bridge.c): the array of tokens as a memory that malloc leaves open
--   (Bridge/Flat), `count_mms_elements` (Bridge/Count), `flatten_mms_value` (Bridge/Flatten),
--   `flattenReportDataSet` (Bridge/DataSet); Bridge/Tokens says which tokens a value has.
-- Constants: the constants that the Go files copy from the headers, and the enumerations there.
-- Values: what an `interface{}` and a `[]GoMmsValue` hold. Itoa: `strconv.Itoa`.
-- Report (iec61850/iec61850_report.go): `extractFlatValue` (Report/Decode), `buildReport`
--   (Report/Build), `ReasonForInclusion` (Report/Reason), `reportHandlers` and `goReportCallback`
--   (Report/Registry), and `SubscribeReport`, `SubscribeReportWithCandidates`, `UnsubscribeReport`
--   (Report/Subscribe). The state of a process is `Session`: the registry and the connection with
--   its callbacks; Report/Subscribe/States lists the states between the statements. Report/Callback
--   is `goReportCallback` as a whole, and Report/InFlight the step relation of reports that have
--   looked their handler up while the registry changes.
-- Client (iec61850/iec61850_client.go): `resolveValue`, `resolveValueInline` and their walks
--   (Client/Resolve), `ReadDataSetValues`, `ReadDataSetFlat` and `extractPrimitive`
--   (Client/DataSet), `ExplainDataSetValues` with `findDAName` (Client/Explain), `BrowseModelToSCL`
--   and `BrowseModel` with their recursions over the directories of a server (Client/Browse), and
--   `Err` of iec61850/types.go (Client/Errors). Client/Connection has `NewIedClient`, its options,
--   `Connect`, `State` and `Close`, and Client/Reads `ReadBoolean` to `ReadUnsigned32`.
-- Server: the calls of the library (Server/Library), iec61850/model.go (Server/Model) and
--   iec61850/iec61850_server.go (Server/Ied), over the log of those calls. CStrings: the buffers of
--   `C.CString` and `C.free`. Narrow: the conversions of numbers to C's types.
-- Control (iec61850/iec61850_control.go): `getOrCreateControlEntryLocked`,
--   `clearControlObjectCache` and the three `DirectWithNormalSecurity...`; Control/Texts.antt has
--   `mmsTypeName` and the texts of the errors. Control/Mutex.antt has goroutines that share a
--   client under `controlMu` and make the single steps of these functions. The client is its cache
--   and the log of the library calls it has made; the answers of the library may depend on the log.
-- Schema (iec61850/iec61850_schema.go): `BuildDataSetSchema` and `ApplySchema`.
-- Scl (iec61850/scl_xml/scl.go): the structures (Scl/Types), `GetDOType` with its cache
--   (Scl/DoType) and `GetDataSet` (Scl/DataSets), and the `Print` methods as the lines that they
--   print (Scl/Print).
-- Tests: a concrete library, server and model, on which the theorems are applied.
--
-- Numbers: an `int` of Go and a `time.Duration` are integers, and their conversions to C wrap. An
-- `int64_t` and a `double` are the numbers of their 64-bit patterns, which the code only copies;
-- sums on C's `int`, the conversions to `uint32` and the handler numbers wrap. Bounds: the
-- recursions over a value take a depth, for which the value's height is enough; the loops that run
-- to a NULL take one round more than the array size, which is enough where the accessors do what is
-- documented (without that the loops of the C file need not end); decoding takes twice the tokens
-- and one; browsing takes a depth above that of the names on the server.
--
-- Not modelled: the code of libiec61850, XML, and the warnings that are printed. A client's options
-- are the three that the package has. Go's maps are lists whose order stands for the order of
-- iteration. The lock of the registry of handlers is not modelled: each operation runs as a whole,
-- and a report that arrives between the statements of a subscription sees one of its listed states.
-- A received report is known by its control block, so that two control blocks with one rptId are
-- not modelled.
pub mod Prelude
pub mod Mms
pub mod Narrow
pub mod Constants
pub mod Bridge
pub mod CStrings
pub mod Values
pub mod Itoa
pub mod Scl
pub mod Server
pub mod Client
pub mod Schema
pub mod Control
pub mod Report
pub mod Tests
