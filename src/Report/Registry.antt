-- ===== src/Report/Registry.antt =====
-- The registry of report handlers of iec61850/iec61850_report.go: `reportHandlers` and the lookup of
-- `goReportCallback`.
pub mod Laws
use go_libiec.Prelude.{
  ℕ, suc, ◌+◌, ◌%◌, ◌^◌, String, Option, none, some, List, [], ◌∷◌, str_eq, ◌==◌, if◌then◌else◌,
}

module _ (H : Type 0) where
  -- `reportHandlerEntry`
  pub record HandlerEntry : Type 0 where
    pub handler : H
    pub rcb_ref : String

-- `reportHandlers`, a `map[int]reportHandlerEntry`.
abbrev pub Handlers : Type 0 → Type 0
Handlers H = List (ℕ × HandlerEntry H)

module _ {H : Type 0} where
  unfoldable pub handler_of : ℕ → Handlers H → Option (HandlerEntry H)
  handler_of id [] = none
  handler_of id ((j, e) ∷ hs) = if j == id then some e else handler_of id hs

  unfoldable pub set_handler : ℕ → HandlerEntry H → Handlers H → Handlers H
  set_handler id e [] = (id, e) ∷ []
  set_handler id e ((j, f) ∷ hs) = if j == id then (id, e) ∷ hs else (j, f) ∷ set_handler id e hs

  -- `delete(reportHandlers, id)`; a key stands once in the map.
  unfoldable pub delete_handler : ℕ → Handlers H → Handlers H
  delete_handler id [] = []
  delete_handler id ((j, f) ∷ hs) = if j == id then hs else (j, f) ∷ delete_handler id hs

  -- The loop of `UnsubscribeReport`: it deletes the first entry of the reference that it meets. The
  -- order of the list is the order in which Go walks the map.
  unfoldable pub delete_first : String → Handlers H → Handlers H
  delete_first ref [] = []
  delete_first ref ((j, f) ∷ hs) = if str_eq f.rcb_ref ref then hs else (j, f) ∷ delete_first ref hs

  -- How many entries have the reference.
  unfoldable pub count_ref : String → Handlers H → ℕ
  count_ref ref [] = 0
  count_ref ref ((j, f) ∷ hs) =
      let rest = count_ref ref hs in if str_eq f.rcb_ref ref then suc rest else rest

-- `nextHandlerID` as the pattern of an `int32`, and the map.
module _ (H : Type 0) where
  pub record Registry : Type 0 where
    pub next_handler_id : ℕ
    pub handlers : Handlers H

module _ {H : Type 0} where
  -- `int(nextHandlerID.Add(1))`
  abbrev pub new_id : Registry H → ℕ
  new_id r = (r.next_handler_id + 1) % 2 ^ 32

  -- `goReportCallback`, called with the number of the installed callback, if one is installed: the
  -- handler that the report reaches, if any.
  unfoldable pub deliver : Registry H → Option ℕ → Option (HandlerEntry H)
  deliver r none = none
  deliver r (some id) = handler_of id r.handlers
