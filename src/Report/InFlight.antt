-- ===== src/Report/InFlight.antt =====
-- Reports that `goReportCallback` of iec61850/iec61850_report.go is working on, on the library's thread,
-- while other goroutines subscribe and unsubscribe. The counter is atomic and the lock is held for the
-- lookup and for each change of the map, so these are the steps.
pub mod Removed
pub mod Numbers
use go_libiec.Prelude.{ℕ, ◌+◌, ◌^◌, ◌<◌, String, Option, none, some, List, [], ◌∷◌, ◌++◌, ◌≡◌}
use go_libiec.Report.Registry.{
  HandlerEntry, Handlers, Registry, handler_of, set_handler, delete_handler, delete_first, new_id,
}

-- A number with an entry: of a report whose handler has been looked up, or of a subscription that has
-- its number and is not in the map yet.
abbrev pub Job : Type 0 → Type 0
Job H = ℕ × HandlerEntry H

module _ (H : Type 0) where
  -- The registry, the entries on their way into it, the reports between the lookup and the call of
  -- the handler, and the calls that were made, the last one first.
  pub record Process : Type 0 where
    pub registry : Registry H
    pub pending : List (Job H)
    pub in_flight : List (Job H)
    pub invoked : List (Job H)

module _ {H : Type 0} where
  -- What may happen next. The numbers do not start again from the beginning.
  pub data Step : Process H → Process H → Type 0 where
    -- `goReportCallback` finds an entry.
    look_up :
        (p : Process H) (id : ℕ) (e : HandlerEntry H)
        → handler_of id p.registry.handlers ≡ some e
        → Step p (record p { in_flight = (id, e) ∷ p.in_flight })
    -- It finds none, and returns.
    miss : (p : Process H) (id : ℕ) → handler_of id p.registry.handlers ≡ none → Step p p
    -- It calls the handler of the entry.
    invoke :
        (p : Process H) (xs ys : List (Job H)) (j : Job H)
        → p.in_flight ≡ xs ++ (j ∷ ys)
        → Step p (record p { in_flight = xs ++ ys; invoked = j ∷ p.invoked })
    -- `SubscribeReport` takes a number.
    number :
        (p : Process H) (e : HandlerEntry H)
        → p.registry.next_handler_id + 1 < 2 ^ 32
        → Step p (record p {
          registry = record p.registry { next_handler_id = new_id p.registry };
          pending = (new_id p.registry, e) ∷ p.pending;
        })
    -- It adds its entry to the map.
    add :
        (p : Process H) (xs ys : List (Job H)) (id : ℕ) (e : HandlerEntry H)
        → p.pending ≡ xs ++ ((id, e) ∷ ys)
        → Step p (record p {
          registry = record p.registry { handlers = set_handler id e p.registry.handlers };
          pending = xs ++ ys;
        })
    -- It removes its entry after a failed write.
    roll_back :
        (p : Process H) (id : ℕ)
        → Step p (record p {
          registry = record p.registry { handlers = delete_handler id p.registry.handlers };
        })
    -- `UnsubscribeReport` removes an entry.
    unsubscribe :
        (p : Process H) (ref : String)
        → Step p (record p {
          registry = record p.registry { handlers = delete_first ref p.registry.handlers };
        })

  pub data Reach (p : Process H) : Process H → Type 0 where
    here : Reach p p
    next : {q r : Process H} → Reach p q → Step q r → Reach p r
