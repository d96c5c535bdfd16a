-- ===== src/Report/Subscribe.antt =====
-- The subscriptions of iec61850/iec61850_report.go: `SubscribeReport`, `SubscribeReportWithCandidates`
-- and `UnsubscribeReport`, with the installers of iec61850/report_bridge.c.
pub mod Laws
pub mod Configure
pub mod Delivery
pub mod Cancel
pub mod Window
pub mod States
pub mod Owned
pub mod Candidates
use Prim.Native.Nat.{bit_or}
use Prim.Native.String.{◌++◌ as join}
use go_libiec.Prelude.{
  ℕ, suc, ◌+◌, String, Bool, true, false, not, Option, none, some, List, [], ◌∷◌, ◌++◌, ◌==◌, ltb,
  length, concat, if◌then◌else◌, ◌⊎◌, inl, inr, ◌≡◌, str_eq,
}
use go_libiec.Client.Errors.{IedClientError, err}
use go_libiec.Report.Registry.{
  HandlerEntry, Registry, new_id, set_handler, delete_handler, delete_first, deliver,
}

-- The accessors of a control block that was read from the server, `ClientReportControlBlock`, as far as
-- the subscriptions call them (iec61850/inc/iec61850/inc/iec61850_client.h).
pub record RcbAccess : Type 1 where
  pub Rcb : Type 0
  pub set_trg_ops : Rcb → ℕ → Rcb
  pub set_intg_pd : Rcb → ℕ → Rcb
  pub set_buf_tm : Rcb → ℕ → Rcb
  pub set_gi : Rcb → Bool → Rcb
  pub set_rpt_ena : Rcb → Bool → Rcb
  pub get_rpt_id : Rcb → Option String

-- The services of the library that the subscriptions call: control blocks read from the server and
-- written to it, with the mask of the elements to write, and the report callbacks.
pub record RcbApi : Type 1 where
  pub rcb : RcbAccess
  pub Connection : Type 0
  pub get_rcb_values : Connection → String → (IedClientError ⊎ rcb.Rcb) × Connection
  pub set_rcb_values : Connection → rcb.Rcb → ℕ → Option IedClientError × Connection
  pub destroy_rcb : Connection → rcb.Rcb → Connection
  -- The callback is NULL, or the function of the bridge with the number as its parameter.
  pub install_report_handler : Connection → String → Option String → Option ℕ → Connection
  -- The parameter of the callback that a report of the control block reaches.
  pub callback : Connection → String → Option ℕ

-- What the documentation says of the callbacks: installing replaces the callback of its control
-- block and no other, and reading, writing or releasing a control block replaces none. The rptId, by
-- which the library tells of which control block a received report is, is taken to tell it: no two
-- control blocks of a connection have the same one.
pub record RcbLaws (a : RcbApi) : Type 0 where
  pub install_law :
      (c : a.Connection) (ref other : String) (rpt_id : Option String) (h : Option ℕ)
      → a.callback (a.install_report_handler c ref rpt_id h) other
        ≡ (if str_eq ref other then h else a.callback c other)
  pub get_law :
      (c : a.Connection) (ref other : String)
      → a.callback (a.get_rcb_values c ref).1 other ≡ a.callback c other
  pub set_law :
      (c : a.Connection) (rcb : a.rcb.Rcb) (mask : ℕ) (other : String)
      → a.callback (a.set_rcb_values c rcb mask).1 other ≡ a.callback c other
  pub destroy_law :
      (c : a.Connection) (rcb : a.rcb.Rcb) (other : String)
      → a.callback (a.destroy_rcb c rcb) other ≡ a.callback c other

-- `ReportConfig`
pub record ReportConfig : Type 0 where
  pub trg_ops : ℕ
  pub intg_pd : ℕ
  pub buf_tm : ℕ
  pub gi : Bool

abbrev pub rcb_element_rpt_ena : ℕ
rcb_element_rpt_ena = 2

abbrev pub rcb_element_buf_tm : ℕ
rcb_element_buf_tm = 64

abbrev pub rcb_element_trg_ops : ℕ
rcb_element_trg_ops = 256

abbrev pub rcb_element_intg_pd : ℕ
rcb_element_intg_pd = 512

abbrev pub rcb_element_gi : ℕ
rcb_element_gi = 1024

module _ (a : RcbApi) where
  -- One `if` of the configuration: set the field and its bit of the mask.
  abbrev pub when : Bool → (a.rcb.Rcb → a.rcb.Rcb) → ℕ → a.rcb.Rcb × ℕ → a.rcb.Rcb × ℕ
  when c set bit (rcb, mask) = if c then (set rcb, bit_or mask bit) else (rcb, mask)

  -- The control block and the mask that `SubscribeReport` writes.
  unfoldable pub configure : Option ReportConfig → a.rcb.Rcb → a.rcb.Rcb × ℕ
  configure none rcb = (a.rcb.set_rpt_ena rcb true, rcb_element_rpt_ena)
  configure (some cfg) rcb =
      let start : a.rcb.Rcb × ℕ = (rcb, rcb_element_rpt_ena) in
      let s1 =
        when (not (cfg.trg_ops == 0)) (λ r. a.rcb.set_trg_ops r cfg.trg_ops) rcb_element_trg_ops
          start in
      let s2 =
        when (not (cfg.intg_pd == 0)) (λ r. a.rcb.set_intg_pd r cfg.intg_pd) rcb_element_intg_pd
          s1 in
      let s3 =
        when (not (cfg.buf_tm == 0)) (λ r. a.rcb.set_buf_tm r cfg.buf_tm) rcb_element_buf_tm s2 in
      let s4 = when cfg.gi (λ r. a.rcb.set_gi r true) rcb_element_gi s3 in
      (a.rcb.set_rpt_ena s4.0 true, s4.1)

-- The texts of the two errors of `SubscribeReport`.
abbrev pub get_failed : String → IedClientError → String
get_failed ref e = concat ("getRCBValues " ∷ ref ∷ ": " ∷ err e ∷ [])

abbrev pub set_failed : String → IedClientError → String
set_failed ref e = concat ("setRCBValues " ∷ ref ∷ ": " ∷ err e ∷ [])

module _ (a : RcbApi) where
  -- `installGoReportHandler` and `uninstallGoReportHandler`
  abbrev pub install_go_report_handler : a.Connection → String → Option String → ℕ → a.Connection
  install_go_report_handler c ref rpt_id id = a.install_report_handler c ref rpt_id (some id)

  abbrev pub uninstall_go_report_handler : a.Connection → String → a.Connection
  uninstall_go_report_handler c ref = a.install_report_handler c ref none none

  -- The request of `UnsubscribeReport` to the server; a failure is not reported.
  abbrev pub disable : (IedClientError ⊎ a.rcb.Rcb) × a.Connection → a.Connection
  disable (inl e, c) = c
  disable (inr rcb, c) =
      let off = a.rcb.set_rpt_ena rcb false in
      a.destroy_rcb (a.set_rcb_values c off rcb_element_rpt_ena).1 off

module _ {H : Type 0} where
  -- The registry with a new entry.
  abbrev pub register : String → H → Registry H → Registry H
  register ref h r = record {
    next_handler_id = new_id r;
    handlers = set_handler (new_id r) (record { handler = h; rcb_ref = ref }) r.handlers;
  }

module _ (a : RcbApi) (H : Type 0) where
  -- The process: the registry and the connection.
  pub record Session : Type 0 where
    pub registry : Registry H
    pub connection : a.Connection

module _ (a : RcbApi) {H : Type 0} where
  -- The end of `SubscribeReport`: what it does with the answer to its write. `id` is the number of
  -- the new entry.
  unfoldable pub finish :
      String → ℕ → Registry H → Option IedClientError × a.Connection → Option String × Session a H
  finish ref id r (none, c) = (none, record { registry = r; connection = c })
  finish ref id r (some e, c) = (
    some (set_failed ref e),
    record {
      registry = record r { handlers = delete_handler id r.handlers };
      connection = uninstall_go_report_handler a c ref;
    },
  )

  -- The deferred release of the control block that was read.
  abbrev pub destroyed : a.rcb.Rcb → Option String × Session a H → Option String × Session a H
  destroyed rcb (e, s) = (e, record s { connection = a.destroy_rcb s.connection rcb })

  -- `SubscribeReport` after the control block was read.
  unfoldable pub enable :
      String
      → Option ReportConfig
      → H
      → Registry H
      → (IedClientError ⊎ a.rcb.Rcb) × a.Connection
      → Option String × Session a H
  unfolding configure finish
  enable ref cfg h r (inl e, c) = (some (get_failed ref e), record { registry = r; connection = c })
  enable ref cfg h r (inr rcb, c) =
      let write = configure a cfg rcb in
      let id = new_id r in
      let c1 = install_go_report_handler a c ref (a.rcb.get_rpt_id write.0) id in
      destroyed write.0 (finish ref id (register ref h r) (a.set_rcb_values c1 write.0 write.1))

  -- `SubscribeReport`: the error, and the process afterwards.
  unfoldable pub subscribe_report :
      Session a H → String → Option ReportConfig → H → Option String × Session a H
  unfolding enable
  subscribe_report s ref cfg h = enable ref cfg h s.registry (a.get_rcb_values s.connection ref)

  -- `UnsubscribeReport`
  unfoldable pub unsubscribe_report : Session a H → String → Session a H
  unsubscribe_report s ref = record {
    registry = record s.registry { handlers = delete_first ref s.registry.handlers };
    connection = uninstall_go_report_handler a (disable a (a.get_rcb_values s.connection ref)) ref;
  }

  -- The handler that a report of the control block reaches.
  abbrev pub reached : Session a H → String → Option (HandlerEntry H)
  reached s ref = deliver s.registry (a.callback s.connection ref)

-- What `SubscribeReportWithCandidates` returns: the chosen reference or one of two errors, the
-- second with the number of candidates and the messages that it joins.
pub data Outcome : Type 0 where
  chosen : String → Outcome
  no_candidates : Outcome
  all_failed : ℕ → List String → Outcome

abbrev pub err_msg_max : ℕ
err_msg_max = 20

-- `errs = append(errs, fmt.Sprintf("%s: %v", ref, e))` while there is room.
abbrev pub note : List String → String → String → List String
note errs ref e =
    if ltb (length errs) err_msg_max then errs ++ (concat (ref ∷ ": " ∷ e ∷ []) ∷ []) else errs

module _ (a : RcbApi) {H : Type 0} (cfg : Option ReportConfig) (h : H) (count : ℕ) where
  -- What follows an attempt with a reference: the next step with the message added, or the end.
  abbrev pub attempted :
      String
      → List String
      → (List String → Session a H → Outcome × Session a H)
      → Option String × Session a H
      → Outcome × Session a H
  attempted ref errs next (none, s) = (chosen ref, s)
  attempted ref errs next (some e, s) = next (note errs ref e) s

  -- The loop over the candidates, with the messages so far.
  unfoldable pub candidates_loop : List String → List String → Session a H → Outcome × Session a H
  candidates_loop [] errs s = (all_failed count errs, s)
  candidates_loop (base ∷ bases) errs s =
      attempted base errs
        (λ errs1 s1.
          attempted (join base "01") errs1 (candidates_loop bases)
            (subscribe_report a s1 (join base "01") cfg h))
        (subscribe_report a s base cfg h)

module _ (a : RcbApi) {H : Type 0} where
  -- `SubscribeReportWithCandidates`
  unfoldable pub subscribe_report_with_candidates :
      Session a H → List String → Option ReportConfig → H → Outcome × Session a H
  unfolding candidates_loop
  subscribe_report_with_candidates s [] cfg h = (no_candidates, s)
  subscribe_report_with_candidates s (base ∷ bases) cfg h =
      candidates_loop a cfg h (length (base ∷ bases)) (base ∷ bases) [] s
