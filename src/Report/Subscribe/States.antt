-- ===== src/Report/Subscribe/States.antt =====
-- The states between the statements of `SubscribeReport` and `UnsubscribeReport` in
-- iec61850/iec61850_report.go, and that the reports which arrive meanwhile find their handler.
use mathlib.Core.Path.{subst}
use go_libiec.Prelude.{
  ℕ, String, Option, none, some, List, [], ◌∷◌, ◌≡◌, refl, sym, ◌∙◌, ◌⊎◌, inl, inr,
}
use go_libiec.Client.Errors.{IedClientError}
use go_libiec.Report.Registry.{Registry, new_id, delete_handler, delete_first}
use go_libiec.Report.Registry.Laws.{delete_handler-set_handler}
use go_libiec.Report.Subscribe.{
  RcbApi, RcbLaws, ReportConfig, Session, configure, destroyed, finish, enable, register,
  subscribe_report, unsubscribe_report, disable, uninstall_go_report_handler,
  install_go_report_handler,
}
use go_libiec.Report.Subscribe.Laws.{Fits, Replaced, Fits-same, found_new}
use go_libiec.Report.Subscribe.Delivery.{IsValid, HasId, new_id_above, uninstall-Replaced}
use go_libiec.Report.Subscribe.Cancel.{disable-callback}
use go_libiec.Report.Subscribe.Window.{
  Covers, Covers-same, Covers-register, Covers-install, Covers-uninstall, Covers-delete,
}

-- The state between the two halves of the rollback is told apart.
pub data Phase : Type 0 where
  forward half_rolled_back : Phase

module _ (a : RcbApi) {H : Type 0} where
  abbrev pub State : Phase → Registry H → a.Connection → Phase × Session a H
  State p r c = (p, record { registry = r; connection = c })

  -- After the write of the control block, up to its release.
  unfoldable pub finish_states :
      String
      → ℕ
      → Registry H
      → a.rcb.Rcb
      → Option IedClientError × a.Connection
      → List (Phase × Session a H)
  finish_states ref id r rcb (none, c) =
      State forward r c ∷ State forward r (a.destroy_rcb c rcb) ∷ []
  finish_states ref id r rcb (some e, c) =
      let rolled = record r { handlers = delete_handler id r.handlers } in
      let c1 = uninstall_go_report_handler a c ref in
      State forward r c
      ∷ State half_rolled_back rolled c
      ∷ State forward rolled c1
      ∷ State forward rolled (a.destroy_rcb c1 rcb)
      ∷ []

  -- After the read of the control block: the new handler, its callback, the write.
  unfoldable pub enable_states :
      String
      → Option ReportConfig
      → H
      → Registry H
      → (IedClientError ⊎ a.rcb.Rcb) × a.Connection
      → List (Phase × Session a H)
  unfolding finish_states
  enable_states ref cfg h r (inl e, c) = State forward r c ∷ []
  enable_states ref cfg h r (inr rcb, c) =
      let write = configure a cfg rcb in
      let r1 = register ref h r in
      let c1 = install_go_report_handler a c ref (a.rcb.get_rpt_id write.0) (new_id r) in
      State forward r c
      ∷ State forward r1 c
      ∷ State forward r1 c1
      ∷ finish_states ref (new_id r) r1 write.0 (a.set_rcb_values c1 write.0 write.1)

  -- The states of `SubscribeReport`, one after each statement that changes something.
  unfoldable pub subscribe_states :
      Session a H → String → Option ReportConfig → H → List (Phase × Session a H)
  unfolding enable_states
  subscribe_states s ref cfg h =
      enable_states ref cfg h s.registry (a.get_rcb_values s.connection ref)

  -- The states of `UnsubscribeReport`: the request, the callback, the map.
  unfoldable pub unsubscribe_states : Session a H → String → List (Phase × Session a H)
  unsubscribe_states s ref =
      let c = disable a (a.get_rcb_values s.connection ref) in
      let c1 = uninstall_go_report_handler a c ref in
      let r1 = record s.registry { handlers = delete_first ref s.registry.handlers } in
      State forward s.registry c ∷ State forward s.registry c1 ∷ State forward r1 c1 ∷ []

  -- Every installed callback has its handler.
  abbrev pub IsCovered : Session a H → Type 0
  IsCovered s = Covers (a.callback s.connection) s.registry.handlers

  abbrev pub PhaseCovered : Phase × Session a H → Type 0
  PhaseCovered (forward, s) = IsCovered s
  PhaseCovered (half_rolled_back, s) = Unit

  -- The states are covered, and the last one is `s'`.
  abbrev pub CoveredUpTo : Session a H → List (Phase × Session a H) → Type 0
  CoveredUpTo s' [] = ⊥
  CoveredUpTo s' (p ∷ []) = PhaseCovered p × (p.1 ≡ s')
  CoveredUpTo s' (p ∷ q ∷ ps) = PhaseCovered p × CoveredUpTo s' (q ∷ ps)

module _ {a : RcbApi} (l : RcbLaws a) {H : Type 0} where
  finish_states-Covered :
      (ref : String) (h : H) (r : Registry H) (f : String → Option ℕ) (rcb : a.rcb.Rcb)
      (answer : Option IedClientError × a.Connection)
      → HasId r
      → Fits r.next_handler_id r.handlers f
      → Replaced ref (some (new_id r)) f (a.callback answer.1)
      → Covers f r.handlers
      → Covers (a.callback answer.1) (register ref h r).handlers
      → CoveredUpTo a
          (destroyed a rcb (finish a ref (new_id r) (register ref h r) answer)).1
          (finish_states a ref (new_id r) (register ref h r) rcb answer)
  unfolding finish finish_states
  finish_states-Covered ref h r f rcb (none, c) lt v new before now =
      (now, (Covers-same _ _ _ now (l.destroy_law c rcb), refl))
  finish_states-Covered ref h r f rcb (some e, c) lt v new before now =
      let c1 = uninstall_go_report_handler a c ref in
      let back : Covers (a.callback c1) (delete_handler (new_id r) (register ref h r).handlers) =
        subst (Covers (a.callback c1))
          (sym (
            delete_handler-set_handler r.next_handler_id (new_id r) _ r.handlers v.ids
              (new_id_above r lt)))
          (Covers-uninstall f (a.callback c1) ref r.handlers (uninstall-Replaced l c ref _ f new)
            before) in
      (now, (tt, (back, (Covers-same _ _ _ back (l.destroy_law c1 rcb), refl))))

  register-Covered :
      (ref : String) (h : H) (r : Registry H) (f : String → Option ℕ)
      → HasId r
      → Fits r.next_handler_id r.handlers f
      → Covers f r.handlers
      → Covers f (register ref h r).handlers
  register-Covered ref h r f lt v before =
      Covers-register f r.next_handler_id (new_id r) _ r.handlers (new_id_above r lt) v.bound before

  joined :
      (s' s1 : Session a H) (ps : List (Phase × Session a H))
      → IsCovered a s1
      → CoveredUpTo a s' ps
      → CoveredUpTo a s' ((forward, s1) ∷ ps)
  joined s' s1 [] c u = absurd u
  joined s' s1 (p ∷ ps) c u = (c, u)

  enable_states-Covered :
      (ref : String) (cfg : Option ReportConfig) (h : H) (r : Registry H)
      (answer : (IedClientError ⊎ a.rcb.Rcb) × a.Connection)
      → HasId r
      → Fits r.next_handler_id r.handlers (a.callback answer.1)
      → Covers (a.callback answer.1) r.handlers
      → CoveredUpTo a (enable a ref cfg h r answer).1 (enable_states a ref cfg h r answer)
  unfolding enable enable_states finish_states
  enable_states-Covered ref cfg h r (inl e, c) lt v before = (before, refl)
  enable_states-Covered ref cfg h r (inr rcb, c) lt v before =
      let write = configure a cfg rcb in
      let c1 = install_go_report_handler a c ref (a.rcb.get_rpt_id write.0) (new_id r) in
      let registered = register-Covered ref h r (a.callback c) lt v before in
      let installed : Covers (a.callback c1) (register ref h r).handlers =
        Covers-install (a.callback c) (a.callback c1) ref (new_id r) _ (register ref h r).handlers
          (found_new (new_id r) _ r.handlers) refl (λ other. l.install_law c ref other _ _)
          registered in
      (
        before,
        (
          registered,
          joined _ _ _ installed (
              finish_states-Covered ref h r (a.callback c) write.0
                (a.set_rcb_values c1 write.0 write.1) lt v
                (λ other. l.set_law _ _ _ other ∙ l.install_law c ref other _ _) before
                (Covers-same (a.callback c1) _ _ installed (l.set_law c1 write.0 write.1))),
        ),
      )

  -- There is no window in which a report finds its callback but no handler: if before a subscription every
  -- installed callback leads to a handler of its control block, then so it is after every
  -- statement of `SubscribeReport`, all but the first of the two of its rollback, and the states end
  -- in the one that it leaves. The process satisfies the invariant and has a free number.
  pub subscribe_states-Covered :
      (s : Session a H) (ref : String) (cfg : Option ReportConfig) (h : H)
      → IsValid a s
      → HasId s.registry
      → IsCovered a s
      → CoveredUpTo a (subscribe_report a s ref cfg h).1 (subscribe_states a s ref cfg h)
  unfolding subscribe_report subscribe_states
  subscribe_states-Covered s ref cfg h v lt c =
      enable_states-Covered ref cfg h s.registry _ lt
        (Fits-same _ _ _ _ v (l.get_law s.connection ref))
        (Covers-same _ _ _ c (l.get_law s.connection ref))

  -- The same holds of `UnsubscribeReport`, which takes the callback away before the handler.
  pub unsubscribe_states-Covered :
      (s : Session a H) (ref : String)
      → IsValid a s
      → IsCovered a s
      → CoveredUpTo a (unsubscribe_report a s ref) (unsubscribe_states a s ref)
  unfolding unsubscribe_report unsubscribe_states
  unsubscribe_states-Covered s ref v c =
      let kept = disable-callback l s ref _ (l.get_law s.connection ref) in
      let read = Covers-same _ _ _ c kept in
      let fits = Fits-same _ _ _ _ v kept in
      let taken = λ (other : String).
        l.install_law (disable a (a.get_rcb_values s.connection ref)) ref other none none in
      (
        read,
        (
          Covers-uninstall _ _ ref s.registry.handlers taken read,
          (
            Covers-delete _ _ ref s.registry.next_handler_id s.registry.handlers fits taken read,
            refl,
          ),
        ),
      )
