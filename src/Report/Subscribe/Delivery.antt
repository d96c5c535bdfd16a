-- ===== src/Report/Subscribe/Delivery.antt =====
-- What the subscriptions do to a process as a whole: which handler a report reaches.
use go_libiec.Prelude.{
  ℕ, ◌+◌, ◌^◌, ◌<◌, String, Bool, true, false, Option, none, some, ◌≡◌, refl, sym, ap, ◌∙◌, str_eq,
  eq_iff, if◌then◌else◌, arith, ◌⊎◌, inl, inr, Bool-cases,
}
use mathlib.Core.Path.{subst}
use go_libiec.Client.Errors.{IedClientError}
use go_libiec.Report.Registry.{HandlerEntry, Registry, handler_of, new_id, deliver}
use go_libiec.Report.Registry.Laws.{delete_handler-set_handler}
use go_libiec.Report.Subscribe.{
  RcbApi, RcbLaws, ReportConfig, Session, configure, destroyed, install_go_report_handler, finish,
  enable, register, subscribe_report, reached, uninstall_go_report_handler,
}
use go_libiec.Report.Subscribe.Laws.{
  Fits, Replaced, Replaced-same, Replaced-other, Fits-same, Fits-uninstall, Fits-install, found_new,
  kept_below,
}

module _ (a : RcbApi) {H : Type 0} where
  -- The invariant of the process.
  abbrev pub IsValid : Session a H → Type 0
  IsValid s = Fits s.registry.next_handler_id s.registry.handlers (a.callback s.connection)

-- The numbers have not run out.
abbrev pub HasId : {H : Type 0} → Registry H → Type 0
HasId r = r.next_handler_id + 1 < 2 ^ 32

pub new_id_above : {H : Type 0} (r : Registry H) → HasId r → r.next_handler_id < new_id r
new_id_above r lt = omega arith

if_twice :
    (b : Bool) (x y z : Option ℕ) → (if b then x else (if b then y else z)) ≡ (if b then x else z)
if_twice true x y z = refl
if_twice false x y z = refl

pub uninstall-Replaced :
    {a : RcbApi} (l : RcbLaws a) (c : a.Connection) (ref : String) (h : Option ℕ)
    (f : String → Option ℕ)
    → Replaced ref h f (a.callback c)
    → Replaced ref none f (a.callback (uninstall_go_report_handler a c ref))
uninstall-Replaced l c ref h f r other =
    l.install_law c ref other none none
    ∙ (ap (λ y. if str_eq ref other then none else y) (r other)
        ∙ if_twice (str_eq ref other) none h (f other))

module _ {a : RcbApi} (l : RcbLaws a) {H : Type 0} where
  finish-IsValid :
      (ref : String) (h : H) (r : Registry H) (f : String → Option ℕ)
      (answer : Option IedClientError × a.Connection)
      → HasId r
      → Fits r.next_handler_id r.handlers f
      → Replaced ref (some (new_id r)) f (a.callback answer.1)
      → IsValid a (finish a ref (new_id r) (register ref h r) answer).1
  unfolding finish
  finish-IsValid ref h r f (none, c) lt v new =
      Fits-install ref r.next_handler_id (new_id r) _ r.handlers f (a.callback c)
        (new_id_above r lt) refl v new
  finish-IsValid ref h r f (some e, c) lt v new =
      subst (λ hs. Fits (new_id r) hs (a.callback (uninstall_go_report_handler a c ref)))
        (sym (
          delete_handler-set_handler r.next_handler_id (new_id r) _ r.handlers v.ids
            (new_id_above r lt)))
        (Fits-uninstall ref r.next_handler_id (new_id r) r.handlers f _ v
          (omega (arith, new_id_above r lt)) (uninstall-Replaced l c ref _ f new))

  destroyed-IsValid :
      (rcb : a.rcb.Rcb) (r : Option String × Session a H)
      → IsValid a r.1
      → IsValid a (destroyed a rcb r).1
  destroyed-IsValid rcb (e, s) v = Fits-same _ _ _ _ v (l.destroy_law s.connection rcb)

  enable-IsValid :
      (ref : String) (cfg : Option ReportConfig) (h : H) (r : Registry H)
      (answer : (IedClientError ⊎ a.rcb.Rcb) × a.Connection)
      → HasId r
      → Fits r.next_handler_id r.handlers (a.callback answer.1)
      → IsValid a (enable a ref cfg h r answer).1
  unfolding enable
  enable-IsValid ref cfg h r (inl e, c) lt v = v
  enable-IsValid ref cfg h r (inr rcb, c) lt v =
      let write = configure a cfg rcb in
      let c1 = install_go_report_handler a c ref (a.rcb.get_rpt_id write.0) (new_id r) in
      destroyed-IsValid write.0
        (finish a ref (new_id r) (register ref h r) (a.set_rcb_values c1 write.0 write.1))
        (finish-IsValid ref h r (a.callback c) (a.set_rcb_values c1 write.0 write.1) lt v
          (λ other. l.set_law _ _ _ other ∙ l.install_law c ref other _ _))

  -- Subscribing keeps the invariant, whether it succeeds or fails, where a number is free.
  pub subscribe_report-IsValid :
      (s : Session a H) (ref : String) (cfg : Option ReportConfig) (h : H)
      → IsValid a s
      → HasId s.registry
      → IsValid a (subscribe_report a s ref cfg h).1
  unfolding subscribe_report
  subscribe_report-IsValid s ref cfg h v lt =
      enable-IsValid ref cfg h s.registry _ lt (Fits-same _ _ _ _ v (l.get_law s.connection ref))

module _ {H : Type 0} where
  pub deliver-kept :
      (r r' : Registry H) (o : Option ℕ)
      → ((id : ℕ) → o ≡ some id → handler_of id r'.handlers ≡ handler_of id r.handlers)
      → deliver r' o ≡ deliver r o
  unfolding deliver
  deliver-kept r r' none kept = refl
  deliver-kept r r' (some id) kept = kept id refl

module _ {H : Type 0} where
  pub deliver-none : (r : Registry H) → deliver r none ≡ none
  unfolding deliver
  deliver-none r = refl

  new_reached :
      (ref : String) (h : H) (r : Registry H)
      → deliver (register ref h r) (some (new_id r)) ≡ some (record { handler = h; rcb_ref = ref })
  unfolding deliver
  new_reached ref h r = found_new (new_id r) _ r.handlers

module _ (a : RcbApi) {H : Type 0} where
  -- What a subscription with `entry` leaves, by its error: without one the reports of the control
  -- block reach the entry and the others what they reached before; with one the map is as before,
  -- and at most the reports of that control block reach nothing now.
  abbrev pub Subscribed :
      Session a H → Session a H → String → HandlerEntry H → Option String → Type 0
  Subscribed s s' ref entry none =
      (other : String)
      → reached a s' other ≡ (if str_eq ref other then some entry else reached a s other)
  Subscribed s s' ref entry (some e) =
      (s'.registry.handlers ≡ s.registry.handlers)
      × ((other : String)
          → (reached a s' other ≡ reached a s other)
            ⊎ ((ref ≡ other) × (reached a s' other ≡ none)))

module _ {a : RcbApi} (l : RcbLaws a) {H : Type 0} where
  finish-Subscribed :
      (s : Session a H) (ref : String) (h : H) (answer : Option IedClientError × a.Connection)
      → HasId s.registry
      → IsValid a s
      → Replaced ref (some (new_id s.registry)) (a.callback s.connection) (a.callback answer.1)
      → Subscribed a s
          (finish a ref (new_id s.registry) (register ref h s.registry) answer).1
          ref
          (record { handler = h; rcb_ref = ref })
          (finish a ref (new_id s.registry) (register ref h s.registry) answer).0
  unfolding finish
  finish-Subscribed s ref h (none, c) lt v new = λ other. elim (Bool-cases (str_eq ref other)) [
    | inl same ↦ rw same (
        ap (deliver (register ref h s.registry)) (Replaced-same ref _ _ _ other new same)
        ∙ new_reached ref h s.registry)
    | inr diff ↦ rw diff (
        ap (deliver (register ref h s.registry)) (Replaced-other ref _ _ _ other new diff)
        ∙ deliver-kept s.registry (register ref h s.registry) (a.callback s.connection other)
            (λ id eq.
              sym (kept_below _ _ id _ _ (new_id_above s.registry lt) (v.bound other id eq))))
  ]
  finish-Subscribed s ref h (some e, c) lt v new = (
    delete_handler-set_handler s.registry.next_handler_id _ _ s.registry.handlers v.ids
        (new_id_above s.registry lt),
    λ other. elim (Bool-cases (str_eq ref other)) [
      | inl same ↦ inr (
        (eq_iff ref other).0 same,
        ap (deliver _) (Replaced-same ref none _ _ other (uninstall-Replaced l c ref _ _ new) same)
            ∙ deliver-none _,
      )
      | inr diff ↦ inl (
          ap (deliver _)
            (Replaced-other ref none _ _ other (uninstall-Replaced l c ref _ _ new) diff)
          ∙ deliver-kept s.registry _ (a.callback s.connection other) (λ id eq. ap (handler_of id) (
              delete_handler-set_handler s.registry.next_handler_id _ _ s.registry.handlers v.ids
                (new_id_above s.registry lt))))
    ],
  )

  destroyed-Subscribed :
      (s : Session a H) (ref : String) (entry : HandlerEntry H) (rcb : a.rcb.Rcb)
      (r : Option String × Session a H)
      → Subscribed a s r.1 ref entry r.0
      → Subscribed a s (destroyed a rcb r).1 ref entry (destroyed a rcb r).0
  destroyed-Subscribed s ref entry rcb (none, s') sub =
      λ other. ap (deliver s'.registry) (l.destroy_law s'.connection rcb other) ∙ sub other
  destroyed-Subscribed s ref entry rcb (some e, s') sub = (
    sub.0,
    λ other.
        let same = ap (deliver s'.registry) (l.destroy_law s'.connection rcb other) in
        elim (sub.1 other) [
          | inl kept ↦ inl (same ∙ kept)
          | inr (is, gone) ↦ inr (is, same ∙ gone)
        ],
  )

  enable-Subscribed :
      (s : Session a H) (ref : String) (cfg : Option ReportConfig) (h : H)
      (answer : (IedClientError ⊎ a.rcb.Rcb) × a.Connection)
      → HasId s.registry
      → IsValid a s
      → ((other : String) → a.callback answer.1 other ≡ a.callback s.connection other)
      → Subscribed a s
          (enable a ref cfg h s.registry answer).1
          ref
          (record { handler = h; rcb_ref = ref })
          (enable a ref cfg h s.registry answer).0
  unfolding enable
  enable-Subscribed s ref cfg h (inl e, c) lt v same =
      (refl, λ other. inl (ap (deliver s.registry) (same other)))
  enable-Subscribed s ref cfg h (inr rcb, c) lt v same =
      let write = configure a cfg rcb in
      let c1 = install_go_report_handler a c ref (a.rcb.get_rpt_id write.0) (new_id s.registry) in
      destroyed-Subscribed s ref _ write.0 _ (
        finish-Subscribed s ref h (a.set_rcb_values c1 write.0 write.1) lt v (λ other.
          l.set_law _ _ _ other
          ∙ (l.install_law c ref other _ _
              ∙ ap (λ y. if str_eq ref other then some (new_id s.registry) else y) (same other))))

  -- After a subscription that succeeds, the reports of its control block reach its handler, and
  -- those of every other control block what they reached before. After one that fails the handlers
  -- are the ones before it, and only the reports of its control block may reach nothing now. The
  -- process satisfies the invariant and has a free number.
  pub subscribe_report-Subscribed :
      (s : Session a H) (ref : String) (cfg : Option ReportConfig) (h : H)
      → IsValid a s
      → HasId s.registry
      → Subscribed a s
          (subscribe_report a s ref cfg h).1
          ref
          (record { handler = h; rcb_ref = ref })
          (subscribe_report a s ref cfg h).0
  unfolding subscribe_report
  subscribe_report-Subscribed s ref cfg h v lt =
      enable-Subscribed s ref cfg h _ lt v (l.get_law s.connection ref)
