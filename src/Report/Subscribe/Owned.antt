-- ===== src/Report/Subscribe/Owned.antt =====
-- The control blocks that the subscriptions of iec61850/iec61850_report.go take from the library, and
-- release.
use go_libiec.Prelude.{
  ℕ, ◌+◌, ◌-◌, String, false, Option, none, some, List, [], ◌∷◌, length, ◌⊎◌, inl, inr, ◌≡◌, refl,
  ◌∙◌, arith,
}
use Prim.Native.String.{◌++◌ as join}
use go_libiec.Client.Errors.{IedClientError}
use go_libiec.Report.Registry.{Registry, new_id}
use go_libiec.Report.Subscribe.{
  RcbApi, ReportConfig, Session, Outcome, configure, rcb_element_rpt_ena, install_go_report_handler,
  register, finish, enable, subscribe_report, disable, unsubscribe_report, attempted,
  candidates_loop, subscribe_report_with_candidates,
}

-- Reading gives a new control block if it succeeds.
abbrev pub got : {A B : Type 0} → A ⊎ B → ℕ
got (inl e) = 0
got (inr rcb) = 1

-- How many control blocks the binding holds: a read without an error gives one, a release takes one,
-- and no other call changes the number.
pub record RcbOwnership (a : RcbApi) : Type 0 where
  pub held : a.Connection → ℕ
  pub get_held :
      (c : a.Connection) (ref : String)
      → held (a.get_rcb_values c ref).1 ≡ held c + got (a.get_rcb_values c ref).0
  pub set_held :
      (c : a.Connection) (rcb : a.rcb.Rcb) (mask : ℕ)
      → held (a.set_rcb_values c rcb mask).1 ≡ held c
  pub install_held :
      (c : a.Connection) (ref : String) (rpt_id : Option String) (h : Option ℕ)
      → held (a.install_report_handler c ref rpt_id h) ≡ held c
  pub destroy_held : (c : a.Connection) (rcb : a.rcb.Rcb) → held (a.destroy_rcb c rcb) ≡ held c - 1

module _ {a : RcbApi} (o : RcbOwnership a) where
  disable-held :
      (n : ℕ) (answer : (IedClientError ⊎ a.rcb.Rcb) × a.Connection)
      → o.held answer.1 ≡ n + got answer.0
      → o.held (disable a answer) ≡ n
  disable-held n (inl e, c) is = omega (arith, is)
  disable-held n (inr rcb, c) is =
      let off = a.rcb.set_rpt_ena rcb false in
      omega (
        arith,
        is,
        o.set_held c off rcb_element_rpt_ena,
        o.destroy_held (a.set_rcb_values c off rcb_element_rpt_ena).1 off,
      )

module _ {a : RcbApi} (o : RcbOwnership a) {H : Type 0} where
  finish-held :
      (ref : String) (id : ℕ) (r : Registry H) (answer : Option IedClientError × a.Connection)
      → o.held (finish a ref id r answer).1.connection ≡ o.held answer.1
  unfolding finish
  finish-held ref id r (none, c) = refl
  finish-held ref id r (some e, c) = o.install_held c ref none none

  enable-held :
      (ref : String) (cfg : Option ReportConfig) (h : H) (r : Registry H) (n : ℕ)
      (answer : (IedClientError ⊎ a.rcb.Rcb) × a.Connection)
      → o.held answer.1 ≡ n + got answer.0
      → o.held (enable a ref cfg h r answer).1.connection ≡ n
  unfolding enable
  enable-held ref cfg h r n (inl e, c) is = omega (arith, is)
  enable-held ref cfg h r n (inr rcb, c) is =
      let write = configure a cfg rcb in
      let c1 = install_go_report_handler a c ref (a.rcb.get_rpt_id write.0) (new_id r) in
      let answer = a.set_rcb_values c1 write.0 write.1 in
      let done = finish a ref (new_id r) (register ref h r) answer in
      omega (
        arith,
        is,
        o.destroy_held done.1.connection write.0,
        finish-held ref (new_id r) (register ref h r) answer,
        o.set_held c1 write.0 write.1,
        o.install_held c ref (a.rcb.get_rpt_id write.0) (some (new_id r)),
      )

  subscribe-held :
      (s : Session a H) (ref : String) (cfg : Option ReportConfig) (h : H)
      → o.held (subscribe_report a s ref cfg h).1.connection ≡ o.held s.connection
  unfolding subscribe_report
  subscribe-held s ref cfg h =
      enable-held ref cfg h s.registry (o.held s.connection) (a.get_rcb_values s.connection ref)
        (o.get_held s.connection ref)

  -- What follows an attempt keeps the number, if the attempt and the next steps do.
  attempted-held :
      (cfg : Option ReportConfig) (h : H) (count n : ℕ) (ref : String) (errs : List String)
      (next : List String → Session a H → Outcome × Session a H) (r : Option String × Session a H)
      → o.held r.1.connection ≡ n
      → ((es : List String) (s : Session a H)
          → o.held s.connection ≡ n
          → o.held (next es s).1.connection ≡ n)
      → o.held (attempted a cfg h count ref errs next r).1.connection ≡ n
  attempted-held cfg h count n ref errs next (none, s) is keep = is
  attempted-held cfg h count n ref errs next (some e, s) is keep = keep _ s is

  candidates_loop-held :
      (cfg : Option ReportConfig) (h : H) (count n : ℕ) (refs errs : List String) (s : Session a H)
      → o.held s.connection ≡ n
      → o.held (candidates_loop a cfg h count refs errs s).1.connection ≡ n
  unfolding candidates_loop
  candidates_loop-held cfg h count n [] errs s is = is
  candidates_loop-held cfg h count n (base ∷ bases) errs s is =
      attempted-held cfg h count n base errs
        (λ errs1 s1.
          attempted a cfg h count (join base "01") errs1 (candidates_loop a cfg h count bases)
            (subscribe_report a s1 (join base "01") cfg h))
        (subscribe_report a s base cfg h) (subscribe-held s base cfg h ∙ is)
        (λ es t is'.
          attempted-held cfg h count n (join base "01") es (candidates_loop a cfg h count bases)
            (subscribe_report a t (join base "01") cfg h)
            (subscribe-held t (join base "01") cfg h ∙ is')
            (λ es' u is''. candidates_loop-held cfg h count n bases es' u is''))

  candidates-held :
      (cfg : Option ReportConfig) (h : H) (refs : List String) (s : Session a H)
      → o.held (subscribe_report_with_candidates a s refs cfg h).1.connection ≡ o.held s.connection
  unfolding subscribe_report_with_candidates
  candidates-held cfg h [] s = refl
  candidates-held cfg h (base ∷ bases) s =
      candidates_loop-held cfg h (length (base ∷ bases)) (o.held s.connection) (base ∷ bases) [] s
        refl

  -- No control block that is read from the server is lost or released twice: a subscription, one
  -- with candidates and an unsubscription leave as many in hand as before, on success and on every
  -- error; hypothesis: the library gives one for a read without an error and takes one back with a
  -- release.
  pub subscriptions-held :
      (s : Session a H) (ref : String) (refs : List String) (cfg : Option ReportConfig) (h : H)
      → (o.held (subscribe_report a s ref cfg h).1.connection ≡ o.held s.connection)
        × (o.held (subscribe_report_with_candidates a s refs cfg h).1.connection
            ≡ o.held s.connection)
        × (o.held (unsubscribe_report a s ref).connection ≡ o.held s.connection)
  unfolding unsubscribe_report
  subscriptions-held s ref refs cfg h = (
    subscribe-held s ref cfg h,
    candidates-held cfg h refs s,
    o.install_held (disable a (a.get_rcb_values s.connection ref)) ref none none
        ∙ disable-held o (o.held s.connection) (a.get_rcb_values s.connection ref)
            (o.get_held s.connection ref),
  )
