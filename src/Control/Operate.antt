-- ===== src/Control/Operate.antt =====
-- What the three operates of iec61850/iec61850_control.go send and report.
use go_libiec.Prelude.{
  ℕ, ◌+◌, String, Bool, true, false, Option, none, some, List, [], ◌∷◌, ◌≡◌, refl, ◌⊎◌, inl, inr,
  Bool-cases,
}
use go_libiec.Mms.Types.{MmsType}
use go_libiec.Control.{
  CtlVal, Event, new_value, set_value, set_origin, operate, ControlApi, CachedControl, Client,
  ControlError, create_failed, wrong_type, new_failed, operate_failed, is_integer, accept,
  on_create, on_lookup, get_or_create, send, on_new, with_value, with_entry,
  direct_with_normal_security, direct_with_normal_security_int32,
  direct_with_normal_security_float32, initial, boolean, int32, float32,
}

-- How many Operate requests were sent.
abbrev pub sent : List Event → ℕ
sent [] = 0
sent (operate c v ok ∷ log) = 1 + sent log
sent (e ∷ log) = sent log

-- The last three calls set a value to `x`, set the origin 3 and operate with it, with the answer
-- `ok`; before them no Operate was sent since `log0`.
abbrev pub Operated : CtlVal → Bool → List Event → List Event → Type 0
Operated x ok log0 log =
    (ctrl : ℕ) × (v : ℕ) × (rest : List Event) × (log
      ≡ operate ctrl v ok ∷ set_origin ctrl 3 ∷ set_value v x ∷ rest)
    × (sent rest ≡ sent log0)

-- What a result says of the calls: no error means one Operate request with the value, which the
-- library accepted; `operate_failed` one that it did not accept; any other error none.
abbrev pub Reported : String → CtlVal → List Event → Option ControlError × Client → Type 0
Reported ref x log0 (none, c) = Operated x true log0 c.log
Reported ref x log0 (some (operate_failed r e), c) = (r ≡ ref) × Operated x false log0 c.log
Reported ref x log0 (some (create_failed r), c) = (r ≡ ref) × (sent c.log ≡ sent log0)
Reported ref x log0 (some (wrong_type r t), c) = (r ≡ ref) × (sent c.log ≡ sent log0)
Reported ref x log0 (some (new_failed r), c) = (r ≡ ref) × (sent c.log ≡ sent log0)

module _ (a : ControlApi) where
  -- What looking the entry up says of the calls.
  abbrev Unsent : String → List Event → (ControlError ⊎ CachedControl) × Client → Type 0
  Unsent ref log0 (inl (operate_failed r e), c) = ⊥
  Unsent ref log0 (inl (create_failed r), c) = (r ≡ ref) × (sent c.log ≡ sent log0)
  Unsent ref log0 (inl (wrong_type r t), c) = (r ≡ ref) × (sent c.log ≡ sent log0)
  Unsent ref log0 (inl (new_failed r), c) = (r ≡ ref) × (sent c.log ≡ sent log0)
  Unsent ref log0 (inr e, c) = sent c.log ≡ sent log0

  accept-Unsent :
      (ref : String) (require : Bool) (log0 : List Event) (c : Client) (ctrl : ℕ) (got : MmsType)
      → sent c.log ≡ sent log0
      → Unsent ref log0 (accept a ref require c ctrl got)
  unfolding accept
  accept-Unsent ref false log0 c ctrl got b = b
  accept-Unsent ref true log0 c ctrl got b = elim (Bool-cases (is_integer got)) [
    | inl integer ↦ rw integer b
    | inr other ↦ rw other (refl, b)
  ]

  on_create-Unsent :
      (ref : String) (require : Bool) (log0 : List Event) (c : Client) (answer : Option ℕ)
      → sent c.log ≡ sent log0
      → Unsent ref log0 (on_create a ref require c answer)
  unfolding on_create
  on_create-Unsent ref require log0 c none b = (refl, b)
  on_create-Unsent ref require log0 c (some n) b = accept-Unsent ref require log0 c n _ b

  on_lookup-Unsent :
      (ref : String) (require : Bool) (log0 : List Event) (c : Client)
      (found : Option CachedControl)
      → sent c.log ≡ sent log0
      → Unsent ref log0 (on_lookup a ref require c found)
  unfolding on_lookup
  on_lookup-Unsent ref require log0 c (some e) b = b
  on_lookup-Unsent ref require log0 c none b = on_create-Unsent ref require log0 _ _ b

  send-Reported :
      (ref : String) (x : CtlVal) (log0 : List Event) (ctrl v : ℕ) (c : Client)
      → sent c.log ≡ sent log0
      → Reported ref x log0 (send a ref x ctrl v c)
  unfolding send
  send-Reported ref x log0 ctrl v c b =
      elim (Bool-cases (a.operated (set_origin ctrl 3 ∷ set_value v x ∷ c.log) ctrl v)) [
        | inl accepted ↦ rw accepted (ctrl, v, c.log, refl, b)
        | inr rejected ↦ rw rejected (refl, (ctrl, v, c.log, refl, b))
      ]

  on_new-Reported :
      (ref : String) (x : CtlVal) (log0 : List Event) (c : Client) (ctrl : ℕ) (answer : Option ℕ)
      → sent c.log ≡ sent log0
      → Reported ref x log0
          (on_new a ref x ctrl (record c { log = new_value (initial a x) answer ∷ c.log }) answer)
  unfolding on_new
  on_new-Reported ref x log0 c ctrl none b = (refl, b)
  on_new-Reported ref x log0 c ctrl (some v) b = send-Reported ref x log0 ctrl v _ b

  with_value-Reported :
      (ref : String) (x : CtlVal) (log0 : List Event) (c : Client) (ctrl : ℕ) (o : Option ℕ)
      → sent c.log ≡ sent log0
      → Reported ref x log0 (with_value a ref x c ctrl o)
  unfolding with_value
  with_value-Reported ref x log0 c ctrl (some v) b = send-Reported ref x log0 ctrl v c b
  with_value-Reported ref x log0 c ctrl none b =
      on_new-Reported ref x log0 c ctrl (a.allocated c.log (initial a x)) b

  with_entry-Reported :
      (ref : String) (x : CtlVal) (log0 : List Event) (r : (ControlError ⊎ CachedControl) × Client)
      → Unsent ref log0 r
      → Reported ref x log0 (with_entry a ref x r)
  unfolding with_entry
  with_entry-Reported ref x log0 (inl (operate_failed r e), c) never = elim never [ ]
  with_entry-Reported ref x log0 (inl (create_failed r), c) b = b
  with_entry-Reported ref x log0 (inl (wrong_type r t), c) b = b
  with_entry-Reported ref x log0 (inl (new_failed r), c) b = b
  with_entry-Reported ref x log0 (inr e, c) b =
      with_value-Reported ref x log0 c e.ctrl e.ctl_reuse b

  direct-Reported :
      (ref : String) (x : CtlVal) (require : Bool) (c : Client)
      → Reported ref x c.log (with_entry a ref x (get_or_create a ref require c))
  unfolding get_or_create
  direct-Reported ref x require c =
      with_entry-Reported ref x c.log _ (on_lookup-Unsent ref require c.log _ _ refl)

  -- What each of the three operates reports is what it sent: without an error exactly one Operate
  -- request, the last call, accepted by the library, with the value of the argument set just
  -- before; with `operate_failed` exactly one that was not accepted; with any other error none.
  pub direct_with_normal_security-Reported :
      (ref : String) (c : Client)
      → ((val : Bool) → Reported ref (boolean val) c.log (direct_with_normal_security a ref val c))
        × ((val : ℕ)
            → Reported ref (int32 val) c.log (direct_with_normal_security_int32 a ref val c))
        × ((val : ℕ)
            → Reported ref (float32 val) c.log (direct_with_normal_security_float32 a ref val c))
  unfolding direct_with_normal_security direct_with_normal_security_int32
      direct_with_normal_security_float32
  direct_with_normal_security-Reported ref c = (
    (λ val. direct-Reported ref (boolean val) false c),
    (λ val. direct-Reported ref (int32 val) true c),
    (λ val. direct-Reported ref (float32 val) false c),
  )
