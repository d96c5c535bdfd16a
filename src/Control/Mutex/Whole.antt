-- ===== src/Control/Mutex/Whole.antt =====
-- The steps of the functions of iec61850/iec61850_control.go, one after the other, are the functions.
use go_libiec.Prelude.{
  ℕ, String, Bool, true, false, Option, none, some, [], ◌∷◌, Dict, ◌≡◌, refl, ◌∙◌, inl, inr,
  Bool-cases, if◌then◌else◌,
}
use go_libiec.Mms.Types.{MmsType}
use go_libiec.Control.{
  CtlVal, operate_failed, ControlApi, CachedControl, Client, entries, ControlError, release_value,
  release, boolean, int32, float32, is_integer, accept, on_create, on_lookup, get_or_create, send,
  on_new, with_value, with_entry,
}
use go_libiec.Control.Mutex.{
  Call, operate_boolean, operate_int32, operate_float32, clear, Program, finished, next,
  delete_steps, clear_steps, perform, result_steps, send_steps, new_steps, value_steps, keep_steps,
  type_steps, create_steps, lookup_steps, steps_of,
}

-- All steps of a program.
unfoldable pub run : Program → Client → Option ControlError × Client
run (finished r) c = (r, c)
run (next act rest) c = run (rest c) (act c)

run-delete_steps :
    (o : Option ℕ) (rest : Program) (c : Client)
    → run (delete_steps o rest) c ≡ run rest (record c { log = release_value o c.log })
unfolding run
run-delete_steps none rest c = refl
run-delete_steps (some v) rest c = refl

clear_steps-release :
    (d : Dict CachedControl) (c : Client)
    → run (clear_steps d) c ≡ (none, record { control_cache = none; log = release d c.log })
unfolding run clear_steps release
clear_steps-release [] c = refl
clear_steps-release ((k, e) ∷ d) c =
    run-delete_steps e.ctl_reuse (next _ λ s. clear_steps d) c ∙ clear_steps-release d _

module _ (a : ControlApi) where
  result_steps-run :
      (ref : String) (ctrl : ℕ) (ok : Bool) (c : Client)
      → run (result_steps a ref ctrl ok) c
        ≡ ((if ok then none else some (operate_failed ref (a.get_last_error c.log ctrl))), c)
  unfolding run result_steps
  result_steps-run ref ctrl true c = refl
  result_steps-run ref ctrl false c = refl

  send_steps-send :
      (ref : String) (x : CtlVal) (ctrl v : ℕ) (c : Client)
      → run (send_steps a ref x ctrl v) c ≡ send a ref x ctrl v c
  unfolding run send_steps send
  send_steps-send ref x ctrl v c = result_steps-run ref ctrl _ _

  new_steps-new :
      (ref : String) (x : CtlVal) (ctrl : ℕ) (o : Option ℕ) (c : Client)
      → run (new_steps a ref x ctrl o) c ≡ on_new a ref x ctrl c o
  unfolding run new_steps on_new
  new_steps-new ref x ctrl none c = refl
  new_steps-new ref x ctrl (some v) c = send_steps-send ref x ctrl v _

  value_steps-value :
      (ref : String) (x : CtlVal) (ctrl : ℕ) (o : Option ℕ) (c : Client)
      → run (value_steps a ref x ctrl o) c ≡ with_value a ref x c ctrl o
  unfolding run value_steps with_value
  value_steps-value ref x ctrl none c = new_steps-new ref x ctrl _ _
  value_steps-value ref x ctrl (some v) c = send_steps-send ref x ctrl v c

  type_steps-accept :
      (ref : String) (x : CtlVal) (ctrl : ℕ) (got : MmsType) (c : Client)
      → run (type_steps a ref x ctrl got) c ≡ with_entry a ref x (accept a ref true c ctrl got)
  unfolding run type_steps keep_steps accept with_entry
  type_steps-accept ref x ctrl got c = elim (Bool-cases (is_integer got)) [
    | inl y ↦ rw y (value_steps-value ref x ctrl none _)
    | inr n ↦ rw n refl
  ]

  create_steps-create :
      (ref : String) (require : Bool) (x : CtlVal) (o : Option ℕ) (c : Client)
      → run (create_steps a ref require x o) c ≡ with_entry a ref x (on_create a ref require c o)
  unfolding run create_steps keep_steps on_create accept with_entry
  create_steps-create ref require x none c = refl
  create_steps-create ref true x (some ctrl) c = type_steps-accept ref x ctrl _ c
  create_steps-create ref false x (some ctrl) c = value_steps-value ref x ctrl none _

  lookup_steps-lookup :
      (ref : String) (require : Bool) (x : CtlVal) (o : Option CachedControl) (c : Client)
      → run (lookup_steps a ref require x o) c ≡ with_entry a ref x (on_lookup a ref require c o)
  unfolding run lookup_steps on_lookup with_entry
  lookup_steps-lookup ref require x none c = create_steps-create ref require x _ _
  lookup_steps-lookup ref require x (some e) c = value_steps-value ref x e.ctrl e.ctl_reuse c

  pub steps_of-perform : (call : Call) (c : Client) → run (steps_of a call) c ≡ perform a call c
  unfolding run steps_of perform get_or_create
  steps_of-perform (operate_boolean ref val) c = lookup_steps-lookup ref false (boolean val) _ _
  steps_of-perform (operate_int32 ref val) c = lookup_steps-lookup ref true (int32 val) _ _
  steps_of-perform (operate_float32 ref val) c = lookup_steps-lookup ref false (float32 val) _ _
  steps_of-perform clear c = clear_steps-release (entries c.control_cache) c
