-- ===== src/Control/IntegerCheck.antt =====
-- The type check of `DirectWithNormalSecurityInt32` in iec61850/iec61850_control.go.
use go_libiec.Prelude.{ℕ, String, false, Option, none, some, List, ◌∷◌, lookup, ◌≡◌, refl}
use go_libiec.Mms.Types.{MmsType}
use go_libiec.Control.{
  CtlVal, Event, create, destroy, ControlApi, CachedControl, Client, entries, wrong_type,
  is_integer, accept, on_create, on_lookup, get_or_create, send, on_new, with_value, with_entry,
  direct_with_normal_security_int32, int32,
}

module _ (a : ControlApi) where
  -- Of a control object that is not in the cache and whose control value is not an `MMS_INTEGER`, the
  -- integer operate reports the type and sends nothing: it releases the object and keeps the
  -- entries as they are.
  pub direct_with_normal_security_int32-refuses :
      (ref : String) (val n : ℕ) (c : Client)
      → lookup ref (entries c.control_cache) ≡ none
      → a.created c.log ref ≡ some n
      → is_integer (a.get_ctl_val_type (create ref (some n) ∷ c.log) n) ≡ false
      → direct_with_normal_security_int32 a ref val c ≡ (
        some (wrong_type ref (a.get_ctl_val_type (create ref (some n) ∷ c.log) n)),
        record {
          control_cache = some (entries c.control_cache);
          log = destroy n ∷ create ref (some n) ∷ c.log;
        },
      )
  unfolding direct_with_normal_security_int32 get_or_create on_lookup on_create accept with_entry
      with_value send
  direct_with_normal_security_int32-refuses ref val n c fresh new other =
      rw (fresh, new, other) refl

  on_new-types :
      (ref : String) (x : CtlVal) (types : List Event → ℕ → MmsType) (ctrl : ℕ) (c : Client)
      (answer : Option ℕ)
      → on_new a ref x ctrl c answer
        ≡ on_new (record a { get_ctl_val_type = types }) ref x ctrl c answer
  unfolding on_new send
  on_new-types ref x types ctrl c none = refl
  on_new-types ref x types ctrl c (some v) = refl

  with_value-types :
      (ref : String) (x : CtlVal) (types : List Event → ℕ → MmsType) (c : Client) (ctrl : ℕ)
      (o : Option ℕ)
      → with_value a ref x c ctrl o
        ≡ with_value (record a { get_ctl_val_type = types }) ref x c ctrl o
  unfolding with_value send
  with_value-types ref x types c ctrl (some v) = refl
  with_value-types ref x types c ctrl none = on_new-types ref x types ctrl _ _

  -- With an entry in the cache the integer operate does not look at the type of the control value:
  -- whatever types the library would report, it makes the same calls and has the same result.
  pub direct_with_normal_security_int32-cached :
      (ref : String) (val : ℕ) (c : Client) (e : CachedControl) (types : List Event → ℕ → MmsType)
      → lookup ref (entries c.control_cache) ≡ some e
      → direct_with_normal_security_int32 a ref val c
        ≡ direct_with_normal_security_int32 (record a { get_ctl_val_type = types }) ref val c
  unfolding direct_with_normal_security_int32 get_or_create on_lookup with_entry
  direct_with_normal_security_int32-cached ref val c e types known = rw known (
      with_value-types ref (int32 val) types
        (record c { control_cache = some (entries c.control_cache) }) e.ctrl e.ctl_reuse)
