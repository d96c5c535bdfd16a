-- ===== src/Client/Explain/Paths.antt =====
-- The paths under which `ExplainDataSetValues` of iec61850/iec61850_client.go stores the elements of a
-- structure.
use Prim.Native.String.{len, ◌++◌ as join}
use text.Mathlib.TextPositions.{len-append}
use go_libiec.Prelude.{
  ℕ, zero, suc, ◌<◌, ◌≤◌, String, ◌≡◌, refl, ap, ◌∙◌, false, Option, none, some, List, Dict, lookup,
  lookup-insert, str_eq, eq_iff, eq_refl, if◌then◌else◌, arith, Bool-cases, inl, inr, some_eq,
}
use go_libiec.Values.{GoValue, MmsSlice, no_mms, mms}
use go_libiec.Scl.Types.{Da}
use go_libiec.Schema.{leaf_path, value_at}
use go_libiec.Client.Explain.{sub_name, explained, store_at, explain_subs}

-- The path of the element `k` behind the element `i`: the names of all elements from `i` to it, one
-- after the other.
abbrev pub trail : List Da → String → ℕ → ℕ → String
trail das base i zero = leaf_path base (sub_name das i)
trail das base i (suc k) = trail das (leaf_path base (sub_name das i)) (suc i) k

len-leaf_path : (base name : String) → len base < len (leaf_path base name)
len-leaf_path base name =
    omega (arith, len-append base (join "." (join name "")), len-append "." (join name ""), dot)
  where
    dot : len "." ≡ 1
    dot = refl

longer : (a b : String) → len a < len b → str_eq b a ≡ false
longer a b lt = elim (Bool-cases (str_eq b a)) [
  | inl same ↦ absurd (omega (arith, lt, ap len ((eq_iff b a).0 same)))
  | inr other ↦ other
]

lookup-store_at :
    (path p : String) (o : Option GoValue) (out : Dict GoValue)
    → str_eq path p ≡ false
    → lookup p (store_at path o out) ≡ lookup p out
lookup-store_at path p none out h = refl
lookup-store_at path p (some v) out h =
    lookup-insert path p v out ∙ ap (λ b. if b then some v else lookup p out) h

-- What is not longer than the builder stays.
explain_subs-shorter :
    (das : List Da) (builder p : String) (i : ℕ) (s : MmsSlice) (out : Dict GoValue)
    → len p ≤ len builder
    → lookup p (explain_subs das builder i s out) ≡ lookup p out
unfolding explain_subs
explain_subs-shorter das builder p i no_mms out le = refl
explain_subs-shorter das builder p i (mms t v s) out le =
    let lt = len-leaf_path builder (sub_name das i) in
    explain_subs-shorter das (leaf_path builder (sub_name das i)) p (suc i) s _
      (omega (arith, le, lt))
    ∙ lookup-store_at (leaf_path builder (sub_name das i)) p (explained v) out
        (longer p (leaf_path builder (sub_name das i)) (omega (arith, le, lt)))

-- The element `k` of a structure is stored under the base followed by the names of all elements up to
-- and with it; the element is there and is a value or a slice of one element.
pub explain_subs-trail :
    (das : List Da) (base : String) (i k : ℕ) (s : MmsSlice) (out : Dict GoValue) (v x : GoValue)
    → value_at s k ≡ some v
    → explained v ≡ some x
    → lookup (trail das base i k) (explain_subs das base i s out) ≡ some x
unfolding explain_subs
explain_subs-trail das base i k no_mms out v x there stored = cc
explain_subs-trail das base i zero (mms t w s) out v x there stored =
    explain_subs-shorter das (leaf_path base (sub_name das i)) _ (suc i) s _ (omega arith)
    ∙ (ap
          (λ o.
            lookup (leaf_path base (sub_name das i))
              (store_at (leaf_path base (sub_name das i)) o out))
          (ap explained (some_eq there) ∙ stored)
        ∙ (lookup-insert (leaf_path base (sub_name das i)) (leaf_path base (sub_name das i)) x out
            ∙ ap (λ b. if b then some x else lookup (leaf_path base (sub_name das i)) out)
                (eq_refl (leaf_path base (sub_name das i)))))
explain_subs-trail das base i (suc k) (mms t w s) out v x there stored =
    explain_subs-trail das (leaf_path base (sub_name das i)) (suc i) k s _ v x there stored
