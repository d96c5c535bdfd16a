-- ===== src/Bridge/Flat.antt =====
-- The flat representation of a value: `FlatMmsValue` of iec61850/iec61850_report.go and the
-- markers of iec61850/report_bridge.c, with the memory of the array that malloc returns.
use mathlib.Core.Path.{fun_ext}
use go_libiec.Prelude.{
  ℕ, zero, suc, ◌+◌, ◌≤◌, ◌<◌, String, ◌≡◌, refl, Option, List, [], ◌∷◌, ◌++◌, arith, ◌==◌,
  if◌then◌else◌, length, ap, ◌∙◌,
}

pub record FlatMmsValue : Type 0 where
  pub typ : ℕ
  pub ival : ℕ
  pub dval : ℕ
  pub sval : Option String

abbrev pub flat_struct_start : ℕ
flat_struct_start = 100

abbrev pub flat_struct_end : ℕ
flat_struct_end = 101

abbrev pub flat_array_start : ℕ
flat_array_start = 102

abbrev pub flat_array_end : ℕ
flat_array_end = 103

-- The array of tokens; malloc leaves its contents open.
abbrev pub Memory : Type 0
Memory = ℕ → FlatMmsValue

-- `arr[i] = x`
unfoldable pub store : Memory → ℕ → FlatMmsValue → Memory
store mem i x j = if i == j then x else mem j

pub store_self : (mem : Memory) (i : ℕ) (x : FlatMmsValue) → store mem i x i ≡ x
unfolding store
store_self mem i x = ground arith

pub store-store :
    (mem : Memory) (i : ℕ) (x y : FlatMmsValue) → store (store mem i x) i y ≡ store mem i y
unfolding store
store-store mem i x y = fun_ext λ j. ground arith

-- What one step writes into a token: the type and one other field. The rest stays as it was.
pub data Token : Type 0 where
  bare : ℕ → Token
  ival_token dval_token : ℕ → ℕ → Token
  sval_token : ℕ → Option String → Token

abbrev pub stamp : Token → FlatMmsValue → FlatMmsValue
stamp (bare t) g = record g { typ = t }
stamp (ival_token t n) g = record g { typ = t; ival = n }
stamp (dval_token t n) g = record g { typ = t; dval = n }
stamp (sval_token t s) g = record g { typ = t; sval = s }

-- A run of tokens written from index `i` on.
unfoldable pub write_tokens : Memory → ℕ → List Token → Memory
write_tokens mem i [] = mem
write_tokens mem i (t ∷ ts) = write_tokens (store mem i (stamp t (mem i))) (suc i) ts

-- The tokens as they stand in the array, over what was there.
unfoldable pub stamps : Memory → ℕ → List Token → List FlatMmsValue
stamps mem i [] = []
stamps mem i (t ∷ ts) = stamp t (mem i) ∷ stamps mem (suc i) ts

-- `unsafe.Slice(arr, n)`, from index `i` on.
unfoldable pub slice : Memory → ℕ → ℕ → List FlatMmsValue
slice mem i zero = []
slice mem i (suc n) = mem i ∷ slice mem (suc i) n

pub write_tokens-append :
    (mem : Memory) (i : ℕ) (a b : List Token)
    → write_tokens mem i (a ++ b) ≡ write_tokens (write_tokens mem i a) (i + length a) b
unfolding write_tokens
write_tokens-append mem i [] b = ap (λ k. write_tokens mem k b) (omega arith)
write_tokens-append mem i (t ∷ a) b =
    write_tokens-append (store mem i (stamp t (mem i))) (suc i) a b
    ∙ ap (λ k. write_tokens (write_tokens (store mem i (stamp t (mem i))) (suc i) a) k b)
        (omega arith)

-- What lies before the run, or behind it, is not touched.
pub write_tokens-below :
    (mem : Memory) (i : ℕ) (ts : List Token) (j : ℕ) → j < i → write_tokens mem i ts j ≡ mem j
unfolding write_tokens store
write_tokens-below mem i [] j h = refl
write_tokens-below mem i (t ∷ ts) j h =
    ground (arith, write_tokens-below (store mem i (stamp t (mem i))) (suc i) ts j)

pub write_tokens-above :
    (mem : Memory) (i : ℕ) (ts : List Token) (j : ℕ)
    → i + length ts ≤ j
    → write_tokens mem i ts j ≡ mem j
unfolding write_tokens store
write_tokens-above mem i [] j h = refl
write_tokens-above mem i (t ∷ ts) j h =
    ground (arith, write_tokens-above (store mem i (stamp t (mem i))) (suc i) ts j)

-- The tokens do not depend on what stands below the run.
stamps-store :
    (mem : Memory) (j i : ℕ) (x : FlatMmsValue) (ts : List Token)
    → j < i
    → stamps (store mem j x) i ts ≡ stamps mem i ts
unfolding stamps store
stamps-store mem j i x [] h = refl
stamps-store mem j i x (t ∷ ts) h = ground (arith, stamps-store mem j (suc i) x ts)

-- Reading a run back gives its tokens as they were written over the old contents.
pub slice-write_tokens :
    (mem : Memory) (i : ℕ) (ts : List Token)
    → slice (write_tokens mem i ts) i (length ts) ≡ stamps mem i ts
unfolding slice write_tokens stamps
slice-write_tokens mem i [] = refl
slice-write_tokens mem i (t ∷ ts) = cc (
  write_tokens-below (store mem i (stamp t (mem i))) (suc i) ts i (omega arith),
  store_self mem i (stamp t (mem i)),
  slice-write_tokens (store mem i (stamp t (mem i))) (suc i) ts,
  stamps-store mem i (suc i) (stamp t (mem i)) ts (omega arith),
)

pub stamps-append :
    (mem : Memory) (i : ℕ) (a b : List Token)
    → stamps mem i (a ++ b) ≡ stamps mem i a ++ stamps mem (i + length a) b
unfolding stamps
stamps-append mem i [] b = ap (λ k. stamps mem k b) (omega arith)
stamps-append mem i (t ∷ a) b =
    let shift : suc i + length a ≡ i + suc (length a) = omega arith in
    cc (stamps-append mem (suc i) a b, shift)

pub length-stamps : (mem : Memory) (i : ℕ) (ts : List Token) → length (stamps mem i ts) ≡ length ts
unfolding stamps
length-stamps mem i [] = refl
length-stamps mem i (t ∷ ts) = ap suc (length-stamps mem (suc i) ts)
