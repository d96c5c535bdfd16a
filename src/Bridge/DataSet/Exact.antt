-- ===== src/Bridge/DataSet/Exact.antt =====
-- What the flat array of a report holds.
use mathlib.Core.Path.{subst}
use go_libiec.Prelude.{
  ℕ, zero, suc, ◌+◌, ◌^◌, ◌≤◌, ◌<◌, ◌≡◌, refl, sym, ap, ◌∙◌, Option, none, some, length, List, [],
  ◌∷◌, ◌++◌, arith, ◌==◌, if◌then◌else◌, false,
}
use go_libiec.Mms.Value.{
  MmsValue, Components, array, no_components, null_component, component, nth, components_size,
  height, height_components, height_array_le,
}
use go_libiec.Mms.Api.{MmsApi, MmsLaws}
use go_libiec.Bridge.Flat.{Memory, Token, write_tokens}
use go_libiec.Bridge.Count.Exact.{count_mms_elements-eq}
use go_libiec.Bridge.Tokens.{tokens, tokens_components, length-append_tokens}
use go_libiec.Bridge.Flatten.{Cursor}
use go_libiec.Bridge.Flatten.Exact.{
  put, put-append, put-nil, put_start, index-put, flatten_mms_value-eq,
}
use go_libiec.Bridge.DataSet.{
  FlatArray, no_array, count_elements, flatten_elements, loop_fuel, fill, flatten_report_data_set,
}

-- The elements up to the first NULL.
abbrev pub leading : Components → Components
leading no_components = no_components
leading (null_component cs) = no_components
leading (component v cs) = component v (leading cs)

pub suc-eq-zero : (n : ℕ) → (suc n == 0) ≡ false
suc-eq-zero n = ground arith

-- The outcome that is asked for: NULL for no tokens or where malloc fails, else the tokens.
abbrev pub Flattened : List Token → Option Memory → FlatArray
Flattened [] o = no_array
Flattened (t ∷ ts) none = no_array
Flattened (t ∷ ts) (some mem) = record {
  arr = some (write_tokens mem 0 (t ∷ ts));
  out_count = length (t ∷ ts);
}

module _ (m : MmsApi) where
  -- The tokens of the elements up to the first NULL.
  abbrev pub data_set_tokens : Components → List Token
  data_set_tokens cs = tokens_components m (leading cs)

  pub tokens_cons :
      (v : MmsValue) (cs : Components)
      → data_set_tokens (component v cs) ≡ tokens m v ++ data_set_tokens cs
  unfolding tokens
  tokens_cons v cs = refl

  pub data_set_tokens-nil : data_set_tokens no_components ≡ []
  unfolding tokens
  data_set_tokens-nil = refl

  pub data_set_tokens-null : (cs : Components) → data_set_tokens (null_component cs) ≡ []
  unfolding tokens
  data_set_tokens-null cs = refl

  pub length-tokens_cons :
      (v : MmsValue) (cs : Components)
      → length (data_set_tokens (component v cs))
        ≡ length (tokens m v) + length (data_set_tokens cs)
  length-tokens_cons v cs =
      ap length (tokens_cons v cs) ∙ length-append_tokens (tokens m v) (data_set_tokens cs)

module _ (m : MmsApi) (laws : MmsLaws m) where
  count_elements-eq :
      (d fuel : ℕ) (values : MmsValue) (cs : Components) (i count : ℕ)
      → ((k j : ℕ) → j ≡ i + k → m.get_element values j ≡ nth cs k)
      → height_components cs ≤ d
      → components_size cs < fuel
      → count + length (data_set_tokens m cs) < 2 ^ 31
      → count_elements m d fuel values i count ≡ count + length (data_set_tokens m cs)
  unfolding count_elements height
  count_elements-eq d zero values cs i count r h e b = absurd (omega arith)
  count_elements-eq d (suc fuel) values no_components i count r h e b =
      rw (r 0 i (omega arith), count_elements) (omega (arith, ap length (data_set_tokens-nil m)))
  count_elements-eq d (suc fuel) values (null_component cs) i count r h e b =
      rw (r 0 i (omega arith), count_elements)
        (omega (arith, ap length (data_set_tokens-null m cs)))
  count_elements-eq d (suc fuel) values (component v cs) i count r h e b =
      let split = length-tokens_cons m v cs in
      let here = count_mms_elements-eq m laws d v (omega arith) (omega arith) in
      rw (r 0 i (omega arith), count_elements)
        (ap (count_elements m d fuel values (suc i)) (omega (arith, here))
          ∙ count_elements-eq d fuel values cs (suc i) (count + length (tokens m v))
              (λ k j p. r (suc k) j (omega arith)) (omega arith) (omega arith) (omega arith)
          ∙ omega arith)

  flatten_elements-eq :
      (d fuel l : ℕ) (values : MmsValue) (cs : Components) (i : ℕ) (c : Cursor)
      → ((k j : ℕ) → j ≡ i + k → m.get_element values j ≡ nth cs k)
      → height_components cs ≤ d
      → components_size cs < fuel
      → c.index + length (data_set_tokens m cs) ≤ l
      → flatten_elements m d fuel l values i c ≡ put (data_set_tokens m cs) c
  unfolding flatten_elements height
  flatten_elements-eq d zero l values cs i c r h e b = absurd (omega arith)
  flatten_elements-eq d (suc fuel) l values no_components i c r h e b =
      rw (r 0 i (omega arith), flatten_elements)
        (sym (put-nil c) ∙ ap (λ ts. put ts c) (sym (data_set_tokens-nil m)))
  flatten_elements-eq d (suc fuel) l values (null_component cs) i c r h e b =
      rw (r 0 i (omega arith), flatten_elements)
        (sym (put-nil c) ∙ ap (λ ts. put ts c) (sym (data_set_tokens-null m cs)))
  flatten_elements-eq d (suc fuel) l values (component v cs) i c r h e b =
      let split = length-tokens_cons m v cs in
      let here = flatten_mms_value-eq m laws d l v c (omega arith) (omega arith) in
      rw (r 0 i (omega arith), flatten_elements)
        (ap (flatten_elements m d fuel l values (suc i)) here
          ∙ flatten_elements-eq d fuel l values cs (suc i) (put (tokens m v) c)
              (λ k j p. r (suc k) j (omega arith)) (omega arith) (omega arith)
              (omega (arith, index-put (tokens m v) c))
          ∙ sym (put-append (tokens m v) (data_set_tokens m cs) c)
          ∙ ap (λ ts. put ts c) (sym (tokens_cons m v cs)))

  count_data_set :
      (cs : Components)
      → length (data_set_tokens m cs) < 2 ^ 31
      → count_elements m (height (array cs)) (loop_fuel m (array cs)) (array cs) 0 0
        ≡ length (data_set_tokens m cs)
  count_data_set cs b =
      count_elements-eq (height (array cs)) (loop_fuel m (array cs)) (array cs) cs 0 0
        (λ k j e. laws.array_element cs j ∙ ap (nth cs) (omega arith)) (height_array_le cs)
        (omega (arith, laws.array_size cs)) (omega arith)
      ∙ omega arith

  fill-eq :
      (cs : Components) (mem : Memory)
      → fill m (array cs) (length (data_set_tokens m cs)) (some mem) ≡ record {
        arr = some (write_tokens mem 0 (data_set_tokens m cs));
        out_count = length (data_set_tokens m cs);
      }
  unfolding fill
  fill-eq cs mem = ap returned (
      flatten_elements-eq (height (array cs)) (loop_fuel m (array cs))
        (length (data_set_tokens m cs)) (array cs) cs 0 (record { mem = mem; index = 0 })
        (λ k j e. laws.array_element cs j ∙ ap (nth cs) (omega arith)) (height_array_le cs)
        (omega (arith, laws.array_size cs)) (omega arith)
      ∙ put_start (data_set_tokens m cs) mem)
    where
      returned : Cursor → FlatArray
      returned c = record { arr = some c.mem; out_count = c.index }

  filled :
      (cs : Components) (ts : List Token) (o : Option Memory)
      → ts ≡ data_set_tokens m cs
      → (if length ts == 0 then no_array else fill m (array cs) (length ts) o) ≡ Flattened ts o
  unfolding fill
  filled cs [] o e = refl
  filled cs (t ∷ ts) none e = rw (suc-eq-zero (length ts))
  filled cs (t ∷ ts) (some mem) e = rw (suc-eq-zero (length ts)) (
      subst (λ us. fill m (array cs) (length us) (some mem) ≡ written us) (sym e)
        (unfold fill in fill-eq cs mem))
    where
      written : List Token → FlatArray
      written us = record { arr = some (write_tokens mem 0 us); out_count = length us }

  -- Of an array of values the function writes the tokens of the elements before the first NULL, one
  -- after the other from the index 0 on, into an array of just their number, which it returns with
  -- that number; without tokens, or where malloc fails, it returns NULL and 0. The tokens must be
  -- fewer than 2^31.
  pub flatten_report_data_set-eq :
      (malloc : ℕ → Option Memory) (cs : Components)
      → length (data_set_tokens m cs) < 2 ^ 31
      → flatten_report_data_set m malloc (some (array cs))
        ≡ Flattened (data_set_tokens m cs) (malloc (length (data_set_tokens m cs)))
  unfolding flatten_report_data_set
  flatten_report_data_set-eq malloc cs b =
      ap (λ n. if n == 0 then no_array else fill m (array cs) n (malloc n)) (count_data_set cs b)
      ∙ filled cs (data_set_tokens m cs) (malloc (length (data_set_tokens m cs))) refl
