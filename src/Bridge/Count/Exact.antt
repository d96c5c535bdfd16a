-- ===== src/Bridge/Count/Exact.antt =====
-- `count_mms_elements` is exact.
use go_libiec.Prelude.{
  ℕ, zero, suc, ◌+◌, ◌^◌, ◌≤◌, ◌<◌, ◌≡◌, refl, sym, ap, ◌∙◌, Option, true, false, none, some,
  length, arith,
}
use go_libiec.Mms.Value.{
  MmsValue, Components, array, structure, no_components, null_component, component, nth,
  components_size, height, height_components, height_pos, height_array, height_structure, type_of,
}
use go_libiec.Mms.Api.{MmsApi, MmsLaws}
use go_libiec.Bridge.Count.{count_loop, count_mms_elements, add_int, is_composite}
use go_libiec.Bridge.Tokens.{
  tokens, tokens_components, length-append_tokens, length-tokens_array, length-tokens_structure,
  length-tokens_leaf,
}

module _ (m : MmsApi) (laws : MmsLaws m) where
  -- `rec` counts values up to a height.
  record Counts (f : ℕ) (rec : Option MmsValue → ℕ) : Type 0 where
    null : rec none ≡ 0
    value :
        (w : MmsValue)
        → height w ≤ f
        → length (tokens m w) < 2 ^ 31
        → rec (some w) ≡ length (tokens m w)

  add_int-eq : (a b : ℕ) → a + b < 2 ^ 31 → add_int a b ≡ a + b
  add_int-eq a b h = omega arith

  count_loop-eq :
      (f : ℕ) (rec : Option MmsValue → ℕ) (v : MmsValue) (cs : Components) (i count : ℕ)
      → Counts f rec
      → ((k j : ℕ) → j ≡ i + k → m.get_element v j ≡ nth cs k)
      → height_components cs ≤ f
      → count + length (tokens_components m cs) < 2 ^ 31
      → count_loop m rec v (components_size cs) i count ≡ count + length (tokens_components m cs)
  unfolding count_loop tokens height
  count_loop-eq f rec v no_components i count c r h b = omega arith
  count_loop-eq f rec v (null_component cs) i count c r h b =
      let here : rec (m.get_element v i) ≡ 0 = rw (r 0 i (omega arith)) c.null in
      ap (count_loop m rec v (components_size cs) (suc i)) (omega (arith, here))
      ∙ count_loop-eq f rec v cs (suc i) count c (λ k j e. r (suc k) j (omega arith)) h b
  count_loop-eq f rec v (component w cs) i count c r h b =
      let split = length-append_tokens (tokens m w) (tokens_components m cs) in
      let here : rec (m.get_element v i) ≡ length (tokens m w) =
        rw (r 0 i (omega arith)) (c.value w (omega arith) (omega arith)) in
      ap (count_loop m rec v (components_size cs) (suc i)) (omega (arith, here))
      ∙ count_loop-eq f rec v cs (suc i) (count + length (tokens m w)) c
          (λ k j e. r (suc k) j (omega arith)) (omega arith) (omega arith)
      ∙ omega arith

  count-composite :
      (f : ℕ) (v : MmsValue)
      → is_composite (type_of v) ≡ true
      → count_mms_elements m (suc f) (some v)
        ≡ count_loop m (count_mms_elements m f) v (m.get_array_size v) 0 2
  unfolding count_mms_elements
  count-composite f v h = rw (laws.type_law v, h)

  count-leaf :
      (f : ℕ) (v : MmsValue)
      → is_composite (type_of v) ≡ false
      → count_mms_elements m (suc f) (some v) ≡ 1
  unfolding count_mms_elements
  count-leaf f v h = rw (laws.type_law v, h)

  -- One level: with the recursive call exact up to `f`, the function is exact up to `suc f`.
  count_step :
      (f : ℕ) (v : MmsValue)
      → Counts f (count_mms_elements m f)
      → height v ≤ suc f
      → length (tokens m v) < 2 ^ 31
      → count_mms_elements m (suc f) (some v) ≡ length (tokens m v)
  count_step f (array cs) c h b =
      let size = length-tokens_array m cs in
      count-composite f (array cs) refl
      ∙ ap (λ n. count_loop m (count_mms_elements m f) (array cs) n 0 2) (laws.array_size cs)
      ∙ count_loop-eq f (count_mms_elements m f) (array cs) cs 0 2 c
          (λ k j e. laws.array_element cs j ∙ ap (nth cs) (omega arith)) (height_array cs f h)
          (omega (arith, size))
      ∙ omega (arith, size)
  count_step f (structure cs) c h b =
      let size = length-tokens_structure m cs in
      count-composite f (structure cs) refl
      ∙ ap (λ n. count_loop m (count_mms_elements m f) (structure cs) n 0 2)
          (laws.structure_size cs)
      ∙ count_loop-eq f (count_mms_elements m f) (structure cs) cs 0 2 c
          (λ k j e. laws.structure_element cs j ∙ ap (nth cs) (omega arith))
          (height_structure cs f h) (omega (arith, size))
      ∙ omega (arith, size)
  count_step f v c h b = count-leaf f v refl ∙ sym (length-tokens_leaf m v refl)

  count_mms_elements-Counts : (f : ℕ) → Counts f (count_mms_elements m f)
  unfolding count_mms_elements
  count_mms_elements-Counts zero = record {
    null = refl;
    value = λ w h b. absurd (omega (arith, height_pos w));
  }
  count_mms_elements-Counts (suc f) = record {
    null = refl;
    value = λ w h b. count_step f w (count_mms_elements-Counts f) h b;
  }

  -- With a depth of at least the value's height, the walk counts the tokens of the value, where these
  -- are fewer than 2^31 and the accessors do what is documented.
  pub count_mms_elements-eq :
      (f : ℕ) (v : MmsValue)
      → height v ≤ f
      → length (tokens m v) < 2 ^ 31
      → count_mms_elements m f (some v) ≡ length (tokens m v)
  count_mms_elements-eq f v h b = (count_mms_elements-Counts f).value v h b
