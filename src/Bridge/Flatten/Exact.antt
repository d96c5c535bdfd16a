-- ===== src/Bridge/Flatten/Exact.antt =====
-- `flatten_mms_value` writes the tokens of the value, at the index, and nothing else.
use go_libiec.Prelude.{
  ℕ, zero, suc, ◌+◌, ◌≤◌, ◌<◌, ◌≡◌, refl, sym, ap, ◌∙◌, Option, false, none, some, length, List, [],
  ◌∷◌, ◌++◌, String, arith, ltb, lt→ltb, leb-false, if◌then◌else◌,
}
use go_libiec.Mms.Types.{MmsType, type_code, mms_array, mms_structure}
use go_libiec.Mms.Value.{
  MmsValue, Components, array, structure, no_components, null_component, component, nth, boolean,
  bit_string, integer, unsigned, floating_point, octet_string, visible_string, text_string,
  utc_time, components_size, height, height_components, height_pos, height_array, height_structure,
  type_of,
}
use go_libiec.Mms.Api.{MmsApi, MmsLaws}
use go_libiec.Bridge.Count.{is_composite}
use go_libiec.Bridge.Flat.{
  Memory, Token, bare, ival_token, dval_token, sval_token, store_self, store-store, write_tokens,
  write_tokens-append, flat_array_start, flat_struct_start,
}
use go_libiec.Bridge.Tokens.{
  tokens, tokens_components, leaf_token, length-append_tokens, length-tokens_array,
  length-tokens_structure, tokens_pos, tokens-leaf,
}
use go_libiec.Bridge.Flatten.{
  Cursor, set_typ, set_ival, set_dval, set_sval, advance, start_marker, end_marker, flatten_loop,
  flatten_composite, flatten_typed, flatten_mms_value,
}

-- The cursor after a run of tokens.
pub put : List Token → Cursor → Cursor
put ts c = record { mem = write_tokens c.mem c.index ts; index = c.index + length ts }

pub put-append : (a b : List Token) (c : Cursor) → put (a ++ b) c ≡ put b (put a c)
unfolding put
put-append a b c = cc (write_tokens-append c.mem c.index a b, length-append_tokens a b, shift)
  where
    shift : c.index + (length a + length b) ≡ c.index + length a + length b
    shift = omega arith

pub put-nil : (c : Cursor) → put [] c ≡ c
unfolding put write_tokens
put-nil c = ground arith

pub put_start :
    (ts : List Token) (mem : Memory)
    → put ts (record { mem = mem; index = 0 })
      ≡ record { mem = write_tokens mem 0 ts; index = length ts }
unfolding put
put_start ts mem = ground arith

put_bare : (t : ℕ) (c : Cursor) → advance (set_typ t c) ≡ put (bare t ∷ []) c
unfolding put write_tokens
put_bare t c = refl

put_ival : (t n : ℕ) (c : Cursor) → advance (set_ival n (set_typ t c)) ≡ put (ival_token t n ∷ []) c
unfolding put write_tokens
put_ival t n c = simp (store_self, store-store)

put_dval : (t n : ℕ) (c : Cursor) → advance (set_dval n (set_typ t c)) ≡ put (dval_token t n ∷ []) c
unfolding put write_tokens
put_dval t n c = simp (store_self, store-store)

put_sval :
    (t : ℕ) (s : Option String) (c : Cursor)
    → advance (set_sval s (set_typ t c)) ≡ put (sval_token t s ∷ []) c
unfolding put write_tokens
put_sval t s c = simp (store_self, store-store)

put_marker : (t s : ℕ) (c : Cursor) → advance (set_typ s (set_typ t c)) ≡ put (bare s ∷ []) c
unfolding put write_tokens
put_marker t s c = simp (store_self, store-store)

pub index-put : (ts : List Token) (c : Cursor) → (put ts c).index ≡ c.index + length ts
unfolding put
index-put ts c = refl

module _ (m : MmsApi) (laws : MmsLaws m) where
  -- `rec` writes the tokens of values up to a height, where there is room for them.
  record Writes (f max_len : ℕ) (rec : Option MmsValue → Cursor → Cursor) : Type 0 where
    null : (c : Cursor) → rec none c ≡ c
    value :
        (w : MmsValue) (c : Cursor)
        → height w ≤ f
        → c.index + length (tokens m w) ≤ max_len
        → rec (some w) c ≡ put (tokens m w) c

  flatten_loop-eq :
      (f max_len : ℕ) (rec : Option MmsValue → Cursor → Cursor) (v : MmsValue) (cs : Components)
      (i : ℕ) (c : Cursor)
      → Writes f max_len rec
      → ((k j : ℕ) → j ≡ i + k → m.get_element v j ≡ nth cs k)
      → height_components cs ≤ f
      → c.index + length (tokens_components m cs) ≤ max_len
      → flatten_loop m rec v (components_size cs) i c ≡ put (tokens_components m cs) c
  unfolding flatten_loop tokens height
  flatten_loop-eq f l rec v no_components i c w r h b = sym (put-nil c)
  flatten_loop-eq f l rec v (null_component cs) i c w r h b =
      let here : rec (m.get_element v i) c ≡ c = rw (r 0 i (omega arith)) (w.null c) in
      ap (flatten_loop m rec v (components_size cs) (suc i)) here
      ∙ flatten_loop-eq f l rec v cs (suc i) c w (λ k j e. r (suc k) j (omega arith)) h b
  flatten_loop-eq f l rec v (component x cs) i c w r h b =
      let split = length-append_tokens (tokens m x) (tokens_components m cs) in
      let here : rec (m.get_element v i) c ≡ put (tokens m x) c =
        rw (r 0 i (omega arith)) (w.value x c (omega arith) (omega arith)) in
      ap (flatten_loop m rec v (components_size cs) (suc i)) here
      ∙ flatten_loop-eq f l rec v cs (suc i) (put (tokens m x) c) w
          (λ k j e. r (suc k) j (omega arith)) (omega arith)
          (omega (arith, index-put (tokens m x) c))
      ∙ sym (put-append (tokens m x) (tokens_components m cs) c)

  flatten_leaf :
      (rec : Option MmsValue → Cursor → Cursor) (l : ℕ) (v : MmsValue) (c : Cursor)
      → is_composite (type_of v) ≡ false
      → flatten_typed m rec (type_of v) v l (set_typ (type_code (type_of v)) c)
        ≡ put (leaf_token m v ∷ []) c
  unfolding flatten_typed
  flatten_leaf rec l (array cs) c h = cc
  flatten_leaf rec l (structure cs) c h = cc
  flatten_leaf rec l (boolean b) c h = put_ival 2 _ c
  flatten_leaf rec l (bit_string n b) c h = put_ival 3 _ c
  flatten_leaf rec l (integer p) c h = put_ival 4 _ c
  flatten_leaf rec l (unsigned p) c h = put_ival 5 _ c
  flatten_leaf rec l (floating_point e w b) c h = put_dval 6 _ c
  flatten_leaf rec l (octet_string n k b) c h = put_sval 7 _ c
  flatten_leaf rec l (visible_string s n) c h = put_sval 8 _ c
  flatten_leaf rec l (text_string s n) c h = put_sval 13 _ c
  flatten_leaf rec l (utc_time b) c h = put_ival 14 _ c
  flatten_leaf rec l v c h = put_bare (type_code (type_of v)) c

  -- The markers round the elements, given what the loop does.
  flatten_composite-eq :
      (rec : Option MmsValue → Cursor → Cursor) (l : ℕ) (t : MmsType) (v : MmsValue)
      (ts : List Token) (c : Cursor)
      → flatten_loop m rec v (m.get_array_size v) 0 (put (bare (start_marker t) ∷ []) c)
        ≡ put ts (put (bare (start_marker t) ∷ []) c)
      → c.index + (2 + length ts) ≤ l
      → flatten_composite m rec t v l (set_typ (type_code t) c)
        ≡ put (bare (start_marker t) ∷ (ts ++ bare (end_marker t) ∷ [])) c
  unfolding flatten_composite
  flatten_composite-eq rec l t v ts c e h =
      ap (λ c₀. finish (flatten_loop m rec v (m.get_array_size v) 0 c₀))
        (put_marker (type_code t) (start_marker t) c)
      ∙ ap finish e
      ∙ room
      ∙ put_bare (end_marker t) done
      ∙ sym (put-append ts (bare (end_marker t) ∷ []) opened)
      ∙ sym (put-append (bare (start_marker t) ∷ []) (ts ++ bare (end_marker t) ∷ []) c)
    where
      opened : Cursor
      opened = put (bare (start_marker t) ∷ []) c

      done : Cursor
      done = put ts opened

      finish : Cursor → Cursor
      finish c' = if ltb c'.index l then advance (set_typ (end_marker t) c') else c'

      fits : done.index < l
      fits = omega (arith, index-put ts opened, index-put (bare (start_marker t) ∷ []) c)

      room : finish done ≡ advance (set_typ (end_marker t) done)
      room = rw (lt→ltb _ _ fits)

  flatten_room :
      (f l : ℕ) (v : MmsValue) (c : Cursor)
      → c.index < l
      → flatten_mms_value m (suc f) l (some v) c
        ≡ flatten_typed m
            (flatten_mms_value m f l)
            (type_of v)
            v
            l
            (set_typ (type_code (type_of v)) c)
  unfolding flatten_mms_value
  flatten_room f l v c h = rw (leb-false _ _ h, laws.type_law v)

  -- One level: with the recursive call right up to `f`, the function is right up to `suc f`.
  flatten_step :
      (f l : ℕ) (v : MmsValue) (c : Cursor)
      → Writes f l (flatten_mms_value m f l)
      → height v ≤ suc f
      → c.index + length (tokens m v) ≤ l
      → flatten_mms_value m (suc f) l (some v) c ≡ put (tokens m v) c
  unfolding flatten_typed tokens
  flatten_step f l (array cs) c w h b =
      let size = length-tokens_array m cs in
      let opened = put (bare flat_array_start ∷ []) c in
      let loop =
        flatten_loop-eq f l (flatten_mms_value m f l) (array cs) cs 0 opened w
          (λ k j e. laws.array_element cs j ∙ ap (nth cs) (omega arith)) (height_array cs f h)
          (omega (arith, size, index-put (bare flat_array_start ∷ []) c)) in
      flatten_room f l (array cs) c (omega (arith, size))
      ∙ flatten_composite-eq (flatten_mms_value m f l) l mms_array (array cs)
          (tokens_components m cs) c
          (ap (λ n. flatten_loop m (flatten_mms_value m f l) (array cs) n 0 opened)
              (laws.array_size cs)
            ∙ loop)
          (omega (arith, size))
  flatten_step f l (structure cs) c w h b =
      let size = length-tokens_structure m cs in
      let opened = put (bare flat_struct_start ∷ []) c in
      let loop =
        flatten_loop-eq f l (flatten_mms_value m f l) (structure cs) cs 0 opened w
          (λ k j e. laws.structure_element cs j ∙ ap (nth cs) (omega arith))
          (height_structure cs f h)
          (omega (arith, size, index-put (bare flat_struct_start ∷ []) c)) in
      flatten_room f l (structure cs) c (omega (arith, size))
      ∙ flatten_composite-eq (flatten_mms_value m f l) l mms_structure (structure cs)
          (tokens_components m cs) c
          (ap (λ n. flatten_loop m (flatten_mms_value m f l) (structure cs) n 0 opened)
              (laws.structure_size cs)
            ∙ loop)
          (omega (arith, size))
  flatten_step f l v c w h b =
      flatten_room f l v c (omega (arith, tokens_pos m v))
      ∙ flatten_leaf (flatten_mms_value m f l) l v c refl
      ∙ ap (λ ts. put ts c) (sym (tokens-leaf m v refl))

  flatten_mms_value-Writes : (f l : ℕ) → Writes f l (flatten_mms_value m f l)
  unfolding flatten_mms_value
  flatten_mms_value-Writes zero l = record {
    null = λ c. refl;
    value = λ w c h b. absurd (omega (arith, height_pos w));
  }
  flatten_mms_value-Writes (suc f) l = record {
    null = λ c. refl;
    value = λ w c h b. flatten_step f l w c (flatten_mms_value-Writes f l) h b;
  }

  -- With a depth of at least the value's height and room for its tokens, the walk writes the tokens
  -- of the value from the index on, changes nothing else, and moves the index behind them. The
  -- accessors do what is documented.
  pub flatten_mms_value-eq :
      (f l : ℕ) (v : MmsValue) (c : Cursor)
      → height v ≤ f
      → c.index + length (tokens m v) ≤ l
      → flatten_mms_value m f l (some v) c ≡ put (tokens m v) c
  flatten_mms_value-eq f l v c h b = (flatten_mms_value-Writes f l).value v c h b
