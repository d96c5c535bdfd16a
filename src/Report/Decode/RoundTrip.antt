-- ===== src/Report/Decode/RoundTrip.antt =====
-- Decoding what the bridge wrote gives the Go value of the MMS value, whatever the array held.
use go_libiec.Prelude.{
  ℕ, zero, suc, ◌+◌, ◌*◌, ◌<◌, ◌≡◌, refl, ap, ◌∙◌, Bool, true, false, not, some, List, [], ◌∷◌,
  ◌++◌, append_assoc, length, arith, ◌>>=◌,
}
use go_libiec.Mms.Value.{
  MmsValue, Components, array, structure, boolean, bit_string, utc_time, no_components,
  null_component, component, type_of,
}
use go_libiec.Mms.Api.{MmsApi, MmsLaws}
use go_libiec.Bridge.Count.{is_composite}
use go_libiec.Bridge.Flat.{
  FlatMmsValue, Memory, Token, bare, stamp, stamps, stamps-append, flat_array_end, flat_struct_end,
}
use go_libiec.Bridge.Tokens.{
  tokens, tokens_components, tokens-leaf, length-append_tokens, length-tokens_array,
  length-tokens_structure, tokens_pos, leaf_token,
}
use go_libiec.Values.{GoValue, any}
use go_libiec.Report.Decode.{extract_flat_value, extract_subs, is_start, is_end, leaf_value}
use go_libiec.Report.Decode.View.{report_view, components_view}

-- The slice does not begin with an end marker.
abbrev pub starts_value : List FlatMmsValue → Bool
starts_value [] = false
starts_value (x ∷ xs) = not (is_end x.typ)

extract_subs_step :
    (f : ℕ) (xs : List FlatMmsValue)
    → starts_value xs ≡ true
    → extract_subs (suc f) xs
      ≡ (extract_flat_value f xs >>= λ p. extract_subs f p.1 >>= λ q. some (any p.0 q.0, q.1))
unfolding extract_subs
extract_subs_step f [] h = cc
extract_subs_step f (x ∷ xs) h = ground arith

module _ (m : MmsApi) where
  pub starts_value-tokens :
      (v : MmsValue) (mem : Memory) (i : ℕ) (rest : List FlatMmsValue)
      → starts_value (stamps mem i (tokens m v) ++ rest) ≡ true
  unfolding tokens stamps
  starts_value-tokens (array cs) mem i rest = refl
  starts_value-tokens _ mem i rest = refl

module _ (m : MmsApi) (laws : MmsLaws m) where
  leaf_value-stamp :
      (v : MmsValue) (g : FlatMmsValue)
      → is_composite (type_of v) ≡ false
      → (leaf_value (stamp (leaf_token m v) g) ≡ report_view m v)
        × (is_start (stamp (leaf_token m v) g).typ ≡ false)
  unfolding leaf_value report_view
  leaf_value-stamp (array cs) g h = cc
  leaf_value-stamp (structure cs) g h = cc
  leaf_value-stamp (boolean b) g h = (ground arith, refl)
  leaf_value-stamp (bit_string n b) g h =
      (ap GoValue.uint32 (omega (arith, laws.bits_range (bit_string n b))), refl)
  leaf_value-stamp (utc_time b) g h =
      (ap GoValue.uint32 (omega (arith, laws.unix_range (utc_time b))), refl)
  leaf_value-stamp _ g h = (refl, refl)

  length-component :
      (v : MmsValue) (cs : Components)
      → length (tokens_components m (component v cs))
        ≡ length (tokens m v) + length (tokens_components m cs)
  unfolding tokens
  length-component v cs = length-append_tokens (tokens m v) (tokens_components m cs)

  extract_subs-nil :
      (mem : Memory) (i f : ℕ) (end : FlatMmsValue) (rest : List FlatMmsValue)
      → is_end end.typ ≡ true
      → extract_subs (suc f) (stamps mem i (tokens_components m no_components) ++ (end ∷ rest))
        ≡ some (components_view m no_components, rest)
  unfolding extract_subs tokens report_view stamps
  extract_subs-nil mem i f end rest e = rw e

  length-null :
      (cs : Components)
      → length (tokens_components m (null_component cs)) ≡ length (tokens_components m cs)
  unfolding tokens
  length-null cs = refl

  extract_subs-null :
      (f : ℕ) (cs : Components) (mem : Memory) (i : ℕ) (rest after : List FlatMmsValue)
      → extract_subs f (stamps mem i (tokens_components m cs) ++ rest)
        ≡ some (components_view m cs, after)
      → extract_subs f (stamps mem i (tokens_components m (null_component cs)) ++ rest)
        ≡ some (components_view m (null_component cs), after)
  unfolding tokens report_view
  extract_subs-null f cs mem i rest after h = h

  extract-leaf :
      (f : ℕ) (v : MmsValue) (mem : Memory) (i : ℕ) (rest : List FlatMmsValue)
      → is_composite (type_of v) ≡ false
      → extract_flat_value (suc f) (stamps mem i (tokens m v) ++ rest)
        ≡ some (report_view m v, rest)
  unfolding extract_flat_value stamps
  extract-leaf f v mem i rest h =
      let (e, s) = leaf_value-stamp v (mem i) h in rw (tokens-leaf m v h, s, e)

  stamps_closed :
      (mem : Memory) (i : ℕ) (ts : List Token) (t : Token) (rest : List FlatMmsValue)
      → stamps mem i (ts ++ t ∷ []) ++ rest
        ≡ stamps mem i ts ++ (stamp t (mem (i + length ts)) ∷ rest)
  unfolding stamps
  stamps_closed mem i ts t rest = rw (stamps-append, append_assoc)

  abbrev closing : Memory → ℕ → ℕ → Components → FlatMmsValue
  closing mem i t cs = stamp (bare t) (mem (suc i + length (tokens_components m cs)))

  extract-array :
      (f : ℕ) (cs : Components) (mem : Memory) (i : ℕ) (rest : List FlatMmsValue)
      → extract_subs f
          (stamps mem (suc i) (tokens_components m cs) ++ (closing mem i flat_array_end cs ∷ rest))
        ≡ some (components_view m cs, rest)
      → extract_flat_value (suc f) (stamps mem i (tokens m (array cs)) ++ rest)
        ≡ some (report_view m (array cs), rest)
  unfolding extract_flat_value tokens report_view stamps
  extract-array f cs mem i rest h =
      rw (stamps_closed mem (suc i) (tokens_components m cs) (bare flat_array_end) rest, h)

  extract-structure :
      (f : ℕ) (cs : Components) (mem : Memory) (i : ℕ) (rest : List FlatMmsValue)
      → extract_subs f
          (stamps mem (suc i) (tokens_components m cs) ++ (closing mem i flat_struct_end cs ∷ rest))
        ≡ some (components_view m cs, rest)
      → extract_flat_value (suc f) (stamps mem i (tokens m (structure cs)) ++ rest)
        ≡ some (report_view m (structure cs), rest)
  unfolding extract_flat_value tokens report_view stamps
  extract-structure f cs mem i rest h =
      rw (stamps_closed mem (suc i) (tokens_components m cs) (bare flat_struct_end) rest, h)

  extract_subs-component :
      (f : ℕ) (v : MmsValue) (cs : Components) (mem : Memory) (i : ℕ)
      (rest after : List FlatMmsValue)
      → extract_flat_value f (
          stamps mem i (tokens m v)
          ++ (stamps mem (i + length (tokens m v)) (tokens_components m cs) ++ rest))
        ≡ some
            (report_view m v, stamps mem (i + length (tokens m v)) (tokens_components m cs) ++ rest)
      → extract_subs f (stamps mem (i + length (tokens m v)) (tokens_components m cs) ++ rest)
        ≡ some (components_view m cs, after)
      → extract_subs (suc f) (stamps mem i (tokens_components m (component v cs)) ++ rest)
        ≡ some (components_view m (component v cs), after)
  extract_subs-component f v cs mem i rest after h k =
      ap (λ ts. extract_subs (suc f) (ts ++ rest)) (split i)
      ∙ ap (extract_subs (suc f)) (
          append_assoc (stamps mem i (tokens m v))
            (stamps mem (i + length (tokens m v)) (tokens_components m cs)) rest)
      ∙ extract_subs_step f
          (stamps mem i (tokens m v)
            ++ (stamps mem (i + length (tokens m v)) (tokens_components m cs) ++ rest))
          (starts_value-tokens m v mem i
            (stamps mem (i + length (tokens m v)) (tokens_components m cs) ++ rest))
      ∙ rw (h, k) (unfold report_view in refl)
    where
      split :
          (i : ℕ)
          → stamps mem i (tokens_components m (component v cs))
            ≡ stamps mem i (tokens m v)
              ++ stamps mem (i + length (tokens m v)) (tokens_components m cs)
      split i = unfold tokens in stamps-append mem i (tokens m v) (tokens_components m cs)

  mutual
    value-RoundTrip :
        (v : MmsValue) (mem : Memory) (i f : ℕ) (rest : List FlatMmsValue)
        → 2 * length (tokens m v) < f
        → extract_flat_value f (stamps mem i (tokens m v) ++ rest) ≡ some (report_view m v, rest)
    value-RoundTrip v mem i zero rest h = absurd (omega arith)
    value-RoundTrip (array cs) mem i (suc f) rest h = extract-array f cs mem i rest (
        components-RoundTrip cs mem (suc i) f (closing mem i flat_array_end cs) rest refl
          (omega (arith, length-tokens_array m cs)))
    value-RoundTrip (structure cs) mem i (suc f) rest h = extract-structure f cs mem i rest (
        components-RoundTrip cs mem (suc i) f (closing mem i flat_struct_end cs) rest refl
          (omega (arith, length-tokens_structure m cs)))
    value-RoundTrip v mem i (suc f) rest h = extract-leaf f v mem i rest refl

    components-RoundTrip :
        (cs : Components) (mem : Memory) (i f : ℕ) (end : FlatMmsValue) (rest : List FlatMmsValue)
        → is_end end.typ ≡ true
        → 2 * length (tokens_components m cs) + 1 < f
        → extract_subs f (stamps mem i (tokens_components m cs) ++ (end ∷ rest))
          ≡ some (components_view m cs, rest)
    components-RoundTrip cs mem i zero end rest e h = absurd (omega arith)
    components-RoundTrip no_components mem i (suc f) end rest e h =
        extract_subs-nil mem i f end rest e
    components-RoundTrip (null_component cs) mem i (suc f) end rest e h =
        extract_subs-null (suc f) cs mem i (end ∷ rest) rest
          (components-RoundTrip cs mem i (suc f) end rest e (omega (arith, length-null cs)))
    components-RoundTrip (component v cs) mem i (suc f) end rest e h =
        extract_subs-component f v cs mem i (end ∷ rest) rest
          (value-RoundTrip v mem i f
            (stamps mem (i + length (tokens m v)) (tokens_components m cs) ++ (end ∷ rest))
            (omega (arith, length-component v cs, tokens_pos m v)))
          (components-RoundTrip cs mem (i + length (tokens m v)) f end rest e
            (omega (arith, length-component v cs, tokens_pos m v)))

  -- Decoding undoes flattening: from a slice that begins with the tokens of a value, over whatever the
  -- array held before, it reads the value's view and leaves the rest of the slice. The fuel is above twice the
  -- tokens, and the accessors do what is documented.
  pub extract_flat_value-eq :
      (v : MmsValue) (mem : Memory) (i f : ℕ) (rest : List FlatMmsValue)
      → 2 * length (tokens m v) < f
      → extract_flat_value f (stamps mem i (tokens m v) ++ rest) ≡ some (report_view m v, rest)
  extract_flat_value-eq v mem i f rest h = value-RoundTrip v mem i f rest h
