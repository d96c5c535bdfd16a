-- ===== src/Bridge/Tokens.antt =====
-- What the flat representation of a value is, independently of the walk that writes it: one token
-- for a leaf, and a start marker, the elements and an end marker for a structure or an array.
use go_libiec.Prelude.{
  ◌+◌, List, [], ◌∷◌, ◌++◌, ◌≡◌, ◌<◌, length, length-append, arith, false, refl, ap,
}
use go_libiec.Mms.Types.{type_code}
use go_libiec.Mms.Value.{
  MmsValue, Components, type_of, array, structure, boolean, bit_string, integer, unsigned,
  floating_point, octet_string, visible_string, text_string, utc_time, no_components,
  null_component, component,
}
use go_libiec.Mms.Api.{MmsApi}
use go_libiec.Bridge.Flat.{
  Token, bare, ival_token, dval_token, sval_token, flat_struct_start, flat_struct_end,
  flat_array_start, flat_array_end,
}
use go_libiec.Bridge.Count.{is_composite}
use go_libiec.Bridge.Flatten.{bool_to_int}

module _ (m : MmsApi) where
  abbrev pub leaf_token : MmsValue → Token
  leaf_token (boolean b) = ival_token 2 (bool_to_int (m.scalars.get_boolean (boolean b)))
  leaf_token (bit_string n b) = ival_token 3 (m.scalars.get_bit_string_as_integer (bit_string n b))
  leaf_token (integer p) = ival_token 4 (m.to_int64 (integer p))
  leaf_token (unsigned p) = ival_token 5 (m.to_int64 (unsigned p))
  leaf_token (floating_point e w b) = dval_token 6 (m.to_double (floating_point e w b))
  leaf_token (octet_string n k b) = sval_token 7 (m.scalars.to_string (octet_string n k b))
  leaf_token (visible_string s n) = sval_token 8 (m.scalars.to_string (visible_string s n))
  leaf_token (text_string s n) = sval_token 13 (m.scalars.to_string (text_string s n))
  leaf_token (utc_time b) = ival_token 14 (m.to_unix_timestamp (utc_time b))
  leaf_token v = bare (type_code (type_of v))

  unfoldable mutual
    pub tokens : MmsValue → List Token
    tokens (array cs) = bare flat_array_start ∷ (tokens_components cs ++ bare flat_array_end ∷ [])
    tokens (structure cs) =
        bare flat_struct_start ∷ (tokens_components cs ++ bare flat_struct_end ∷ [])
    tokens v = leaf_token v ∷ []

    pub tokens_components : Components → List Token
    tokens_components no_components = []
    tokens_components (null_component cs) = tokens_components cs
    tokens_components (component v cs) = tokens v ++ tokens_components cs

pub length-append_tokens : (xs ys : List Token) → length (xs ++ ys) ≡ length xs + length ys
length-append_tokens = length-append

-- Every value takes at least one token.
pub tokens_pos : (m : MmsApi) (v : MmsValue) → 0 < length (tokens m v)
unfolding tokens
tokens_pos m (array cs) = omega arith
tokens_pos m _ = omega arith

pub length-tokens_array :
    (m : MmsApi) (cs : Components)
    → length (tokens m (array cs)) ≡ 2 + length (tokens_components m cs)
unfolding tokens
length-tokens_array m cs =
    omega (arith, length-append_tokens (tokens_components m cs) (bare flat_array_end ∷ []))

pub length-tokens_structure :
    (m : MmsApi) (cs : Components)
    → length (tokens m (structure cs)) ≡ 2 + length (tokens_components m cs)
unfolding tokens
length-tokens_structure m cs =
    omega (arith, length-append_tokens (tokens_components m cs) (bare flat_struct_end ∷ []))

pub tokens-leaf :
    (m : MmsApi) (v : MmsValue)
    → is_composite (type_of v) ≡ false
    → tokens m v ≡ leaf_token m v ∷ []
unfolding tokens
tokens-leaf m (array cs) h = cc
tokens-leaf m (structure cs) h = cc
tokens-leaf m _ h = refl

pub length-tokens_leaf :
    (m : MmsApi) (v : MmsValue) → is_composite (type_of v) ≡ false → length (tokens m v) ≡ 1
length-tokens_leaf m v h = ap length (tokens-leaf m v h)
