-- ===== src/Client/Reads.antt =====
-- The reads of single values in iec61850/iec61850_client.go, `ReadBoolean` to `ReadUnsigned32`.
pub mod Answers
use go_libiec.Prelude.{
  ℕ, zero, suc, ◌+◌, ◌-◌, ◌*◌, ◌/◌, ◌%◌, ◌^◌, String, Bool, false, Option, none, some, ◌∷◌, [],
  concat, ltb, ◌==◌, if◌then◌else◌,
}
use go_libiec.Prelude.Int.{ℤ, low32}
use go_libiec.CStrings.{CHeap, malloc, free, returned, go_string_of}
use go_libiec.Client.Errors.{IedClientError, ok, err}

-- The answers of the library: an error code, and a value. Integers are the patterns of 32 and 64
-- bits, a `float` is its 32-bit pattern, and a string is NULL or a buffer that the caller frees.
pub record ReadApi : Type 0 where
  pub read_boolean_value : String → ℕ → IedClientError × Bool
  pub read_float_value : String → ℕ → IedClientError × ℕ
  pub read_string_value : String → ℕ → IedClientError × Option String
  pub read_int32_value : String → ℕ → IedClientError × ℕ
  pub read_int64_value : String → ℕ → IedClientError × ℕ
  pub read_unsigned32_value : String → ℕ → IedClientError × ℕ

unfoldable pub read_failed : String → IedClientError → String
read_failed ref e = concat ("failed to read object " ∷ ref ∷ ", clientError: " ∷ err e ∷ [])

-- The two results for an answer of the library; `none` is a nil error.
unfoldable pub on_answer : {A : Type 0} → String → A → IedClientError → A → A × Option String
on_answer ref empty ok v = (v, none)
on_answer ref empty e v = (empty, some (read_failed ref e))

-- The fraction of a subnormal `float`, shifted up to a leading one, and the exponent that is left.
unfoldable pub normalise : ℕ → ℕ → ℕ → ℕ × ℕ
normalise zero m e = (m, e)
normalise (suc fuel) m e =
    let more = normalise fuel (2 * m) (e - 1) in if ltb m (2 ^ 23) then more else (m, e)

-- `float64(value)` of a `float`, on the patterns of the two formats: zeros, subnormals, infinities
-- with NaNs, and normal numbers.
unfoldable pub float64_of_float : ℕ → ℕ
unfolding normalise
float64_of_float w =
    let sign = 2 ^ 63 * (w / 2 ^ 31) in
    let e = w / 2 ^ 23 % 2 ^ 8 in
    let m = w % 2 ^ 23 in
    let (m', e') = normalise 23 m 897 in
    if e == 255
    then sign + (2047 * 2 ^ 52 + m * 2 ^ 29)
    else if e == 0
    then if m == 0 then sign else sign + (e' * 2 ^ 52 + (m' - 2 ^ 23) * 2 ^ 29)
    else sign + ((e + 896) * 2 ^ 52 + m * 2 ^ 29)

module _ (a : ReadApi) where
  -- A read with its C string of the reference, which the deferred `C.free` releases: `read` is the
  -- call of the library.
  unfoldable pub with_ref :
      {A : Type 0} → String → A → IedClientError × A → CHeap → (A × Option String) × CHeap
  unfolding on_answer malloc free
  with_ref ref empty (e, v) h =
      let (p, inside) = malloc h in (on_answer ref empty e v, free p inside)

  unfoldable pub read_boolean : String → ℤ → CHeap → (Bool × Option String) × CHeap
  unfolding with_ref
  read_boolean ref fc h = with_ref ref false (a.read_boolean_value ref (low32 fc)) h

  unfoldable pub read_float : String → ℤ → CHeap → (ℕ × Option String) × CHeap
  unfolding with_ref float64_of_float
  read_float ref fc h =
      let (e, v) = a.read_float_value ref (low32 fc) in with_ref ref 0 (e, float64_of_float v) h

  -- The buffer of the library's answer is copied by `C.GoString`, and is not freed.
  unfoldable pub read_string : String → ℤ → CHeap → (String × Option String) × CHeap
  unfolding on_answer malloc free returned
  read_string ref fc h =
      let (p, inside) = malloc h in
      let (e, v) = a.read_string_value ref (low32 fc) in
      (on_answer ref "" e (go_string_of v), free p (returned v inside))

  unfoldable pub read_int32 : String → ℤ → CHeap → (ℕ × Option String) × CHeap
  unfolding with_ref
  read_int32 ref fc h = with_ref ref 0 (a.read_int32_value ref (low32 fc)) h

  unfoldable pub read_int64 : String → ℤ → CHeap → (ℕ × Option String) × CHeap
  unfolding with_ref
  read_int64 ref fc h = with_ref ref 0 (a.read_int64_value ref (low32 fc)) h

  unfoldable pub read_unsigned32 : String → ℤ → CHeap → (ℕ × Option String) × CHeap
  unfolding with_ref
  read_unsigned32 ref fc h = with_ref ref 0 (a.read_unsigned32_value ref (low32 fc)) h
