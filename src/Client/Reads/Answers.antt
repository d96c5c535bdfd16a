-- ===== src/Client/Reads/Answers.antt =====
-- What the reads of single values in iec61850/iec61850_client.go give, and which C buffers they
-- leave behind.
use go_libiec.Prelude.{◌+◌, String, false, Option, none, some, ◌≡◌, ◌≢◌, refl, ◌⊎◌, inl, inr}
use go_libiec.Prelude.Int.{ℤ, low32}
use go_libiec.CStrings.{CHeap, buffer_of, go_string_of, returned, live-free-malloc}
use go_libiec.Client.Errors.{IedClientError, ok}
use go_libiec.Client.Reads.{
  ReadApi, read_failed, on_answer, with_ref, float64_of_float, read_boolean, read_float,
  read_string, read_int32, read_int64, read_unsigned32,
}

-- Without an error the result is the value; with one it is empty, and the text names the reference
-- and the error.
abbrev pub Answered : {A : Type 0} → String → A → IedClientError → A → A × Option String → Type 0
Answered ref empty e v result =
    ((e ≡ ok) × (result ≡ (v, none))) ⊎ ((e ≢ ok) × (result ≡ (empty, some (read_failed ref e))))

on_answer-Answered :
    {A : Type 0} (ref : String) (empty : A) (e : IedClientError) (v : A)
    → Answered ref empty e v (on_answer ref empty e v)
unfolding on_answer
on_answer-Answered ref empty ok v = inl (refl, refl)
on_answer-Answered ref empty e v = inr ((λ h. cc), refl)

module _ (a : ReadApi) (ref : String) (fc : ℤ) (h : CHeap) where
  with_ref-Answered :
      {A : Type 0} (empty : A) (r : IedClientError × A)
      → Answered ref empty r.0 r.1 (with_ref a ref empty r h).0
        × ((with_ref a ref empty r h).1.live ≡ h.live)
  unfolding with_ref returned
  with_ref-Answered empty (e, v) = (on_answer-Answered ref empty e v, live-free-malloc h none)

  -- Each of the six reads gives the value of the library, widened for a `float`, if there was no
  -- error, and otherwise the empty value with a text of the reference and the error. The C buffers
  -- that are allocated afterwards are those of before; after a read of a string there is one more,
  -- the buffer that the library returned, unless it returned NULL.
  pub reads-Answered :
      (Answered ref false
          (a.read_boolean_value ref (low32 fc)).0
          (a.read_boolean_value ref (low32 fc)).1
          (read_boolean a ref fc h).0
        × ((read_boolean a ref fc h).1.live ≡ h.live))
      × (Answered ref 0
            (a.read_float_value ref (low32 fc)).0
            (float64_of_float (a.read_float_value ref (low32 fc)).1)
            (read_float a ref fc h).0
          × ((read_float a ref fc h).1.live ≡ h.live))
      × (Answered ref ""
            (a.read_string_value ref (low32 fc)).0
            (go_string_of (a.read_string_value ref (low32 fc)).1)
            (read_string a ref fc h).0
          × ((read_string a ref fc h).1.live
              ≡ buffer_of (a.read_string_value ref (low32 fc)).1 (h.next + 1) h.live))
      × (Answered ref 0
            (a.read_int32_value ref (low32 fc)).0
            (a.read_int32_value ref (low32 fc)).1
            (read_int32 a ref fc h).0
          × ((read_int32 a ref fc h).1.live ≡ h.live))
      × (Answered ref 0
            (a.read_int64_value ref (low32 fc)).0
            (a.read_int64_value ref (low32 fc)).1
            (read_int64 a ref fc h).0
          × ((read_int64 a ref fc h).1.live ≡ h.live))
      × (Answered ref 0
            (a.read_unsigned32_value ref (low32 fc)).0
            (a.read_unsigned32_value ref (low32 fc)).1
            (read_unsigned32 a ref fc h).0
          × ((read_unsigned32 a ref fc h).1.live ≡ h.live))
  unfolding read_boolean read_float read_string read_int32 read_int64 read_unsigned32
  reads-Answered = (
    with_ref-Answered false (a.read_boolean_value ref (low32 fc)),
    with_ref-Answered 0 (
      (a.read_float_value ref (low32 fc)).0,
      float64_of_float (a.read_float_value ref (low32 fc)).1,
    ),
    (on_answer-Answered ref "" _ _, live-free-malloc h (a.read_string_value ref (low32 fc)).1),
    with_ref-Answered 0 (a.read_int32_value ref (low32 fc)),
    with_ref-Answered 0 (a.read_int64_value ref (low32 fc)),
    with_ref-Answered 0 (a.read_unsigned32_value ref (low32 fc)),
  )
