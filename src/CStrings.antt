-- ===== src/CStrings.antt =====
-- The C strings that the Go files allocate with `C.CString` and release with `C.free`
-- (iec61850/iec61850_client.go, iec61850/model.go, iec61850/iec61850_server.go).
use go_libiec.Prelude.{
  ℕ, ◌+◌, String, Option, none, some, List, [], ◌∷◌, ◌==◌, if◌then◌else◌, ◌≡◌, arith,
}

-- The buffers that are allocated, by their addresses, the last one first, and the next address.
pub record CHeap : Type 0 where
  pub next : ℕ
  pub live : List ℕ

-- `malloc`, which `C.CString` calls, and which the library calls for a string that it returns.
unfoldable pub malloc : CHeap → ℕ × CHeap
malloc h = (h.next, record { next = h.next + 1; live = h.next ∷ h.live })

unfoldable pub erase : ℕ → List ℕ → List ℕ
erase p [] = []
erase p (q ∷ qs) = if q == p then qs else q ∷ erase p qs

-- `C.free`
unfoldable pub free : ℕ → CHeap → CHeap
unfolding erase
free p h = record h { live = erase p h.live }

-- A string that a call of the library returns, in a buffer of its own; `none` is NULL.
unfoldable pub returned : Option String → CHeap → CHeap
unfolding malloc
returned none h = h
returned (some s) h = (malloc h).1

-- `C.GoString`, of a buffer that may be NULL.
abbrev pub go_string_of : Option String → String
go_string_of none = ""
go_string_of (some s) = s

-- The buffers of a string that was returned.
abbrev pub buffer_of : Option String → ℕ → List ℕ → List ℕ
buffer_of none p live = live
buffer_of (some s) p live = p ∷ live

-- A string that is allocated before a call and freed after it leaves what the call returned.
pub live-free-malloc :
    (h : CHeap) (o : Option String)
    → (free (malloc h).0 (returned o (malloc h).1)).live ≡ buffer_of o (h.next + 1) h.live
unfolding malloc free returned erase
live-free-malloc h none = ground arith
live-free-malloc h (some s) = ground arith
