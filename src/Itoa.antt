-- ===== src/Itoa.antt =====
-- The decimal text of a number, `strconv.Itoa` and the verb `%d` of the Go files.
use Prim.Native.String.{◌++◌ as join}
use go_libiec.Prelude.{
  ℕ, zero, suc, ◌/◌, ◌%◌, String, Option, none, some, List, [], ◌∷◌, get_elem?, ltb, if◌then◌else◌,
}

abbrev pub digits : List String
digits = "0" ∷ "1" ∷ "2" ∷ "3" ∷ "4" ∷ "5" ∷ "6" ∷ "7" ∷ "8" ∷ "9" ∷ []

abbrev pub or_empty : Option String → String
or_empty none = ""
or_empty (some d) = d

abbrev pub digit : ℕ → String
digit n = or_empty (get_elem? digits n)

-- `fuel` bounds the number of digits.
unfoldable pub itoa_loop : ℕ → ℕ → String → String
itoa_loop zero n acc = acc
itoa_loop (suc fuel) n acc =
    let more = itoa_loop fuel (n / 10) (join (digit (n % 10)) acc) in
    if ltb n 10 then join (digit n) acc else more

abbrev pub itoa : ℕ → String
itoa n = itoa_loop (suc n) n ""
