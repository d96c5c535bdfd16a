-- ===== src/Report/Reason/Names.antt =====
-- The text of a `ReasonForInclusion` of iec61850/iec61850_report.go, read back.
use Prim.Native.Char.{Char, code}
use Prim.Native.String.{◌++◌ as join}
use text.Mathlib.TextLemmas.{nil-append, cons-append}
use go_libiec.Prelude.{
  ℕ, zero, suc, ◌/◌, ◌%◌, ◌≡◌, ◌≢◌, refl, ap, ◌∙◌, String, Bool, true, false, List, [], ◌∷◌, ◌==◌,
  if◌then◌else◌, arith, Bool-cases, inl, inr,
}
use go_libiec.Report.Reason.{
  has_reason, name_of, reason_parts, join_bar, joined_or_raw, reason_string,
}
use go_libiec.Report.Reason.Known.{no_parts}

abbrev in_front : Char → List String → List String
in_front c [] = String.◌∷◌ c String.[] ∷ []
in_front c (s ∷ ss) = String.◌∷◌ c s ∷ ss

-- The pieces of a text between its bars.
unfoldable pub split_bar : String → List String
split_bar String.[] = String.[] ∷ []
split_bar (String.◌∷◌ c s) =
    let rest = split_bar s in if code c == b'|' then String.[] ∷ rest else in_front c rest

-- The names of the known bits, the lowest bit first.
abbrev pub known_names : List String
known_names = "DATA_CHANGE" ∷ "QUAL_CHANGE" ∷ "DATA_UPDATE" ∷ "INTEGRITY" ∷ "GI" ∷ "UNKNOWN" ∷ []

-- The names of the binary digits of a number that are 1.
unfoldable pub set_names : List String → ℕ → List String
set_names [] n = []
set_names (name ∷ names) n =
    let rest = set_names names (n / 2) in if n % 2 == 1 then name ∷ rest else rest

unfoldable has_bar : String → Bool
has_bar String.[] = false
has_bar (String.◌∷◌ c s) = let rest = has_bar s in if code c == b'|' then true else rest

abbrev NoBars : List String → Type 0
NoBars [] = Unit
NoBars (p ∷ ps) = (has_bar p ≡ false) × NoBars ps

has_bar-false :
    (c : Char) (p : String)
    → has_bar (String.◌∷◌ c p) ≡ false
    → ((code c == b'|') ≡ false) × (has_bar p ≡ false)
unfolding has_bar
has_bar-false c p h = elim (Bool-cases (code c == b'|')) [
  | inl bar ↦ ground (arith, h, bar)
  | inr other ↦ (other, ground (arith, h, other))
]

split_bar-join :
    (p s : String) → has_bar p ≡ false → split_bar (join p (join "|" s)) ≡ p ∷ split_bar s
unfolding split_bar
split_bar-join String.[] s h =
    ap split_bar
      (nil-append (join "|" s) ∙ (cons-append "|" String.[] s ∙ ap (String.◌∷◌ "|") (nil-append s)))
split_bar-join (String.◌∷◌ c p) s h =
    let (other, none_in) = has_bar-false c p h in
    ap split_bar (cons-append c p (join "|" s))
    ∙ rw other (ap (in_front c) (split_bar-join p s none_in))

split_bar-one : (p : String) → has_bar p ≡ false → split_bar p ≡ p ∷ []
unfolding split_bar
split_bar-one String.[] h = refl
split_bar-one (String.◌∷◌ c p) h =
    let (other, none_in) = has_bar-false c p h in
    rw other (ap (in_front c) (split_bar-one p none_in))

split_bar-join_bar :
    (p : String) (ps : List String) → NoBars (p ∷ ps) → split_bar (join_bar (p ∷ ps)) ≡ p ∷ ps
split_bar-join_bar p [] h = split_bar-one p h.0
split_bar-join_bar p (q ∷ ps) h =
    split_bar-join p (join_bar (q ∷ ps)) h.0 ∙ ap (λ rest. p ∷ rest) (split_bar-join_bar q ps h.1)

name_of-NoBars :
    (b : Bool) (name : String) (parts : List String)
    → has_bar name ≡ false
    → NoBars parts
    → NoBars (name_of b name parts)
name_of-NoBars true name parts h t = (h, t)
name_of-NoBars false name parts h t = t

parts-NoBars : (r : ℕ) → NoBars (reason_parts r)
unfolding has_bar
parts-NoBars r = name_of-NoBars (has_reason r 1) "DATA_CHANGE" _ refl (
    name_of-NoBars (has_reason r 2) "QUAL_CHANGE" _ refl (
      name_of-NoBars (has_reason r 4) "DATA_UPDATE" _ refl (
        name_of-NoBars (has_reason r 8) "INTEGRITY" _ refl (
          name_of-NoBars (has_reason r 16) "GI" _ refl
            (name_of-NoBars (has_reason r 32) "UNKNOWN" _ refl tt)))))

abbrev drop : ℕ → List String → List String
drop zero ns = ns
drop (suc k) [] = []
drop (suc k) (n ∷ ns) = drop k ns

name_of-set_names :
    (r b n : ℕ) (name : String) (parts names : List String)
    → r / b % 2 ≡ n % 2
    → parts ≡ set_names names (n / 2)
    → name_of (has_reason r b) name parts ≡ set_names (name ∷ names) n
unfolding set_names
name_of-set_names r b n name parts names bit rest = rw (bit, rest) refl

parts-set_names : (r : ℕ) → reason_parts r ≡ set_names known_names r
unfolding set_names
parts-set_names r = name_of-set_names r 1 r "DATA_CHANGE" _ (drop 1 known_names) (omega arith) (
    name_of-set_names r 2 (r / 2) "QUAL_CHANGE" _ (drop 2 known_names) (omega arith) (
      name_of-set_names r 4 (r / 2 / 2) "DATA_UPDATE" _ (drop 3 known_names) (omega arith) (
        name_of-set_names r 8 (r / 2 / 2 / 2) "INTEGRITY" _ (drop 4 known_names) (omega arith) (
          name_of-set_names r 16 (r / 2 / 2 / 2 / 2) "GI" _ (drop 5 known_names) (omega arith)
            (name_of-set_names r 32 (r / 2 / 2 / 2 / 2 / 2) "UNKNOWN" _ [] (omega arith) refl)))))

split_bar-joined :
    (r : ℕ) (parts : List String)
    → parts ≢ []
    → NoBars parts
    → split_bar (joined_or_raw r parts) ≡ parts
split_bar-joined r [] h t = absurd (h refl)
split_bar-joined r (p ∷ ps) h t = split_bar-join_bar p ps t

-- Where a known bit is set, the text read back is the reason without the unknown bits: the pieces
-- between its bars are the names of the known bits that are set, the lowest first, and nothing else.
pub reason_string-names :
    (r : ℕ) → r % 64 ≢ 0 → split_bar (reason_string r) ≡ set_names known_names r
unfolding reason_string
reason_string-names r h =
    let nonzero : (r == 0) ≡ false = ground (arith, h) in
    rw nonzero (
      split_bar-joined r (reason_parts r) (λ e. h (no_parts r e)) (parts-NoBars r)
      ∙ parts-set_names r)
