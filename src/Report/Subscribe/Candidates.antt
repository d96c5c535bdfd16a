-- ===== src/Report/Subscribe/Candidates.antt =====
-- `SubscribeReportWithCandidates` of iec61850/iec61850_report.go against the sequence of its attempts.
use Prim.Native.String.{◌++◌ as join}
use go_libiec.Prelude.{
  ℕ, zero, suc, ◌≤◌, String, Option, none, some, List, [], ◌∷◌, ◌++◌, ◌≡◌, refl, ap, ◌∙◌, length,
  concat, ltb, ltb→lt, arith, inl, inr, Bool-cases, append_assoc, length-append,
}
use go_libiec.Report.Subscribe.{
  RcbApi, ReportConfig, Session, subscribe_report, Outcome, chosen, no_candidates, all_failed, note,
  err_msg_max, attempted, candidates_loop, subscribe_report_with_candidates,
}

-- The first `n` elements.
abbrev pub take {ℓ} : {A : Type ℓ} → ℕ → List A → List A
take zero xs = []
take (suc n) [] = []
take (suc n) (x ∷ xs) = x ∷ take n xs

-- Every candidate is followed by the one with "01".
abbrev pub attempts : List String → List String
attempts [] = []
attempts (base ∷ bases) = base ∷ join base "01" ∷ attempts bases

-- The message of a failed attempt.
abbrev pub message : String → String → String
message ref e = concat (ref ∷ ": " ∷ e ∷ [])

module _ {ℓ} {A : Type ℓ} where
  take-append : (n : ℕ) (xs ys zs : List A) → n ≤ length xs → take n (xs ++ ys) ≡ take n (xs ++ zs)
  take-append zero xs ys zs le = refl
  take-append (suc n) [] ys zs le = absurd (omega (arith, le))
  take-append (suc n) (x ∷ xs) ys zs le =
      ap (λ l. x ∷ l) (take-append n xs ys zs (omega (arith, le)))

  take_all : (n : ℕ) (xs : List A) → length xs ≤ n → xs ≡ take n (xs ++ [])
  take_all zero [] le = refl
  take_all zero (x ∷ xs) le = absurd (omega (arith, le))
  take_all (suc n) [] le = refl
  take_all (suc n) (x ∷ xs) le = ap (λ l. x ∷ l) (take_all n xs (omega (arith, le)))

note-length :
    (errs : List String) (ref e : String)
    → length errs ≤ err_msg_max
    → length (note errs ref e) ≤ err_msg_max
note-length errs ref e le = elim (Bool-cases (ltb (length errs) err_msg_max)) [
  | inl room ↦ rw room (omega (arith, length-append errs (message ref e ∷ []), ltb→lt _ _ room))
  | inr full ↦ rw full le
]

take-note :
    (errs ms : List String) (ref e : String)
    → take err_msg_max (note errs ref e ++ ms) ≡ take err_msg_max (errs ++ (message ref e ∷ ms))
take-note errs ms ref e = elim (Bool-cases (ltb (length errs) err_msg_max)) [
  | inl room ↦ rw room (ap (take err_msg_max) (append_assoc errs (message ref e ∷ []) ms))
  | inr full ↦ rw full (take-append err_msg_max errs ms (message ref e ∷ ms) (ground (arith, full)))
]

module _ (a : RcbApi) {H : Type 0} (cfg : Option ReportConfig) (h : H) where
  -- From the process `s`, every attempt with `refs` fails, one after the other, with these messages;
  -- the process is `s'` then.
  pub data Failed : Session a H → List String → List String → Session a H → Type 0 where
    no_attempt : (s : Session a H) → Failed s [] [] s
    attempt :
        (s s1 s2 : Session a H) (ref e : String) (refs ms : List String)
        → subscribe_report a s ref cfg h ≡ (some e, s1)
        → Failed s1 refs ms s2
        → Failed s (ref ∷ refs) (message ref e ∷ ms) s2

  -- The result explained by the attempts: the chosen reference is the first with which subscribing
  -- succeeds; or all failed, and the messages are the first 20. `errs` holds those before, and
  -- `count` is the number of candidates.
  abbrev pub Explains : ℕ → List String → Session a H → List String → Outcome × Session a H → Type 0
  Explains count errs s refs (chosen ref, s') =
      (before : List String) × (after : List String) × (ms : List String) × (s1 : Session a H)
      × (refs ≡ before ++ (ref ∷ after))
      × Failed s before ms s1
      × (subscribe_report a s1 ref cfg h ≡ (none, s'))
  Explains count errs s refs (no_candidates, s') = ⊥
  Explains count errs s refs (all_failed n texts, s') =
      (n ≡ count)
      × (ms : List String) × Failed s refs ms s'
      × (texts ≡ take err_msg_max (errs ++ ms))

module _ (a : RcbApi) {H : Type 0} (cfg : Option ReportConfig) (h : H) (count : ℕ) where
  Explains-attempt :
      (errs : List String) (s s1 : Session a H) (ref e : String) (refs : List String)
      (result : Outcome × Session a H)
      → subscribe_report a s ref cfg h ≡ (some e, s1)
      → Explains a cfg h count (note errs ref e) s1 refs result
      → Explains a cfg h count errs s (ref ∷ refs) result
  Explains-attempt errs s s1 ref e refs (chosen r, s') tried
        (before, after, ms, s2, split, failed, ok) =
      (
        ref ∷ before,
        after,
        message ref e ∷ ms,
        s2,
        ap (λ l. ref ∷ l) split,
        attempt s s1 s2 ref e before ms tried failed,
        ok,
      )
  Explains-attempt errs s s1 ref e refs (all_failed n texts, s') tried (num, ms, failed, same) = (
    num,
    message ref e ∷ ms,
    attempt s s1 s' ref e refs ms tried failed,
    same ∙ take-note errs ms ref e,
  )
  Explains-attempt errs s s1 ref e refs (no_candidates, s') tried never = elim never [ ]

  attempted-Explains :
      (ref : String) (refs errs : List String)
      (next : List String → Session a H → Outcome × Session a H)
      → length errs ≤ err_msg_max
      → ((errs1 : List String) (s1 : Session a H)
          → length errs1 ≤ err_msg_max
          → Explains a cfg h count errs1 s1 refs (next errs1 s1))
      → (s : Session a H) (answer : Option String × Session a H)
      → subscribe_report a s ref cfg h ≡ answer
      → Explains a cfg h count errs s (ref ∷ refs) (attempted a cfg h count ref errs next answer)
  attempted-Explains ref refs errs next le ih s (none, s1) tried =
      ([], refs, [], s, refl, no_attempt s, tried)
  attempted-Explains ref refs errs next le ih s (some e, s1) tried =
      Explains-attempt errs s s1 ref e refs _ tried
        (ih (note errs ref e) s1 (note-length errs ref e le))

  candidates_loop-Explains :
      (bases errs : List String) (s : Session a H)
      → length errs ≤ err_msg_max
      → Explains a cfg h count errs s (attempts bases) (candidates_loop a cfg h count bases errs s)
  unfolding candidates_loop
  candidates_loop-Explains [] errs s le = (refl, [], no_attempt s, take_all err_msg_max errs le)
  candidates_loop-Explains (base ∷ bases) errs s le =
      attempted-Explains base _ errs _ le
        (λ errs1 s1 le1.
          attempted-Explains (join base "01") _ errs1 _ le1
            (λ errs2 s2 le2. candidates_loop-Explains bases errs2 s2 le2) s1 _ refl)
        s _ refl

module _ (a : RcbApi) {H : Type 0} where
  -- With at least one candidate, the result is that of the sequence of attempts in which every
  -- candidate is followed by the one with "01": the chosen reference is the first in it with which
  -- subscribing succeeds, after all before it failed in turn; or all of them failed, and the error
  -- has the number of candidates and the first 20 messages. The process is the one after the last
  -- attempt.
  pub subscribe_report_with_candidates-Explains :
      (s : Session a H) (base : String) (bases : List String) (cfg : Option ReportConfig) (h : H)
      → Explains a cfg h
          (length (base ∷ bases))
          []
          s
          (attempts (base ∷ bases))
          (subscribe_report_with_candidates a s (base ∷ bases) cfg h)
  unfolding subscribe_report_with_candidates
  subscribe_report_with_candidates-Explains s base bases cfg h =
      candidates_loop-Explains a cfg h _ (base ∷ bases) [] s (omega arith)
