-- ===== src/MqttClient/Trim.antt =====
-- The blanks around a command.
use flint_rtos.Base.{
  ℕ, zero, suc, ◌+◌, ◌-◌, ◌≤◌, ◌<◌, ◌≡◌, false, ==_decides, refl, ◌∙◌, arith, ap, sym, subst, true,
  ltb, if◌then◌else◌, ◌⊎◌, inl, inr, List, [], ◌∷◌, ◌++◌, length, length-append, take, get_or,
  Bool-cases,
}
use flint_rtos.MqttClient.State.{Platform, Running}
use flint_rtos.MqttClient.Command.{
  is_blank, skip_blanks, end_of, command_of, one_command_more, answer_to, with_pending,
  handle_command,
}

-- A space, a line end or a tab, and a row of such bytes.
abbrev pub IsSpace : ℕ → Type 0
IsSpace c = (c ≡ 32) ⊎ ((c ≡ 10) ⊎ ((c ≡ 13) ⊎ (c ≡ 9)))

abbrev pub IsBlank : List ℕ → Type 0
IsBlank [] = Unit
IsBlank (c ∷ s) = IsSpace c × IsBlank s

-- There is no byte, or the first one and the last one are none of them.
abbrev pub IsTrimmed : List ℕ → Type 0
IsTrimmed p =
    (p ≡ [])
    ⊎ ((0 < length p) × ¬ (IsSpace (get_or p 0 0)) × ¬ (IsSpace (get_or p (length p - 1) 0)))

-- The test of the code holds throughout.
abbrev AllBlank : List ℕ → Type 0
AllBlank [] = Unit
AllBlank (c ∷ s) = (is_blank c ≡ true) × AllBlank s

is_blank-IsSpace : (c : ℕ) → IsSpace c → is_blank c ≡ true
is_blank-IsSpace c s = ground arith

is_blank-other : (c : ℕ) → ¬ (IsSpace c) → is_blank c ≡ false
is_blank-other c s = elim (Bool-cases (is_blank c)) [ inl e ↦ absurd (s (named c e)) | inr e ↦ e ]
  where
    named : (c : ℕ) → is_blank c ≡ true → IsSpace c
    named c e = elim (==_decides c 32) [
      | inl a ↦ inl a
      | inr a ↦ elim (==_decides c 10) [
        | inl b ↦ inr (inl b)
        | inr b ↦ elim (==_decides c 13) [
          | inl d ↦ inr (inr (inl d))
          | inr d ↦ inr (inr (inr (ground (arith, e, a, b, d))))
        ]
      ]
    ]

IsBlank-AllBlank : (s : List ℕ) → IsBlank s → AllBlank s
IsBlank-AllBlank [] b = tt
IsBlank-AllBlank (c ∷ s) (here, rest) = (is_blank-IsSpace c here, IsBlank-AllBlank s rest)

skip_blanks-front : (s p : List ℕ) → AllBlank s → skip_blanks (s ++ p) ≡ skip_blanks p
unfolding skip_blanks
skip_blanks-front [] p b = refl
skip_blanks-front (c ∷ s) p (here, rest) = rw here (skip_blanks-front s p rest)

skip_blanks-all : (s : List ℕ) → AllBlank s → skip_blanks s ≡ []
unfolding skip_blanks
skip_blanks-all [] b = refl
skip_blanks-all (c ∷ s) (here, rest) = rw here (skip_blanks-all s rest)

skip_blanks-back :
    (p s : List ℕ)
    → AllBlank s
    → (skip_blanks (p ++ s) ≡ skip_blanks p ++ s)
      ⊎ ((skip_blanks (p ++ s) ≡ []) × (skip_blanks p ≡ []))
unfolding skip_blanks
skip_blanks-back [] s b = inr (skip_blanks-all s b, refl)
skip_blanks-back (c ∷ p) s b = elim (Bool-cases (is_blank c)) [
  | inl e ↦ rw e (skip_blanks-back p s b)
  | inr e ↦ rw e (inl refl)
]

get_or-front : (p s : List ℕ) (i : ℕ) → i < length p → get_or (p ++ s) i 0 ≡ get_or p i 0
get_or-front [] s i lt = absurd (omega arith)
get_or-front (c ∷ p) s zero lt = refl
get_or-front (c ∷ p) s (suc i) lt = get_or-front p s i (omega arith)

blank_at :
    (p s : List ℕ) (k : ℕ)
    → AllBlank s
    → k < length s
    → is_blank (get_or (p ++ s) (length p + k) 0) ≡ true
blank_at (c ∷ p) s k b lt =
    let up : suc (length p) + k ≡ suc (length p + k) = omega arith in rw up (blank_at p s k b lt)
blank_at [] [] k b lt = absurd (omega arith)
blank_at [] (c ∷ s) zero b lt = b.0
blank_at [] (c ∷ s) (suc k) b lt =
    let up : 0 + suc k ≡ suc k = omega arith in
    let again = blank_at [] s k b.1 (omega arith) in
    let zero_up : 0 + k ≡ k = omega arith in
    rw up (subst (λ i. is_blank (get_or s i 0) ≡ true) zero_up again)

end_of-front : (e : ℕ) (p s : List ℕ) → e ≤ length p → end_of e (p ++ s) ≡ end_of e p
unfolding end_of
end_of-front zero p s le = refl
end_of-front (suc e) p s le =
    rw (get_or-front p s e (omega arith), end_of-front e p s (omega arith)) refl

end_of-back :
    (k : ℕ) (p s : List ℕ)
    → AllBlank s
    → k ≤ length s
    → end_of (length p + k) (p ++ s) ≡ end_of (length p) (p ++ s)
unfolding end_of
end_of-back zero p s b le = ap (λ e. end_of e (p ++ s)) (omega arith)
end_of-back (suc k) p s b le =
    let up : length p + suc k ≡ suc (length p + k) = omega arith in
    let blank = blank_at p s k b (omega arith) in rw (up, blank) (end_of-back k p s b (omega arith))

end_of-le : (e : ℕ) (p : List ℕ) → end_of e p ≤ e
unfolding end_of
end_of-le zero p = omega arith
end_of-le (suc e) p = let before = end_of-le e p in ground (arith, before)

take-front : (n : ℕ) (p s : List ℕ) → n ≤ length p → take n (p ++ s) ≡ take n p
take-front zero p s le = refl
take-front (suc n) [] s le = absurd (omega arith)
take-front (suc n) (c ∷ p) s le = ap (λ t. c ∷ t) (take-front n p s (omega arith))

-- The bytes that are kept of what follows the blanks at the front.
abbrev kept : List ℕ → List ℕ
kept q = let n = end_of (length q) q in take (if ltb n 47 then n else 47) q

kept-back : (q s : List ℕ) → AllBlank s → kept (q ++ s) ≡ kept q
kept-back q s b =
    let all : end_of (length (q ++ s)) (q ++ s) ≡ end_of (length q) q =
      ap (λ e. end_of e (q ++ s)) (length-append q s)
      ∙ (end_of-back (length s) q s b (omega arith) ∙ end_of-front (length q) q s (omega arith)) in
    let le = end_of-le (length q) q in rw all (take-front _ q s (ground (arith, le)))

command_of-trim :
    (before p behind : List ℕ)
    → AllBlank before
    → AllBlank behind
    → command_of (before ++ (p ++ behind)) ≡ command_of p
unfolding command_of
command_of-trim before p behind front back =
    ap kept (skip_blanks-front before (p ++ behind) front) ∙ elim (skip_blanks-back p behind back) [
      | inl e ↦ ap kept e ∙ kept-back (skip_blanks p) behind back
      | inr e ↦ ap kept (e.0 ∙ sym (e.1))
    ]

take-all : (n : ℕ) (p : List ℕ) → length p ≤ n → take n p ≡ p
take-all zero [] le = refl
take-all zero (c ∷ p) le = absurd (omega arith)
take-all (suc n) [] le = refl
take-all (suc n) (c ∷ p) le = ap (λ t. c ∷ t) (take-all n p (omega arith))

take-47 : (p : List ℕ) → take (if ltb (length p) 47 then length p else 47) p ≡ take 47 p
take-47 p = elim (Bool-cases (ltb (length p) 47)) [
  | inl e ↦ rw e (take-all (length p) p (omega arith) ∙ sym (take-all 47 p (ground (arith, e))))
  | inr e ↦ rw e refl
]

command_of-trimmed : (p : List ℕ) → IsTrimmed p → command_of p ≡ take 47 p
unfolding command_of skip_blanks end_of
command_of-trimmed [] t = refl
command_of-trimmed (c ∷ p) (inl none_there) = absurd (ground (arith, ap length none_there))
command_of-trimmed (c ∷ p) (inr (_, first, last)) =
    let front = is_blank-other c first in
    let place : suc (length p) - 1 ≡ length p = omega arith in
    let back : is_blank (get_or (c ∷ p) (length p) 0) ≡ false =
      is_blank-other _ (subst (λ i. ¬ (IsSpace (get_or (c ∷ p) i 0))) place last) in
    rw (front, back) (take-47 (c ∷ p))

module _ {W : Type 0} (io : Platform W) where
  -- Let a payload be spaces, line ends and tabs, then bytes of which the first and the last, if there are
  -- any, are none of these, then spaces, line ends and tabs again. Then handle_command counts a command,
  -- answers to the bytes between, of which it takes the first 47 if there are more, and leaves a reply
  -- pending.
  pub handle_command-trim :
      (before p behind : List ℕ) (r : Running W)
      → IsBlank before
      → IsBlank behind
      → IsTrimmed p
      → handle_command io (before ++ (p ++ behind)) r
        ≡ with_pending io true (answer_to io (take 47 p) (one_command_more io r))
  unfolding handle_command
  handle_command-trim before p behind r front back trimmed =
      ap (λ cmd. with_pending io true (answer_to io cmd (one_command_more io r)))
        (command_of-trim before p behind (IsBlank-AllBlank before front)
            (IsBlank-AllBlank behind back)
          ∙ command_of-trimmed p trimmed)
