-- ===== src/Clib/Block.antt =====
-- A block that is moved, and two that are compared.
use flint_rtos.Base.{
  ℕ, zero, suc, ◌+◌, ◌-◌, ◌≤◌, ◌<◌, ◌≡◌, refl, sym, ◌≢◌, arith, ◌↔◌, ap, ◌∙◌, ◌&&◌, leb, ltb, ◌==◌,
  if◌then◌else◌, update, either, Bool-cases, inl, inr, true, false,
}
use flint_rtos.Int.{pos, ◌-ℤ◌}
use flint_rtos.Clib.{copy_up, copy_down, memmove, memcmp}

-- The memory after the bytes that stood from `s` on are written from `d` on.
abbrev pub moved : ℕ → ℕ → ℕ → (ℕ → ℕ) → ℕ → ℕ
moved d s n m i = if leb d i && ltb i (d + n) then m (s + (i - d)) else m i

copy_up-moved : (d s n : ℕ) (m : ℕ → ℕ) (i : ℕ) → d < s → copy_up d s n m i ≡ moved d s n m i
unfolding copy_up
copy_up-moved d s zero m i lt = ground arith
copy_up-moved d s (suc n) m i lt =
    either (λ v. v ≡ moved d s (suc n) m i) (i == d + n)
      (λ e.
        let at : i ≡ d + n = ground (arith, e) in
        let there : (leb d i && ltb i (d + suc n)) ≡ true = ground (arith, at) in
        let beyond : (leb d (s + n) && ltb (s + n) (d + n)) ≡ false = ground (arith, lt) in
        rw there (copy_up-moved d s n m (s + n) lt ∙ rw beyond (ap m (omega (arith, at)))))
      (λ e.
        let same : (leb d i && ltb i (d + suc n)) ≡ (leb d i && ltb i (d + n)) =
          ground (arith, e) in
        rw same (copy_up-moved d s n m i lt))

copy_down-moved : (d s n : ℕ) (m : ℕ → ℕ) (i : ℕ) → s ≤ d → copy_down d s n m i ≡ moved d s n m i
unfolding copy_down
copy_down-moved d s zero m i le = ground arith
copy_down-moved d s (suc n) m i le =
    copy_down-moved d s n (update m (d + n) (m (s + n))) i le ∙ elim (Bool-cases (i == d + n)) [
      | inl e ↦
          let at : i ≡ d + n = ground (arith, e) in
          let before : (leb d i && ltb i (d + n)) ≡ false = ground (arith, at) in
          let there : (leb d i && ltb i (d + suc n)) ≡ true = ground (arith, at) in
          rw (before, there, e) (ap m (omega (arith, at)))
      | inr e ↦
          let same : (leb d i && ltb i (d + suc n)) ≡ (leb d i && ltb i (d + n)) =
            ground (arith, e) in
          rw (same, e)
            (elim (Bool-cases (leb d i && ltb i (d + n))) [
              | inl inside ↦
                  let other : (s + (i - d) == d + n) ≡ false = ground (arith, inside, le) in
                  rw (inside, other) refl
              | inr outside ↦ rw outside refl
            ])
    ]

-- Whether the blocks overlap or not, memmove writes the bytes that stood in the source before the call.
pub memmove-moved : (d s n : ℕ) (m : ℕ → ℕ) (i : ℕ) → memmove d s n m i ≡ moved d s n m i
unfolding memmove
memmove-moved d s n m i =
    either (λ (f : ℕ → ℕ). f i ≡ moved d s n m i) (ltb d s)
      (λ e. copy_up-moved d s n m i (ground (arith, e)))
      (λ e. copy_down-moved d s n m i (ground (arith, e)))

one_up : (p i : ℕ) (m : ℕ → ℕ) → m (p + 1 + i) ≡ m (p + suc i)
one_up p i m = ap m (omega arith)

difference-zero : (x y : ℕ) → pos x -ℤ pos y ≡ pos 0 → x ≡ y
unfolding ◌-ℤ◌
difference-zero x y e = ground (arith, e)

first_too :
    (a b n : ℕ) (m : ℕ → ℕ)
    → m a ≡ m b
    → ((i : ℕ) → i < n → m (a + 1 + i) ≡ m (b + 1 + i))
    → (i : ℕ) → i < suc n
    → m (a + i) ≡ m (b + i)
first_too a b n m here later zero lt = ap m (omega arith) ∙ here ∙ ap m (omega arith)
first_too a b n m here later (suc i) lt = sym (one_up a i m) ∙ later i (omega arith) ∙ one_up b i m

-- memcmp answers 0 just if the two blocks hold the same bytes.
pub memcmp_iff :
    (a b n : ℕ) (m : ℕ → ℕ) → (memcmp a b n m ≡ pos 0) ↔ ((i : ℕ) → i < n → m (a + i) ≡ m (b + i))
unfolding memcmp
memcmp_iff a b zero m = (λ e i lt. absurd (omega arith), λ same. refl)
memcmp_iff a b (suc n) m =
    let (fwd, back) = memcmp_iff (a + 1) (b + 1) n m in
    elim (Bool-cases (m a == m b)) [
      | inl e ↦
          let here : m a ≡ m b = ground (arith, e) in
          rw e (
            λ zero_left. first_too a b n m here (fwd zero_left),
            λ same. back (λ i lt. one_up a i m ∙ same (suc i) (omega arith) ∙ sym (one_up b i m)),
          )
      | inr e ↦
          let apart : m a ≢ m b = ground (arith, e) in
          rw e (
            λ zero_left. absurd (apart (difference-zero (m a) (m b) zero_left)),
            λ same. absurd (apart (ap m (omega arith) ∙ same 0 (omega arith) ∙ ap m (omega arith))),
          )
    ]
