-- ===== src/Jsonw/Number.antt =====
-- The decimal numbers that the writer writes.
use native.Mathlib.Nat.{pow-suc}
use flint_rtos.Base.{
  ℕ, zero, suc, ◌+◌, ◌-◌, ◌*◌, ◌/◌, ◌%◌, ◌^◌, ◌≤◌, ◌<◌, ◌≡◌, refl, arith, ap, ◌∙◌, ◌==◌, List, [],
  ◌∷◌, length, inl, inr, Bool-cases,
}
use flint_rtos.Jsonw.{digits, u64_to_str}

-- The number that decimal digits spell, behind those that spell `acc`.
unfoldable pub spelt : ℕ → List ℕ → ℕ
spelt acc [] = acc
spelt acc (c ∷ s) = spelt (acc * 10 + (c - 48)) s

-- Decimal digits.
abbrev pub AreDigits : List ℕ → Type 0
AreDigits [] = Unit {0}
AreDigits (c ∷ s) = (48 ≤ c) × (c ≤ 57) × AreDigits s

more_fuel : (fuel v : ℕ) → v < 10 ^ suc fuel → 0 < v / 10 → 0 < fuel
more_fuel zero v small more = absurd (omega arith)
more_fuel (suc fuel) v small more = omega arith

digits-spelt :
    (fuel v : ℕ) (acc : List ℕ)
    → v < 10 ^ fuel
    → 0 < fuel
    → spelt 0 (digits fuel v acc) ≡ spelt v acc
unfolding digits spelt
digits-spelt zero v acc small some_fuel = absurd (omega arith)
digits-spelt (suc fuel) v acc small some_fuel = elim (Bool-cases (v / 10 == 0)) [
  | inl e ↦ rw e (ap (λ n. spelt n acc) (ground arith))
  | inr e ↦
      let more : 0 < fuel = more_fuel fuel v small (ground arith) in
      rw e (
        digits-spelt fuel (v / 10) ((48 + v % 10) ∷ acc) (omega (arith, pow-suc 10 fuel)) more
        ∙ ap (λ n. spelt n acc) (omega arith))
]

digits-AreDigits : (fuel v : ℕ) (acc : List ℕ) → AreDigits acc → AreDigits (digits fuel v acc)
unfolding digits
digits-AreDigits zero v acc a = a
digits-AreDigits (suc fuel) v acc a = elim (Bool-cases (v / 10 == 0)) [
  | inl e ↦ rw e (omega arith, omega arith, a)
  | inr e ↦ rw e (digits-AreDigits fuel (v / 10) _ (omega arith, omega arith, a))
]

length-digits : (fuel v : ℕ) (acc : List ℕ) → length (digits fuel v acc) ≤ length acc + fuel
unfolding digits
length-digits zero v acc = omega arith
length-digits (suc fuel) v acc = ground (arith, length-digits fuel (v / 10) ((48 + v % 10) ∷ acc))

-- A 64-bit word is written as decimal digits, twenty at most, that spell it.
pub spelt-u64_to_str :
    (v : ℕ)
    → v < 2 ^ 64
    → (spelt 0 (u64_to_str v) ≡ v) × AreDigits (u64_to_str v) × (length (u64_to_str v) ≤ 20)
unfolding u64_to_str
spelt-u64_to_str v small = (
  digits-spelt 20 v [] (omega arith) (omega arith) ∙ spelt-nil v,
  digits-AreDigits 20 v [] tt,
  length-digits 20 v [],
)
  where
    spelt-nil : (n : ℕ) → spelt n [] ≡ n
    spelt-nil n = unfold spelt in refl
