-- ===== src/Clib/Decimal.antt =====
-- The numbers that are read from the digits that were written for them.
use flint_rtos.Base.{
  ℕ, zero, suc, ◌+◌, ◌-◌, ◌*◌, ◌^◌, ◌≤◌, ◌<◌, ◌≡◌, refl, ◌∙◌, arith, ap, true, false, ◌&&◌, ◌==◌,
  leb, some, List, [], ◌∷◌, length,
}
use flint_rtos.Int.{pos, ◌+ℤ◌, ◌-ℤ◌, ◌*ℤ◌, wrap}
use flint_rtos.Jsonw.{u64_to_str}
use flint_rtos.Jsonw.Number.{spelt, AreDigits, spelt-u64_to_str}
use flint_rtos.Clib.{digit_value, strtol_from, past_prefix, strtol, atoi_from, atoi}
use flint_rtos.Clib.Text.{IsString}

spelt-ge : (acc : ℕ) (t : List ℕ) → acc ≤ spelt acc t
unfolding spelt
spelt-ge acc [] = omega arith
spelt-ge acc (c ∷ t) = let rest = spelt-ge (acc * 10 + (c - 48)) t in omega (arith, rest)

word_step :
    (acc d : ℕ) → acc * 10 + d < 2 ^ 63 → wrap 64 (pos acc *ℤ 10 +ℤ pos d) ≡ pos (acc * 10 + d)
unfolding wrap ◌+ℤ◌ ◌*ℤ◌
word_step acc d small = ground arith

int_step :
    (acc c : ℕ)
    → 48 ≤ c
    → acc * 10 + (c - 48) < 2 ^ 31
    → wrap 32 (pos acc *ℤ 10 +ℤ (pos c -ℤ pos 48)) ≡ pos (acc * 10 + (c - 48))
unfolding wrap ◌+ℤ◌ ◌*ℤ◌ ◌-ℤ◌
int_step acc c digit small = ground arith

digit_value-digit : (c : ℕ) → 48 ≤ c → c ≤ 57 → digit_value c ≡ some (c - 48)
unfolding digit_value
digit_value-digit c low high = ground arith

strtol_from-spelt :
    (fuel acc p : ℕ) (t : List ℕ) (m : ℕ → ℕ)
    → AreDigits t
    → IsString t p m
    → length t < fuel
    → spelt acc t < 2 ^ 63
    → strtol_from fuel 10 (pos acc) p m ≡ some (pos (spelt acc t), p + length t)
unfolding strtol_from spelt digit_value
strtol_from-spelt zero acc p t m digits is enough small = absurd (omega arith)
strtol_from-spelt (suc fuel) acc p [] m digits end enough small =
    rw (strtol_from, end) (ap (λ e. some (pos acc, e)) (omega arith))
strtol_from-spelt (suc fuel) acc p (c ∷ t) m (low, high, more) (here, some_c, rest) enough small =
    let bound = spelt-ge (acc * 10 + (c - 48)) t in
    let step = word_step acc (c - 48) (omega (arith, bound, small)) in
    let on : leb 10 (c - 48) ≡ false = ground arith in
    let later =
      strtol_from-spelt fuel (acc * 10 + (c - 48)) (p + 1) t m more rest (omega arith) small in
    rw (strtol_from, here, digit_value-digit c low high, on, step)
      (later ∙ ap (λ e. some (pos (spelt (acc * 10 + (c - 48)) t), e)) (omega arith))

atoi_from-spelt :
    (fuel acc p : ℕ) (t : List ℕ) (m : ℕ → ℕ)
    → AreDigits t
    → IsString t p m
    → length t < fuel
    → spelt acc t < 2 ^ 31
    → atoi_from fuel (pos acc) p m ≡ some (pos (spelt acc t))
unfolding atoi_from spelt
atoi_from-spelt zero acc p t m digits is enough small = absurd (omega arith)
atoi_from-spelt (suc fuel) acc p [] m digits end enough small = rw end refl
atoi_from-spelt (suc fuel) acc p (c ∷ t) m (low, high, more) (here, some_c, rest) enough small =
    let bound = spelt-ge (acc * 10 + (c - 48)) t in
    let step = int_step acc c low (omega (arith, bound, small)) in
    let on : (leb 48 c && leb c 57) ≡ true = ground arith in
    rw (here, on, step)
      (atoi_from-spelt fuel (acc * 10 + (c - 48)) (p + 1) t m more rest (omega arith) small)

-- No digit is a minus sign.
unsigned : (t : List ℕ) (s : ℕ) (m : ℕ → ℕ) → AreDigits t → IsString t s m → (m s == b'-') ≡ false
unsigned [] s m digits end = ground (arith, end)
unsigned (c ∷ t) s m (low, high, more) (here, some_c, rest) = ground (arith, here)

-- The decimal digits that fm_u64_to_str writes for a number below 2 ^ 63, as a string in memory, are read back
-- by strtol in base 10, which ends at the terminator, with fuel for more rounds than the twenty digits
-- that there can be.
pub strtol-u64_to_str :
    (fuel s v : ℕ) (m : ℕ → ℕ)
    → v < 2 ^ 63
    → IsString (u64_to_str v) s m
    → 20 < fuel
    → strtol fuel s 10 m ≡ some (pos v, s + length (u64_to_str v))
unfolding strtol past_prefix wrap
strtol-u64_to_str fuel s v m small is enough =
    let (value, digits, short) = spelt-u64_to_str v (omega arith) in
    let plus = unsigned (u64_to_str v) s m digits is in
    let long =
      strtol_from-spelt fuel 0 s (u64_to_str v) m digits is (omega (arith, short))
        (omega (arith, value)) in
    rw (strtol, plus, long, value) (ap (λ n. some (n, s + length (u64_to_str v))) (ground arith))

-- Likewise by atoi, for a number below 2 ^ 31.
pub atoi-u64_to_str :
    (fuel s v : ℕ) (m : ℕ → ℕ)
    → v < 2 ^ 31
    → IsString (u64_to_str v) s m
    → 20 < fuel
    → atoi fuel s m ≡ some (pos v)
unfolding atoi wrap
atoi-u64_to_str fuel s v m small is enough =
    let (value, digits, short) = spelt-u64_to_str v (omega arith) in
    let plus = unsigned (u64_to_str v) s m digits is in
    let all =
      atoi_from-spelt fuel 0 s (u64_to_str v) m digits is (omega (arith, short))
        (omega (arith, value)) in
    rw (atoi, plus, all, value) (ap some (ground arith))
