-- ===== src/PtpMsg/Bytes.antt =====
-- Words as rows of bytes, the high byte first.
use native.Mathlib.Nat.{pow-suc, div-div-eq-div-mul, mod-eq-sub-div-mul, div-mul-le_self}
use flint_rtos.Base.{
  ℕ, zero, suc, ◌+◌, ◌*◌, ◌/◌, ◌%◌, ◌^◌, ◌≤◌, ◌<◌, ◌≡◌, refl, arith, ap, ◌∙◌, bit_or, update,
}
use flint_rtos.Bits.{◌>>>◌, bit_or-shift}
use flint_rtos.PtpMsg.{from, be16, be32, be_bytes, put_bytes}

-- The first `n` bytes of `p` are bytes.
abbrev pub AreBytes : ℕ → (ℕ → ℕ) → Type 0
AreBytes n p = (i : ℕ) → i < n → p i < 256

-- The number that they spell.
unfoldable pub number : ℕ → (ℕ → ℕ) → ℕ
number zero p = 0
number (suc n) p = number n p * 256 + p n

number-lt : (n : ℕ) (p : ℕ → ℕ) → AreBytes n p → number n p < 256 ^ n
unfolding number
number-lt zero p b = omega arith
number-lt (suc n) p b =
    let ih = number-lt n p (λ i lt. b i (omega arith)) in
    let last = b n (omega arith) in omega (arith, pow-suc 256 n)

pub be_bytes-number :
    (n : ℕ) (p : ℕ → ℕ) → AreBytes n p → 256 ^ n ≤ 2 ^ 64 → be_bytes n p ≡ number n p
unfolding number be_bytes
be_bytes-number zero p b fits = refl
be_bytes-number (suc n) p b fits =
    let ih = be_bytes-number n p (λ i lt. b i (omega arith)) (omega (arith, pow-suc 256 n)) in
    let small = number-lt n p (λ i lt. b i (omega arith)) in
    let no_wrap : be_bytes n p * 2 ^ 8 % 2 ^ 64 ≡ number n p * 2 ^ 8 =
      omega (arith, pow-suc 256 n) in
    rw no_wrap (bit_or-shift 8 (number n p) (p n) (b n (omega arith)))

pub be_bytes_same :
    (n : ℕ) (p q : ℕ → ℕ) → ((i : ℕ) → i < n → p i ≡ q i) → be_bytes n p ≡ be_bytes n q
unfolding be_bytes
be_bytes_same zero p q h = refl
be_bytes_same (suc n) p q h =
    rw (be_bytes_same n p q (λ i lt. h i (omega arith)), h n (omega arith)) refl

-- A write of `n` bytes leaves the others as they are.
pub put_bytes-above :
    (n at v : ℕ) (buf : ℕ → ℕ) (i : ℕ) → at + n ≤ i → put_bytes n at v buf i ≡ buf i
unfolding put_bytes
put_bytes-above zero at v buf i le = refl
put_bytes-above (suc n) at v buf i le =
    put_bytes-above n at (v >>> 8) _ i (omega arith) ∙ ground arith

pub put_bytes-below : (n at v : ℕ) (buf : ℕ → ℕ) (i : ℕ) → i < at → put_bytes n at v buf i ≡ buf i
unfolding put_bytes
put_bytes-below zero at v buf i lt = refl
put_bytes-below (suc n) at v buf i lt = put_bytes-below n at (v >>> 8) _ i lt ∙ ground arith

mod-shift_byte : (v n : ℕ) → v % 256 ^ suc n ≡ v / 256 % 256 ^ n * 256 + v % 256
mod-shift_byte v n =
    let k : ℕ = 256 ^ n in
    let e : v / 256 / k ≡ v / 256 ^ suc n =
      div-div-eq-div-mul v 256 k ∙ ap (λ (d : ℕ). v / d) (omega (arith, pow-suc 256 n)) in
    omega (
      arith,
      mod-eq-sub-div-mul v (256 ^ suc n),
      mod-eq-sub-div-mul (v / 256) k,
      e,
      ap (λ (q : ℕ). q * 256 ^ suc n) e,
      ap (λ (q : ℕ). q * k) e,
      ap (λ (t : ℕ). v / 256 ^ suc n * t) (pow-suc 256 n),
      div-mul-le_self (v / 256) k,
    )

-- The bytes that are written spell the low part of the word.
pub number-put_bytes :
    (n at v : ℕ) (buf : ℕ → ℕ) → number n (from at (put_bytes n at v buf)) ≡ v % 256 ^ n
unfolding number put_bytes
number-put_bytes zero at v buf = omega arith
number-put_bytes (suc n) at v buf =
    let last : put_bytes n at (v >>> 8) (update buf (at + n) (v % 2 ^ 8)) (at + n) ≡ v % 256 =
      put_bytes-above n at (v >>> 8) _ (at + n) (omega arith) ∙ ground arith in
    omega (
      arith,
      number-put_bytes n at (v >>> 8) (update buf (at + n) (v % 2 ^ 8)),
      last,
      mod-shift_byte v n,
    )

put_bytes-lt : (n at v : ℕ) (buf : ℕ → ℕ) → AreBytes n (from at (put_bytes n at v buf))
unfolding put_bytes
put_bytes-lt zero at v buf i lt = absurd (omega arith)
put_bytes-lt (suc n) at v buf i lt = ground (
  arith,
  put_bytes-lt n at (v >>> 8) (update buf (at + n) (v % 2 ^ 8)) i,
  put_bytes-above n at (v >>> 8) (update buf (at + n) (v % 2 ^ 8)) (at + n),
)

-- A word of `n` bytes, at most 8, that is written is read back.
pub be_bytes-put_bytes :
    (n at v : ℕ) (buf : ℕ → ℕ)
    → 256 ^ n ≤ 2 ^ 64
    → be_bytes n (from at (put_bytes n at v buf)) ≡ v % 256 ^ n
be_bytes-put_bytes n at v buf fits =
    be_bytes-number n (from at (put_bytes n at v buf)) (put_bytes-lt n at v buf) fits
    ∙ number-put_bytes n at v buf

pub be16-bytes :
    (p : ℕ → ℕ) (v : ℕ) → v < 2 ^ 16 → p 0 ≡ v / 2 ^ 8 % 2 ^ 8 → p 1 ≡ v % 2 ^ 8 → be16 p ≡ v
unfolding be16
be16-bytes p v b h0 h1 =
    rw (h0, h1) (omega (arith, bit_or-shift 8 (v / 2 ^ 8 % 2 ^ 8) (v % 2 ^ 8) (omega arith)))

pub be32-bytes :
    (p : ℕ → ℕ) (v : ℕ)
    → v < 2 ^ 32
    → p 0 ≡ v / 2 ^ 24 % 2 ^ 8
    → p 1 ≡ v / 2 ^ 16 % 2 ^ 8
    → p 2 ≡ v / 2 ^ 8 % 2 ^ 8
    → p 3 ≡ v % 2 ^ 8
    → be32 p ≡ v
unfolding be32
be32-bytes p v b h0 h1 h2 h3 =
    let a : ℕ = v / 2 ^ 24 % 2 ^ 8 in
    let c : ℕ = v / 2 ^ 16 % 2 ^ 8 in
    let d : ℕ = v / 2 ^ 8 % 2 ^ 8 in
    let no_wrap : a * 2 ^ 24 % 2 ^ 32 ≡ a * 2 ^ 24 = omega arith in
    let two : bit_or (a * 2 ^ 24) (c * 2 ^ 16) ≡ (a * 2 ^ 8 + c) * 2 ^ 16 =
      bit_or-shift 24 a (c * 2 ^ 16) (omega arith) ∙ omega arith in
    let three : bit_or ((a * 2 ^ 8 + c) * 2 ^ 16) (d * 2 ^ 8)
        ≡ ((a * 2 ^ 8 + c) * 2 ^ 8 + d) * 2 ^ 8 =
      bit_or-shift 16 (a * 2 ^ 8 + c) (d * 2 ^ 8) (omega arith) ∙ omega arith in
    rw (h0, h1, h2, h3, no_wrap, two, three)
      (bit_or-shift 8 ((a * 2 ^ 8 + c) * 2 ^ 8 + d) (v % 2 ^ 8) (omega arith) ∙ omega arith)
