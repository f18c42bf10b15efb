-- ===== src/Queue/Slots.antt =====
-- The storage of a queue as slots of one item each.
use flint_rtos.Base.{
  ℕ, zero, suc, ◌+◌, ◌-◌, ◌*◌, ◌≤◌, ◌<◌, ◌≡◌, arith, ap, sym, ◌∙◌, ◌==◌, ◌&&◌, ltb, leb,
  if◌then◌else◌, Bool-cases, ==_decides, inl, inr,
}
use flint_rtos.Queue.{copy_bytes}

pub at-copy_bytes :
    (n dest : ℕ) (src m : ℕ → ℕ) (a : ℕ)
    → copy_bytes n dest src m a ≡ (if leb dest a && ltb a (dest + n) then src (a - dest) else m a)
unfolding copy_bytes
at-copy_bytes zero dest src m a = ground arith
at-copy_bytes (suc n) dest src m a = elim (==_decides a (dest + n)) [
  | inl e ↦ let d : dest + n - dest ≡ n = omega arith in rw (e, d) (ground arith)
  | inr ne ↦ ground (arith, at-copy_bytes n dest src m a)
]

pub mul_mono : (a b c : ℕ) → a ≤ b → a * c ≤ b * c
mul_mono a b c le = grind arith

pub mul_next : (a c : ℕ) → (a + 1) * c ≡ a * c + c
mul_next a c = grind arith

-- The item of slot `a` covers just the bytes of that slot.
pub slot-covers :
    (a b c i : ℕ) → i < c → (leb (a * c) (b * c + i) && ltb (b * c + i) (a * c + c)) ≡ (a == b)
slot-covers a b c i lt = elim (Bool-cases (ltb a b)) [
  | inl below ↦ ground (arith, mul_mono (a + 1) b c (ground arith), mul_next a c)
  | inr above ↦ elim (==_decides a b) [
    | inl e ↦ rw e (ground arith)
    | inr ne ↦ ground (arith, mul_mono (b + 1) a c (ground arith), mul_next b c)
  ]
]

-- The slot after the last one is the first.
abbrev pub wrap : ℕ → ℕ → ℕ
wrap n x = if ltb x n then x else x - n

pub advance_lem :
    (w c n : ℕ)
    → 0 < c
    → w < n
    → (if leb (n * c) (w * c + c) then 0 else w * c + c) ≡ wrap n (w + 1) * c
advance_lem w c n pos lt = elim (==_decides (w + 1) n) [
  | inl e ↦
      let full : n * c ≡ w * c + c = ap (λ a. a * c) (sym e) ∙ mul_next w c in
      let first : wrap n (w + 1) ≡ 0 = ground arith in rw first (ground (arith, full))
  | inr ne ↦
      let next : wrap n (w + 1) ≡ w + 1 = ground arith in
      let room : (w + 2) * c ≡ w * c + c + c = grind arith in
      rw (next, mul_next w c) (ground (arith, room, mul_mono (w + 2) n c (omega arith)))
]

-- The slot before the first one is the last.
abbrev pub back : ℕ → ℕ → ℕ
back n x = if x == 0 then n - 1 else x - 1

pub retreat_lem :
    (r c n : ℕ) → 0 < c → r < n → (if r * c == 0 then n * c - c else r * c - c) ≡ back n r * c
retreat_lem zero c zero pos lt = elim lt [ ]
retreat_lem zero c (suc n) pos lt =
    let e : (n + 1) * c ≡ n * c + c = mul_next n c in ground (arith, e)
retreat_lem (suc r) c n pos lt = let e : (r + 1) * c ≡ r * c + c = mul_next r c in ground (arith, e)
