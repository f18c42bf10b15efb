-- ===== src/PtpTime/Value.antt =====
-- A time as a number of nanoseconds.
use flint_rtos.Base.{ℕ, ◌+◌, ◌-◌, ◌*◌, ◌^◌, ◌<◌, ◌≡◌, ◌⊎◌, refl, arith, ◌∙◌}
use flint_rtos.Int.{ℤ, pos_part, neg_part, ◌+ℤ◌, ◌-ℤ◌, ◌*ℤ◌, quot, rem, wrap, signed}
use flint_rtos.PtpTime.{TimeInternal, ns_per_s, align, normalize, add, sub, to_ns, ns_to_time}

-- The absolute value is below `n`.
abbrev pub Below : ℕ → ℤ → Type 0
Below n a = (pos_part a < n) × (neg_part a < n)

-- A word of `w` bits stays as it is.
wrap-32 : (a : ℤ) → Below (2 ^ 31) a → wrap 32 a ≡ a
unfolding wrap
wrap-32 a b = ground arith

wrap-64 : (a : ℤ) → Below (2 ^ 63) a → wrap 64 a ≡ a
unfolding wrap
wrap-64 a b = ground arith

-- The value, without a bound.
abbrev pub value : TimeInternal → ℤ
value t = t.seconds *ℤ ns_per_s +ℤ t.nanoseconds

-- Both parts have the same sign, or one of them is 0.
pub record IsNormal (t : TimeInternal) : Type 0 where
  pub small : Below ns_per_s t.nanoseconds
  pub signs :
      (neg_part t.seconds + neg_part t.nanoseconds ≡ 0)
      ⊎ (pos_part t.seconds + pos_part t.nanoseconds ≡ 0)

align-value :
    (t : TimeInternal)
    → Below (2 ^ 31) t.seconds
    → Below ns_per_s t.nanoseconds
    → value (align t) ≡ value t
unfolding align ◌+ℤ◌ ◌-ℤ◌ ◌*ℤ◌ wrap
align-value t bs bn = ground arith

align-IsNormal :
    (t : TimeInternal)
    → Below (2 ^ 31) t.seconds
    → Below ns_per_s t.nanoseconds
    → IsNormal (align t)
unfolding align ◌+ℤ◌ ◌-ℤ◌ ◌*ℤ◌ wrap
align-IsNormal t bs bn = record { small = ground arith; signs = ground arith }

quot-rem : (a : ℤ) → quot a ns_per_s *ℤ ns_per_s +ℤ rem a ns_per_s ≡ a
unfolding quot rem ◌+ℤ◌ ◌*ℤ◌
quot-rem a = ground arith

normalized : TimeInternal → TimeInternal
normalized t = record {
  seconds = t.seconds +ℤ quot t.nanoseconds ns_per_s;
  nanoseconds = rem t.nanoseconds ns_per_s;
}

module _ (t : TimeInternal) (bs : Below (2 ^ 31 - 3) t.seconds)
    (bn : Below (2 ^ 31) t.nanoseconds) where
  few : Below 3 (quot t.nanoseconds ns_per_s)
  unfolding quot
  few = ground arith

  sum-Below : Below (2 ^ 31) (t.seconds +ℤ quot t.nanoseconds ns_per_s)
  unfolding ◌+ℤ◌
  sum-Below = ground (arith, few)

  rest-Below : Below ns_per_s (rem t.nanoseconds ns_per_s)
  unfolding rem
  rest-Below = ground arith

  normalize-align : normalize t ≡ align (normalized t)
  unfolding normalize normalized
  normalize-align = rw (wrap-32 _ sum-Below) refl

  regroup : (a b c d : ℤ) → b *ℤ ns_per_s +ℤ c ≡ d → (a +ℤ b) *ℤ ns_per_s +ℤ c ≡ a *ℤ ns_per_s +ℤ d
  unfolding ◌+ℤ◌ ◌*ℤ◌
  regroup a b c d e = ground arith

  -- With few enough seconds, ptp_time_normalize keeps the value.
  pub normalize-value : value (normalize t) ≡ value t
  unfolding normalized
  normalize-value = rw normalize-align (
      align-value (normalized t) sum-Below rest-Below
      ∙ regroup t.seconds (quot t.nanoseconds ns_per_s) (rem t.nanoseconds ns_per_s) t.nanoseconds
          (quot-rem t.nanoseconds))

  pub normalize-IsNormal : IsNormal (normalize t)
  unfolding normalized
  normalize-IsNormal = rw normalize-align (align-IsNormal (normalized t) sum-Below rest-Below)

-- A normal time of half the range at most.
pub record IsShort (t : TimeInternal) : Type 0 where
  pub seconds_below : Below (2 ^ 30 - 2) t.seconds
  pub small : Below ns_per_s t.nanoseconds

+ℤ-Below : (m n : ℕ) (a b : ℤ) → Below m a → Below n b → Below (m + n) (a +ℤ b)
unfolding ◌+ℤ◌
+ℤ-Below m n a b ba bb = ground arith

-ℤ-Below : (m n : ℕ) (a b : ℤ) → Below m a → Below n b → Below (m + n) (a -ℤ b)
unfolding ◌-ℤ◌
-ℤ-Below m n a b ba bb = ground arith

sum_of_values :
    (a b c d : ℤ) → (a +ℤ b) *ℤ ns_per_s +ℤ (c +ℤ d) ≡ (a *ℤ ns_per_s +ℤ c) +ℤ (b *ℤ ns_per_s +ℤ d)
sum_of_values a b c d = omega signed

difference_of_values :
    (a b c d : ℤ) → (a -ℤ b) *ℤ ns_per_s +ℤ (c -ℤ d) ≡ (a *ℤ ns_per_s +ℤ c) -ℤ (b *ℤ ns_per_s +ℤ d)
difference_of_values a b c d = omega signed

-- For times of less than 2 ^ 30 - 2 seconds with nanoseconds below a second, ptp_time_add gives a normal
-- time whose value is the sum of the values.
pub add-value :
    (x y : TimeInternal)
    → IsShort x
    → IsShort y
    → IsNormal (add x y) × (value (add x y) ≡ value x +ℤ value y)
unfolding add
add-value x y sx sy =
    let s = +ℤ-Below _ _ x.seconds y.seconds sx.seconds_below sy.seconds_below in
    let n = +ℤ-Below _ _ x.nanoseconds y.nanoseconds sx.small sy.small in
    let bs : Below (2 ^ 31 - 3) (x.seconds +ℤ y.seconds) = (omega arith, omega arith) in
    let bn : Below (2 ^ 31) (x.nanoseconds +ℤ y.nanoseconds) = (omega arith, omega arith) in
    rw
      (
        wrap-32 (x.seconds +ℤ y.seconds) (omega arith, omega arith),
        wrap-32 (x.nanoseconds +ℤ y.nanoseconds) bn,
      )
      (
        normalize-IsNormal _ bs bn,
        normalize-value _ bs bn ∙ sum_of_values x.seconds y.seconds x.nanoseconds y.nanoseconds,
      )

-- For times of less than 2 ^ 30 - 2 seconds with nanoseconds below a second, ptp_time_sub gives a normal
-- time whose value is the difference of the values.
pub sub-value :
    (x y : TimeInternal)
    → IsShort x
    → IsShort y
    → IsNormal (sub x y) × (value (sub x y) ≡ value x -ℤ value y)
unfolding sub
sub-value x y sx sy =
    let s = -ℤ-Below _ _ x.seconds y.seconds sx.seconds_below sy.seconds_below in
    let n = -ℤ-Below _ _ x.nanoseconds y.nanoseconds sx.small sy.small in
    let bs : Below (2 ^ 31 - 3) (x.seconds -ℤ y.seconds) = (omega arith, omega arith) in
    let bn : Below (2 ^ 31) (x.nanoseconds -ℤ y.nanoseconds) = (omega arith, omega arith) in
    rw
      (
        wrap-32 (x.seconds -ℤ y.seconds) (omega arith, omega arith),
        wrap-32 (x.nanoseconds -ℤ y.nanoseconds) bn,
      )
      (
        normalize-IsNormal _ bs bn,
        normalize-value _ bs bn
            ∙ difference_of_values x.seconds y.seconds x.nanoseconds y.nanoseconds,
      )

-- Two normal times with one value are the same.
pub normal_unique :
    (a b c d : ℤ)
    → IsNormal (record { seconds = a; nanoseconds = c })
    → IsNormal (record { seconds = b; nanoseconds = d })
    → a *ℤ ns_per_s +ℤ c ≡ b *ℤ ns_per_s +ℤ d
    → (a ≡ b) × (c ≡ d)
unfolding ◌+ℤ◌ ◌*ℤ◌
normal_unique a b c d n m e = (
  ground (arith, n.small, n.signs, m.small, m.signs),
  ground (arith, n.small, n.signs, m.small, m.signs),
)

pub to_ns-value :
    (t : TimeInternal) → Below (2 ^ 31) t.seconds → Below (2 ^ 31) t.nanoseconds → to_ns t ≡ value t
unfolding to_ns ◌+ℤ◌ ◌*ℤ◌ wrap
to_ns-value t bs bn = ground arith

quot-small : (ns : ℤ) → Below ((2 ^ 31 - 3) * ns_per_s) ns → Below (2 ^ 31 - 3) (quot ns ns_per_s)
unfolding quot
quot-small ns b = ground arith

rem-small : (ns : ℤ) → Below ns_per_s (rem ns ns_per_s)
unfolding rem
rem-small ns = ground arith

-- Any number of nanoseconds of less than 2 ^ 31 - 3 seconds becomes a normal time of that value.
pub ns_to_time-value :
    (ns : ℤ)
    → Below ((2 ^ 31 - 3) * ns_per_s) ns
    → IsNormal (ns_to_time ns) × (value (ns_to_time ns) ≡ ns)
unfolding ns_to_time
ns_to_time-value ns b =
    let bs : Below (2 ^ 31 - 3) (quot ns ns_per_s) = quot-small ns b in
    let bn : Below ns_per_s (rem ns ns_per_s) = rem-small ns in
    rw
      (
        wrap-32 (quot ns ns_per_s) (omega arith, omega arith),
        wrap-32 (rem ns ns_per_s) (omega arith, omega arith),
      )
      (
        normalize-IsNormal _ bs (omega arith, omega arith),
        normalize-value _ bs (omega arith, omega arith) ∙ quot-rem ns,
      )
