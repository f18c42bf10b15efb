-- ===== src/MsgTag/Fields.antt =====
-- What a packed tag holds, and what a refused call does.
use flint_rtos.Base.{ℕ, ◌+◌, ◌-◌, ◌*◌, ◌/◌, ◌%◌, ◌^◌, ◌≤◌, ◌<◌, ◌≡◌, some}
use flint_rtos.Base.{arith}
use flint_rtos.Base.{ltb, if◌then◌else◌, ◌||◌}
use native.Mathlib.Nat.{mod-eq_of_lt}
use flint_rtos.Bits.{bit_or-shift_low, bit_and-mask, zero-bit_or}
use flint_rtos.Status.{Status}
use flint_rtos.MsgTag.{field, tag_word, pack, label, length, ncaps, flags}

-- The arguments that `flint_msgtag_pack` accepts, by their bounds.
abbrev pub Fits : ℕ → ℕ → ℕ → Type 0
Fits len caps fl = (len ≤ 64) × (caps ≤ 4) × (fl ≤ 63)

label_sum : (t : ℕ) → label t ≡ t / 65536 % 65536
unfolding label
label_sum t = omega (arith, bit_and-mask 16 (t / 65536))

length_sum : (t : ℕ) → length t ≡ t / 512 % 128
unfolding length
length_sum t = omega (arith, bit_and-mask 7 (t / 512))

ncaps_sum : (t : ℕ) → ncaps t ≡ t / 64 % 8
unfolding ncaps
ncaps_sum t = omega (arith, bit_and-mask 3 (t / 64))

flags_sum : (t : ℕ) → flags t ≡ t % 64
unfolding flags
flags_sum t = omega (arith, bit_and-mask 6 (t / 1))

field_sum :
    (x k shift : ℕ) → x < 2 ^ k → x * 2 ^ shift < 2 ^ 32 → field x (2 ^ k - 1) shift ≡ x * 2 ^ shift
unfolding field
field_sum x k shift h fits = rw (bit_and-mask k x, mod-eq_of_lt h) (mod-eq_of_lt fits)

tag_sum :
    (lab len caps fl : ℕ)
    → lab < 65536
    → Fits len caps fl
    → tag_word lab len caps fl ≡ fl + caps * 64 + len * 512 + lab * 65536
unfolding tag_word
tag_sum lab len caps fl hl h =
    rw
      (
        field_sum fl 6 0 (omega arith) (omega arith),
        field_sum caps 3 6 (omega arith) (omega arith),
        field_sum len 7 9 (omega arith) (omega arith),
        field_sum lab 16 16 (omega arith) (omega arith),
        zero-bit_or (fl * 2 ^ 0),
        bit_or-shift_low 6 caps (fl * 2 ^ 0) (omega arith),
        bit_or-shift_low 9 len (fl * 2 ^ 0 + caps * 2 ^ 6) (omega arith),
        bit_or-shift_low 16 lab (fl * 2 ^ 0 + caps * 2 ^ 6 + len * 2 ^ 9) (omega arith),
      )
      (omega arith)

-- Within the bounds a call returns FLINT_OK and writes a 32-bit tag from which the four accessors
-- read back the four arguments.
pub pack-fields :
    (lab len caps fl out : ℕ)
    → lab < 65536
    → Fits len caps fl
    → (t : ℕ) × (pack lab len caps fl (some out) ≡ (Status.ok, some t))
      × (t < 2 ^ 32)
      × (label t ≡ lab)
      × (length t ≡ len)
      × (ncaps t ≡ caps)
      × (flags t ≡ fl)
unfolding pack
pack-fields lab len caps fl out hl h =
    let e = tag_sum lab len caps fl hl h in
    (
      tag_word lab len caps fl,
      ground arith,
      omega (arith, e),
      omega (arith, e, label_sum (tag_word lab len caps fl)),
      omega (arith, e, length_sum (tag_word lab len caps fl)),
      omega (arith, e, ncaps_sum (tag_word lab len caps fl)),
      omega (arith, e, flags_sum (tag_word lab len caps fl)),
    )

-- Packing the four fields of a 32-bit tag whose length and capability count are within the
-- configured maxima gives back the tag.
pub pack-accessors :
    (t out : ℕ)
    → t < 2 ^ 32
    → length t ≤ 64
    → ncaps t ≤ 4
    → pack (label t) (length t) (ncaps t) (flags t) (some out) ≡ (Status.ok, some t)
unfolding pack
pack-accessors t out ht hl hc = ground (
  arith,
  label_sum t,
  length_sum t,
  ncaps_sum t,
  flags_sum t,
  tag_sum (label t) (length t) (ncaps t) (flags t),
)

-- Outside the bounds a call leaves `*out_tag` as it was, and its status is FLINT_ERR_MSG_TOO_LONG
-- if the length or the capability count is too large, and FLINT_ERR_RANGE if only the flags are.
pub pack_refused :
    (lab len caps fl out : ℕ)
    → ¬ Fits len caps fl
    → pack lab len caps fl (some out)
      ≡ (if ltb 64 len || ltb 4 caps then Status.msg_too_long else Status.range, some out)
unfolding pack
pack_refused lab len caps fl out h = ground arith
