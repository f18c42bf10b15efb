-- ===== src/MsgTag.antt =====
-- kernel/msgtag.c and include/flint/msgtag.h: the tag word of an IPC message.
pub mod Fields
use flint_rtos.Base.{
  ℕ, ◌*◌, ◌%◌, ◌^◌, Option, none, some, ltb, if◌then◌else◌, ◌||◌, bit_and, bit_or,
}
use flint_rtos.Bits.{◌>>>◌}
use flint_rtos.Status.{Status}

abbrev pub length_max : ℕ
length_max = 0x7f

abbrev pub ncaps_max : ℕ
ncaps_max = 0x07

abbrev pub flags_max : ℕ
flags_max = 0x3f

abbrev pub label_max : ℕ
label_max = 0xffff

-- FLINT_CFG_MR_MAX and FLINT_CFG_MSG_MAX_CAPS of include/flint/config.h.
abbrev pub mr_max : ℕ
mr_max = 64

abbrev pub msg_max_caps : ℕ
msg_max_caps = 4

abbrev pub flags_shift : ℕ
flags_shift = 0

abbrev pub ncaps_shift : ℕ
ncaps_shift = 6

abbrev pub length_shift : ℕ
length_shift = 9

abbrev pub label_shift : ℕ
label_shift = 16

-- `(x & mask) << shift` in a 32-bit word.
unfoldable pub field : ℕ → ℕ → ℕ → ℕ
field x mask shift = bit_and x mask * 2 ^ shift % 2 ^ 32

-- The word that the success branch builds, one `|=` after the other.
unfoldable pub tag_word : ℕ → ℕ → ℕ → ℕ → ℕ
unfolding field
tag_word label length n_caps flags =
    let t0 = bit_or 0 (field flags flags_max flags_shift) in
    let t1 = bit_or t0 (field n_caps ncaps_max ncaps_shift) in
    let t2 = bit_or t1 (field length length_max length_shift) in
    bit_or t2 (field label label_max label_shift)

-- `out` is what `out_tag` points at before and after the call; `none` is the null pointer.
unfoldable pub pack : ℕ → ℕ → ℕ → ℕ → Option ℕ → Status × Option ℕ
pack label length n_caps flags none = (Status.range, none)
pack label length n_caps flags (some out) =
    if ltb length_max length || ltb mr_max length
    then (Status.msg_too_long, some out)
    else if ltb ncaps_max n_caps || ltb msg_max_caps n_caps
    then (Status.msg_too_long, some out)
    else if ltb flags_max flags
    then (Status.range, some out)
    else (Status.ok, some (tag_word label length n_caps flags))

unfoldable pub label : ℕ → ℕ
label tag = bit_and (tag >>> label_shift) label_max % 2 ^ 16

unfoldable pub length : ℕ → ℕ
length tag = bit_and (tag >>> length_shift) length_max % 2 ^ 8

unfoldable pub ncaps : ℕ → ℕ
ncaps tag = bit_and (tag >>> ncaps_shift) ncaps_max % 2 ^ 8

unfoldable pub flags : ℕ → ℕ
flags tag = bit_and (tag >>> flags_shift) flags_max % 2 ^ 8
