-- ===== src/Examples/MsgTag.antt =====
-- Tags packed and read back.
use flint_rtos.Base.{ℕ, ◌^◌, ◌<◌, ◌≡◌, refl, some, arith}
use flint_rtos.Status.{Status}
use flint_rtos.MsgTag.{tag_word, pack, label, length, ncaps, flags}
use flint_rtos.MsgTag.Fields.{pack-fields}

tag_run : tag_word 0xabcd 5 2 0x21 ≡ 0xabcd0aa1
unfolding tag_word
tag_run = refl

pack-fields_example :
    (t : ℕ) × (pack 0xabcd 5 2 0x21 (some 7) ≡ (Status.ok, some t))
    × (t < 2 ^ 32)
    × (label t ≡ 0xabcd)
    × (length t ≡ 5)
    × (ncaps t ≡ 2)
    × (flags t ≡ 0x21)
pack-fields_example = pack-fields 0xabcd 5 2 0x21 7 (omega arith) (omega arith)
