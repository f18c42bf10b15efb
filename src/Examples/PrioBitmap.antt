-- ===== src/Examples/PrioBitmap.antt =====
-- A bitmap with the priorities 5 and 200.
use flint_rtos.Base.{◌≤◌, ◌≡◌, refl, arith, true, false}
use flint_rtos.PrioBitmap.{Bitmap, init, empty, insert, clear, highest, narrow, word_highest_bit}
use flint_rtos.PrioBitmap.Valid.{occupied, IsValid, init-IsValid}
use flint_rtos.PrioBitmap.Update.{insert-IsValid}
use flint_rtos.PrioBitmap.Highest.{highest_lem}
use flint_rtos.Bits.{digit}

abbrev one : Bitmap
one = insert init 5

abbrev two : Bitmap
two = insert one 200

one-IsValid : IsValid one
one-IsValid = insert-IsValid init init-IsValid 5 (omega arith)

two-IsValid : IsValid two
two-IsValid = insert-IsValid one one-IsValid 200 (omega arith)

highest_run : highest two ≡ 200
unfolding highest word_highest_bit narrow insert init
highest_run = refl

clear_run : highest (clear two 200) ≡ 5
unfolding highest word_highest_bit narrow insert clear init
clear_run = refl

highest_lem_example : (empty two ≡ false) × (occupied two (highest two) ≡ true) × (5 ≤ highest two)
unfolding insert init digit
highest_lem_example = highest_lem two two-IsValid 5 (omega arith) refl
