-- ===== src/Examples/Clib.antt =====
-- Blocks that overlap, a search in a string, and a line that is cut off.
use flint_rtos.Base.{
  ℕ, ◌+◌, ◌-◌, ◌%◌, ◌^◌, ◌≡◌, refl, arith, ◌&&◌, leb, ltb, ◌==◌, if◌then◌else◌, false, some, List,
  [], ◌∷◌, length, get_or,
}
use flint_rtos.Int.{pos, negsuc, ◌+ℤ◌, ◌*ℤ◌, negate, wrap, of_word}
use flint_rtos.Jsonw.{digits, u64_to_str}
use flint_rtos.Clib.{memmove, strstr, strtol, strtol_from, past_prefix, digit_value, atoi}
use flint_rtos.Clib.Decimal.{strtol-u64_to_str, atoi-u64_to_str}
use flint_rtos.Clib.Block.{moved, memmove-moved}
use flint_rtos.Clib.Text.{IsString, prefix, find, strstr-find}
use flint_rtos.Printf.{Arg, word, is_modifier, next_word, vsnprintf}
use flint_rtos.Printf.Meaning.{in_base, numeral, with_word, spell, rendered}
use flint_rtos.Printf.Shows.{Printed, vsnprintf-Printed}

abbrev memory : ℕ → ℕ
memory i = i % 2 ^ 8

memmove-moved_example : memmove 12 10 4 memory 15 ≡ moved 12 10 4 memory 15
memmove-moved_example = memmove-moved 12 10 4 memory 15

-- The text "abab" at 100, and "ba" at 200.
abbrev texts : ℕ → ℕ
texts i =
    if i == 200
    then b'b'
    else if i == 201
    then b'a'
    else if leb 100 i && ltb i 104
    then get_or (b'a' ∷ b'b' ∷ b'a' ∷ b'b' ∷ []) (i - 100) 0
    else 0

abbrev hay : List ℕ
hay = b'a' ∷ b'b' ∷ b'a' ∷ b'b' ∷ []

abbrev needle : List ℕ
needle = b'b' ∷ b'a' ∷ []

hay-IsString : IsString hay 100 texts
hay-IsString =
    (refl, omega arith, (refl, omega arith, (refl, omega arith, (refl, omega arith, refl))))

needle-IsString : IsString needle 200 texts
needle-IsString = (refl, omega arith, (refl, omega arith, refl))

strstr-find_example : strstr 5 100 200 texts ≡ some (find needle hay 100)
strstr-find_example =
    strstr-find 5 100 200 hay needle texts hay-IsString needle-IsString (omega arith) (omega arith)

found : find needle hay 100 ≡ some 101
unfolding find prefix
found = refl

-- "n=%d" with -7
abbrev line : List ℕ
line = b'n' ∷ b'=' ∷ b'%' ∷ b'd' ∷ []

abbrev arguments : List Arg
arguments = word (2 ^ 64 - 7) ∷ []

abbrev shown : List ℕ
shown = b'n' ∷ b'=' ∷ b'-' ∷ b'7' ∷ []

line_means : rendered false line arguments ≡ some shown
unfolding rendered is_modifier spell with_word next_word numeral in_base
line_means = refl

vsnprintf-Printed_example :
    (out : ℕ → ℕ) × (vsnprintf memory 4 line arguments
      ≡ some (of_word 32 (length shown % 2 ^ 32), out))
    × Printed memory 4 shown out
vsnprintf-Printed_example = vsnprintf-Printed memory 4 line arguments shown line_means (omega arith)

-- "407" at 300, with the terminator behind it.
abbrev numeral_at : ℕ → ℕ
numeral_at i = if i == 300 then b'4' else if i == 301 then b'0' else if i == 302 then b'7' else 0

numeral_at-IsString : IsString (u64_to_str 407) 300 numeral_at
unfolding u64_to_str digits
numeral_at-IsString = (refl, omega arith, (refl, omega arith, (refl, omega arith, refl)))

strtol_407 : strtol 21 300 10 numeral_at ≡ some (pos 407, 300 + length (u64_to_str 407))
strtol_407 = strtol-u64_to_str 21 300 407 numeral_at (omega arith) numeral_at-IsString (omega arith)

atoi_407 : atoi 21 300 numeral_at ≡ some (pos 407)
atoi_407 = atoi-u64_to_str 21 300 407 numeral_at (omega arith) numeral_at-IsString (omega arith)

-- "-0x1F" is read up to the terminator in base 16, and up to the x in base 10.
abbrev hexadecimal : ℕ → ℕ
hexadecimal i =
    if i == 0
    then b'-'
    else if i == 1
    then b'0'
    else if i == 2
    then b'x'
    else if i == 3
    then b'1'
    else if i == 4
    then b'F'
    else 0

in_base_16 : strtol 9 0 16 hexadecimal ≡ some (negsuc 30, 5)
unfolding strtol strtol_from past_prefix digit_value wrap negate ◌+ℤ◌ ◌*ℤ◌
in_base_16 = refl

in_base_10 : strtol 9 0 10 hexadecimal ≡ some (pos 0, 2)
unfolding strtol strtol_from past_prefix digit_value wrap negate ◌+ℤ◌ ◌*ℤ◌
in_base_10 = refl
