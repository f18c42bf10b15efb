-- ===== src/Clib.antt =====
-- kernel/flint_libc.c, port/lwip/lwip_libc.c and the helpers of port/mqtt/jsonw.c: the functions of the C
-- library on blocks of bytes, on strings and on numerals. The memory is a function of addresses, a pointer is an
-- address, and a loop up to a terminator runs on fuel: `none` is a loop that has not ended.
pub mod Block
pub mod Text
pub mod Decimal
use flint_rtos.Base.{
  ℕ, zero, suc, ◌+◌, ◌-◌, ◌*◌, ◌%◌, ◌^◌, Bool, true, false, not, ◌==◌, ◌&&◌, ◌||◌, leb, ltb,
  if◌then◌else◌, update, Option, none, some,
}
use flint_rtos.Int.{ℤ, pos, ◌+ℤ◌, ◌-ℤ◌, ◌*ℤ◌, negate, to_word, wrap}

-- `memset`, after `n` rounds.
unfoldable pub memset : ℕ → ℤ → ℕ → (ℕ → ℕ) → ℕ → ℕ
memset dest c zero m = m
memset dest c (suc n) m = update (memset dest c n m) (dest + n) (to_word 8 c)

-- The loop of `memmove` from the front, after `n` rounds, and the one from the end.
unfoldable pub copy_up : ℕ → ℕ → ℕ → (ℕ → ℕ) → ℕ → ℕ
copy_up d s zero m = m
copy_up d s (suc n) m = let m1 = copy_up d s n m in update m1 (d + n) (m1 (s + n))

unfoldable pub copy_down : ℕ → ℕ → ℕ → (ℕ → ℕ) → ℕ → ℕ
copy_down d s zero m = m
copy_down d s (suc n) m = copy_down d s n (update m (d + n) (m (s + n)))

unfoldable pub memmove : ℕ → ℕ → ℕ → (ℕ → ℕ) → ℕ → ℕ
memmove d s n m = if ltb d s then copy_up d s n m else copy_down d s n m

-- `memchr`, from the address `p` on; NULL is `none`.
unfoldable pub memchr : ℕ → ℤ → ℕ → (ℕ → ℕ) → Option ℕ
memchr p c zero m = none
memchr p c (suc n) m =
    let rest = memchr (p + 1) c n m in if m p == to_word 8 c then some p else rest

unfoldable pub memcmp : ℕ → ℕ → ℕ → (ℕ → ℕ) → ℤ
memcmp a b zero m = pos 0
memcmp a b (suc n) m =
    let rest = memcmp (a + 1) (b + 1) n m in
    if not (m a == m b) then pos (m a) -ℤ pos (m b) else rest

unfoldable pub strncmp : ℕ → ℕ → ℕ → (ℕ → ℕ) → ℤ
strncmp a b zero m = pos 0
strncmp a b (suc n) m =
    let rest = strncmp (a + 1) (b + 1) n m in
    if not (m a == m b) || m a == 0 then pos (m a) -ℤ pos (m b) else rest

-- The loop of `strlen` and of `fm_strlen`, at the count `n`.
unfoldable pub strlen_from : ℕ → ℕ → ℕ → (ℕ → ℕ) → Option ℕ
strlen_from zero n s m = none
strlen_from (suc fuel) n s m =
    let rest = strlen_from fuel (n + 1) s m in if m (s + n) == 0 then some n else rest

unfoldable pub strlen : ℕ → ℕ → (ℕ → ℕ) → Option ℕ
strlen fuel s m = strlen_from fuel 0 s m

unfoldable pub strcmp : ℕ → ℕ → ℕ → (ℕ → ℕ) → Option ℤ
strcmp zero a b m = none
strcmp (suc fuel) a b m =
    let rest = strcmp fuel (a + 1) (b + 1) m in
    if not (m a == 0) && m a == m b then rest else some (pos (m a) -ℤ pos (m b))

unfoldable pub strcpy : ℕ → ℕ → ℕ → (ℕ → ℕ) → Option (ℕ → ℕ)
strcpy zero d s m = none
strcpy (suc fuel) d s m =
    let m1 = update m d (m s) in
    let rest = strcpy fuel (d + 1) (s + 1) m1 in if m s == 0 then some m1 else rest

-- The answer is a pointer, or `none` for NULL.
unfoldable pub strchr : ℕ → ℕ → ℤ → (ℕ → ℕ) → Option (Option ℕ)
strchr zero s c m = none
strchr (suc fuel) s c m =
    let rest = strchr fuel (s + 1) c m in
    if m s == 0
    then some (if to_word 8 c == 0 then some s else none)
    else if m s == to_word 8 c
    then some (some s)
    else rest

-- The inner loop of `strstr`, and the test of `*n` after it.
unfoldable pub matches : ℕ → ℕ → ℕ → (ℕ → ℕ) → Option Bool
matches zero h n m = none
matches (suc fuel) h n m =
    let rest = matches fuel (h + 1) (n + 1) m in
    if not (m h == 0) && not (m n == 0) && m h == m n then rest else some (m n == 0)

-- The outer loop of `strstr`, where the inner one has `inner` rounds.
unfoldable pub strstr_from : ℕ → ℕ → ℕ → ℕ → (ℕ → ℕ) → Option (Option ℕ)
strstr_from zero inner hay needle m = none
strstr_from (suc fuel) inner hay needle m =
    let rest = strstr_from fuel inner (hay + 1) needle m in
    if m hay == 0 then some none else elim (matches inner hay needle m) [
      | none ↦ none
      | some found ↦ if found then some (some hay) else rest
    ]

unfoldable pub strstr : ℕ → ℕ → ℕ → (ℕ → ℕ) → Option (Option ℕ)
strstr fuel hay needle m =
    if m needle == 0 then some (some hay) else strstr_from fuel fuel hay needle m

-- The two loops of `strncpy`, from the place `i` on.
unfoldable pub pad : ℕ → ℕ → ℕ → (ℕ → ℕ) → ℕ → ℕ
pad zero i d m = m
pad (suc n) i d m = pad n (i + 1) d (update m (d + i) 0)

unfoldable pub copy_padded : ℕ → ℕ → ℕ → ℕ → (ℕ → ℕ) → ℕ → ℕ
copy_padded zero i d s m = m
copy_padded (suc n) i d s m =
    let rest = copy_padded n (i + 1) d s (update m (d + i) (m (s + i))) in
    if m (s + i) == 0 then pad (suc n) i d m else rest

unfoldable pub strncpy : ℕ → ℕ → ℕ → (ℕ → ℕ) → ℕ → ℕ
strncpy d s n m = copy_padded n 0 d s m

-- The loop of `fm_strlcpy` and what is after it, where `n` more bytes fit before the terminator.
unfoldable pub copy_bounded : ℕ → ℕ → ℕ → ℕ → (ℕ → ℕ) → ℕ → ℕ
copy_bounded zero i dst src m = update m (dst + i) 0
copy_bounded (suc n) i dst src m =
    let rest = copy_bounded n (i + 1) dst src (update m (dst + i) (m (src + i))) in
    if m (src + i) == 0 then update m (dst + i) 0 else rest

unfoldable pub strlcpy : ℕ → ℕ → ℕ → (ℕ → ℕ) → ℕ → ℕ
strlcpy dst src size m = if size == 0 then m else copy_bounded (size - 1) 0 dst src m

unfoldable pub strlcat : ℕ → ℕ → ℕ → ℕ → (ℕ → ℕ) → Option (ℕ → ℕ)
strlcat fuel dst src size m = elim (strlen fuel dst m) [
  | none ↦ none
  | some n ↦ some (if ltb n size then strlcpy (dst + n) src (size - n) m else m)
]

-- `calloc`, where `alloc` is `pvPortMalloc`; NULL is `none`.
unfoldable pub clear_from : ℕ → ℕ → (ℕ → ℕ) → ℕ → ℕ
clear_from p zero m = m
clear_from p (suc n) m = update (clear_from p n m) (p + n) 0

unfoldable pub calloc : (ℕ → Option ℕ) → ℕ → ℕ → (ℕ → ℕ) → Option ℕ × (ℕ → ℕ)
calloc alloc a b m =
    let total = a * b % 2 ^ 64 in
    elim (alloc total) [ none ↦ (none, m) | some p ↦ (some p, clear_from p total m) ]

-- The value of a digit for `strtol`, or `none` for another byte.
unfoldable pub digit_value : ℕ → Option ℕ
digit_value c =
    if leb 48 c && leb c 57
    then some (c - 48)
    else if leb 97 c && leb c 102
    then some (c - 97 + 10)
    else if leb 65 c && leb c 70
    then some (c - 65 + 10)
    else none

-- The loop of `strtol`, with the pointer that it ends at. Overflow, which C leaves open, wraps.
unfoldable pub strtol_from : ℕ → ℕ → ℤ → ℕ → (ℕ → ℕ) → Option (ℤ × ℕ)
strtol_from zero base v p m = none
strtol_from (suc fuel) base v p m = elim (digit_value (m p)) [
  | none ↦ some (v, p)
  | some d ↦
      let rest = strtol_from fuel base (wrap 64 (v *ℤ base +ℤ pos d)) (p + 1) m in
      if leb base d then some (v, p) else rest
]

abbrev pub signed_by : ℕ → Bool → ℤ → ℤ
signed_by w minus v = wrap w (if minus then negate v else v)

-- The prefix "0x" of base 16.
unfoldable pub past_prefix : ℕ → ℕ → (ℕ → ℕ) → ℕ
past_prefix base s m =
    if base == 16 && (m s == b'0' && (m (s + 1) == b'x' || m (s + 1) == b'X')) then s + 2 else s

unfoldable pub strtol : ℕ → ℕ → ℕ → (ℕ → ℕ) → Option (ℤ × ℕ)
strtol fuel s base m =
    let minus = m s == b'-' in
    elim (strtol_from fuel base (pos 0) (past_prefix base (if minus then s + 1 else s) m) m) [
      | none ↦ none
      | some (v, end) ↦ some (signed_by 64 minus v, end)
    ]

unfoldable pub atoi_from : ℕ → ℤ → ℕ → (ℕ → ℕ) → Option ℤ
atoi_from zero v p m = none
atoi_from (suc fuel) v p m =
    let rest = atoi_from fuel (wrap 32 (v *ℤ 10 +ℤ (pos (m p) -ℤ pos 48))) (p + 1) m in
    if leb 48 (m p) && leb (m p) 57 then rest else some v

unfoldable pub atoi : ℕ → ℕ → (ℕ → ℕ) → Option ℤ
atoi fuel s m =
    let minus = m s == b'-' in
    elim (atoi_from fuel (pos 0) (if minus then s + 1 else s) m) [
      | none ↦ none
      | some v ↦ some (signed_by 32 minus v)
    ]
