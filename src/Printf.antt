-- ===== src/Printf.antt =====
-- port/lwip/lwip_libc.c: vsnprintf, on a format of bytes before its terminator and on arguments of which
-- each is a word or a string.
pub mod Meaning
pub mod Shows
use flint_rtos.Base.{
  ℕ, zero, suc, ◌+◌, ◌-◌, ◌/◌, ◌%◌, ◌^◌, Bool, true, false, not, ◌==◌, ◌&&◌, ◌||◌, leb, ltb,
  if◌then◌else◌, update, Option, none, some, List, [], ◌∷◌,
}
use flint_rtos.Int.{ℤ, of_word}

pub data Arg : Type 0 where
  word : ℕ → Arg
  text : List ℕ → Arg

pub record Output : Type 0 where
  pub buf : ℕ → ℕ
  pub pos : ℕ

unfoldable pub emit : ℕ → ℕ → Output → Output
emit size c o = record {
  buf = if ltb o.pos size then update o.buf o.pos c else o.buf;
  pos = (o.pos + 1) % 2 ^ 64;
}

unfoldable pub emit_str : ℕ → List ℕ → Output → Output
emit_str size [] o = o
emit_str size (c ∷ s) o = emit_str size s (emit size c o)

unfoldable pub digit_char : ℕ → ℕ
digit_char d = if ltb d 10 then 48 + d else 87 + d

-- The loop of `emit_num` that fills `tmp`, of 24 bytes; `acc` is what it holds, the last one first.
unfoldable pub tmp_digits : ℕ → ℕ → ℕ → List ℕ → List ℕ
tmp_digits zero base v acc = acc
tmp_digits (suc room) base v acc =
    let rest = tmp_digits room base (v / base) (digit_char (v % base) ∷ acc) in
    if v == 0 then acc else rest

unfoldable pub emit_num : ℕ → ℕ → ℕ → Bool → Output → Output
emit_num size v base neg o =
    let o1 = if neg then emit size b'-' o else o in
    if v == 0 then emit size b'0' o1 else emit_str size (tmp_digits 24 base v []) o1

-- The bytes between a `%` and its letter, which are skipped.
unfoldable pub is_modifier : ℕ → Bool
is_modifier c =
    c == b'l'
    || c == b'h'
    || c == b'z'
    || (leb b'0' c && leb c b'9')
    || c == b'-'
    || c == b'.'
    || c == b'+'
    || c == b' '

-- `va_arg`: reading past the arguments, or one of another type, is left open by C.
unfoldable pub next_word : List Arg → Option (ℕ × List Arg)
next_word [] = none
next_word (word v ∷ args) = some (v, args)
next_word (text s ∷ args) = none

unfoldable pub next_text : List Arg → Option (List ℕ × List Arg)
next_text [] = none
next_text (word v ∷ args) = none
next_text (text s ∷ args) = some (s, args)

-- The `switch` on the letter.
unfoldable pub directive : ℕ → ℕ → List Arg → Output → Option (List Arg × Output)
directive size c args o =
    if c == b'd'
    then elim (next_word args) [
      | none ↦ none
      | some r ↦
          let neg = leb (2 ^ 63) r.0 in
          some (r.1, emit_num size (if neg then 2 ^ 64 - r.0 else r.0) 10 neg o)
    ]
    else if c == b'u'
    then elim (next_word args) [ none ↦ none | some r ↦ some (r.1, emit_num size r.0 10 false o) ]
    else if c == b'x'
    then elim (next_word args) [ none ↦ none | some r ↦ some (r.1, emit_num size r.0 16 false o) ]
    else if c == b'p'
    then elim (next_word args) [
      | none ↦ none
      | some r ↦ some (r.1, emit_num size r.0 16 false (emit_str size (b'0' ∷ b'x' ∷ []) o))
    ]
    else if c == b'c'
    then elim (next_word args) [ none ↦ none | some r ↦ some (r.1, emit size (r.0 % 2 ^ 8) o) ]
    else if c == b's'
    then elim (next_text args) [ none ↦ none | some r ↦ some (r.1, emit_str size r.0 o) ]
    else if c == b'%'
    then some (args, emit size b'%' o)
    else some (args, emit size c (emit size b'%' o))

-- The loop over the format; `spec` says that a `%` has been read whose letter is still to come.
unfoldable pub format : ℕ → Bool → List ℕ → List Arg → Output → Option Output
format size spec [] args o = some o
format size false (c ∷ f) args o =
    format size (c == b'%') f args (if c == b'%' then o else emit size c o)
format size true (c ∷ f) args o =
    elim (if is_modifier c then some (args, o) else directive size c args o) [
      | none ↦ none
      | some r ↦ format size (is_modifier c) f r.0 r.1
    ]

-- `vsnprintf`, with the number that it returns.
unfoldable pub vsnprintf : (ℕ → ℕ) → ℕ → List ℕ → List Arg → Option (ℤ × (ℕ → ℕ))
vsnprintf buf size fmt args = elim (format size false fmt args (record { buf = buf; pos = 0 })) [
  | none ↦ none
  | some o ↦
      let end = if ltb o.pos size then o.pos else size - 1 in
      some (of_word 32 (o.pos % 2 ^ 32), if ltb 0 size then update o.buf end 0 else o.buf)
]
