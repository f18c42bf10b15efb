-- ===== src/Printf/Shows.antt =====
-- How much of the text that vsnprintf means to print stands in the buffer afterwards.
use mathlib.Core.Option
use flint_rtos.Base.{
  ℕ, suc, ◌+◌, ◌-◌, ◌%◌, ◌^◌, ◌≤◌, ◌<◌, min, ◌≡◌, ◌≢◌, refl, arith, ap, ◌∙◌, true, false, ◌==◌,
  ◌&&◌, leb, ltb, if◌then◌else◌, update, Option, none, some, List, [], ◌∷◌, length, get_or, inl,
  inr, Bool-cases,
}
use flint_rtos.Int.{ℤ, of_word}
use flint_rtos.Printf.{Arg, Output, emit, emit_str, format, vsnprintf}
use flint_rtos.Printf.Meaning.{rendered, format-rendered}

emit_str-pos :
    (size : ℕ) (t : List ℕ) (o : Output)
    → o.pos + length t < 2 ^ 64
    → (emit_str size t o).pos ≡ o.pos + length t
unfolding emit_str emit
emit_str-pos size [] o small = omega arith
emit_str-pos size (c ∷ t) o small =
    let one : (o.pos + 1) % 2 ^ 64 ≡ o.pos + 1 = omega arith in
    emit_str-pos size t (emit size c o) (omega arith) ∙ omega arith

first_byte :
    (size c : ℕ) (t : List ℕ) (o : Output)
    → (if leb (o.pos + 1) o.pos && ltb o.pos (o.pos + 1 + length t) && ltb o.pos size
        then get_or t (o.pos - (o.pos + 1)) 0
        else (if ltb o.pos size then update o.buf o.pos c else o.buf) o.pos)
      ≡ (if leb o.pos o.pos && ltb o.pos (o.pos + suc (length t)) && ltb o.pos size
          then get_or (c ∷ t) (o.pos - o.pos) 0
          else o.buf o.pos)
first_byte size c t o = let start : o.pos - o.pos ≡ 0 = omega arith in rw start (ground arith)

later_byte :
    (size c : ℕ) (t : List ℕ) (o : Output) (i : ℕ)
    → i ≢ o.pos
    → (if leb (o.pos + 1) i && ltb i (o.pos + 1 + length t) && ltb i size
        then get_or t (i - (o.pos + 1)) 0
        else (if ltb o.pos size then update o.buf o.pos c else o.buf) i)
      ≡ (if leb o.pos i && ltb i (o.pos + suc (length t)) && ltb i size
          then get_or (c ∷ t) (i - o.pos) 0
          else o.buf i)
later_byte size c t o i other = elim (Bool-cases (leb o.pos i)) [
  | inl e ↦
      let next : i - o.pos ≡ suc (i - (o.pos + 1)) = ground (arith, e, other) in
      rw next (ground (arith, e, other))
  | inr e ↦ ground (arith, e, other)
]

emit_str-byte :
    (size : ℕ) (t : List ℕ) (o : Output) (i : ℕ)
    → o.pos + length t < 2 ^ 64
    → (emit_str size t o).buf i ≡ (
        if leb o.pos i && ltb i (o.pos + length t) && ltb i size
        then get_or t (i - o.pos) 0
        else o.buf i)
unfolding emit_str emit
emit_str-byte size [] o i small = ground arith
emit_str-byte size (c ∷ t) o i small =
    let one : (o.pos + 1) % 2 ^ 64 ≡ o.pos + 1 = omega arith in
    emit_str-byte size t (emit size c o) i (omega arith)
    ∙ rw one (elim (Bool-cases (i == o.pos)) [
      | inl e ↦ let at : i ≡ o.pos = ground (arith, e) in rw (at) (first_byte size c t o)
      | inr e ↦ let other : i ≢ o.pos = ground (arith, e) in later_byte size c t o i other
    ])

-- In a buffer of `size` bytes that held `start` stands as much of `t` as fits with a terminator behind it.
pub record Printed (start : ℕ → ℕ) (size : ℕ) (t : List ℕ) (out : ℕ → ℕ) : Type 0 where
  pub bytes : (i : ℕ) → i < length t → i + 1 < size → out i ≡ get_or t i 0
  pub end : 0 < size → out (min (length t) (size - 1)) ≡ 0
  pub outside : (i : ℕ) → size ≤ i → out i ≡ start i

-- The terminator behind a text of `n` bytes.
abbrev close : ℕ → ℕ → (ℕ → ℕ) → ℕ → ℕ
close size n out =
    let end = if ltb n size then n else size - 1 in if ltb 0 size then update out end 0 else out

abbrev finish : ℕ → Option Output → Option (ℤ × (ℕ → ℕ))
finish size x = elim x [
  | none ↦ none
  | some o ↦ some (of_word 32 (o.pos % 2 ^ 32), close size o.pos o.buf)
]

close-Printed :
    (start : ℕ → ℕ) (size : ℕ) (t : List ℕ) (out : ℕ → ℕ)
    → ((i : ℕ)
        → out i
          ≡ (if leb 0 i && ltb i (0 + length t) && ltb i size then get_or t (i - 0) 0 else start i))
    → Printed start size t (close size (length t) out)
close-Printed start size t out held = record {
  bytes = λ i lt room.
      let inside : (leb 0 i && ltb i (0 + length t) && ltb i size) ≡ true = ground arith in
      let shown : out i ≡ get_or t i 0 =
        held i ∙ rw inside (ap (λ k. get_or t k 0) (omega arith)) in
      ground (arith, lt, room, shown);
  end = λ some_room. ground arith;
  outside = λ i le.
      let beyond : (leb 0 i && ltb i (0 + length t) && ltb i size) ≡ false = ground arith in
      let kept : out i ≡ start i = held i ∙ rw beyond refl in ground (arith, le, kept);
}

-- If the arguments fit the format and the text that it means has less than 2^64 bytes, then vsnprintf ends,
-- answers the length of that text as an int, leaves in the buffer as much of it as fits with a terminator
-- behind it, and touches no byte beyond the buffer, even one of no bytes.
pub vsnprintf-Printed :
    (start : ℕ → ℕ) (size : ℕ) (fmt : List ℕ) (args : List Arg) (t : List ℕ)
    → rendered false fmt args ≡ some t
    → length t < 2 ^ 64
    → (out : ℕ → ℕ) × (vsnprintf start size fmt args ≡ some (of_word 32 (length t % 2 ^ 32), out))
      × Printed start size t out
unfolding vsnprintf
vsnprintf-Printed start size fmt args t means small =
    let o : Output = record { buf = start; pos = 0 } in
    let done : format size false fmt args o ≡ some (emit_str size t o) =
      format-rendered size false fmt args o ∙ ap (Option.map (λ t. emit_str size t o)) means in
    let pos : (emit_str size t o).pos ≡ length t =
      emit_str-pos size t o (omega arith) ∙ omega arith in
    let r = emit_str size t o in
    (
      close size (length t) r.buf,
      ap (finish size) done ∙ rw pos refl,
      close-Printed start size t r.buf (λ i. emit_str-byte size t o i (omega arith)),
    )
