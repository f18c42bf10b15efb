-- ===== src/PrioBitmap/Highest.antt =====
-- `flint_prio_bitmap_highest` and `flint_prio_bitmap_empty`.
use flint_rtos.Base.{ℕ, ◌/◌, ◌%◌, ◌≤◌, ◌<◌, ◌≡◌, ◌≢◌, arith, refl}
use flint_rtos.Base.{ap, ◌∙◌, true, false, not, ==_decides, inl, inr}
use flint_rtos.Bits.{digit, digit-zero, digit_above}
use flint_rtos.PrioBitmap.{Bitmap, narrow, empty, highest, word_highest_bit}
use flint_rtos.PrioBitmap.Word.{IsTop, word_highest_bit-IsTop}
use flint_rtos.PrioBitmap.Valid.{word_of, occupied, IsValid}

module _ (bm : Bitmap) (v : IsValid bm) where
  -- A word that has an occupied priority is marked in the summary.
  marked :
      (q : ℕ) → q < 256 → occupied bm q ≡ true → (digit bm.summary (q / 32) ≡ 1) × (bm.summary ≢ 0)
  marked q h e = (ground (arith, v.marks (q / 32), digit-zero (q % 32)), nonzero)
    where
      nonzero : bm.summary ≢ 0
      nonzero z = ground (arith, v.marks (q / 32), digit-zero (q % 32), digit-zero (q / 32))

  module _ (ne : bm.summary ≢ 0) where
    abbrev top_word : ℕ
    top_word = word_highest_bit bm.summary

    summary-IsTop : IsTop bm.summary top_word
    summary-IsTop = word_highest_bit-IsTop bm.summary (omega arith) (omega (arith, v.narrow))

    top_word-lt : top_word < 8
    top_word-lt = ground (arith, digit_above top_word 8 bm.summary, summary-IsTop.isset, v.narrow)

    word_ne : word_of bm top_word ≢ 0
    word_ne e = ground (arith, summary-IsTop.isset, v.marks top_word top_word-lt)

    word-IsTop : IsTop (word_of bm top_word) (word_highest_bit (word_of bm top_word))
    word-IsTop =
        word_highest_bit-IsTop (word_of bm top_word) (omega (arith, word_ne)) (v.words top_word)

    highest_parts :
        (highest bm / 32 ≡ top_word)
        × (highest bm % 32 ≡ word_highest_bit (word_of bm top_word))
        × (highest bm < 256)
    unfolding highest
    highest_parts = omega (arith, top_word-lt, word-IsTop.inside)

  zero_word : bm.summary ≡ 0 → word_of bm 0 ≡ 0
  zero_word e = ground (arith, v.marks 0, digit-zero 0)

  highest_of_zero : bm.summary ≡ 0 → highest bm ≡ 0
  unfolding highest word_highest_bit narrow
  highest_of_zero e = rw (e, zero_word e) refl

  occupied-highest : occupied bm (highest bm) ≡ not (empty bm)
  unfolding empty
  occupied-highest = elim (==_decides bm.summary 0) [
    | inl e ↦ rw e (ground (arith, highest_of_zero e, zero_word e, digit-zero 0))
    | inr ne ↦
        let (hi, lo, lt) = highest_parts ne in rw (hi, lo) (ground (arith, (word-IsTop ne).isset))
  ]

  le-highest : (q : ℕ) → q < 256 → occupied bm q ≡ true → q ≤ highest bm
  le-highest q h e =
      let (mark, ne) = marked q h e in
      ground (
        arith,
        (summary-IsTop ne).above (q / 32),
        (word-IsTop ne).above (q % 32),
        highest_parts ne,
        mark,
      )

  not_empty : (q : ℕ) → q < 256 → occupied bm q ≡ true → empty bm ≡ false
  unfolding empty
  not_empty q h e = let (mark, ne) = marked q h e in ground (arith, ne)

  -- If a valid bitmap has an occupied priority, then flint_prio_bitmap_empty does not hold, the priority
  -- that flint_prio_bitmap_highest answers is an occupied one, and it is at least the one given.
  pub highest_lem :
      (q : ℕ)
      → q < 256
      → occupied bm q ≡ true
      → (empty bm ≡ false) × (occupied bm (highest bm) ≡ true) × (q ≤ highest bm)
  highest_lem q h e =
      let some_left = not_empty q h e in
      (some_left, occupied-highest ∙ ap not some_left, le-highest q h e)
