-- ===== src/TaskCreate/Stack.antt =====
-- The stack of a new task.
use flint_rtos.Base.{
  ℕ, zero, suc, ◌+◌, ◌-◌, ◌*◌, ◌%◌, ◌≤◌, ◌<◌, ◌≡◌, ◌≢◌, refl, arith, false, Option,
}
use flint_rtos.TaskCreate.{
  TaskSystem, stack_fill, word_at, fill_words, initialise_stack, first_top, fill_in, is_overrun,
}

fill_words-inside :
    (v base n : ℕ) (m : ℕ → ℕ) (i : ℕ) → i < n → fill_words v base n m (word_at base i) ≡ v
unfolding fill_words
fill_words-inside v base zero m i lt = absurd (omega arith)
fill_words-inside v base (suc n) m i lt =
    let before = fill_words-inside v base n m i in ground (arith, before)

fill_words-outside :
    (v base n : ℕ) (m : ℕ → ℕ) (a : ℕ)
    → ((i : ℕ) → i < n → a ≢ word_at base i)
    → fill_words v base n m a ≡ m a
unfolding fill_words
fill_words-outside v base zero m a away = refl
fill_words-outside v base (suc n) m a away =
    let before = fill_words-outside v base n m a (λ i lt. away i (omega arith)) in
    let here = away n (omega arith) in ground (arith, before, here)

-- What the stack of `depth` words at `stack` has for the task.
pub record Stacked {H : Type 0} (stack depth code parameters exit t : ℕ) (s s' : TaskSystem H)
    : Type 0 where
  pub first : stack ≤ s'.top_of_stack t
  pub last : s'.top_of_stack t + 8 * 34 ≤ stack + 8 * depth
  pub top_aligned : s'.top_of_stack t % 16 ≡ 0
  pub argument : s'.words (s'.top_of_stack t) ≡ parameters
  pub return_link : s'.words (s'.top_of_stack t + 8 * 30) ≡ exit
  pub status : s'.words (s'.top_of_stack t + 8 * 31) ≡ 0x345
  pub entry : s'.words (s'.top_of_stack t + 8 * 32) ≡ code
  pub guarded : is_overrun t s' ≡ false
  pub others : (a : ℕ) → a < stack → s'.words a ≡ s.words a
  pub beyond : (a : ℕ) → stack + 8 * depth ≤ a → s'.words a ≡ s.words a

module _ {H : Type 0} where
  -- A stack of at least 38 words, at a multiple of 8, that xTaskCreate fills in for a task holds the
  -- frame that the task starts from: its argument, vPortTaskExit as the link, the status of a task with
  -- interrupts on, and its code, at a multiple of 16. The frame is inside the stack, no word outside of the
  -- stack changes, and the stack check passes.
  pub fill_in-Stacked :
      (exit stack t code : ℕ) (name : Option (ℕ → ℕ)) (depth parameters priority : ℕ)
      (s : TaskSystem H)
      → stack % 8 ≡ 0
      → 38 ≤ depth
      → Stacked stack depth code parameters exit t s
          (fill_in exit stack t code name depth parameters priority s)
  unfolding fill_in initialise_stack first_top is_overrun
  fill_in-Stacked exit stack t code name depth parameters priority s whole deep =
      let top = word_at stack (depth - 1) in
      let sp = top - top % 16 - 272 in
      let low : stack + 16 ≤ sp = ground arith in
      let high : sp + 272 ≤ stack + 8 * depth = ground arith in
      let even : sp % 16 ≡ 0 = ground arith in
      let painted = fill_words stack_fill stack depth s.words in
      record {
        first = ground (arith, low);
        last = ground (arith, high);
        top_aligned = ground (arith, even);
        argument = ground (arith, low);
        return_link = ground (arith, low);
        status = ground (arith, low);
        entry = ground (arith, low);
        guarded = ground (
          arith,
          low,
          fill_words-inside stack_fill stack depth s.words 0,
          fill_words-inside stack_fill stack depth s.words 1,
          fill_words-outside 0 sp 34 painted (stack + 8 * 0) (λ i lt. omega (arith, low)),
          fill_words-outside 0 sp 34 painted (stack + 8 * 1) (λ i lt. omega (arith, low)),
        );
        others = λ a lt. ground (
          arith,
          low,
          fill_words-outside 0 sp 34 painted a (λ i inside. omega (arith, low, lt)),
          fill_words-outside stack_fill stack depth s.words a (λ i inside. omega (arith, lt)),
        );
        beyond = λ a le. ground (
          arith,
          low,
          high,
          fill_words-outside 0 sp 34 painted a (λ i lt. omega (arith, high)),
          fill_words-outside stack_fill stack depth s.words a (λ i lt. omega arith),
        );
      }
