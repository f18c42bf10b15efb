-- ===== src/Jsonw/Bounded.antt =====
-- What the bounded buffer shows of a text that grows without bound.
use flint_rtos.Base.{
  ℕ, zero, suc, ◌+◌, ◌-◌, ◌≤◌, ◌<◌, ◌≡◌, refl, arith, ◌∙◌, sym, subst, ◌==◌, ◌||◌, ltb, leb,
  if◌then◌else◌, List, [], ◌∷◌, ◌++◌, length, length-append, get_or, inl, inr, Bool-cases, min,
}
use mathlib.Core.List.{append_assoc, append-nil}
use flint_rtos.Jsonw.{JsonW, put_c, put_s, put_escaped_c, put_escaped_s, put_escaped}

-- In a buffer that held `start` the writer shows as much of `text` as fits.
pub record Shows (start : ℕ → ℕ) (w : JsonW) (text : List ℕ) : Type 0 where
  pub some_room : 0 < w.cap
  pub len : w.len ≡ min (length text) (w.cap - 1)
  pub bytes : (i : ℕ) → i < w.len → w.buf i ≡ get_or text i 0
  pub end : w.buf w.len ≡ 0
  pub outside : (i : ℕ) → w.cap ≤ i → w.buf i ≡ start i
  pub full : w.overflow ≡ leb w.cap (length text)

-- The text of a string: a quote and a backslash with a backslash before them, a control character as
-- a space.
abbrev pub escape_c : ℕ → List ℕ
escape_c c = if c == b'"' || c == 92 then 92 ∷ c ∷ [] else if ltb c 32 then b' ' ∷ [] else c ∷ []

unfoldable pub escape : List ℕ → List ℕ
escape [] = []
escape (c ∷ s) = escape_c c ++ escape s

unfoldable pub quoted : List ℕ → List ℕ
unfolding escape
quoted s = b'"' ∷ (escape s ++ b'"' ∷ [])

get_or-append :
    (xs : List ℕ) (c i : ℕ)
    → get_or (xs ++ c ∷ []) i 0 ≡ (if i == length xs then c else get_or xs i 0)
get_or-append [] c zero = refl
get_or-append [] c (suc i) = ground arith
get_or-append (x ∷ xs) c zero = ground arith
get_or-append (x ∷ xs) c (suc i) = ground (arith, get_or-append xs c i)

module _ {start : ℕ → ℕ} where
  put_c-Shows :
      {w : JsonW} {text : List ℕ} (c : ℕ)
      → Shows start w text
      → Shows start (put_c c w) (text ++ c ∷ [])
  unfolding put_c
  put_c-Shows {w} {text} c s =
      let l : length (text ++ c ∷ []) ≡ length text + 1 = length-append text (c ∷ []) in
      elim (Bool-cases (ltb (w.len + 1) w.cap)) [
        | inl e ↦ rw e (record {
          some_room = s.some_room;
          len = ground (arith, s.len, l);
          bytes = λ i lt. ground (arith, s.bytes i, s.len, get_or-append text c i);
          end = ground arith;
          outside = λ i le. ground (arith, s.outside i);
          full = ground (arith, s.full, s.len, l);
        })
        | inr e ↦ rw e (record {
          some_room = s.some_room;
          len = ground (arith, s.len, l);
          bytes = λ i lt. ground (arith, s.bytes i, s.len, get_or-append text c i);
          end = s.end;
          outside = s.outside;
          full = ground (arith, s.full, s.len, l);
        })
      ]

-- `w'` shows what `w` does and `more` behind it, and has the same comma to come.
pub record Extends (start : ℕ → ℕ) (w w' : JsonW) (more : List ℕ) : Type 0 where
  pub shows : (text : List ℕ) → Shows start w text → Shows start w' (text ++ more)
  pub comma : w'.need_comma ≡ w.need_comma

module _ (start : ℕ → ℕ) where
  pub compose :
      {u v w : JsonW} (s t : List ℕ)
      → Extends start u v s
      → Extends start v w t
      → Extends start u w (s ++ t)
  compose s t a b = record {
    shows = λ text h. subst (Shows start _) (append_assoc text s t) (b.shows _ (a.shows text h));
    comma = b.comma ∙ a.comma;
  }

  pub nothing : (w : JsonW) → Extends start w w []
  nothing w = record {
    shows = λ text h. subst (Shows start w) (sym (append-nil text)) h;
    comma = refl;
  }

  pub put_c-Extends : (c : ℕ) (w : JsonW) → Extends start w (put_c c w) (c ∷ [])
  unfolding put_c
  put_c-Extends c w = record { shows = λ text h. put_c-Shows c h; comma = ground arith }

  pub put_s-Extends : (s : List ℕ) (w : JsonW) → Extends start w (put_s s w) s
  unfolding put_s
  put_s-Extends [] w = nothing w
  put_s-Extends (c ∷ s) w = compose (c ∷ []) s (put_c-Extends c w) (put_s-Extends s (put_c c w))

  put_escaped_c-Extends : (c : ℕ) (w : JsonW) → Extends start w (put_escaped_c c w) (escape_c c)
  unfolding put_escaped_c
  put_escaped_c-Extends c w = elim (Bool-cases (c == b'"' || c == 92)) [
    | inl e ↦ rw e (compose (92 ∷ []) (c ∷ []) (put_c-Extends 92 w) (put_c-Extends c (put_c 92 w)))
    | inr e ↦ elim (Bool-cases (ltb c 32)) [
      | inl low ↦ rw (e, low) (put_c-Extends b' ' w)
      | inr high ↦ rw (e, high) (put_c-Extends c w)
    ]
  ]

  put_escaped_s-Extends : (s : List ℕ) (w : JsonW) → Extends start w (put_escaped_s s w) (escape s)
  unfolding put_escaped_s escape
  put_escaped_s-Extends [] w = nothing w
  put_escaped_s-Extends (c ∷ s) w =
      compose (escape_c c) (escape s) (put_escaped_c-Extends c w)
        (put_escaped_s-Extends s (put_escaped_c c w))

  pub put_escaped-Extends : (s : List ℕ) (w : JsonW) → Extends start w (put_escaped s w) (quoted s)
  unfolding put_escaped quoted
  put_escaped-Extends s w = compose (b'"' ∷ []) (escape s ++ b'"' ∷ []) (put_c-Extends b'"' w) (
      compose (escape s) (b'"' ∷ []) (put_escaped_s-Extends s (put_c b'"' w))
        (put_c-Extends b'"' (put_escaped_s s (put_c b'"' w))))
