-- ===== src/Jsonw/Escape.antt =====
-- The strings that the writer writes, as a reader of JSON sees them.
use mathlib.Core.List.{append_assoc}
use flint_rtos.Base.{
  ℕ, ◌≡◌, refl, arith, ap, ◌∙◌, Bool, true, false, ◌==◌, ltb, if◌then◌else◌, Option, none, some,
  List, [], ◌∷◌, ◌++◌, map,
}
use mathlib.Core.Option
use flint_rtos.Jsonw.{JsonW, put_escaped}
use flint_rtos.Jsonw.Bounded.{Shows, escape_c, escape, quoted, put_escaped-Extends}

-- A reader of the inside of a string: the bytes up to the closing quote, and what is behind it. After a
-- backslash the next byte stands for itself; a control character is refused.
unfoldable pub read_string : Bool → List ℕ → Option (List ℕ × List ℕ)
read_string escaped [] = none
read_string true (c ∷ s) = Option.map (λ (t, rest). (c ∷ t, rest)) (read_string false s)
read_string false (c ∷ s) =
    let rest = read_string (c == 92) s in
    if c == b'"'
    then some ([], s)
    else if ltb c 32
    then none
    else if c == 92
    then rest
    else Option.map (λ (t, rest). (c ∷ t, rest)) rest

-- A control character becomes a space.
abbrev pub clean : ℕ → ℕ
clean c = if ltb c 32 then b' ' else c

escape_c-read :
    (c : ℕ) (s t rest : List ℕ)
    → read_string false s ≡ some (t, rest)
    → read_string false (escape_c c ++ s) ≡ some (clean c ∷ t, rest)
unfolding read_string
escape_c-read c s t rest h = ground arith

-- What put_escaped writes for a text is read back up to its closing quote as that text, with a space for
-- each control character.
pub read_string-quoted :
    (s rest : List ℕ) → read_string false (escape s ++ b'"' ∷ rest) ≡ some (map clean s, rest)
unfolding read_string escape
read_string-quoted [] rest = refl
read_string-quoted (c ∷ s) rest =
    ap (read_string false) (append_assoc (escape_c c) (escape s) (b'"' ∷ rest))
    ∙ escape_c-read c (escape s ++ b'"' ∷ rest) (map clean s) rest (read_string-quoted s rest)

-- On a writer that shows a text, put_escaped adds a quote and bytes that are read back, up to the closing
-- quote, as the text that it is given, with a space for each control character.
pub put_escaped-read :
    (start : ℕ → ℕ) (w : JsonW) (text s : List ℕ)
    → Shows start w text
    → (more : List ℕ) × Shows start (put_escaped s w) (text ++ (b'"' ∷ more))
      × ((rest : List ℕ) → read_string false (more ++ rest) ≡ some (map clean s, rest))
unfolding quoted
put_escaped-read start w text s shows = (
  escape s ++ b'"' ∷ [],
  (put_escaped-Extends start s w).shows text shows,
  λ rest.
      ap (read_string false) (append_assoc (escape s) (b'"' ∷ []) rest) ∙ read_string-quoted s rest,
)
