-- ===== src/Clib/Text.antt =====
-- Strings in memory, and what the string functions find in them.
use flint_rtos.Base.{
  ℕ, zero, suc, ◌+◌, ◌<◌, ◌≡◌, ◌≢◌, refl, subst, arith, ap, ◌∙◌, Bool, true, false, ◌==◌,
  if◌then◌else◌, Option, none, some, List, [], ◌∷◌, length,
}
use flint_rtos.Clib.{strlen_from, matches, strstr_from, strstr}

-- The bytes of `t` stand from `p` on, and a terminator behind them.
abbrev pub IsString : List ℕ → ℕ → (ℕ → ℕ) → Type 0
IsString [] p m = m p ≡ 0
IsString (c ∷ t) p m = (m p ≡ c) × (c ≢ 0) × IsString t (p + 1) m

unfoldable pub prefix : List ℕ → List ℕ → Bool
prefix [] t = true
prefix (d ∷ u) [] = false
prefix (d ∷ u) (c ∷ t) = if c == d then prefix u t else false

-- The first place of `u` in a text that stands from `p` on.
unfoldable pub find : List ℕ → List ℕ → ℕ → Option ℕ
find u [] p = if prefix u [] then some p else none
find u (c ∷ t) p = if prefix u (c ∷ t) then some p else find u t (p + 1)

pub strlen_from-string :
    (fuel n s : ℕ) (t : List ℕ) (m : ℕ → ℕ)
    → IsString t (s + n) m
    → length t < fuel
    → strlen_from fuel n s m ≡ some (n + length t)
unfolding strlen_from
strlen_from-string zero n s t m is enough = absurd (omega arith)
strlen_from-string (suc fuel) n s [] m is enough = ground (arith, is)
strlen_from-string (suc fuel) n s (c ∷ t) m (here, more, rest) enough =
    let on : (m (s + n) == 0) ≡ false = ground (arith, here, more) in
    let up : s + n + 1 ≡ s + (n + 1) = omega arith in
    let later : IsString t (s + (n + 1)) m = subst (λ p. IsString t p m) up rest in
    rw on (strlen_from-string fuel (n + 1) s t m later (omega arith) ∙ ap some (omega arith))

matches-prefix :
    (fuel h n : ℕ) (t u : List ℕ) (m : ℕ → ℕ)
    → IsString t h m
    → IsString u n m
    → length u < fuel
    → matches fuel h n m ≡ some (prefix u t)
unfolding matches prefix
matches-prefix zero h n t u m is_t is_u enough = absurd (omega arith)
matches-prefix (suc fuel) h n t [] m is_t end enough = ground (arith, end)
matches-prefix (suc fuel) h n [] (d ∷ u) m end (here, more, rest) enough =
    ground (arith, end, here, more)
matches-prefix (suc fuel) h n (c ∷ t) (d ∷ u) m (at, some_c, rest) (here, some_d, later) enough =
    ground (
      arith,
      at,
      some_c,
      here,
      some_d,
      matches-prefix fuel (h + 1) (n + 1) t u m rest later (omega arith),
    )

if-some :
    {A : Type 0} (b : Bool) (x y : A) → (if b then some x else some y) ≡ some (if b then x else y)
if-some true x y = refl
if-some false x y = refl

strstr_from-find :
    (fuel inner hay needle : ℕ) (t u : List ℕ) (m : ℕ → ℕ)
    → IsString t hay m
    → IsString u needle m
    → 0 < length u
    → length t < fuel
    → length u < inner
    → strstr_from fuel inner hay needle m ≡ some (find u t hay)
unfolding strstr_from find prefix
strstr_from-find zero inner hay needle t u m is_t is_u some_u enough inside = absurd (omega arith)
strstr_from-find (suc fuel) inner hay needle [] [] m end is_u some_u enough inside =
    absurd (omega arith)
strstr_from-find (suc fuel) inner hay needle [] (d ∷ u) m end is_u some_u enough inside =
    rw end refl
strstr_from-find (suc fuel) inner hay needle (c ∷ t) u m is_t is_u some_u enough inside =
    let on : (m hay == 0) ≡ false = ground (arith, is_t.0, is_t.1) in
    let first = matches-prefix inner hay needle (c ∷ t) u m is_t is_u inside in
    let rest =
      strstr_from-find fuel inner (hay + 1) needle t u m is_t.2 is_u some_u (omega arith) inside in
    rw (on, first, rest) (if-some (prefix u (c ∷ t)) (some hay) (find u t (hay + 1)))

-- For a text and a pattern that stand in memory as strings, and fuel for more rounds than either has bytes,
-- strstr ends; its answer is the address of the first place of the pattern in the text, or NULL if there
-- is none.
pub strstr-find :
    (fuel hay needle : ℕ) (t u : List ℕ) (m : ℕ → ℕ)
    → IsString t hay m
    → IsString u needle m
    → length t < fuel
    → length u < fuel
    → strstr fuel hay needle m ≡ some (find u t hay)
unfolding strstr find prefix
strstr-find fuel hay needle [] [] m is_t end enough inside = rw end refl
strstr-find fuel hay needle (c ∷ t) [] m is_t end enough inside = rw end refl
strstr-find fuel hay needle t (d ∷ u) m is_t is_u enough inside =
    let on : (m needle == 0) ≡ false = ground (arith, is_u.0, is_u.1) in
    rw on (strstr_from-find fuel fuel hay needle t (d ∷ u) m is_t is_u (omega arith) enough inside)
