-- ===== src/Printf/Meaning.antt =====
-- The text that a format means, and that the loop of vsnprintf prints it.
use mathlib.Core.List.{append_assoc, append-nil}
use mathlib.Core.Option
use flint_rtos.Base.{
  ℕ, zero, suc, ◌+◌, ◌-◌, ◌/◌, ◌%◌, ◌^◌, ◌≤◌, ◌<◌, ◌≡◌, refl, arith, ltb, sym, ap, ◌∙◌, Bool, true,
  false, ◌==◌, leb, if◌then◌else◌, Option, none, some, List, [], ◌∷◌, ◌++◌, inl, inr, ==_decides,
  Bool-cases,
}
use flint_rtos.Printf.{
  Arg, Output, emit, emit_str, digit_char, tmp_digits, emit_num, is_modifier, next_word, next_text,
  directive, format,
}

-- The digits of a number in a base, of `n` digits at most, the ones above the last before the last.
abbrev symbol : ℕ → ℕ
symbol d = if ltb d 10 then b'0' + d else b'a' + (d - 10)

unfoldable pub in_base : ℕ → ℕ → ℕ → List ℕ
in_base zero base v = []
in_base (suc n) base v =
    let above = in_base n base (v / base) in
    if ltb v base then symbol v ∷ [] else above ++ symbol (v % base) ∷ []

-- A number in a base, with its sign.
unfoldable pub numeral : ℕ → ℕ → Bool → List ℕ
numeral v base neg = if neg then b'-' ∷ in_base 24 base v else in_base 24 base v

-- What an argument becomes, and the arguments left.
unfoldable pub with_word : (ℕ → List ℕ) → List Arg → Option (List Arg × List ℕ)
with_word spelling args = Option.map (λ r. (r.1, spelling r.0)) (next_word args)

unfoldable pub with_text : List Arg → Option (List Arg × List ℕ)
with_text args = Option.map (λ r. (r.1, r.0)) (next_text args)

-- What a letter after `%` means: a signed number, an unsigned one, one in hexadecimal digits, a pointer, a
-- character, a string, a `%`, or nothing, and then the `%` and the letter are the text.
unfoldable pub spell : ℕ → List Arg → Option (List Arg × List ℕ)
spell c args =
    if c == b'd'
    then with_word (λ v. numeral (if leb (2 ^ 63) v then 2 ^ 64 - v else v) 10 (leb (2 ^ 63) v))
        args
    else if c == b'u'
    then with_word (λ v. numeral v 10 false) args
    else if c == b'x'
    then with_word (λ v. numeral v 16 false) args
    else if c == b'p'
    then with_word (λ v. b'0' ∷ b'x' ∷ numeral v 16 false) args
    else if c == b'c'
    then with_word (λ v. v % 2 ^ 8 ∷ []) args
    else if c == b's'
    then with_text args
    else if c == b'%'
    then some (args, b'%' ∷ [])
    else some (args, b'%' ∷ c ∷ [])

-- The text of a format with its arguments, `none` if they do not fit it.
unfoldable pub rendered : Bool → List ℕ → List Arg → Option (List ℕ)
rendered spec [] args = some []
rendered false (c ∷ f) args =
    Option.map (λ t. if c == b'%' then t else c ∷ t) (rendered (c == b'%') f args)
rendered true (c ∷ f) args = elim (if is_modifier c then some (args, []) else spell c args) [
  | none ↦ none
  | some r ↦ Option.map (λ t. r.1 ++ t) (rendered (is_modifier c) f r.0)
]

emit_str-append :
    (size : ℕ) (s t : List ℕ) (o : Output)
    → emit_str size (s ++ t) o ≡ emit_str size t (emit_str size s o)
unfolding emit_str
emit_str-append size [] t o = refl
emit_str-append size (c ∷ s) t o = emit_str-append size s t (emit size c o)

digit_char-symbol : (d : ℕ) → digit_char d ≡ symbol d
unfolding digit_char
digit_char-symbol d = ground arith

tmp_digits-zero : (n base : ℕ) (acc : List ℕ) → tmp_digits n base 0 acc ≡ acc
unfolding tmp_digits
tmp_digits-zero zero base acc = refl
tmp_digits-zero (suc n) base acc = refl

-- What division by a base does.
record Base (base : ℕ) : Type 0 where
  some : 0 < base
  small : (v : ℕ) → v < base → (v / base ≡ 0) × (v % base ≡ v)
  large : (v : ℕ) → base ≤ v → 0 < v / base

ten : Base 10
ten = record {
  some = omega arith;
  small = λ v lt. (omega arith, omega arith);
  large = λ v le. omega arith;
}

sixteen : Base 16
sixteen = record {
  some = omega arith;
  small = λ v lt. (omega arith, omega arith);
  large = λ v le. omega arith;
}

module _ (base : ℕ) (b : Base base) where
  tmp_digits-in_base :
      (n v : ℕ) (acc : List ℕ) → 0 < v → tmp_digits n base v acc ≡ in_base n base v ++ acc
  unfolding tmp_digits in_base
  tmp_digits-in_base zero v acc more = refl
  tmp_digits-in_base (suc n) v acc more =
      let other : (v == 0) ≡ false = ground (arith, more) in
      elim (Bool-cases (ltb v base)) [
        | inl e ↦
            let (none_above, last) = b.small v (ground (arith, e)) in
            rw (other, e, none_above, last, digit_char-symbol v)
              (tmp_digits-zero n base (symbol v ∷ acc))
        | inr e ↦
            rw (other, e, digit_char-symbol (v % base))
              (tmp_digits-in_base n (v / base) (symbol (v % base) ∷ acc)
                  (b.large v (ground (arith, e)))
                ∙ sym (append_assoc (in_base n base (v / base)) (symbol (v % base) ∷ []) acc))
      ]

  number_text :
      (v : ℕ) → (if v == 0 then b'0' ∷ [] else tmp_digits 24 base v []) ≡ in_base 24 base v
  unfolding in_base
  number_text v = elim (==_decides v 0) [
    | inl e ↦ let one_place : ltb 0 base ≡ true = ground (arith, b.some) in rw (e, one_place) refl
    | inr e ↦
        let other : (v == 0) ≡ false = ground (arith, e) in
        rw other (tmp_digits-in_base 24 v [] (omega (arith, e)) ∙ append-nil (in_base 24 base v))
  ]

  emit_num-numeral :
      (size v : ℕ) (neg : Bool) (o : Output)
      → emit_num size v base neg o ≡ emit_str size (numeral v base neg) o
  unfolding emit_num numeral emit_str
  emit_num-numeral size v true o =
      rw (sym (number_text v))
        (elim (Bool-cases (v == 0)) [ inl e ↦ rw e refl | inr e ↦ rw e refl ])
  emit_num-numeral size v false o =
      rw (sym (number_text v))
        (elim (Bool-cases (v == 0)) [ inl e ↦ rw e refl | inr e ↦ rw e refl ])

-- The arguments that are left, and the output with a text behind it.
abbrev printed : ℕ → Output → List Arg × List ℕ → List Arg × Output
printed size o r = (r.0, emit_str size r.1 o)

if-map :
    {A B : Type 0} (f : A → B) (b : Bool) {x y : Option B} (x' y' : Option A)
    → x ≡ Option.map f x'
    → y ≡ Option.map f y'
    → (if b then x else y) ≡ Option.map f (if b then x' else y')
if-map f true x' y' ex ey = ex
if-map f false x' y' ex ey = ey

map-map :
    {A B C : Type 0} (f : A → C) (g : B → C) (h : A → B) (x : Option A)
    → ((a : A) → f a ≡ g (h a))
    → Option.map f x ≡ Option.map g (Option.map h x)
map-map f g h none e = refl
map-map f g h (some a) e = ap some (e a)

module _ (size : ℕ) (args : List Arg) (o : Output) where
  word-printed :
      (f : ℕ → Output) (spelling : ℕ → List ℕ)
      → ((v : ℕ) → f v ≡ emit_str size (spelling v) o)
      → Option.map (λ r. (r.1, f r.0)) (next_word args)
        ≡ Option.map (printed size o) (with_word spelling args)
  unfolding with_word
  word-printed f spelling e =
      map-map (λ r. (r.1, f r.0)) (printed size o) (λ r. (r.1, spelling r.0)) (next_word args)
        (λ r. ap (λ w. (r.1, w)) (e r.0))

  text-printed :
      Option.map (λ r. (r.1, emit_str size r.0 o)) (next_text args)
      ≡ Option.map (printed size o) (with_text args)
  unfolding with_text
  text-printed =
      map-map (λ r. (r.1, emit_str size r.0 o)) (printed size o) (λ r. (r.1, r.0)) (next_text args)
        (λ r. refl)

  directive-spell : (c : ℕ) → directive size c args o ≡ Option.map (printed size o) (spell c args)
  unfolding directive spell emit_str
  directive-spell c =
      if-map (printed size o) (c == b'd') _ _
        (word-printed _ _ (λ v.
          emit_num-numeral 10 ten size (if leb (2 ^ 63) v then 2 ^ 64 - v else v) (leb (2 ^ 63) v)
            o))
        (if-map (printed size o) (c == b'u') _ _
          (word-printed _ _ (λ v. emit_num-numeral 10 ten size v false o))
          (if-map (printed size o) (c == b'x') _ _
            (word-printed _ _ (λ v. emit_num-numeral 16 sixteen size v false o))
            (if-map (printed size o) (c == b'p') _ _
              (word-printed _ _ (λ v.
                emit_num-numeral 16 sixteen size v false (emit_str size (b'0' ∷ b'x' ∷ []) o)))
              (if-map (printed size o) (c == b'c') _ _
                (word-printed (λ v. emit size (v % 2 ^ 8) o) (λ v. v % 2 ^ 8 ∷ []) (λ v. refl))
                (if-map (printed size o) (c == b's') _ _ text-printed
                  (if-map (printed size o) (c == b'%') _ _ refl refl))))))

-- The rest of the loop after a step.
abbrev after : ℕ → Bool → List ℕ → Option (List Arg × Output) → Option Output
after size spec f x = elim x [ none ↦ none | some r ↦ format size spec f r.0 r.1 ]

-- The step behind a `%`, for what it may answer.
format-step :
    (size : ℕ) (spec : Bool) (f : List ℕ) (o : Output) (x : Option (List Arg × List ℕ))
    → ((args : List Arg) (o' : Output)
        → format size spec f args o' ≡ Option.map (λ t. emit_str size t o') (rendered spec f args))
    → after size spec f (Option.map (printed size o) x)
      ≡ Option.map
          (λ t. emit_str size t o)
          (elim x [ none ↦ none | some r ↦ Option.map (λ t. r.1 ++ t) (rendered spec f r.0) ])
format-step size spec f o none later = refl
format-step size spec f o (some r) later =
    later r.0 (emit_str size r.1 o)
    ∙ map-map (λ t. emit_str size t (emit_str size r.1 o)) (λ t. emit_str size t o) (λ t. r.1 ++ t)
        (rendered spec f r.0) (λ t. sym (emit_str-append size r.1 t o))

plain-printed :
    (size c : ℕ) (t : List ℕ) (o : Output)
    → emit_str size t (if c == b'%' then o else emit size c o)
      ≡ emit_str size (if c == b'%' then t else c ∷ t) o
unfolding emit_str
plain-printed size c t o = elim (Bool-cases (c == b'%')) [ inl e ↦ rw e refl | inr e ↦ rw e refl ]

-- The loop over the format prints the text that the format means, and no other byte.
pub format-rendered :
    (size : ℕ) (spec : Bool) (f : List ℕ) (args : List Arg) (o : Output)
    → format size spec f args o ≡ Option.map (λ t. emit_str size t o) (rendered spec f args)
unfolding format rendered emit_str
format-rendered size true [] args o = refl
format-rendered size false [] args o = refl
format-rendered size false (c ∷ f) args o =
    format-rendered size (c == b'%') f args (if c == b'%' then o else emit size c o)
    ∙ map-map (λ t. emit_str size t (if c == b'%' then o else emit size c o))
        (λ t. emit_str size t o) (λ t. if c == b'%' then t else c ∷ t) (rendered (c == b'%') f args)
        (λ t. plain-printed size c t o)
format-rendered size true (c ∷ f) args o =
    let meant = if is_modifier c then some (args, []) else spell c args in
    let step : (if is_modifier c then some (args, o) else directive size c args o)
        ≡ Option.map (printed size o) meant =
      if-map (printed size o) (is_modifier c) (some (args, [])) (spell c args) refl
        (directive-spell size args o c) in
    ap (after size (is_modifier c) f) step
    ∙ (format-step size (is_modifier c) f o meant
        (λ args' o'. format-rendered size (is_modifier c) f args' o'))
