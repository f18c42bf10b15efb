-- ===== src/Jsonw/Room.antt =====
-- No call of the writer changes the size of its buffer.
use flint_rtos.Base.{
  ℕ, ◌≡◌, refl, ◌∙◌, arith, Bool-cases, either, inl, inr, ◌==◌, ◌||◌, ltb, List, [], ◌∷◌, Option,
  none, some,
}
use flint_rtos.Int.{pos, negsuc}
use flint_rtos.Jsonw.{
  JsonW, put_c, put_s, put_escaped_c, put_escaped_s, put_escaped, sep, key, obj_open, obj_close,
  arr_open, arr_close, str, i64, u32, bool,
}
use flint_rtos.Jsonw.Text.{
  Op, open_object, close_object, open_array, close_array, string, signed, unsigned, boolean, apply,
  run,
}

cap-put_c : (c : ℕ) (w : JsonW) → (put_c c w).cap ≡ w.cap
unfolding put_c
cap-put_c c w = ground arith

cap-put_s : (s : List ℕ) (w : JsonW) → (put_s s w).cap ≡ w.cap
unfolding put_s
cap-put_s [] w = refl
cap-put_s (c ∷ s) w = cap-put_s s (put_c c w) ∙ cap-put_c c w

cap-put_escaped_c : (c : ℕ) (w : JsonW) → (put_escaped_c c w).cap ≡ w.cap
unfolding put_escaped_c
cap-put_escaped_c c w = elim (Bool-cases (c == b'"' || c == 92)) [
  | inl e ↦ rw e (cap-put_c c (put_c 92 w) ∙ cap-put_c 92 w)
  | inr e ↦ elim (Bool-cases (ltb c 32)) [
    | inl low ↦ rw (e, low) (cap-put_c b' ' w)
    | inr high ↦ rw (e, high) (cap-put_c c w)
  ]
]

cap-put_escaped_s : (s : List ℕ) (w : JsonW) → (put_escaped_s s w).cap ≡ w.cap
unfolding put_escaped_s
cap-put_escaped_s [] w = refl
cap-put_escaped_s (c ∷ s) w = cap-put_escaped_s s (put_escaped_c c w) ∙ cap-put_escaped_c c w

cap-put_escaped : (s : List ℕ) (w : JsonW) → (put_escaped s w).cap ≡ w.cap
unfolding put_escaped
cap-put_escaped s w =
    cap-put_c b'"' (put_escaped_s s (put_c b'"' w))
    ∙ (cap-put_escaped_s s (put_c b'"' w) ∙ cap-put_c b'"' w)

cap-sep : (w : JsonW) → (sep w).cap ≡ w.cap
unfolding sep
cap-sep w = either (λ (v : JsonW). v.cap ≡ w.cap) w.need_comma (λ e. cap-put_c b',' w) (λ e. refl)

cap-key : (k : Option (List ℕ)) (w : JsonW) → (key k w).cap ≡ w.cap
unfolding key
cap-key none w = cap-sep w
cap-key (some k) w =
    cap-put_c b':' (put_escaped k (sep w)) ∙ (cap-put_escaped k (sep w) ∙ cap-sep w)

cap-apply : (o : Op) (w : JsonW) → (apply o w).cap ≡ w.cap
unfolding obj_open obj_close arr_open arr_close str i64 u32 bool
cap-apply open_object w = cap-put_c b'{' (sep w) ∙ cap-sep w
cap-apply close_object w = cap-put_c b'}' w
cap-apply (open_array k) w = cap-put_c b'[' (key k w) ∙ cap-key k w
cap-apply close_array w = cap-put_c b']' w
cap-apply (string k v) w = cap-put_escaped v (key k w) ∙ cap-key k w
cap-apply (signed k (pos n)) w = cap-put_s _ (key k w) ∙ cap-key k w
cap-apply (signed k (negsuc n)) w =
    cap-put_s _ (put_c b'-' (key k w)) ∙ (cap-put_c b'-' (key k w) ∙ cap-key k w)
cap-apply (unsigned k v) w = cap-put_s _ (key k w) ∙ cap-key k w
cap-apply (boolean k v) w = cap-put_s _ (key k w) ∙ cap-key k w

pub cap-run : (os : List Op) (w : JsonW) → (run os w).cap ≡ w.cap
cap-run [] w = refl
cap-run (o ∷ os) w = cap-run os (apply o w) ∙ cap-apply o w
