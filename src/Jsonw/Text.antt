-- ===== src/Jsonw/Text.antt =====
-- A run of the writer against the text that it means to write.
use mathlib.Core.List.{append_assoc, append-nil}
use flint_rtos.Base.{
  ℕ, ◌+◌, ◌^◌, ◌%◌, ◌<◌, ◌≡◌, refl, ◌∙◌, sym, subst, Bool, true, false, if◌then◌else◌, Option, none,
  some, List, [], ◌∷◌, ◌++◌, arith,
}
use flint_rtos.Int.{ℤ, pos, negsuc}
use flint_rtos.Jsonw.{
  JsonW, put_c, put_escaped, with_comma, sep, key, init, obj_open, obj_close, arr_open, arr_close,
  str, i64, u32, bool, u64_to_str,
}
use flint_rtos.Jsonw.Bounded.{
  Shows, Extends, quoted, nothing, compose, put_c-Extends, put_s-Extends, put_escaped-Extends,
}

-- The calls of the interface.
pub data Op : Type 0 where
  open_object : Op
  close_object : Op
  open_array : Option (List ℕ) → Op
  close_array : Op
  string : Option (List ℕ) → List ℕ → Op
  signed : Option (List ℕ) → ℤ → Op
  unsigned : Option (List ℕ) → ℕ → Op
  boolean : Option (List ℕ) → Bool → Op

abbrev pub apply : Op → JsonW → JsonW
apply open_object w = obj_open w
apply close_object w = obj_close w
apply (open_array k) w = arr_open k w
apply close_array w = arr_close w
apply (string k v) w = str k v w
apply (signed k v) w = i64 k v w
apply (unsigned k v) w = u32 k v w
apply (boolean k v) w = bool k v w

abbrev pub run : List Op → JsonW → JsonW
run [] w = w
run (o ∷ os) w = run os (apply o w)

-- What a call writes, where `comma` says if a comma is due, and what is due after it.
abbrev pub sep_text : Bool → List ℕ
sep_text comma = if comma then b',' ∷ [] else []

abbrev pub key_text : Option (List ℕ) → List ℕ
key_text none = []
key_text (some k) = quoted k ++ b':' ∷ []

abbrev pub number_text : ℤ → List ℕ
number_text (pos n) = u64_to_str n
number_text (negsuc n) = b'-' ∷ u64_to_str ((n + 1) % 2 ^ 64)

abbrev pub bool_text : Bool → List ℕ
bool_text true = b't' ∷ b'r' ∷ b'u' ∷ b'e' ∷ []
bool_text false = b'f' ∷ b'a' ∷ b'l' ∷ b's' ∷ b'e' ∷ []

abbrev pub op_text : Op → Bool → List ℕ
op_text open_object comma = sep_text comma ++ b'{' ∷ []
op_text close_object comma = b'}' ∷ []
op_text (open_array k) comma = sep_text comma ++ (key_text k ++ b'[' ∷ [])
op_text close_array comma = b']' ∷ []
op_text (string k v) comma = sep_text comma ++ (key_text k ++ quoted v)
op_text (signed k v) comma = sep_text comma ++ (key_text k ++ number_text v)
op_text (unsigned k v) comma = sep_text comma ++ (key_text k ++ u64_to_str v)
op_text (boolean k v) comma = sep_text comma ++ (key_text k ++ bool_text v)

abbrev pub comma_after : Op → Bool
comma_after open_object = false
comma_after (open_array k) = false
comma_after close_object = true
comma_after close_array = true
comma_after (string k v) = true
comma_after (signed k v) = true
comma_after (unsigned k v) = true
comma_after (boolean k v) = true

abbrev pub full_text : List Op → Bool → List ℕ
full_text [] comma = []
full_text (o ∷ os) comma = op_text o comma ++ full_text os (comma_after o)

-- One call: more text, and another comma due.
record Adds (start : ℕ → ℕ) (w w' : JsonW) (more : List ℕ) (comma : Bool) : Type 0 where
  pub shows : (text : List ℕ) → Shows start w text → Shows start w' (text ++ more)
  pub due : w'.need_comma ≡ comma

module _ (start : ℕ → ℕ) where
  comma-Shows :
      (b : Bool) (w : JsonW) (text : List ℕ)
      → Shows start w text
      → Shows start (with_comma b w) text
  comma-Shows b w text s = record {
    some_room = s.some_room;
    len = s.len;
    bytes = s.bytes;
    end = s.end;
    outside = s.outside;
    full = s.full;
  }

  set-Extends :
      {u v : JsonW} {s : List ℕ} (c : Bool)
      → Extends start u v s
      → Adds start u (with_comma c v) s c
  set-Extends c e = record { shows = λ text h. comma-Shows c _ _ (e.shows text h); due = refl }

  comma_first :
      (b : Bool) (w : JsonW)
      → Adds start w (with_comma true (if b then put_c b',' w else w)) (sep_text b) true
  comma_first true w = set-Extends true (put_c-Extends start b',' w)
  comma_first false w = set-Extends true (nothing start w)

  sep-Adds : (w : JsonW) → Adds start w (sep w) (sep_text w.need_comma) true
  unfolding sep
  sep-Adds w = comma_first w.need_comma w

  -- Behind what a call adds first, which leaves a comma due, `e` adds more.
  then-Adds :
      {u v w : JsonW} (s t : List ℕ) {b : Bool}
      → Adds start u v s b
      → Extends start v w t
      → Adds start u w (s ++ t) b
  then-Adds s t a e = record {
    shows = λ text h. subst (Shows start _) (append_assoc text s t) (e.shows _ (a.shows text h));
    due = e.comma ∙ a.due;
  }

  set-Adds :
      {u v : JsonW} {s : List ℕ} {b : Bool} (c : Bool)
      → Adds start u v s b
      → Adds start u (with_comma c v) s c
  set-Adds c a = record { shows = λ text h. comma-Shows c _ _ (a.shows text h); due = refl }

  key-Adds :
      (k : Option (List ℕ)) (w : JsonW)
      → Adds start w (key k w) (sep_text w.need_comma ++ key_text k) true
  unfolding key
  key-Adds none w = then-Adds _ [] (sep-Adds w) (nothing start (sep w))
  key-Adds (some k) w = then-Adds _ (quoted k ++ b':' ∷ []) (sep-Adds w) (
      compose start (quoted k) (b':' ∷ []) (put_escaped-Extends start k (sep w))
        (put_c-Extends start b':' (put_escaped k (sep w))))

  -- A value with its key.
  keyed-Adds :
      (k : Option (List ℕ)) (w w' : JsonW) (value : List ℕ)
      → Extends start (key k w) w' value
      → Adds start w w' (sep_text w.need_comma ++ (key_text k ++ value)) true
  keyed-Adds k w w' value e =
      subst (λ t. Adds start w w' t true) (append_assoc (sep_text w.need_comma) (key_text k) value)
        (then-Adds _ value (key-Adds k w) e)

  apply-Adds :
      (o : Op) (w : JsonW) → Adds start w (apply o w) (op_text o w.need_comma) (comma_after o)
  unfolding obj_open obj_close arr_open arr_close str i64 u32 bool
  apply-Adds open_object w =
      set-Adds false (then-Adds _ (b'{' ∷ []) (sep-Adds w) (put_c-Extends start b'{' (sep w)))
  apply-Adds close_object w = set-Extends true (put_c-Extends start b'}' w)
  apply-Adds (open_array k) w =
      set-Adds false (keyed-Adds k w _ (b'[' ∷ []) (put_c-Extends start b'[' (key k w)))
  apply-Adds close_array w = set-Extends true (put_c-Extends start b']' w)
  apply-Adds (string k v) w = keyed-Adds k w _ (quoted v) (put_escaped-Extends start v (key k w))
  apply-Adds (signed k (pos n)) w =
      keyed-Adds k w _ (u64_to_str n) (put_s-Extends start (u64_to_str n) (key k w))
  apply-Adds (signed k (negsuc n)) w = keyed-Adds k w _ (number_text (negsuc n)) (
      compose start (b'-' ∷ []) (u64_to_str ((n + 1) % 2 ^ 64)) (put_c-Extends start b'-' (key k w))
        (put_s-Extends start (u64_to_str ((n + 1) % 2 ^ 64)) (put_c b'-' (key k w))))
  apply-Adds (unsigned k v) w =
      keyed-Adds k w _ (u64_to_str v) (put_s-Extends start (u64_to_str v) (key k w))
  apply-Adds (boolean k true) w =
      keyed-Adds k w _ (bool_text true) (put_s-Extends start (bool_text true) (key k w))
  apply-Adds (boolean k false) w =
      keyed-Adds k w _ (bool_text false) (put_s-Extends start (bool_text false) (key k w))

  run-Shows :
      (os : List Op) (w : JsonW) (text : List ℕ)
      → Shows start w text
      → Shows start (run os w) (text ++ full_text os w.need_comma)
  run-Shows [] w text s = subst (Shows start w) (sym (append-nil text)) s
  run-Shows (o ∷ os) w text s =
      let a = apply-Adds o w in
      subst (Shows start _)
        (append_assoc text (op_text o w.need_comma) (full_text os (comma_after o)))
        (subst
          (λ b.
            Shows start (run os (apply o w)) ((text ++ op_text o w.need_comma) ++ full_text os b))
          a.due (run-Shows os (apply o w) _ (a.shows text s)))

-- From a fresh writer on a buffer of `size` bytes, any calls leave in the buffer as much of the text that
-- they mean to write as fits with a terminator behind it, touch no byte from `size` on, and set the overflow
-- flag just if not all of it fits.
pub run-init-Shows :
    (start : ℕ → ℕ) (size : ℕ) (os : List Op)
    → 0 < size
    → Shows start (run os (init start size)) (full_text os false)
unfolding init
run-init-Shows start size os some_room = run-Shows start os (init start size) [] fresh
  where
    fresh : Shows start (init start size) []
    fresh = record {
      some_room = some_room;
      len = ground arith;
      bytes = λ i lt. absurd (omega arith);
      end = ground arith;
      outside = λ i le. ground arith;
      full = ground arith;
    }
