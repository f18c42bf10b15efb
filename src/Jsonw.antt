-- ===== src/Jsonw.antt =====
-- port/mqtt/jsonw.c: the JSON writer on a buffer of `cap` bytes, and the decimal numbers that it
-- writes. A text is the list of its bytes before the terminator, and a key `none` is NULL.
pub mod Bounded
pub mod Text
pub mod Number
pub mod Escape
pub mod Room
use flint_rtos.Base.{
  ℕ, zero, suc, ◌+◌, ◌-◌, ◌/◌, ◌%◌, ◌^◌, Bool, true, false, ◌==◌, ◌||◌, ltb, if◌then◌else◌, update,
  Option, none, some, List, [], ◌∷◌, ◌++◌,
}
use flint_rtos.Int.{ℤ, pos, negsuc}

pub record JsonW : Type 0 where
  pub buf : ℕ → ℕ
  pub cap : ℕ
  pub len : ℕ
  pub overflow : Bool
  pub need_comma : Bool

-- The loop of `fm_u64_to_str` that fills `tmp`, of which `acc` is what the second loop has copied
-- once it ends; twenty digits are enough for a word.
unfoldable pub digits : ℕ → ℕ → List ℕ → List ℕ
digits zero v acc = acc
digits (suc fuel) v acc =
    let rest = digits fuel (v / 10) ((48 + v % 10) ∷ acc) in
    if v / 10 == 0 then (48 + v % 10) ∷ acc else rest

unfoldable pub u64_to_str : ℕ → List ℕ
unfolding digits
u64_to_str v = digits 20 v []

unfoldable pub put_c : ℕ → JsonW → JsonW
put_c c w =
    if ltb (w.len + 1) w.cap
    then record w { buf = update (update w.buf w.len c) (w.len + 1) 0; len = w.len + 1 }
    else record w { overflow = true }

unfoldable pub put_s : List ℕ → JsonW → JsonW
put_s [] w = w
put_s (c ∷ s) w = put_s s (put_c c w)

-- The body of the loop of `put_escaped`.
unfoldable pub put_escaped_c : ℕ → JsonW → JsonW
put_escaped_c c w =
    if c == b'"' || c == 92
    then put_c c (put_c 92 w)
    else if ltb c 32
    then put_c b' ' w
    else put_c c w

unfoldable pub put_escaped_s : List ℕ → JsonW → JsonW
put_escaped_s [] w = w
put_escaped_s (c ∷ s) w = put_escaped_s s (put_escaped_c c w)

unfoldable pub put_escaped : List ℕ → JsonW → JsonW
put_escaped s w = put_c b'"' (put_escaped_s s (put_c b'"' w))

abbrev pub with_comma : Bool → JsonW → JsonW
with_comma b w = record w { need_comma = b }

unfoldable pub sep : JsonW → JsonW
sep w = with_comma true (if w.need_comma then put_c b',' w else w)

unfoldable pub key : Option (List ℕ) → JsonW → JsonW
key none w = sep w
key (some k) w = put_c b':' (put_escaped k (sep w))

unfoldable pub init : (ℕ → ℕ) → ℕ → JsonW
init buf cap = record {
  buf = if ltb 0 cap then update buf 0 0 else buf;
  cap = cap;
  len = 0;
  overflow = false;
  need_comma = false;
}

unfoldable pub obj_open : JsonW → JsonW
obj_open w = with_comma false (put_c b'{' (sep w))

unfoldable pub obj_close : JsonW → JsonW
obj_close w = with_comma true (put_c b'}' w)

unfoldable pub arr_open : Option (List ℕ) → JsonW → JsonW
arr_open k w = with_comma false (put_c b'[' (key k w))

unfoldable pub arr_close : JsonW → JsonW
arr_close w = with_comma true (put_c b']' w)

unfoldable pub str : Option (List ℕ) → List ℕ → JsonW → JsonW
str k v w = put_escaped v (key k w)

-- The 64-bit value `-(n + 1)` is written by its size, `(uint64_t)(-(v + 1)) + 1`.
unfoldable pub i64 : Option (List ℕ) → ℤ → JsonW → JsonW
i64 k (pos n) w = put_s (u64_to_str n) (key k w)
i64 k (negsuc n) w = put_s (u64_to_str ((n + 1) % 2 ^ 64)) (put_c b'-' (key k w))

unfoldable pub u32 : Option (List ℕ) → ℕ → JsonW → JsonW
u32 k v w = put_s (u64_to_str v) (key k w)

unfoldable pub bool : Option (List ℕ) → Bool → JsonW → JsonW
bool k v w =
    put_s (if v then b't' ∷ b'r' ∷ b'u' ∷ b'e' ∷ [] else b'f' ∷ b'a' ∷ b'l' ∷ b's' ∷ b'e' ∷ [])
      (key k w)
