-- ===== src/Examples/Json.antt =====
-- A small message in a buffer that it fits in, and in one that is too short.
use flint_rtos.Base.{ℕ, ◌≡◌, refl, arith, true, false, some, List, [], ◌∷◌, ◌++◌, map}
use flint_rtos.Int.{negsuc}
use flint_rtos.Jsonw.{
  JsonW, u64_to_str, put_c, put_s, put_escaped, put_escaped_s, put_escaped_c, sep, key, init,
  obj_open, obj_close, str, i64,
}
use flint_rtos.Jsonw.Bounded.{Shows}
use flint_rtos.Jsonw.Text.{
  Op, open_object, close_object, string, signed, run, full_text, run-init-Shows,
}
use flint_rtos.Jsonw.Escape.{read_string, clean, put_escaped-read}

abbrev empty_buffer : ℕ → ℕ
empty_buffer i = 255

-- {"t":-12,"s":"a"}
abbrev calls : List Op
calls =
    open_object
    ∷ signed (some (b't' ∷ [])) (negsuc 11)
    ∷ string (some (b's' ∷ [])) (b'a' ∷ [])
    ∷ close_object
    ∷ []

run-init-Shows_example :
    Shows empty_buffer (run calls (init empty_buffer 18)) (full_text calls false)
run-init-Shows_example = run-init-Shows empty_buffer 18 calls (omega arith)

-- The 17 bytes and the terminator fill a buffer of 18 bytes, and not one of 17.
fits : (run calls (init empty_buffer 18)).overflow ≡ false
unfolding init obj_open obj_close str i64 key sep put_escaped put_escaped_s put_escaped_c put_c
    put_s u64_to_str
fits = refl

too_long : (run calls (init empty_buffer 17)).overflow ≡ true
unfolding init obj_open obj_close str i64 key sep put_escaped put_escaped_s put_escaped_c put_c
    put_s u64_to_str
too_long = refl

abbrev writer : JsonW
writer = record { buf = λ i. 0; cap = 30; len = 0; overflow = false; need_comma = false }

writer-Shows : Shows (λ i. 0) writer []
writer-Shows = record {
  some_room = omega arith;
  len = refl;
  bytes = λ i lt. absurd (omega arith);
  end = refl;
  outside = λ i le. refl;
  full = refl;
}

put_escaped-read_example :
    (more : List ℕ) × Shows
      (λ i. 0)
      (put_escaped (b'a' ∷ b'"' ∷ 10 ∷ []) writer)
      ([] ++ (b'"' ∷ more))
    × ((rest : List ℕ)
        → read_string false (more ++ rest) ≡ some (map clean (b'a' ∷ b'"' ∷ 10 ∷ []), rest))
put_escaped-read_example = put_escaped-read (λ i. 0) writer [] (b'a' ∷ b'"' ∷ 10 ∷ []) writer-Shows
