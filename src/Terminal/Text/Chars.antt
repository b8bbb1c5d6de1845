-- ===== src/Terminal/Text/Chars.antt =====
-- A character pushed and popped again.
use safa_os.Prelude.{
  ℕ, ◌+◌, ◌-◌, ◌*◌, ◌/◌, ◌%◌, ◌<◌, ◌≤◌, ◌≡◌, refl, ap, ◌∙◌, Bool-cases, inl, inr, true, false, ltb,
  ltb→lt, some, List, [], ◌∷◌, ◌++◌, length, take, reverse, length-append, reverse-append,
  take-append_left, arith,
}
use safa_os.Utils.Ansi.{len_utf8}
use safa_os.Terminal.Text.{
  PageString, encode_utf8, is_cont_byte, next_back, push_char, popped, pop, is_empty,
}

length-encode_utf8 : (c : ℕ) → length (encode_utf8 c) ≡ len_utf8 c
unfolding encode_utf8
length-encode_utf8 c = ground arith

-- The last character of a text that ends in the bytes of a character, by their number.
back-one : (c : ℕ) (before : List ℕ) → c < 0x80 → next_back (c ∷ before) ≡ some c
unfolding next_back
back-one c before h = let ascii : ltb c 0x80 ≡ true = ground arith in rw ascii refl

module _ (c : ℕ) (before : List ℕ) where
  abbrev last_byte : ℕ
  last_byte = 0x80 + c % 64

  last-not_ascii : ltb last_byte 0x80 ≡ false
  last-not_ascii = ground arith

  middle-is_cont : (n : ℕ) → is_cont_byte (0x80 + n % 64) ≡ true
  middle-is_cont n = ground arith

  first-not_cont : (n : ℕ) → 0xC0 ≤ n → is_cont_byte n ≡ false
  first-not_cont n h = ground arith

  back-two : 0x80 ≤ c → c < 0x800 → next_back (last_byte ∷ (0xC0 + c / 64) ∷ before) ≡ some c
  unfolding next_back
  back-two low high =
      let value : (0xC0 + c / 64) % 32 * 64 + last_byte % 64 ≡ c = omega arith in
      rw (last-not_ascii, first-not_cont (0xC0 + c / 64) (omega arith)) (ap some value)

  back-three :
      0x800 ≤ c
      → c < 0x10000
      → next_back (last_byte ∷ (0x80 + c / 64 % 64) ∷ (0xE0 + c / 4096) ∷ before) ≡ some c
  unfolding next_back
  back-three low high =
      let value : ((0xE0 + c / 4096) % 16 * 64 + (0x80 + c / 64 % 64) % 64) * 64 + last_byte % 64
          ≡ c =
        omega arith in
      rw (last-not_ascii, middle-is_cont (c / 64), first-not_cont (0xE0 + c / 4096) (omega arith))
        (ap some value)

  back-four :
      0x10000 ≤ c
      → c < 0x110000
      → next_back
          (last_byte ∷ (0x80 + c / 64 % 64) ∷ (0x80 + c / 4096 % 64) ∷ (0xF0 + c / 262144) ∷ before)
        ≡ some c
  unfolding next_back
  back-four low high =
      let value : (((0xF0 + c / 262144) % 8 * 64 + (0x80 + c / 4096 % 64) % 64) * 64
                + (0x80 + c / 64 % 64) % 64)
              * 64
            + last_byte % 64
          ≡ c =
        omega arith in
      rw (last-not_ascii, middle-is_cont (c / 64), middle-is_cont (c / 4096)) (ap some value)

next_back-encode_utf8 :
    (c : ℕ) (before : List ℕ)
    → c < 0x110000
    → next_back (reverse (encode_utf8 c) ++ before) ≡ some c
unfolding encode_utf8
next_back-encode_utf8 c before h = elim (Bool-cases (ltb c 0x80)) [
  | inl one ↦ rw one (back-one c before (ltb→lt c 0x80 one))
  | inr more ↦ elim (Bool-cases (ltb c 0x800)) [
    | inl two ↦ rw (more, two) (back-two c before (ground arith) (ltb→lt c 0x800 two))
    | inr many ↦ elim (Bool-cases (ltb c 0x10000)) [
      | inl three ↦ rw (more, many, three) (back-three c before (ground arith) (ground arith))
      | inr four ↦ rw (more, many, four) (back-four c before (ground arith) h)
    ]
  ]
]

-- Popping a character that was just pushed gives it back, and the text before it.
pub pop-push_char :
    (this : PageString) (c : ℕ) → c < 0x110000 → pop (push_char this c) ≡ some (c, this)
unfolding pop
pop-push_char this c h =
    let last : next_back (reverse (push_char this c)) ≡ some c =
      rw (reverse-append this (encode_utf8 c)) (next_back-encode_utf8 c (reverse this) h) in
    let size : length (push_char this c) - len_utf8 c ≡ length this =
      rw (length-append this (encode_utf8 c), length-encode_utf8 c) (omega arith) in
    ap (popped (push_char this c)) last
    ∙ ap (λ l. some (c, l))
        (ap (λ n. take n (push_char this c)) size ∙ take-append_left this (encode_utf8 c))

pub is_empty-push_char : (this : PageString) (c : ℕ) → is_empty (push_char this c) ≡ false
unfolding encode_utf8
is_empty-push_char [] c = ground arith
is_empty-push_char (byte ∷ this) c = refl
