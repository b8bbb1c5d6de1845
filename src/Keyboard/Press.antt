-- ===== src/Keyboard/Press.antt =====
-- Pressing, holding and releasing a key: what the list of pressed keys becomes.
use safa_os.Prelude.{
  ℕ, zero, suc, ◌+◌, ◌≤◌, ◌<◌, ◌≡◌, ◌≢◌, ◌↔◌, refl, ◌∙◌, true, false, ◌==◌, ◌||◌, ltb, lt→ltb, none,
  some, List, [], ◌∷◌, ◌++◌, length, length-append, replicate, arith, ==-refl, set,
}
use mathlib.Core.List.{append-nil, append_assoc}
use native.Mathlib.Decide.{dec_lt, ℕ_discrete}
use safa_os.Keyboard.{
  Keyboard, holds_code, code_is_pressed, process_keycode, remove_first, remove_pressed_keycode,
  push_key, add_pressed_keycode, handle_ps2_set_1, run, finish_code,
}
use safa_os.Keyboard.Keys.{
  KeyCode, Key, null_key, same_code, decode_set1, null, caps_lock, discriminant,
}
use safa_os.Keyboard.Decode.{clean, handle_make, handle_break}

same_code_refl : (c : KeyCode) → same_code c c ≡ true
unfolding same_code
same_code_refl c = ==-refl (discriminant c)

holds-append :
    (ks : List Key) (k : Key) (c : KeyCode)
    → holds_code (ks ++ k ∷ []) c ≡ (holds_code ks c || same_code k.code c)
unfolding holds_code
holds-append [] k c = ground arith
holds-append (x ∷ ks) k c = ground (arith, holds-append ks k c)

remove-append :
    (ks : List Key) (k : Key) (c : KeyCode) (rest : List Key)
    → holds_code ks c ≡ false
    → same_code k.code c ≡ true
    → remove_first (ks ++ k ∷ rest) c ≡ ks ++ rest
unfolding holds_code remove_first
remove-append [] k c rest h s = rw s
remove-append (x ∷ ks) k c rest h s = ground (arith, remove-append ks k c rest)

-- what a press adds
abbrev pub pressed : List Key → KeyCode → List Key
pressed ks c = ks ++ process_keycode (clean ks) c ∷ []

process-code : (kb : Keyboard) (c : KeyCode) → (process_keycode kb c).code ≡ c
unfolding process_keycode
process-code kb c = refl

module _ (ks : List Key) (c : KeyCode) (known : same_code c null ≡ false)
    (plain : same_code c caps_lock ≡ false) where
  add_plain : length ks < 256 → add_pressed_keycode (clean ks) c ≡ clean (pressed ks c)
  unfolding add_pressed_keycode
  add_plain room = rw (known, plain, push_key, lt→ltb (length ks) 256 room)

  remove_plain : (l : List Key) → remove_pressed_keycode (clean l) c ≡ clean (remove_first l c)
  unfolding remove_pressed_keycode
  remove_plain l = rw known

same_process : (kb : Keyboard) (c : KeyCode) → same_code (process_keycode kb c).code c ≡ true
same_process kb c = rw process-code (same_code_refl c)

holds-pressed : (ks : List Key) (c : KeyCode) → holds_code (pressed ks c) c ≡ true
holds-pressed ks c =
    ground (arith, holds-append ks (process_keycode (clean ks) c) c, same_process (clean ks) c)

-- With no bytes pending and fewer than 256 keys pressed, a make code of one byte, which is not
-- 0x60, for a key that is known, is not caps lock and is not pressed, reports that key and leaves
-- it pressed, and the break code that follows restores the keyboard exactly.
pub press_release :
    (ks : List Key) (b : ℕ)
    → b < 128
    → b ≢ 0x60
    → same_code (decode_set1 b) null ≡ false
    → same_code (decode_set1 b) caps_lock ≡ false
    → holds_code ks (decode_set1 b) ≡ false
    → length ks < 256
    → (held : Keyboard) × (key : Key) × (handle_ps2_set_1 (clean ks) b ≡ some (held, key))
      × (key.code ≡ decode_set1 b)
      × (code_is_pressed held (decode_set1 b) ≡ true)
      × (handle_ps2_set_1 held (b + 128) ≡ some (clean ks, null_key))
unfolding code_is_pressed
press_release ks b hb ne known plain free room =
    let c = decode_set1 b in
    let add = add_plain ks c known plain room in
    (
      clean (pressed ks c),
      process_keycode (clean (pressed ks c)) c,
      rw (handle_make ks b hb, add),
      process-code _ c,
      holds-pressed ks c,
      handle_break (pressed ks c) b hb ne
          ∙ rw (
            plain,
            remove_plain ks c known plain (pressed ks c),
            remove-append ks (process_keycode (clean ks) c) c [] free (same_process (clean ks) c),
            append-nil,
          ),
    )

run-step :
    (b : ℕ) (bs : List ℕ) (kb kb' : Keyboard) (k : Key)
    → handle_ps2_set_1 kb b ≡ some (kb', k)
    → run (b ∷ bs) kb ≡ run bs kb'
unfolding run
run-step b bs kb kb' k e = rw (e, run)

run-none :
    (b : ℕ) (bs : List ℕ) (kb : Keyboard) → handle_ps2_set_1 kb b ≡ none → run (b ∷ bs) kb ≡ none
unfolding run
run-none b bs kb e = rw (e, run)

run-nil : (kb : Keyboard) → run [] kb ≡ some kb
unfolding run
run-nil kb = refl

-- A key that repeats while it is held is pressed twice and released once: after its break code the
-- keyboard still holds it.
pub repeat_stays_pressed :
    (ks : List Key) (b : ℕ)
    → b < 128
    → b ≢ 0x60
    → same_code (decode_set1 b) null ≡ false
    → same_code (decode_set1 b) caps_lock ≡ false
    → holds_code ks (decode_set1 b) ≡ false
    → length ks + 1 < 256
    → (after : Keyboard) × (run (b ∷ b ∷ (b + 128) ∷ []) (clean ks) ≡ some after)
      × (code_is_pressed after (decode_set1 b) ≡ true)
unfolding code_is_pressed
repeat_stays_pressed ks b hb ne known plain free room =
    let c = decode_set1 b in
    let key1 = process_keycode (clean ks) c in
    let ks1 = pressed ks c in
    let key2 = process_keycode (clean ks1) c in
    let add1 = add_plain ks c known plain (omega arith) in
    let add2 = add_plain ks1 c known plain (omega (arith, length-append ks (key1 ∷ []))) in
    let first : handle_ps2_set_1 (clean ks) b ≡ some (clean ks1, process_keycode (clean ks1) c) =
      handle_make ks b hb ∙ rw add1 in
    let second : handle_ps2_set_1 (clean ks1) b
        ≡ some (clean (ks1 ++ key2 ∷ []), process_keycode (clean (ks1 ++ key2 ∷ [])) c) =
      handle_make ks1 b hb ∙ rw add2 in
    let third : handle_ps2_set_1 (clean (ks1 ++ key2 ∷ [])) (b + 128)
        ≡ some (clean (ks ++ key2 ∷ []), null_key) =
      handle_break (ks1 ++ key2 ∷ []) b hb ne
      ∙ rw (
        plain,
        remove_plain ks c known plain (ks1 ++ key2 ∷ []),
        append_assoc,
        remove-append ks key1 c (key2 ∷ []) free (same_process (clean ks) c),
      ) in
    (
      clean (ks ++ key2 ∷ []),
      run-step b _ (clean ks) _ _ first
          ∙ run-step b _ (clean ks1) _ _ second
          ∙ run-step (b + 128) _ (clean (ks1 ++ key2 ∷ [])) _ _ third
          ∙ run-nil _,
      ground (arith, holds-append ks key2 c, same_process (clean ks1) c),
    )

handle_prefix :
    (kb : Keyboard)
    → kb.latest_unencoded_byte < 8
    → handle_ps2_set_1 kb 0xE0
      ≡ some (
        record kb {
          latest_unencoded_byte = kb.latest_unencoded_byte + 1;
          current_unencoded_key = set kb.current_unencoded_key kb.latest_unencoded_byte 0xE0;
        },
        null_key,
      )
unfolding handle_ps2_set_1
handle_prefix kb h = rw (lt→ltb kb.latest_unencoded_byte 8 h)

handle_last :
    (kb : Keyboard) (b : ℕ)
    → kb.latest_unencoded_byte < 8
    → b ≢ 0xE0
    → handle_ps2_set_1 kb b
      ≡ some (finish_code kb (set kb.current_unencoded_key kb.latest_unencoded_byte b) b)
unfolding handle_ps2_set_1
handle_last kb b h ne =
    let e : (b == 0xE0) ≡ false = ground arith in rw (lt→ltb kb.latest_unencoded_byte 8 h, e)

handle_full : (kb : Keyboard) (b : ℕ) → 8 ≤ kb.latest_unencoded_byte → handle_ps2_set_1 kb b ≡ none
unfolding handle_ps2_set_1
handle_full kb b h = let e : ltb kb.latest_unencoded_byte 8 ≡ false = ground arith in rw e

-- A keyboard takes a byte without a panic exactly when its buffer of 8 bytes has a free place.
handle_panics_iff_full :
    (kb : Keyboard) (b : ℕ) → (handle_ps2_set_1 kb b ≡ none) ↔ (8 ≤ kb.latest_unencoded_byte)
handle_panics_iff_full kb b = (
  λ e. elim (dec_lt kb.latest_unencoded_byte 8) [
    | no full ↦ omega arith
    | yes room ↦ elim (ℕ_discrete b 0xE0) [
      | yes prefix ↦
          let e' : handle_ps2_set_1 kb 0xE0 ≡ none = rw (← prefix) e in cc (handle_prefix kb room)
      | no last ↦ cc (handle_last kb b room last)
    ]
  ],
  handle_full kb b,
)

-- Prefix bytes 0xE0 in a row fill the buffer: any run of them that passes its 8 places panics.
pub prefix_overflow :
    (n : ℕ) (kb : Keyboard)
    → kb.latest_unencoded_byte ≤ 8
    → 8 < kb.latest_unencoded_byte + n
    → run (replicate n 0xE0) kb ≡ none
prefix_overflow zero kb fits h = absurd (omega arith)
prefix_overflow (suc n) kb fits h = elim (dec_lt kb.latest_unencoded_byte 8) [
  | yes room ↦
      run-step 0xE0 (replicate n 0xE0) kb _ _ (handle_prefix kb room)
      ∙ prefix_overflow n _ (omega arith) (omega arith)
  | no full ↦ run-none 0xE0 (replicate n 0xE0) kb (handle_full kb 0xE0 (omega arith))
]
