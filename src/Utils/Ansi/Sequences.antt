-- ===== src/Utils/Ansi/Sequences.antt =====
-- What the parser makes of a sequence with a number, and of two escape characters in a row.
use safa_os.Prelude.{
  ℕ, suc, ◌+◌, ◌*◌, ◌≤◌, ◌<◌, ◌≡◌, refl, arith, List, [], ◌∷◌, ◌++◌, map, length, ◌∙◌,
}
use safa_os.Utils.Ansi.{
  AnsiSequence, cursor_up, pending, add_char, sequence, parse_from, parse_seq, complete,
}

-- the number that digits spell behind `v`
abbrev value : ℕ → List ℕ → ℕ
value v [] = v
value v (d ∷ ds) = value (v * 10 + d) ds

abbrev AllDigits : List ℕ → Type 0
AllDigits [] = Unit
AllDigits (d ∷ ds) = (d < 10) × AllDigits ds

value-le : (v : ℕ) (ds : List ℕ) → v ≤ value v ds
value-le v [] = omega arith
value-le v (d ∷ ds) = omega (arith, value-le (v * 10 + d) ds)

add_char-digit :
    (v d : ℕ)
    → d < 10
    → v * 10 + d < 256
    → add_char (v ∷ []) (d + b'0') ≡ pending ((v * 10 + d) ∷ [])
unfolding add_char
add_char-digit v d lt fits = ground arith

add_char-first : (d : ℕ) → d < 10 → add_char [] (d + b'0') ≡ pending (d ∷ [])
unfolding add_char
add_char-first d lt = ground arith

add_char-up : (v : ℕ) → add_char (v ∷ []) b'A' ≡ complete (cursor_up v)
unfolding add_char
add_char-up v = refl

parse_from-pending :
    (c : ℕ) (chars : List ℕ) (i : ℕ) (numbers numbers' : List ℕ)
    → add_char numbers c ≡ pending numbers'
    → parse_from (c ∷ chars) i numbers ≡ parse_from chars (i + 1) numbers'
unfolding parse_from
parse_from-pending c chars i numbers numbers' e = rw (e, parse_from) refl

parse_from-complete :
    (c : ℕ) (chars : List ℕ) (i : ℕ) (numbers : List ℕ) (ansi : AnsiSequence)
    → add_char numbers c ≡ complete ansi
    → parse_from (c ∷ chars) i numbers ≡ sequence i ansi
unfolding parse_from
parse_from-complete c chars i numbers ansi e = rw (e, parse_from) refl

parse_digits :
    (ds : List ℕ) (v i : ℕ)
    → AllDigits ds
    → value v ds < 256
    → parse_from (map (λ d. d + b'0') ds ++ b'A' ∷ []) i (v ∷ [])
      ≡ sequence (i + length ds) (cursor_up (value v ds))
parse_digits [] v i a fits =
    let z : i + 0 ≡ i = omega arith in
    rw z (parse_from-complete b'A' [] i (v ∷ []) (cursor_up v) (add_char-up v))
parse_digits (d ∷ ds) v i a fits =
    let small = value-le (v * 10 + d) ds in
    let z : i + suc (length ds) ≡ (i + 1) + length ds = omega arith in
    parse_from-pending (d + b'0') _ i (v ∷ []) ((v * 10 + d) ∷ [])
      (add_char-digit v d a.0 (omega (arith, small, fits)))
    ∙ rw z (parse_digits ds (v * 10 + d) (i + 1) a.1 fits)

-- The digits of a number below 256 and an `A`, behind `ESC [`, are read as the sequence that moves
-- the cursor up by that number.
parse_seq-cursor_up :
    (d : ℕ) (ds : List ℕ)
    → d < 10
    → AllDigits ds
    → value d ds < 256
    → parse_seq (map (λ x. x + b'0') (d ∷ ds) ++ b'A' ∷ [])
      ≡ sequence (1 + length ds) (cursor_up (value d ds))
parse_seq-cursor_up d ds lt a fits =
    parse_from-pending (d + b'0') _ 0 [] (d ∷ []) (add_char-first d lt) ∙ parse_digits ds d 1 a fits
