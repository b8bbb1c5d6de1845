-- ===== src/Utils/Ansi/Progress.antt =====
-- How far each step of the parser of kernel/src/utils/ansi.rs goes on in its text.
use mathlib.Core.Option.{some-injective}
use safa_os.Prelude.{
  ℕ, zero, suc, ◌+◌, ◌-◌, ◌≤◌, ◌<◌, ◌≡◌, ◌≢◌, refl, ap, ◌∙◌, false, ltb, ◌==◌, Option, none, some,
  Option-cases, List, [], ◌∷◌, length, replicate, ◌⊎◌, inl, inr, Bool-cases, arith,
}
use safa_os.Utils.Ansi.{
  AnsiSequence, Sequence, no_sequence, panics, sequence, parse_seq, len_utf8, split_at, Item, plain,
  Next, finished, crashed, item, esc, scan, sliced, next_plain, escaped, sequence_or, next_escape,
  next,
}

-- the first items of a text, at most `n`, and the text that is left
pub first_items : ℕ → List ℕ → List Item × List ℕ
first_items zero text = ([], text)
first_items (suc n) text = elim (next text) [
  | item found left ↦ let (items, rest) = first_items n left in (found ∷ items, rest)
  | finished ↦ ([], text)
  | crashed ↦ ([], text)
]

-- a slice behind the first character is one of the others
split_at-cons :
    (c : ℕ) (cs before left : List ℕ) (offset : ℕ)
    → (offset == 0) ≡ false
    → split_at (c ∷ cs) offset ≡ some (before, left)
    → (b : List ℕ) × (split_at cs (offset - len_utf8 c) ≡ some (b, left))
unfolding split_at
split_at-cons c cs before left offset far h = elim (Bool-cases (ltb offset (len_utf8 c))) [
  | inl inside ↦ cc (rw (far, inside) at h)
  | inr behind ↦ elim (Option-cases (split_at cs (offset - len_utf8 c))) [
    | inl gone ↦ cc (rw (far, behind, gone) at h)
    | inr ((b, rest), found) ↦
        let e : rest ≡ left =
          ap (λ (p : List ℕ × List ℕ). p.1) (some-injective _ _ (rw (far, behind, found) at h)) in
        (b, rw (← e) found)
  ]
]

split_at-le :
    (text before left : List ℕ) (offset : ℕ)
    → split_at text offset ≡ some (before, left)
    → length left ≤ length text
unfolding split_at
split_at-le [] before left offset h = elim (Bool-cases (offset == 0)) [
  | inl start ↦
      let e : [] ≡ left = ap (λ (p : List ℕ × List ℕ). p.1) (some-injective _ _ (rw start at h)) in
      rw (← e) (omega arith)
  | inr later ↦ cc (rw later at h)
]
split_at-le (c ∷ cs) before left offset h = elim (Bool-cases (offset == 0)) [
  | inl start ↦
      let e : c ∷ cs ≡ left =
        ap (λ (p : List ℕ × List ℕ). p.1) (some-injective _ _ (rw start at h)) in
      rw (← e) (omega arith)
  | inr later ↦
      let (b, found) = split_at-cons c cs before left offset later h in
      let le = split_at-le cs b left (offset - len_utf8 c) found in omega arith
]

-- a slice behind the start of a text leaves less of it
split_at-lt :
    (text before left : List ℕ) (offset : ℕ)
    → 0 < offset
    → split_at text offset ≡ some (before, left)
    → length left < length text
unfolding split_at
split_at-lt [] before left offset far h =
    let later : (offset == 0) ≡ false = ground arith in cc (rw later at h)
split_at-lt (c ∷ cs) before left offset far h =
    let (b, found) = split_at-cons c cs before left offset (ground arith) h in
    let le = split_at-le cs b left (offset - len_utf8 c) found in omega arith

scan-le : (chars : List ℕ) (n end : ℕ) → scan chars n ≡ some end → n ≤ end
unfolding scan
scan-le [] zero end h = omega arith
scan-le [] (suc n) end h = let e = some-injective _ _ h in omega arith
scan-le (c ∷ chars) n end h = elim (Bool-cases (c == esc)) [
  | inl here ↦ let e : n ≡ end = some-injective _ _ (rw here at h) in omega arith
  | inr later ↦ let le = scan-le chars (n + 1) end (rw later at h) in omega arith
]

scan-other :
    (c : ℕ) (chars : List ℕ) (end : ℕ)
    → (c == esc) ≡ false
    → scan (c ∷ chars) 0 ≡ some end
    → 0 < end
unfolding scan
scan-other c chars end other h = let le = scan-le chars 1 end (rw other at h) in omega arith

item-injective :
    (i j : Item) (left rest : List ℕ) → item i left ≡ item j rest → (i ≡ j) × (left ≡ rest)
item-injective i j left rest h = (cc, cc)

sliced-left :
    (o : Option (List ℕ × List ℕ)) (i : Item) (left : List ℕ)
    → sliced o ≡ item i left
    → (before : List ℕ) × (o ≡ some (before, left))
sliced-left none i left h = cc
sliced-left (some (before, from)) i left h =
    let e = (item-injective _ _ _ _ h).1 in (before, rw (← e) refl)

escaped-left :
    (ansi : AnsiSequence) (o : Option (List ℕ × List ℕ)) (i : Item) (left : List ℕ)
    → escaped ansi o ≡ item i left
    → (before : List ℕ) × (o ≡ some (before, left))
escaped-left ansi none i left h = cc
escaped-left ansi (some (before, from)) i left h =
    let e = (item-injective _ _ _ _ h).1 in (before, rw (← e) refl)

-- a piece of plain text whose end is not its start
next_plain-lt :
    (text : List ℕ) (c : ℕ) (chars left : List ℕ) (i : Item)
    → (c == esc) ≡ false
    → next_plain text (c ∷ chars) ≡ item i left
    → length left < length text
unfolding next_plain
next_plain-lt text c chars left i other h = elim (Option-cases (scan (c ∷ chars) 0)) [
  | inl nothing ↦ cc (rw (next_plain, nothing) at h)
  | inr (end, found) ↦
      let (before, split) = sliced-left (split_at text end) i left (rw (next_plain, found) at h) in
      split_at-lt text before left end (scan-other c chars end other found) split
]

-- an item from behind an escape character
sequence_or-lt :
    (text left : List ℕ) (i : Item) (parsed : Sequence) (otherwise : Next)
    → sequence_or text parsed otherwise ≡ item i left
    → (length left < length text) ⊎ (otherwise ≡ item i left)
sequence_or-lt text left i (sequence n ansi) otherwise h =
    let (before, split) = escaped-left ansi (split_at text (n + 3)) i left h in
    inl (split_at-lt text before left (n + 3) (omega arith) split)
sequence_or-lt text left i panics otherwise h = cc
sequence_or-lt text left i no_sequence otherwise h = inr h

next_escape-lt :
    (text : List ℕ) (d : ℕ) (rest left : List ℕ) (i : Item) (otherwise : Next)
    → next_escape text (d ∷ rest) otherwise ≡ item i left
    → (length left < length text) ⊎ (otherwise ≡ item i left)
next_escape-lt text d rest left i otherwise h = elim (Bool-cases (d == b'[')) [
  | inl bracket ↦ sequence_or-lt text left i (parse_seq rest) otherwise (rw bracket at h)
  | inr other ↦ inr (rw other at h)
]

stuck : (rest : List ℕ) → next (esc ∷ esc ∷ rest) ≡ item (plain []) (esc ∷ esc ∷ rest)
unfolding next next_plain scan split_at
stuck rest = refl

first_items-step :
    (text left : List ℕ) (i : Item) (n : ℕ)
    → next text ≡ item i left
    → first_items (suc n) text ≡ (i ∷ (first_items n left).0, (first_items n left).1)
unfolding first_items
first_items-step text left i n e = rw (first_items, e) refl

first_items-stuck :
    (rest : List ℕ) (n : ℕ)
    → first_items n (esc ∷ esc ∷ rest) ≡ (replicate n (plain []), esc ∷ esc ∷ rest)
unfolding first_items
first_items-stuck rest zero = refl
first_items-stuck rest (suc n) =
    first_items-step (esc ∷ esc ∷ rest) (esc ∷ esc ∷ rest) (plain []) n (stuck rest)
    ∙ rw (first_items-stuck rest n) refl

next_none : (left : List ℕ) (i : Item) → next [] ≢ item i left
unfolding next next_plain scan
next_none left i h = cc

-- an escape character alone ends the iteration
next_last : (left : List ℕ) (i : Item) → next_plain (esc ∷ []) [] ≢ item i left
unfolding next_plain scan
next_last left i h = cc

-- Each item that the iteration over a text yields leaves less of the text, except where the text
-- starts with two escape characters: there it yields empty pieces for ever and leaves the text as
-- it is.
pub next-advances :
    (text left : List ℕ) (i : Item)
    → next text ≡ item i left
    → (length left < length text)
      ⊎ ((rest : List ℕ) × (text ≡ esc ∷ esc ∷ rest)
          × ((n : ℕ) → first_items n text ≡ (replicate n (plain []), text)))
unfolding next
next-advances [] left i h = absurd (next_none left i h)
next-advances (c ∷ []) left i h = elim (Bool-cases (c == esc)) [
  | inr other ↦ inl (next_plain-lt (c ∷ []) c [] left i other (rw other at h))
  | inl here ↦
      let first : c ≡ esc = ground arith in absurd (next_last left i (rw (here, first) at h))
]
next-advances (c ∷ d ∷ rest) left i h = elim (Bool-cases (c == esc)) [
  | inr other ↦ inl (next_plain-lt (c ∷ d ∷ rest) c (d ∷ rest) left i other (rw other at h))
  | inl here ↦
      elim (next_escape-lt (c ∷ d ∷ rest) d rest left i (next_plain (c ∷ d ∷ rest) (d ∷ rest))
        (rw here at h)) [
          | inl shorter ↦ inl shorter
          | inr as_plain ↦ elim (Bool-cases (d == esc)) [
            | inr other ↦ inl (next_plain-lt (c ∷ d ∷ rest) d rest left i other as_plain)
            | inl twice ↦
                let first : c ≡ esc = ground arith in
                let second : d ≡ esc = ground arith in
                inr (rest, rw (first, second) refl, rw (first, second) (first_items-stuck rest))
          ]
        ]
]
