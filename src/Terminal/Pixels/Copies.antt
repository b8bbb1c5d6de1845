-- ===== src/Terminal/Pixels/Copies.antt =====
-- Bytes copied into the buffer.
use safa_os.Prelude.{
  ℕ, ◌+◌, ◌-◌, ◌≤◌, ◌<◌, ◌≡◌, refl, ap, ◌∙◌, some, List, ◌++◌, length, take, drop, get_elem?, leb,
  true, length-take, length-drop, length-append, arith, get_elem?-append_lt, get_elem?-append_ge,
  get_elem?-take, get_elem?-drop,
}
use safa_os.Terminal.Pixels.{copy_to}

-- `after` is `buffer` with `source` in the place at `at`.
pub record CopiedTo (buffer : List ℕ) (at : ℕ) (source after : List ℕ) : Type 0 where
  pub same_length : length after ≡ length buffer
  pub inside : (i : ℕ) → i < length source → get_elem? after (at + i) ≡ get_elem? source i
  pub before : (j : ℕ) → j < at → get_elem? after j ≡ get_elem? buffer j
  pub behind : (j : ℕ) → at + length source ≤ j → get_elem? after j ≡ get_elem? buffer j

module _ (buffer : List ℕ) (at : ℕ) (source : List ℕ)
    (fits : at + length source ≤ length buffer) where
  abbrev copied : List ℕ
  copied = take at buffer ++ (source ++ drop (at + length source) buffer)

  length-copied : length copied ≡ length buffer
  length-copied = rw (length-append, length-append, length-take, length-drop) (omega arith)

  head_length : length (take at buffer) ≡ at
  head_length = rw length-take (omega arith)

  copied-inside : (i : ℕ) → i < length source → get_elem? copied (at + i) ≡ get_elem? source i
  copied-inside i h =
      let step : at + i - at ≡ i = omega arith in
      get_elem?-append_ge (take at buffer) _ (at + i) (rw head_length (omega arith))
      ∙ rw (head_length, step) (get_elem?-append_lt source _ i h)

  copied-before : (j : ℕ) → j < at → get_elem? copied j ≡ get_elem? buffer j
  copied-before j h =
      get_elem?-append_lt (take at buffer) _ j (rw head_length h) ∙ get_elem?-take at buffer j h

  copied-behind : (j : ℕ) → at + length source ≤ j → get_elem? copied j ≡ get_elem? buffer j
  copied-behind j h =
      let place : at + length source + (j - at - length source) ≡ j = omega arith in
      get_elem?-append_ge (take at buffer) _ j (rw head_length (omega arith))
      ∙ rw head_length (
          get_elem?-append_ge source _ (j - at) (omega arith)
          ∙ get_elem?-drop (at + length source) buffer (j - at - length source)
          ∙ ap (get_elem? buffer) place)

  pub copy_to-CopiedTo :
      (after : List ℕ) × (copy_to buffer at source ≡ some after) × CopiedTo buffer at source after
  unfolding copy_to
  copy_to-CopiedTo =
      let holds : leb (at + length source) (length buffer) ≡ true = ground arith in
      (
        copied,
        rw holds refl,
        record {
          same_length = length-copied;
          inside = copied-inside;
          before = copied-before;
          behind = copied-behind;
        },
      )
