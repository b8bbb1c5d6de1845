-- ===== src/Terminal/Pixels/Window.antt =====
-- The window of the buffer that is shown: it never leaves the buffer.
use safa_os.Prelude.{
  ℕ, ◌+◌, ◌-◌, ◌*◌, ◌^◌, ◌≤◌, ◌<◌, ◌≡◌, refl, min, Option, none, some, List, length, take, drop,
  ltb, leb, ◌==◌, ◌⊎◌, if◌then◌else◌, length-take, length-drop, arith, Bool-cases, inl, inr, true,
  false,
}
use safa_os.Terminal.Pixels.{FrameBuffer, sync_pixels, shift_back, shift_on, shift_buffer}

-- the window lies inside of the buffer
abbrev pub IsInside : FrameBuffer → Type 0
IsInside this = this.buffer_display_index + length this.video_buffer ≤ length this.buffer

-- the last place of the window
abbrev pub last_index : FrameBuffer → ℕ
last_index this = length this.buffer - length this.video_buffer

-- where a shift ends: it stops at the two ends of the buffer
abbrev pub clamped : FrameBuffer → ℕ → ℕ
clamped this pixels =
    if ltb pixels (2 ^ 63)
    then min (this.buffer_display_index + pixels * this.bytes_per_pixel) (last_index this)
    else this.buffer_display_index - (2 ^ 64 - pixels) * this.bytes_per_pixel

-- the bytes of the window
abbrev pub window : FrameBuffer → List ℕ
window this = take (length this.video_buffer) (drop this.buffer_display_index this.buffer)

-- a shift whose numbers fit in their words
abbrev pub FitsWord : FrameBuffer → ℕ → Type 0
FitsWord this pixels =
    if ltb pixels (2 ^ 63)
    then (pixels * this.bytes_per_pixel + this.buffer_display_index < 2 ^ 64)
    else ((2 ^ 63 < pixels) × ((2 ^ 64 - pixels) * this.bytes_per_pixel < 2 ^ 64))

-- `after` is `this` with its window at `index`, and nothing else is changed but the video memory,
-- which shows the window, or what it showed when the window is at an end of the buffer.
pub record MovedTo (this : FrameBuffer) (index : ℕ) (after : FrameBuffer) : Type 0 where
  pub at : after.buffer_display_index ≡ index
  pub same_buffer : after.buffer ≡ this.buffer
  pub same_size : length after.video_buffer ≡ length this.video_buffer
  pub same_stride : after.stride ≡ this.stride
  pub same_bytes_per_pixel : after.bytes_per_pixel ≡ this.bytes_per_pixel
  pub same_format : after.pixel_format ≡ this.pixel_format
  pub shown :
      (after.video_buffer ≡ window after)
      ⊎ ((after.video_buffer ≡ this.video_buffer) × ((index ≡ 0) ⊎ (index ≡ last_index this)))

module _ (this : FrameBuffer) (inside : IsInside this) where
  pub sync_pixels-MovedTo :
      (index : ℕ)
      → index ≤ last_index this
      → (after : FrameBuffer) × (sync_pixels (record this { buffer_display_index = index })
          ≡ some after)
        × MovedTo this index after
  unfolding sync_pixels
  sync_pixels-MovedTo index h =
      let fits : leb (index + length this.video_buffer) (length this.buffer) ≡ true =
        ground arith in
      let size : length (take (length this.video_buffer) (drop index this.buffer))
          ≡ length this.video_buffer =
        rw (length-take, length-drop) (omega arith) in
      (
        record this {
          buffer_display_index = index;
          video_buffer = take (length this.video_buffer) (drop index this.buffer);
        },
        rw fits refl,
        record {
          at = refl;
          same_buffer = refl;
          same_size = size;
          same_stride = refl;
          same_bytes_per_pixel = refl;
          same_format = refl;
          shown = inl (rw size refl);
        },
      )

  stay-MovedTo :
      (index : ℕ)
      → (index ≡ 0) ⊎ (index ≡ last_index this)
      → MovedTo this index (record this { buffer_display_index = index })
  stay-MovedTo index end = record {
    at = refl;
    same_buffer = refl;
    same_size = refl;
    same_stride = refl;
    same_bytes_per_pixel = refl;
    same_format = refl;
    shown = inr (refl, end);
  }

  abbrev Moves : (FrameBuffer → ℕ → Option FrameBuffer) → ℕ → ℕ → Type 0
  Moves shift pixels index =
      (after : FrameBuffer) × (shift this pixels ≡ some after) × MovedTo this index after

  shift_back-Moves :
      (pixels : ℕ)
      → pixels < 2 ^ 63
      → pixels * this.bytes_per_pixel < 2 ^ 64
      → Moves shift_back pixels (this.buffer_display_index - pixels * this.bytes_per_pixel)
  unfolding shift_back
  shift_back-Moves pixels signed word =
      let index = this.buffer_display_index in
      let amount = pixels * this.bytes_per_pixel in
      let negates : (pixels == 2 ^ 63) ≡ false = ground arith in
      let fits : ltb amount (2 ^ 64) ≡ true = ground arith in
      elim (Bool-cases (ltb index amount)) [
        | inl short ↦
            let none_left : index - amount ≡ 0 = ground arith in
            (
              record this { buffer_display_index = 0 },
              rw (negates, fits, short) refl,
              rw none_left (stay-MovedTo 0 (inl refl)),
            )
        | inr enough ↦
            rw (negates, fits, enough) (sync_pixels-MovedTo (index - amount) (omega arith))
      ]

  shift_on-Moves :
      (pixels : ℕ)
      → pixels * this.bytes_per_pixel + this.buffer_display_index < 2 ^ 64
      → Moves shift_on pixels
          (min (this.buffer_display_index + pixels * this.bytes_per_pixel) (last_index this))
  unfolding shift_on
  shift_on-Moves pixels word =
      let index = this.buffer_display_index in
      let amount = pixels * this.bytes_per_pixel in
      let last = last_index this in
      let fits : ltb amount (2 ^ 64) ≡ true = ground arith in
      let fits_sum : ltb (amount + index) (2 ^ 64) ≡ true = ground arith in
      let holds : leb (length this.video_buffer) (length this.buffer) ≡ true = ground arith in
      elim (Bool-cases (leb last (amount + index))) [
        | inl far ↦
            let stops : min (index + amount) last ≡ last = ground arith in
            (
              record this { buffer_display_index = last },
              rw (fits, fits_sum, holds, far) refl,
              rw stops (stay-MovedTo last (inr refl)),
            )
        | inr near ↦
            let goes : min (index + amount) last ≡ amount + index = ground arith in
            let inside : amount + index ≤ last = ground arith in
            rw (fits, fits_sum, holds, near, goes) (sync_pixels-MovedTo (amount + index) inside)
      ]

  shift_on-none :
      (pixels : ℕ)
      → 2 ^ 64 ≤ pixels * this.bytes_per_pixel + this.buffer_display_index
      → shift_on this pixels ≡ none
  unfolding shift_on
  shift_on-none pixels over =
      let amount = pixels * this.bytes_per_pixel in
      elim (Bool-cases (ltb amount (2 ^ 64))) [
        | inr much ↦ rw much refl
        | inl fits ↦
            let much : ltb (amount + this.buffer_display_index) (2 ^ 64) ≡ false = ground arith in
            rw (fits, much) refl
      ]

  -- A shift onwards panics or keeps the buffer with its sizes.
  pub shift_buffer-onwards :
      (pixels : ℕ)
      → pixels < 2 ^ 63
      → (shift_buffer this pixels ≡ none)
        ⊎ ((after : FrameBuffer) × (shift_buffer this pixels ≡ some after)
            × (after.buffer ≡ this.buffer)
            × (after.stride ≡ this.stride)
            × (after.bytes_per_pixel ≡ this.bytes_per_pixel))
  unfolding shift_buffer
  shift_buffer-onwards pixels small = elim (Bool-cases (pixels == 0)) [
    | inl nothing ↦
        let (after, runs, moves) = sync_pixels-MovedTo this.buffer_display_index (omega arith) in
        inr
          (after, rw nothing runs, moves.same_buffer, moves.same_stride, moves.same_bytes_per_pixel)
    | inr shifts ↦
        let onwards : ltb pixels (2 ^ 63) ≡ true = ground arith in
        elim (Bool-cases
          (ltb (pixels * this.bytes_per_pixel + this.buffer_display_index) (2 ^ 64))) [
            | inl fits ↦
                let (after, runs, moves) = shift_on-Moves pixels (ground arith) in
                inr (
                  after,
                  rw (shifts, onwards) runs,
                  moves.same_buffer,
                  moves.same_stride,
                  moves.same_bytes_per_pixel,
                )
            | inr over ↦ inl (rw (shifts, onwards) (shift_on-none pixels (ground arith)))
          ]
  ]

  -- With the window inside of the buffer, a shift whose numbers fit in their words does not panic
  -- and moves the window by its amount, or to the end of the buffer in its way. The buffer, the
  -- format and the sizes stay; the video memory shows the window, or what it showed when the window
  -- is at an end of the buffer.
  pub shift_buffer-Moves :
      (pixels : ℕ) → FitsWord this pixels → Moves shift_buffer pixels (clamped this pixels)
  unfolding shift_buffer
  shift_buffer-Moves pixels fits = elim (Bool-cases (pixels == 0)) [
    | inl nothing ↦
        let none_moved : pixels ≡ 0 = ground arith in
        let stays : clamped this 0 ≡ this.buffer_display_index = ground arith in
        rw (none_moved, stays) (sync_pixels-MovedTo this.buffer_display_index (omega arith))
    | inr moves ↦ elim (Bool-cases (ltb pixels (2 ^ 63))) [
      | inl onwards ↦ rw (moves, onwards) (shift_on-Moves pixels (rw onwards at fits))
      | inr backwards ↦
          let (signed, word) : (2 ^ 63 < pixels)
              × ((2 ^ 64 - pixels) * this.bytes_per_pixel < 2 ^ 64) =
            rw backwards at fits in
          rw (moves, backwards) (shift_back-Moves (2 ^ 64 - pixels) (omega (arith, signed)) word)
    ]
  ]

-- The window stays inside of the buffer.
pub MovedTo-IsInside :
    (this after : FrameBuffer) (index : ℕ)
    → IsInside this
    → index ≤ last_index this
    → MovedTo this index after
    → IsInside after
MovedTo-IsInside this after index inside h moved =
    rw (moved.at, moved.same_buffer, moved.same_size) (omega arith)
