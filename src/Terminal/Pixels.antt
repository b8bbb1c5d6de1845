-- ===== src/Terminal/Pixels.antt =====
-- `FrameBuffer` of kernel/src/drivers/framebuffer.rs: a buffer of several screens of pixels, of
-- which a window is copied to the video memory. `none` is a panic, which the overflow of a word in
-- a shift is too. The video memory, its stride and its bytes per pixel, both positive, come from
-- the boot loader.
use safa_os.Prelude.{
  ℕ, zero, suc, ◌+◌, ◌-◌, ◌*◌, ◌/◌, ◌^◌, ◌==◌, ltb, leb, Bool, true, false, if◌then◌else◌, Option,
  none, some, List, [], ◌∷◌, ◌++◌, length, take, drop, replicate, reverse,
}
use safa_os.Prelude.Options.{◌>>=◌, checked, checked_sub}
use safa_os.Terminal.Rgb.{Rgb, bytes}
pub mod Window
pub mod Copies
pub mod Writes

pub data PixelFormat : Type 0 where
  rgb bgr : PixelFormat

pub record FrameBuffer : Type 0 where
  pub stride : ℕ
  pub bytes_per_pixel : ℕ
  pub pixel_format : PixelFormat
  pub buffer_display_index : ℕ
  pub buffer : List ℕ
  pub video_buffer : List ℕ

pub new : List ℕ → ℕ → ℕ → PixelFormat → FrameBuffer
new video_buffer stride bytes_per_pixel pixel_format = record {
  stride = stride;
  bytes_per_pixel = bytes_per_pixel;
  pixel_format = pixel_format;
  buffer_display_index = 0;
  buffer = replicate (length video_buffer) 0;
  video_buffer = video_buffer;
}

pub increase_buffer : FrameBuffer → ℕ → FrameBuffer
increase_buffer this size = record this { buffer = this.buffer ++ replicate size 0 }

abbrev pub in_format : PixelFormat → List ℕ → List ℕ
in_format rgb bytes = reverse bytes
in_format bgr bytes = bytes

-- `buffer[at..at + source.len()].copy_from_slice(source)`
unfoldable pub copy_to : List ℕ → ℕ → List ℕ → Option (List ℕ)
copy_to buffer at source =
    if leb (at + length source) (length buffer)
    then some (take at buffer ++ (source ++ drop (at + length source) buffer))
    else none

abbrev pub with_buffer : FrameBuffer → Option (List ℕ) → Option FrameBuffer
with_buffer this (some buffer) = some (record this { buffer = buffer })
with_buffer this none = none

unfoldable pub set_pixel : FrameBuffer → ℕ → ℕ → Rgb → Option FrameBuffer
set_pixel this x y color =
    let index = x + y * this.stride in
    with_buffer this (
      copy_to this.buffer (index * this.bytes_per_pixel)
        (in_format this.pixel_format (bytes color)))

unfoldable pub sync_pixels : FrameBuffer → Option FrameBuffer
sync_pixels this =
    if leb (this.buffer_display_index + length this.video_buffer) (length this.buffer)
    then some (record this {
      video_buffer = take (length this.video_buffer) (drop this.buffer_display_index this.buffer);
    })
    else none

-- a shift back by `pixels`, which is not 0 and at most 2 ^ 63, where `-pixels` overflows
unfoldable pub shift_back : FrameBuffer → ℕ → Option FrameBuffer
shift_back this pixels =
    if pixels == 2 ^ 63
    then none
    else (checked (pixels * this.bytes_per_pixel) >>= λ amount.
        if ltb this.buffer_display_index amount
        then some (record this { buffer_display_index = 0 })
        else sync_pixels
            (record this { buffer_display_index = this.buffer_display_index - amount }))

-- a shift onwards by `pixels`, which is not 0; the buffer must not be shorter than the video memory
unfoldable pub shift_on : FrameBuffer → ℕ → Option FrameBuffer
shift_on this pixels = checked (pixels * this.bytes_per_pixel) >>= λ amount.
    checked (amount + this.buffer_display_index) >>= λ end.
    checked_sub (length this.buffer) (length this.video_buffer) >>= λ last.
    if leb last end
    then some (record this { buffer_display_index = last })
    else sync_pixels (record this { buffer_display_index = end })

-- `pixels` is the word of an `isize`, negative from 2 ^ 63 on
unfoldable pub shift_buffer : FrameBuffer → ℕ → Option FrameBuffer
shift_buffer this pixels =
    if pixels == 0
    then sync_pixels this
    else if ltb pixels (2 ^ 63)
    then shift_on this pixels
    else shift_back this (2 ^ 64 - pixels)

abbrev pub width : FrameBuffer → ℕ
width this = this.stride

abbrev pub height : FrameBuffer → ℕ
height this = length this.video_buffer / this.bytes_per_pixel / width this

abbrev pub get_cursor : FrameBuffer → ℕ
get_cursor this = this.buffer_display_index / this.bytes_per_pixel

abbrev pub set_cursor : FrameBuffer → ℕ → FrameBuffer
set_cursor this pixel = record this { buffer_display_index = pixel * this.bytes_per_pixel }

unfoldable pub clear : FrameBuffer → FrameBuffer
clear this = record this { buffer = replicate (length this.buffer) 0 }
