-- ===== src/Utils/Ustar.antt =====
-- kernel/src/utils/ustar.rs: the entries of a tar archive, which is the list of its bytes. An entry
-- is the offset of its header. A read behind the last byte is an outcome of its own.
use safa_os.Prelude.{
  ℕ, ◌+◌, ◌-◌, ◌*◌, ◌/◌, Bool, ◌&&◌, ◌==◌, ltb, leb, if◌then◌else◌, Option, none, some, [], ◌∷◌,
  length, take, drop,
}
use safa_os.Prelude.Words.{add_usize, mul_usize}
use safa_os.Vfs.Types.{Bytes, same_bytes}
use safa_os.Utils.Elf.{Reading, read, panic, stray, ◌>>=◌, ◌>>◌, assert}

abbrev pub size_of_inode : ℕ
size_of_inode = 500

-- the bytes of a header, which is a packed struct
abbrev pub header_at : Bytes → ℕ → Reading Bytes
header_at bytes at =
    if leb (at + size_of_inode) (length bytes)
    then read (take size_of_inode (drop at bytes))
    else stray

-- `trim_end_matches('\0')`
abbrev pub trim_end : Bytes → Bytes
trim_end [] = []
trim_end (b ∷ bytes) = trimmed b (trim_end bytes)
  where
    trimmed : ℕ → Bytes → Bytes
    trimmed b [] = if b == 0 then [] else (b ∷ [])
    trimmed b (c ∷ rest) = b ∷ c ∷ rest

abbrev pub kind_of : Bytes → ℕ
kind_of header = elim (take 1 (drop 156 header)) [ b ∷ _ ↦ b | [] ↦ 0 ]

abbrev pub name_of : Bytes → Bytes
name_of header = trim_end (take 100 header)

-- the digits of `u32::from_str_radix(_, 8)`, with the value so far; `none` is an error
unfoldable pub octal_digits : ℕ → Bytes → Option ℕ
octal_digits value [] = some value
octal_digits value (b ∷ bytes) =
    let next_value = value * 8 + (b - 48) in
    let rest = octal_digits next_value bytes in
    if leb 48 b && ltb b 56 && ltb next_value 4294967296 then rest else none

-- a sign may stand in front of the digits
abbrev pub parse_octal : Bytes → Option ℕ
parse_octal [] = none
parse_octal (b ∷ []) = octal_digits 0 (b ∷ [])
parse_octal (b ∷ c ∷ bytes) =
    if b == 43 then octal_digits 0 (c ∷ bytes) else octal_digits 0 (b ∷ c ∷ bytes)

unfoldable pub size_of : Bytes → Reading ℕ
unfolding octal_digits
size_of header = elim (parse_octal (trim_end (take 12 (drop 124 header)))) [
  | some size ↦ read size
  | none ↦ panic
]

-- "ustar"
abbrev pub verify : Bytes → Bool
verify header = same_bytes (take 5 (drop 257 header)) (117 ∷ 115 ∷ 116 ∷ 97 ∷ 114 ∷ [])

unfoldable pub data_of : Bytes → ℕ → Reading Bytes
unfolding size_of
data_of bytes at = header_at bytes at >>= λ header. size_of header >>= λ size.
    if leb (at + 512 + size) (length bytes) then read (take size (drop (at + 512) bytes)) else stray

-- the offset of the header behind an entry
unfoldable pub behind : Bytes → ℕ → Reading ℕ
unfolding size_of
behind bytes at = header_at bytes at >>= λ header.
    size_of header >>= λ size. read (add_usize at (mul_usize ((size + 511) / 512 + 1) 512))

pub record TarArchiveIter : Type 0 where
  pub bytes : Bytes
  pub at : Option ℕ

unfoldable pub new : Bytes → Reading TarArchiveIter
new bytes = header_at bytes 0 >>= λ header.
    assert (verify header) >> read (record { bytes = bytes; at = some 0 })

-- an entry, and the iterator at the next one if that has the magic of a header
unfoldable pub next : TarArchiveIter → Reading (TarArchiveIter × Option ℕ)
unfolding behind
next this = elim this.at [
  | none ↦ read (this, none)
  | some at ↦ behind this.bytes at >>= λ next_at. header_at this.bytes next_at >>= λ header.
      read (record this { at = if verify header then some next_at else none }, some at)
]
