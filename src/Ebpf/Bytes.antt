-- ===== src/Ebpf/Bytes.antt =====
-- `#[repr(C)]` structs in memory: little-endian words, the C layout rule for offsets and sizes.
-- It is the meaning of `mem::size_of` and of `ptr::read_unaligned` in `aether-ebpf`.
use aether_terminal.Prelude.{
  ℕ, zero, suc, ◌+◌, ◌-◌, ◌*◌, ◌/◌, ◌%◌, ◌^◌, ◌≤◌, ◌<◌, max, ◌≡◌, refl, ap, List, [], ◌∷◌, ◌++◌,
  length, drop, ltb, if◌then◌else◌, ℤ, pos, negsuc, arith,
}

-- The number whose little-endian bytes are the first `n` of the list.
unfoldable pub read_le : ℕ → List ℕ → ℕ
read_le zero bytes = 0
read_le (suc n) [] = 0
read_le (suc n) (b ∷ bytes) = b + 256 * read_le n bytes

-- The `n` little-endian bytes of a number.
unfoldable pub write_le : ℕ → ℕ → List ℕ
write_le zero v = []
write_le (suc n) v = (v % 256) ∷ write_le n (v / 256)

unfoldable pub read_i32 : List ℕ → ℤ
read_i32 bytes =
    let n = read_le 4 bytes in if ltb n 0x80000000 then pos n else negsuc (0xffffffff - n)

-- Two's complement.
unfoldable pub i32_bits : ℤ → ℕ
i32_bits (pos n) = n
i32_bits (negsuc n) = 0xffffffff - n

unfoldable pub write_i32 : ℤ → List ℕ
write_i32 z = write_le 4 (i32_bits z)

-- The C layout rule: a field starts at the next multiple of its width, and the size is a multiple
-- of the widest field.
unfoldable pub align_up : ℕ → ℕ → ℕ
align_up offset width = (offset + width - 1) / width * width

unfoldable pub end_of : ℕ → List ℕ → ℕ
unfolding align_up
end_of offset [] = offset
end_of offset (w ∷ widths) = end_of (align_up offset w + w) widths

unfoldable pub widest : List ℕ → ℕ
widest [] = 1
widest (w ∷ widths) = max w (widest widths)

unfoldable pub size_of : List ℕ → ℕ
unfolding align_up end_of widest
size_of widths = align_up (end_of 0 widths) (widest widths)

-- The offset of the field with index `i`.
unfoldable pub offset_of : ℕ → List ℕ → ℕ → ℕ
unfolding align_up
offset_of offset [] i = offset
offset_of offset (w ∷ widths) zero = align_up offset w
offset_of offset (w ∷ widths) (suc i) = offset_of (align_up offset w + w) widths i

pub length-write_le : (n v : ℕ) → length (write_le n v) ≡ n
unfolding write_le
length-write_le zero v = refl
length-write_le (suc n) v = ap suc (length-write_le n (v / 256))

-- Bytes after the word do not matter, and a word that fits is read back.
pub read_le-write_le :
    (n v : ℕ) (rest : List ℕ) → v < 256 ^ n → read_le n (write_le n v ++ rest) ≡ v
unfolding read_le write_le
read_le-write_le zero v rest h = omega arith
read_le-write_le (suc n) v rest h = omega (arith, read_le-write_le n (v / 256) rest (grind arith))

unfoldable pub IsI32 : ℤ → Type 0
IsI32 (pos n) = n < 0x80000000
IsI32 (negsuc n) = n < 0x80000000

pub read_i32-write_i32 : (z : ℤ) (rest : List ℕ) → IsI32 z → read_i32 (write_i32 z ++ rest) ≡ z
unfolding read_i32 write_i32 i32_bits IsI32
read_i32-write_i32 (pos n) rest h = ground (arith, read_le-write_le 4 n rest (omega arith))
read_i32-write_i32 (negsuc n) rest h =
    ground (arith, read_le-write_le 4 (0xffffffff - n) rest (omega arith))

-- A list of bytes.
unfoldable pub IsBytes : List ℕ → Type 0
IsBytes [] = 0 ≤ 0
IsBytes (b ∷ bytes) = (b < 256) × IsBytes bytes

pow256_positive : (n : ℕ) → 0 < 256 ^ n
pow256_positive zero = omega arith
pow256_positive (suc n) = grind (arith, pow256_positive n)

pub read_le-lt : (n : ℕ) (bytes : List ℕ) → IsBytes bytes → read_le n bytes < 256 ^ n
unfolding read_le IsBytes
read_le-lt zero bytes h = omega arith
read_le-lt (suc n) [] h = pow256_positive (suc n)
read_le-lt (suc n) (b ∷ bytes) (hb, h) = grind (arith, read_le-lt n bytes h)

pub IsBytes-drop : (n : ℕ) (bytes : List ℕ) → IsBytes bytes → IsBytes (drop n bytes)
unfolding IsBytes
IsBytes-drop zero bytes h = h
IsBytes-drop (suc n) [] h = h
IsBytes-drop (suc n) (b ∷ bytes) (hb, h) = IsBytes-drop n bytes h

pub read_i32-IsI32 : (bytes : List ℕ) → IsBytes bytes → IsI32 (read_i32 bytes)
unfolding read_i32 IsI32
read_i32-IsI32 bytes h = ground (arith, read_le-lt 4 bytes h)
