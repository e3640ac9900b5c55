-- ===== src/Addresses/Digest.antt =====
-- `digest_hex` of src/addresses.rs reads bytes as one big-endian number, modulo 2 ^ 64.
use Prim.Native.Nat.{bit_or}
use zeronsd.Base.{ℕ, ◌+◌, ◌*◌, ◌%◌, ◌^◌, ◌<◌, ◌≡◌, ◌∙◌, List, [], ◌∷◌, All, arith}
use zeronsd.Words.{u64, shl64}
use zeronsd.Words.Fields.{bit_or_disjoint}
use zeronsd.Addresses.{fold_bytes}

-- The number that bytes stand for, most significant first, after those that make `acc`.
abbrev pub big_endian : ℕ → List ℕ → ℕ
big_endian acc [] = acc
big_endian acc (x ∷ bytes) = big_endian (acc * 256 + x) bytes

abbrev pub IsByte : ℕ → Type 0
IsByte x = x < 256

bit_or-shl64 : (acc x : ℕ) → x < 256 → bit_or (shl64 acc 8) x ≡ (acc * 256 + x) % u64
bit_or-shl64 acc x h =
    let high : shl64 acc 8 ≡ acc % 2 ^ 56 * 2 ^ 8 = omega arith in
    rw high (bit_or_disjoint 8 (acc % 2 ^ 56) x h ∙ omega arith)

fold_bytes_mod :
    (acc acc' : ℕ) (bytes : List ℕ)
    → All IsByte bytes
    → acc ≡ acc' % u64
    → fold_bytes acc bytes ≡ big_endian acc' bytes % u64
unfolding fold_bytes
fold_bytes_mod acc acc' [] hs e = e
fold_bytes_mod acc acc' (x ∷ bytes) (h, hs) e =
    fold_bytes_mod (bit_or (shl64 acc 8) x) (acc' * 256 + x) bytes hs
      (bit_or-shl64 acc x h ∙ omega arith)

-- The digest of bytes is the number that they stand for, most significant byte first, modulo 2 ^
-- 64.
pub fold_bytes-big_endian :
    (bytes : List ℕ) → All IsByte bytes → fold_bytes 0 bytes ≡ big_endian 0 bytes % u64
fold_bytes-big_endian bytes hs = fold_bytes_mod 0 0 bytes hs (omega arith)
