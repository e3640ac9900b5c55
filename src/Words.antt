-- ===== src/Words.antt =====
-- Rust's operations on `u64` and `u16`, for src/addresses.rs. A word is a number, and wraps by `%`.
pub mod Fields
use Prim.Native.Nat.{bit_and, bit_or, bit_xor}
use zeronsd.Base.{ℕ, ◌*◌, ◌/◌, ◌%◌, ◌^◌}

abbrev pub u16 : ℕ
u16 = 65536

abbrev pub u64 : ℕ
u64 = 18446744073709551616

-- `x >> k`
infixl 60 ◌>>>◌
abbrev pub ◌>>>◌ : ℕ → ℕ → ℕ
x >>> k = x / 2 ^ k

-- `x << k` on `u64` and on `u16`: the bits above the word are lost
abbrev pub shl64 : ℕ → ℕ → ℕ
shl64 x k = x * 2 ^ k % u64

abbrev pub shl16 : ℕ → ℕ → ℕ
shl16 x k = x * 2 ^ k % u16

-- `x as u16`
abbrev pub as_u16 : ℕ → ℕ
as_u16 x = x % u16
