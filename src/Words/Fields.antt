-- ===== src/Words/Fields.antt =====
-- `|` of disjoint fields is their sum, and `&` with a mask of ones is a remainder.
use Prim.Native.Nat.{bit_and, bit_or, digits, max, bit_and-bitwise, bit_or-bitwise}
use native.Mathlib.Nat.{pow-suc, one-le-pow}
use zeronsd.Base.{
  ℕ, zero, suc, ◌+◌, ◌-◌, ◌*◌, ◌/◌, ◌%◌, ◌^◌, ◌≤◌, ◌<◌, min, ◌≡◌, refl, ◌∙◌, ap, sym, arith,
}

-- The native operations, with the count of digits to go left free.
abbrev or_from : ℕ → ℕ → ℕ → ℕ
or_from n a b = digits (λ y. y) max n a b

abbrev and_from : ℕ → ℕ → ℕ → ℕ
and_from n a b = digits (λ y. 0) min n a b

or_from-zero : (n a : ℕ) → a ≤ n → or_from n a 0 ≡ a
or_from-zero zero a h = omega arith
or_from-zero (suc n) zero h = refl
or_from-zero (suc n) (suc a) h = omega (arith, or_from-zero n (suc a / 2) (omega arith))

and_from-zero : (n a : ℕ) → and_from n a 0 ≡ 0
and_from-zero zero a = refl
and_from-zero (suc n) zero = refl
and_from-zero (suc n) (suc a) = omega (arith, and_from-zero n (suc a / 2))

-- A field above bit `k` and one below it.
or_from_disjoint : (k n a q r : ℕ) → a ≡ q * 2 ^ k → a ≤ n → r < 2 ^ k → or_from n a r ≡ a + r
or_from_disjoint zero n a q r e h lt =
    let none_left : r ≡ 0 = omega arith in rw none_left (or_from-zero n a h ∙ omega arith)
or_from_disjoint (suc k) zero a q r e h lt = omega arith
or_from_disjoint (suc k) (suc n) zero q r e h lt = omega arith
or_from_disjoint (suc k) (suc n) (suc a) q r e h lt =
    let twice : suc a ≡ 2 * (q * 2 ^ k) = e ∙ omega (arith, ap (λ (t : ℕ). q * t) (pow-suc 2 k)) in
    omega (
      arith,
      or_from_disjoint k n (suc a / 2) q (r / 2) (omega arith) (omega arith)
          (omega (arith, pow-suc 2 k)),
    )

-- `and_from` with k ones below.
and_from_ones :
    (k n a q r : ℕ) → a ≡ q * 2 ^ k + r → a ≤ n → r < 2 ^ k → and_from n a (2 ^ k - 1) ≡ r
and_from_ones zero n a q r e h lt = and_from-zero n a ∙ omega arith
and_from_ones (suc k) zero a q r e h lt = omega arith
and_from_ones (suc k) (suc n) zero q r e h lt = omega arith
and_from_ones (suc k) (suc n) (suc a) q r e h lt =
    let twice : q * 2 ^ suc k ≡ 2 * (q * 2 ^ k) =
      omega (arith, ap (λ (t : ℕ). q * t) (pow-suc 2 k)) in
    let half : (2 ^ suc k - 1) / 2 ≡ 2 ^ k - 1 = omega (arith, pow-suc 2 k, one-le-pow k 2) in
    let odd : (2 ^ suc k - 1) % 2 ≡ 1 = omega (arith, pow-suc 2 k, one-le-pow k 2) in
    rw (half, odd)
      (omega (
        arith,
        and_from_ones k n (suc a / 2) q (r / 2) (omega arith) (omega arith)
            (omega (arith, pow-suc 2 k)),
      ))

pub bit_or_disjoint : (k q r : ℕ) → r < 2 ^ k → bit_or (q * 2 ^ k) r ≡ q * 2 ^ k + r
bit_or_disjoint k q r lt =
    bit_or-bitwise (q * 2 ^ k) r ∙ or_from_disjoint k _ (q * 2 ^ k) q r refl (omega arith) lt

pub bit_and_ones : (k q r : ℕ) → r < 2 ^ k → bit_and (q * 2 ^ k + r) (2 ^ k - 1) ≡ r
bit_and_ones k q r lt =
    bit_and-bitwise (q * 2 ^ k + r) (2 ^ k - 1)
    ∙ and_from_ones k _ (q * 2 ^ k + r) q r refl (omega arith) lt

-- The masks of src/addresses.rs.
pub bit_and_byte : (a : ℕ) → bit_and a 0xff ≡ a % 256
bit_and_byte a =
    let whole : a / 256 * 256 + a % 256 ≡ a = omega arith in
    ap (λ (b : ℕ). bit_and b 0xff) (sym whole) ∙ bit_and_ones 8 (a / 256) (a % 256) (omega arith)

pub bit_and_word : (a : ℕ) → bit_and a 0xffff ≡ a % 65536
bit_and_word a =
    let whole : a / 65536 * 65536 + a % 65536 ≡ a = omega arith in
    ap (λ (b : ℕ). bit_and b 0xffff) (sym whole)
    ∙ bit_and_ones 16 (a / 65536) (a % 65536) (omega arith)
