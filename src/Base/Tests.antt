-- ===== src/Base/Tests.antt =====
-- Boolean tests, the conditional, and equality tests as values.
use Prim.Native.Nat.{ℕ, compare, Ordering}
use Prim.Native.Char.{code}
use Prim.Native.String.{String}
use mathlib.Core.Path.{◌≡◌, refl}
use mathlib.Core.Logic.{◌↔◌, ◌⊎◌, inl, inr}
use mathlib.Core.Bool.{Bool, true, false}
use mathlib.Core.Option.{Option, none, some}
use mathlib.Core.List.{List, [], ◌∷◌}
use native.Mathlib.Omega.{arith}

abbrev pub ltb : ℕ → ℕ → Bool
ltb a b = elim (compare a b) [ Ordering.lt ↦ true | _ ↦ false ]

abbrev pub leb : ℕ → ℕ → Bool
leb a b = elim (compare a b) [ Ordering.gt ↦ false | _ ↦ true ]

infix 50 ◌==◌
abbrev pub ◌==◌ : ℕ → ℕ → Bool
a == b = elim (compare a b) [ Ordering.eq ↦ true | _ ↦ false ]

infix 1 if◌then◌else◌
abbrev pub if◌then◌else◌ {ℓ} : {A : Type ℓ} → Bool → A → A → A
if true then x else y = x
if false then x else y = y

pub ==_iff : (a b : ℕ) → ((a == b) ≡ true) ↔ (a ≡ b)
==_iff a b = ground arith

-- To split on a computed value and keep the equation.
pub Bool-cases : (b : Bool) → (b ≡ true) ⊎ (b ≡ false)
Bool-cases true = inl refl
Bool-cases false = inr refl

pub Option-cases {ℓ} : {A : Type ℓ} (o : Option A) → (o ≡ none) ⊎ ((a : A) × (o ≡ some a))
Option-cases none = inl refl
Option-cases (some a) = inr (a, refl)

-- Rust's `PartialEq` of a type whose `==` is equality.
pub record Eq {ℓ} (A : Type ℓ) : Type ℓ where
  pub same : A → A → Bool
  pub same_iff : (a b : A) → (same a b ≡ true) ↔ (a ≡ b)

-- Texts are lists of code points; a literal is read by `codes`.
abbrev pub Text : Type 0
Text = List ℕ

abbrev pub codes : String → Text
codes String.[] = []
codes (String.◌∷◌ first rest) = code first ∷ codes rest

-- `==` of texts.
abbrev pub text_same : Text → Text → Bool
text_same [] [] = true
text_same [] (_ ∷ _) = false
text_same (_ ∷ _) [] = false
text_same (a ∷ s) (b ∷ t) = if a == b then text_same s t else false

pub text_same_iff : (s t : Text) → (text_same s t ≡ true) ↔ (s ≡ t)
text_same_iff [] [] = ground arith
text_same_iff [] (_ ∷ _) = ground arith
text_same_iff (_ ∷ _) [] = ground arith
text_same_iff (a ∷ s) (b ∷ t) = ground (arith, text_same_iff s t)

abbrev pub text_eq : Eq Text
text_eq = record { same = text_same; same_iff = text_same_iff }

abbrev pub nat_eq : Eq ℕ
nat_eq = record { same = ◌==◌; same_iff = ==_iff }

pub same-eq-false_symm {ℓ} :
    {A : Type ℓ} (E : Eq A) (a b : A) → E.same a b ≡ false → E.same b a ≡ false
same-eq-false_symm E a b h = ground (arith, E.same_iff a b, E.same_iff b a)
