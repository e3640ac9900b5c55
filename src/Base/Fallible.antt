-- ===== src/Base/Fallible.antt =====
-- What a fallible Rust function returns: `Result<A, errors::Error>`, where a panic
-- (`unwrap`, `expect`) is a third case. `errors::Error` has no content, and the texts that are
-- attached to it are only printed.
use mathlib.Core.Path.{◌≡◌, refl}
use mathlib.Core.Logic.{◌⊎◌, inl, inr}
use mathlib.Core.Option.{Option, none, some}
use mathlib.Core.List.{List, [], ◌∷◌}

pub data Outcome {ℓ} (A : Type ℓ) : Type ℓ where
  ok : A → Outcome A
  err : Outcome A
  panic : Outcome A

-- To split on a result, and keep the equation.
pub Outcome-cases {ℓ} :
    {A : Type ℓ} (r : Outcome A) → ((a : A) × (r ≡ ok a)) ⊎ ((r ≡ err) ⊎ (r ≡ panic))
Outcome-cases (ok a) = inl (a, refl)
Outcome-cases err = inr (inl refl)
Outcome-cases panic = inr (inr refl)

infixl 5 ◌>>=◌
abbrev pub ◌>>=◌ {ℓ κ} : {A : Type ℓ} {B : Type κ} → Outcome A → (A → Outcome B) → Outcome B
ok a >>= f = f a
err >>= f = err
panic >>= f = panic

-- `e?` on a library's result, whose error is turned into ours.
abbrev pub or_err {ℓ} : {A : Type ℓ} → Option A → Outcome A
or_err none = err
or_err (some a) = ok a

-- `e.unwrap()` and `e.expect(…)`
abbrev pub or_panic {ℓ} : {A : Type ℓ} → Option A → Outcome A
or_panic none = panic
or_panic (some a) = ok a

-- `.unwrap()` of one of our own results: an error panics.
abbrev pub unwrap {ℓ} : {A : Type ℓ} → Outcome A → Outcome A
unwrap (ok a) = ok a
unwrap err = panic
unwrap panic = panic

-- `v.iter().map(f).collect()`, where `f` may fail.
abbrev pub map_all {ℓ κ} : {A : Type ℓ} {B : Type κ} → (A → Outcome B) → List A → Outcome (List B)
map_all f [] = ok []
map_all f (a ∷ rest) = f a >>= λ b. map_all f rest >>= λ bs. ok (b ∷ bs)

-- A chain gives a value only if its first part does.
pub >>=-eq-ok {ℓ κ} :
    {A : Type ℓ} {B : Type κ} (first : Outcome A) (next : A → Outcome B) {result : B}
    → (first >>= next) ≡ ok result
    → (mid : A) × (first ≡ ok mid) × (next mid ≡ ok result)
>>=-eq-ok (ok mid) next whole = (mid, refl, whole)
>>=-eq-ok err next whole = cc
>>=-eq-ok panic next whole = cc

pub or_err-eq-ok {ℓ} : {A : Type ℓ} (o : Option A) {a : A} → or_err o ≡ ok a → o ≡ some a
or_err-eq-ok none h = cc
or_err-eq-ok (some a) h = cc

pub or_panic-eq-ok {ℓ} : {A : Type ℓ} (o : Option A) {a : A} → or_panic o ≡ ok a → o ≡ some a
or_panic-eq-ok none h = cc
or_panic-eq-ok (some a) h = cc

-- What holds of the value, if there is one.
abbrev pub Ensures {ℓ κ} : {A : Type ℓ} → (A → Type κ) → Outcome A → Type κ
Ensures P (ok a) = P a
Ensures P err = Unit
Ensures P panic = Unit

pub Ensures-bind {ℓ κ} :
    {A B : Type ℓ} (P : A → Type κ) (Q : B → Type κ) (m : Outcome A) (f : A → Outcome B)
    → Ensures P m
    → ((a : A) → P a → Ensures Q (f a))
    → Ensures Q (m >>= f)
Ensures-bind P Q (ok a) f h k = k a h
Ensures-bind P Q err f h k = tt
Ensures-bind P Q panic f h k = tt

pub Ensures-of {ℓ κ} :
    {A : Type ℓ} (Q : A → Type κ) (m : Outcome A) → ((a : A) → m ≡ ok a → Q a) → Ensures Q m
Ensures-of Q (ok a) k = k a refl
Ensures-of Q err k = tt
Ensures-of Q panic k = tt

-- Whatever the first part gives, the rest ensures it.
pub Ensures-after {ℓ κ μ} :
    {A : Type ℓ} {B : Type μ} (Q : B → Type κ) (m : Outcome A) (f : A → Outcome B)
    → ((a : A) → m ≡ ok a → Ensures Q (f a))
    → Ensures Q (m >>= f)
Ensures-after Q (ok a) f k = k a refl
Ensures-after Q err f k = tt
Ensures-after Q panic f k = tt

pub Ensures-ok {ℓ κ} :
    {A : Type ℓ} (P : A → Type κ) (m : Outcome A) {a : A} → m ≡ ok a → Ensures P m → P a
Ensures-ok P m e h = rw e at h
