-- ===== src/Base/Exec.antt =====
-- Async methods over shared state. What was written before an error or a panic stays written, so
-- the state comes back beside those too.
use mathlib.Core.Path.{◌≡◌, refl}
use mathlib.Core.Logic.{◌≢◌}
use mathlib.Core.List.{List, [], ◌∷◌, ◌++◌}
use mathlib.Core.Path.{sym, ◌∙◌, subst}
use mathlib.Core.Bool.{Bool, true}
use mathlib.Core.Logic.{inl, inr}
use zeronsd.Base.Lists.{All, any}
use zeronsd.Base.Tests.{Bool-cases}
use zeronsd.Base.Fallible.{Outcome, ok, err, panic}

abbrev pub Exec {ℓ} : Type ℓ → Type ℓ → Type ℓ
Exec State Result = State → Outcome Result × State

module _ {ℓ} {S A B : Type ℓ} where
  -- `e?` or `e.unwrap()`, and then the rest of the method
  abbrev pub continue : Outcome A × S → (A → Exec S B) → Outcome B × S
  continue (ok a, s) f = f a s
  continue (err, s) f = (err, s)
  continue (panic, s) f = (panic, s)

  pub continue_of_ok :
      (r : Outcome A × S) (a : A) (f : A → Exec S B) → r.0 ≡ ok a → continue r f ≡ f a r.1
  continue_of_ok (r, s) a f h = rw h

  -- A method that returns a value got one from its first part.
  pub continue-value :
      (r : Outcome A) (s : S) (f : A → Exec S B) {b : B}
      → (continue (r, s) f).0 ≡ ok b
      → (a : A) × (r ≡ ok a) × (continue (r, s) f ≡ f a s)
  continue-value (ok a) s f h = (a, refl, refl)
  continue-value err s f h = cc
  continue-value panic s f h = cc

  pub continue_of_panic :
      (r : Outcome A × S) (f : A → Exec S B) → r.0 ≡ panic → (continue r f).0 ≡ panic
  continue_of_panic (r, s) f h = rw h

-- What holds before a first part that leaves the state, and after the rest, holds at the end.
pub lift-keeps {κ} :
    {S A B : Type 0} (P : S → Type κ) (r : Outcome A) (s : S) (f : A → Exec S B)
    → P s
    → ((a : A) → P (f a s).1)
    → P (continue (r, s) f).1
lift-keeps P (ok a) s f h k = k a
lift-keeps P err s f h k = h
lift-keeps P panic s f h k = h

-- The same, with what the first part gives.
pub lift-keeps_value {κ} :
    {S A B : Type 0} (P : S → Type κ) (r : Outcome A) (s : S) (f : A → Exec S B)
    → P s
    → ((a : A) → r ≡ ok a → P (f a s).1)
    → P (continue (r, s) f).1
lift-keeps_value P (ok a) s f h k = k a refl
lift-keeps_value P err s f h k = h
lift-keeps_value P panic s f h k = h

-- A method that succeeds has a first part that does.
pub continue-step :
    {S A B : Type 0} (r : Outcome A × S) (f : A → Exec S B) {b : B}
    → (continue r f).0 ≡ ok b
    → (a : A) × (r.0 ≡ ok a) × (continue r f ≡ f a r.1) × ((f a r.1).0 ≡ ok b)
continue-step (ok a, s) f h = (a, refl, refl, h)
continue-step (err, s) f h = cc
continue-step (panic, s) f h = cc

-- The same, where the first part has no value.
pub continue-ok :
    {S : Type 0} (r : Outcome (Unit {0}) × S) (f : Unit {0} → Exec S (Unit {0}))
    → (continue r f).0 ≡ ok tt
    → (r.0 ≡ ok tt) × (continue r f ≡ f tt r.1) × ((f tt r.1).0 ≡ ok tt)
continue-ok r f h = let (u, first, here, rest) = continue-step r f h in (first, here, rest)

-- `for x in xs { body }`
unfoldable pub for_each : {S X : Type 0} → (X → Exec S (Unit {0})) → List X → Exec S (Unit {0})
for_each body [] s = (ok tt, s)
for_each body (x ∷ xs) s = continue (body x s) (λ _. for_each body xs)

-- What every state keeps that the first part and the rest keep, however they end.
pub continue-keeps {κ} :
    {S A B : Type 0} (P : S → Type κ) (r : Outcome A × S) (f : A → Exec S B)
    → P r.1
    → ((a : A) (s : S) → P s → P (f a s).1)
    → P (continue r f).1
continue-keeps P (ok a, s) f h k = k a s h
continue-keeps P (err, s) f h k = h
continue-keeps P (panic, s) f h k = h

-- A loop keeps what each round keeps, however it ends.
pub for_each-keeps {κ} :
    {S X : Type 0} (P : S → Type κ) (body : X → Exec S (Unit {0}))
    → ((x : X) (s : S) → P s → P (body x s).1)
    → (xs : List X) (s : S) → P s
    → P (for_each body xs s).1
unfolding for_each
for_each-keeps P body keep [] s h = h
for_each-keeps P body keep (x ∷ xs) s h =
    continue-keeps P (body x s) _ (keep x s h) (λ _ t ht. for_each-keeps P body keep xs t ht)

-- An error comes from one of the two parts.
pub continue-ne-err :
    {S A B : Type 0} (r : Outcome A × S) (f : A → Exec S B)
    → r.0 ≢ err
    → ((a : A) (s : S) → (f a s).0 ≢ err)
    → (continue r f).0 ≢ err
continue-ne-err (ok a, s) f h k e = k a s e
continue-ne-err (err, s) f h k e = absurd (h refl)
continue-ne-err (panic, s) f h k e = cc

pub for_each-ne-err :
    {S X : Type 0} (body : X → Exec S (Unit {0}))
    → ((x : X) (s : S) → (body x s).0 ≢ err)
    → (xs : List X) (s : S) → (for_each body xs s).0 ≢ err
unfolding for_each
for_each-ne-err body h [] s e = cc
for_each-ne-err body h (x ∷ xs) s e =
    continue-ne-err (body x s) (λ _. for_each body xs) (h x s) (λ _. for_each-ne-err body h xs) e

-- A loop keeps what the round of each of its elements keeps, however it ends.
pub for_each-keeps_each {κ} :
    {S X : Type 0} (P : S → Type κ) (body : X → Exec S (Unit {0})) (xs : List X)
    → All (λ x. (s : S) → P s → P (body x s).1) xs
    → (s : S) → P s
    → P (for_each body xs s).1
unfolding for_each
for_each-keeps_each P body [] each s h = h
for_each-keeps_each P body (x ∷ xs) (keep, each) s h =
    continue-keeps P (body x s) _ (keep s h) (λ _ t ht. for_each-keeps_each P body xs each t ht)

-- A loop that succeeds leaves what one of its rounds establishes and the others keep.
pub for_each-establishes {κ} :
    {S X : Type 0} (P Q : S → Type κ) (p : X → Bool) (body : X → Exec S (Unit {0}))
    → ((x : X) (s : S) → P s → P (body x s).1)
    → ((x : X) (s : S) → Q s → Q (body x s).1)
    → ((x : X) (s : S) → p x ≡ true → P s → (body x s).0 ≡ ok tt → Q (body x s).1)
    → (xs : List X) (s : S) → any p xs ≡ true
    → P s
    → (for_each body xs s).0 ≡ ok tt
    → Q (for_each body xs s).1
unfolding for_each
for_each-establishes P Q p body keep_before keep_after step [] s found h e = cc
for_each-establishes P Q p body keep_before keep_after step (x ∷ xs) s found h e =
    let (first_ok, here, rest_ok) = continue-ok (body x s) (λ _. for_each body xs) e in
    subst (λ r. Q r.1) (sym here)
      (elim (Bool-cases (p x)) [
        | inl hit ↦ for_each-keeps Q body keep_after xs (body x s).1 (step x s hit h first_ok)
        | inr miss ↦
            for_each-establishes P Q p body keep_before keep_after step xs (body x s).1
              (rw miss at found) (keep_before x s h) rest_ok
      ])

-- A loop over two lists, one after the other, that succeeds.
pub for_each-append :
    {S X : Type 0} (body : X → Exec S (Unit {0})) (xs ys : List X) (s : S)
    → (for_each body (xs ++ ys) s).0 ≡ ok tt
    → (for_each body (xs ++ ys) s ≡ for_each body ys (for_each body xs s).1)
      × ((for_each body ys (for_each body xs s).1).0 ≡ ok tt)
unfolding for_each
for_each-append body [] ys s e = (refl, e)
for_each-append body (x ∷ xs) ys s e =
    let (first_ok, here, rest_ok) = continue-ok (body x s) (λ _. for_each body (xs ++ ys)) e in
    let (rest, done) = for_each-append body xs ys (body x s).1 rest_ok in
    let whole : for_each body (x ∷ xs) s ≡ for_each body xs (body x s).1 =
      continue_of_ok (body x s) tt (λ _. for_each body xs) first_ok in
    let same : for_each body (x ∷ xs ++ ys) s ≡ for_each body ys (for_each body xs (body x s).1).1 =
      here ∙ rest in
    rw whole (same, done)
