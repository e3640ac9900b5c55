-- ===== src/Base/Dict.antt =====
-- Rust's `HashMap` and `BTreeMap`: the entries as a list, in the order of iteration.
-- A statement about every such list holds for every order that a `HashMap` may choose.
use mathlib.Core.Path.{◌≡◌, refl}
use mathlib.Core.Option.{Option, none, some}
use mathlib.Core.List.{List, [], ◌∷◌}
use native.Mathlib.Omega.{arith}
use zeronsd.Base.Tests.{Eq, if◌then◌else◌}

module _ {ℓ κ} {K : Type ℓ} {V : Type κ} (E : Eq K) where
  -- `get`
  unfoldable pub lookup : K → List (K × V) → Option V
  lookup key [] = none
  lookup key ((other, value) ∷ rest) = if E.same other key then some value else lookup key rest

  -- A new key goes to the end.
  unfoldable pub insert : K → V → List (K × V) → List (K × V)
  insert key value [] = (key, value) ∷ []
  insert key value ((other, old) ∷ rest) =
      if E.same other key then (key, value) ∷ rest else (other, old) ∷ insert key value rest

  unfoldable pub remove : K → List (K × V) → List (K × V)
  remove key [] = []
  remove key ((other, value) ∷ m) =
      let rest = remove key m in if E.same other key then rest else (other, value) ∷ rest

  -- A map has one entry for a key.
  abbrev pub NodupKeys : List (K × V) → Type κ
  NodupKeys [] = Unit
  NodupKeys ((k, _) ∷ m) = (lookup k m ≡ none) × NodupKeys m

  pub lookup-nil : (k : K) → lookup k [] ≡ none
  unfolding lookup
  lookup-nil k = refl

  pub lookup-cons :
      (k j : K) (v : V) (m : List (K × V))
      → lookup k ((j, v) ∷ m) ≡ (if E.same j k then some v else lookup k m)
  unfolding lookup
  lookup-cons k j v m = refl

  -- The new value is under its key, and nothing else changes.
  pub lookup-insert :
      (wanted key : K) (value : V) (entries : List (K × V))
      → lookup wanted (insert key value entries)
        ≡ (if E.same key wanted then some value else lookup wanted entries)
  unfolding insert lookup
  lookup-insert wanted key value [] = refl
  lookup-insert wanted key value ((other, old) ∷ rest) = ground (
    arith,
    E.same_iff other key,
    E.same_iff other wanted,
    E.same_iff key wanted,
    lookup-insert wanted key value rest,
  )

  pub lookup-remove :
      (k j : K) (m : List (K × V))
      → lookup k (remove j m) ≡ (if E.same j k then none else lookup k m)
  unfolding lookup remove
  lookup-remove k j [] = ground arith
  lookup-remove k j ((other, old) ∷ rest) =
      ground (arith, E.same_iff other j, E.same_iff other k, E.same_iff j k, lookup-remove k j rest)

  pub insert-NodupKeys : (k : K) (v : V) (m : List (K × V)) → NodupKeys m → NodupKeys (insert k v m)
  unfolding insert lookup
  insert-NodupKeys k v [] h = (refl, tt)
  insert-NodupKeys k v ((j, w) ∷ m) (fresh, h) =
      ground
        (arith, insert-NodupKeys k v m h, lookup-insert j k v m, E.same_iff j k, E.same_iff k j)

  pub remove-NodupKeys : (k : K) (m : List (K × V)) → NodupKeys m → NodupKeys (remove k m)
  unfolding remove
  remove-NodupKeys k [] h = tt
  remove-NodupKeys k ((j, w) ∷ m) (fresh, h) =
      ground (arith, remove-NodupKeys k m h, lookup-remove j k m)
