-- ===== src/Authority/Prune.antt =====
-- What `prune_records` of src/authority.rs leaves in a zone.
use zeronsd.Base.{
  ◌≡◌, refl, ◌∙◌, ap, Bool, true, false, ◌||◌, Option, none, some, List, [], ◌∷◌, any,
  if◌then◌else◌, arith, ok, Bool-cases, inl, inr,
}
use zeronsd.Base.Dict
use zeronsd.Dns.{RecordType, RrKey, key_eq, key_same, key_same_iff, type_same}
use zeronsd.Crates.{Crates, Zone}
use zeronsd.Crates.Laws.{IsNamesLawful, lookup_key}
use zeronsd.Authority.{contains_name, expired, remove_all, prune_records}

module _ (C : Crates) where
  -- What `prune_records` keeps: the written names, and the set with the zone's SOA record.
  abbrev pub survives : List C.LowerName → RrKey C.LowerName → C.RecordSet → Bool
  survives written k rs = contains_name C written k.name || type_same (C.set_type rs) RecordType.soa

  abbrev pub surviving :
      List C.LowerName → RrKey C.LowerName → Option C.RecordSet → Option C.RecordSet
  surviving written k none = none
  surviving written k (some rs) = if survives written k rs then some rs else none

  pub surviving-written :
      (written : List C.LowerName) (k : RrKey C.LowerName) (o : Option C.RecordSet)
      → contains_name C written k.name ≡ true
      → surviving written k o ≡ o
  surviving-written written k none h = refl
  surviving-written written k (some s) h = rw h refl

  abbrev pub expired_keys : List C.LowerName → Zone C → List (RrKey C.LowerName)
  expired_keys written [] = []
  expired_keys written ((k, rs) ∷ rr) =
      let keys = expired_keys written rr in if survives written k rs then keys else k ∷ keys

  abbrev has_key : RrKey C.LowerName → List (RrKey C.LowerName) → Bool
  has_key k keys = any (λ j. key_same C.lower_eq j k) keys

  lookup-remove_all :
      (keys : List (RrKey C.LowerName)) (rr : Zone C) (k : RrKey C.LowerName)
      → lookup_key C k (remove_all C keys rr) ≡ (if has_key k keys then none else lookup_key C k rr)
  unfolding remove_all
  lookup-remove_all [] rr k = refl
  lookup-remove_all (j ∷ keys) rr k =
      lookup-remove_all keys _ k ∙ rw (Dict.lookup-remove (key_eq C.lower_eq) k j rr) (ground arith)

  has_key_of_none :
      (written : List C.LowerName) (rr : Zone C) (k : RrKey C.LowerName)
      → lookup_key C k rr ≡ none
      → has_key k (expired_keys written rr) ≡ false
  has_key_of_none written [] k h = refl
  has_key_of_none written ((j, rs) ∷ rr) k h =
      ground (arith, Dict.lookup-cons (key_eq C.lower_eq) k j rs rr, has_key_of_none written rr k)

  has_key-expired_keys :
      (written : List C.LowerName) (rr : Zone C) (k : RrKey C.LowerName)
      → Dict.NodupKeys (key_eq C.lower_eq) rr
      → (if has_key k (expired_keys written rr) then none else lookup_key C k rr)
        ≡ surviving written k (lookup_key C k rr)
  has_key-expired_keys written [] k h = rw (Dict.lookup-nil (key_eq C.lower_eq) k)
  has_key-expired_keys written ((j, rs) ∷ rr) k (fresh, h) =
      rw (Dict.lookup-cons (key_eq C.lower_eq) k j rs rr)
        (elim (Bool-cases (key_same C.lower_eq j k)) [
          | inl same ↦
              let e : j ≡ k = (key_same_iff C.lower_eq j k).0 same in
              let absent : has_key k (expired_keys written rr) ≡ false =
                has_key_of_none written rr k (rw e at fresh) in
              rw same (ground (arith, ap (λ i. survives written i rs) e))
          | inr other ↦ rw other (ground (arith, has_key-expired_keys written rr k h))
        ])

module _ (C : Crates) (N : IsNamesLawful C) where
  pub expired-eq-ok :
      (written : List C.LowerName) (rr : Zone C)
      → expired C written rr ≡ ok (expired_keys C written rr)
  unfolding expired
  expired-eq-ok written [] = refl
  expired-eq-ok written ((k, rs) ∷ rr) =
      rw (N.lower_into_name_lem k.name, expired-eq-ok written rr, N.lower-of_lower k.name)
        (ground arith)

  -- On a zone without repeated keys `prune_records` succeeds, and decides the set under every key:
  -- it stays as it is if its name is one of those written or it is of type SOA, and is removed
  -- otherwise.
  pub prune_records_lem :
      (written : List C.LowerName) (rr : Zone C) (k : RrKey C.LowerName)
      → Dict.NodupKeys (key_eq C.lower_eq) rr
      → ((prune_records C written rr).0 ≡ ok tt)
        × (lookup_key C k (prune_records C written rr).1
            ≡ surviving C written k (lookup_key C k rr))
  unfolding prune_records
  prune_records_lem written rr k h = rw (expired-eq-ok written rr) (
    refl,
    lookup-remove_all C (expired_keys C written rr) rr k ∙ has_key-expired_keys C written rr k h,
  )
