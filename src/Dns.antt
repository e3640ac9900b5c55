-- ===== src/Dns.antt =====
-- The DNS data that the program builds: record types, record data, records and the keys of a zone.
-- The types of names are trust-dns', and stand as parameters.
use zeronsd.Base.{ℕ, ◌≡◌, ◌↔◌, Bool, true, false, ◌&&◌, ◌==◌, Eq, List, any, arith}
use zeronsd.Net.{Ipv4, Ipv6, ipv4_same, ipv4_same_iff, ipv6_same, ipv6_same_iff}

-- The types of record that the program creates.
pub data RecordType : Type 0 where
  a aaaa ptr ns soa : RecordType

unfoldable pub type_same : RecordType → RecordType → Bool
type_same RecordType.a RecordType.a = true
type_same RecordType.aaaa RecordType.aaaa = true
type_same RecordType.ptr RecordType.ptr = true
type_same RecordType.ns RecordType.ns = true
type_same RecordType.soa RecordType.soa = true
type_same _ _ = false

pub type_same_iff : (x y : RecordType) → (type_same x y ≡ true) ↔ (x ≡ y)
unfolding type_same
type_same_iff x y = ground arith

abbrev pub type_eq : Eq RecordType
type_eq = record { same = type_same; same_iff = type_same_iff }

-- `SOA::new`; a negative `i32` is its bit pattern.
pub record Soa (Name : Type 0) : Type 0 where
  pub mname : Name
  pub rname : Name
  pub serial : ℕ
  pub refresh : ℕ
  pub retry : ℕ
  pub expire : ℕ
  pub minimum : ℕ

pub data RData (Name : Type 0) : Type 0 where
  a : Ipv4 → RData Name
  aaaa : Ipv6 → RData Name
  ptr : Name → RData Name
  ns : Name → RData Name
  soa : Soa Name → RData Name

-- `RData::to_record_type`
abbrev pub to_record_type : {Name : Type 0} → RData Name → RecordType
to_record_type (RData.a x) = RecordType.a
to_record_type (RData.aaaa x) = RecordType.aaaa
to_record_type (RData.ptr n) = RecordType.ptr
to_record_type (RData.ns n) = RecordType.ns
to_record_type (RData.soa s) = RecordType.soa

pub record Record (Name : Type 0) : Type 0 where
  pub name : Name
  pub ttl : ℕ
  pub rdata : RData Name

-- `RrKey`: the keys of a zone's records
pub record RrKey (LowerName : Type 0) : Type 0 where
  pub name : LowerName
  pub record_type : RecordType

module _ {LowerName : Type 0} (E : Eq LowerName) where
  abbrev pub key_same : RrKey LowerName → RrKey LowerName → Bool
  key_same k j = E.same k.name j.name && type_same k.record_type j.record_type

  pub key_same_iff : (k j : RrKey LowerName) → (key_same k j ≡ true) ↔ (k ≡ j)
  key_same_iff k j =
      ground (arith, E.same_iff k.name j.name, type_same_iff k.record_type j.record_type)

  abbrev pub key_eq : Eq (RrKey LowerName)
  key_eq = record { same = key_same; same_iff = key_same_iff }

-- `==` of record data, by the `==` of names
module _ {Name : Type 0} (E : Eq Name) where
  unfoldable pub soa_same : Soa Name → Soa Name → Bool
  soa_same s t =
      (E.same s.mname t.mname && E.same s.rname t.rname && s.serial == t.serial)
      && (s.refresh == t.refresh && s.retry == t.retry)
      && (s.expire == t.expire && s.minimum == t.minimum)

  pub soa_same_iff : (s t : Soa Name) → (soa_same s t ≡ true) ↔ (s ≡ t)
  unfolding soa_same
  soa_same_iff s t = ground (arith, E.same_iff s.mname t.mname, E.same_iff s.rname t.rname)

  unfoldable pub rdata_same : RData Name → RData Name → Bool
  rdata_same (RData.a x) (RData.a y) = ipv4_same x y
  rdata_same (RData.aaaa x) (RData.aaaa y) = ipv6_same x y
  rdata_same (RData.ptr n) (RData.ptr m) = E.same n m
  rdata_same (RData.ns n) (RData.ns m) = E.same n m
  rdata_same (RData.soa s) (RData.soa t) = soa_same s t
  rdata_same _ _ = false

  pub rdata_same_iff : (d e : RData Name) → (rdata_same d e ≡ true) ↔ (d ≡ e)
  unfolding rdata_same
  rdata_same_iff (RData.a x) (RData.a y) = ground (arith, ipv4_same_iff x y)
  rdata_same_iff (RData.aaaa x) (RData.aaaa y) = ground (arith, ipv6_same_iff x y)
  rdata_same_iff (RData.ptr n) (RData.ptr m) = ground (arith, E.same_iff n m)
  rdata_same_iff (RData.ns n) (RData.ns m) = ground (arith, E.same_iff n m)
  rdata_same_iff (RData.soa s) (RData.soa t) = ground (arith, soa_same_iff s t)
  rdata_same_iff d e = ground arith

  -- `rdatas.contains(d)`
  abbrev pub contains_rdata : List (RData Name) → RData Name → Bool
  contains_rdata ds d = any (λ e. rdata_same e d) ds
