-- ===== src/Tests/Toy.antt =====
-- A concrete instance of the libraries, for the tests: names are texts, `7` is the address
-- 10.0.0.7, and a network holds the IPv4 addresses with its first octet.
use text.Mathlib.Text.{◌==◌ as str_eq}
use zeronsd.Base.{
  ℕ, ◌+◌, ◌-◌, ◌*◌, ◌≡◌, ◌≢◌, refl, ◌∙◌, ap, sym, Bool, true, false, ◌&&◌, ◌||◌, not, Option, none,
  some, List, [], ◌∷◌, ◌++◌, Text, text_eq, ◌==◌, leb, ltb, length, is_empty, if◌then◌else◌, Eq,
  arith, Bool-cases, Option-cases, inl, inr, ◌↔◌,
}
use zeronsd.Base.Dict
use zeronsd.Net.{IpAddr, v4, v6, ip_same, ip_same_iff}
use zeronsd.Dns.{
  RecordType, RData, Record, RrKey, key_eq, key_same, key_same_iff, rdata_same, to_record_type,
}
use zeronsd.Crates.{Crates}
use zeronsd.Crates.Laws.{
  IsNamesLawful, IsZoneLawful, IsNetworksLawful, lookup_key, is_stored, IsWellTyped,
}
use zeronsd.Hostname.{whitespace_pattern}
use zeronsd.Hostname.Domains.{IsAppendLawful}
use zeronsd.Hostname.Runs.{replace_runs, split_runs, starts_after, IsRegexLawful}

pub record ToySet : Type 0 where
  pub kind : RecordType
  pub content : List (RData Text)

pub record ToyNetwork : Type 0 where
  pub address : IpAddr
  pub bits : ℕ

pub toy_network_same_iff :
    (m n : ToyNetwork) → ((ip_same m.address n.address && m.bits == n.bits) ≡ true) ↔ (m ≡ n)
toy_network_same_iff m n = ground (arith, ip_same_iff m.address n.address)

abbrev pub toy_network_eq : Eq ToyNetwork
toy_network_eq = record {
  same = λ m n. ip_same m.address n.address && m.bits == n.bits;
  same_iff = toy_network_same_iff;
}

abbrev is_blank : ℕ → Bool
is_blank c = c == 32 || c == 9

abbrev is_number : ℕ → Bool
is_number c = leb b'0' c && leb c b'9'

abbrev is_letter : ℕ → Bool
is_letter c = (leb b'a' c && leb c b'z') || is_number c

abbrev is_other : ℕ → Bool
is_other c = not (c == b'.' || is_blank c || is_letter c || is_number c || c == b'-')

abbrev hex_digit : ℕ → ℕ
hex_digit c = if leb c b'9' then c - b'0' else c - 87

abbrev hex_bytes : Text → Option (List ℕ)
hex_bytes [] = some []
hex_bytes (_ ∷ []) = none
hex_bytes (a ∷ b ∷ s) = elim (hex_bytes s) [
  | none ↦ none
  | some bytes ↦ some ((hex_digit a * 16 + hex_digit b) ∷ bytes)
]

abbrev toy_parse_ip : Text → Option IpAddr
toy_parse_ip (c ∷ []) =
    if is_number c then some (v4 (record { o0 = 10; o1 = 0; o2 = 0; o3 = c - b'0' })) else none
toy_parse_ip _ = none

abbrev toy_parse_network : Text → Option ToyNetwork
toy_parse_network s = elim (toy_parse_ip s) [
  | none ↦ none
  | some ip ↦ some (record { address = ip; bits = 24 })
]

abbrev toy_contains : IpAddr → IpAddr → Bool
toy_contains (v4 x) (v4 y) = x.o0 == y.o0
toy_contains _ _ = false

abbrev toy_is_v4 : IpAddr → Bool
toy_is_v4 (v4 x) = true
toy_is_v4 (v6 x) = false

abbrev toy_ip_name : IpAddr → Text
toy_ip_name (v4 x) = x.o3 ∷ x.o2 ∷ x.o1 ∷ x.o0 ∷ []
toy_ip_name (v6 x) = x.s7 ∷ x.s6 ∷ x.s5 ∷ x.s4 ∷ x.s3 ∷ x.s2 ∷ x.s1 ∷ x.s0 ∷ []

-- Names of more than forty characters are refused.
abbrev toy_append : Text → Text → Option Text
toy_append n d = let whole = n ++ b'.' ∷ d in if ltb 40 (length whole) then none else some whole

abbrev ToyZone : Type 0
ToyZone = List (RrKey Text × ToySet)

abbrev toy_key : Record Text → RrKey Text
toy_key r = record { name = r.name; record_type = to_record_type r.rdata }

abbrev toy_put : Record Text → Option ToySet → ToySet
toy_put r none = record { kind = to_record_type r.rdata; content = r.rdata ∷ [] }
toy_put r (some set) = record set { content = r.rdata ∷ set.content }

abbrev toy_upsert : Record Text → ℕ → ToyZone → ToyZone
toy_upsert r serial z =
    Dict.insert (key_eq text_eq) (toy_key r)
      (toy_put r (Dict.lookup (key_eq text_eq) (toy_key r) z)) z

abbrev pub toy : Crates
toy = record {
  hex_decode = hex_bytes;
  is_space = is_blank;
  parse_ip = toy_parse_ip;
  is_word = is_letter;
  is_digit = is_number;
  replace_all = λ pattern s r.
      if str_eq pattern whitespace_pattern
      then replace_runs is_blank r s
      else replace_runs is_other r s;
  split = λ pattern s. split_runs is_blank s;
  is_match = λ pattern s. starts_after is_blank b'#' s;
  IpNetwork = ToyNetwork;
  net_eq = toy_network_eq;
  new_network = λ ip prefix. some (record { address = ip; bits = prefix });
  parse_network = toy_parse_network;
  network_ip = λ n. n.address;
  network_prefix = λ n. n.bits;
  network_address = λ n. n.address;
  network_contains = λ n ip. toy_contains n.address ip;
  network_is_v4 = λ n. toy_is_v4 n.address;
  Name = Text;
  LowerName = Text;
  name_eq = text_eq;
  lower_eq = text_eq;
  lower = λ n. n;
  of_lower = λ n. n;
  name_from_str = λ s. some s;
  text_into_name = λ s. some s;
  ip_into_name = λ ip. some (toy_ip_name ip);
  lower_into_name = λ n. some n;
  name_into_name = λ n. some n;
  append_domain = toy_append;
  into_wildcard = λ n. n;
  trim_to = λ n k. n;
  RecordSet = ToySet;
  new_set = λ n t serial. record { kind = t; content = [] };
  add_rdata = λ set d. record set { content = d ∷ set.content };
  insert_record = λ set r serial. toy_put r (some set);
  rdatas = λ set. set.content;
  set_type = λ set. set.kind;
  set_is_empty = λ set. is_empty set.content;
  new_authority = λ n z. some z;
  serial = λ z. 1;
  upsert = toy_upsert;
}

pub toy-IsNamesLawful : IsNamesLawful toy
toy-IsNamesLawful = record {
  lower-of_lower = λ l. refl;
  of_lower-lower = λ n. refl;
  lower_into_name_lem = λ l. refl;
  name_into_name_lem = λ n. refl;
}

pub toy-IsNetworksLawful : IsNetworksLawful toy
toy-IsNetworksLawful = record {
  network_ip-new_network = λ ip prefix n e. ground (arith, e);
  new_network_v6 = λ s prefix h. (record { address = v6 s; bits = prefix }, refl);
}

pub toy-IsRegexLawful : IsRegexLawful toy
toy-IsRegexLawful = record {
  replace_all_whitespace = λ s r h. refl;
  replace_all_catch_all = λ s r h. refl;
  split_whitespace = λ s. refl;
  is_match_comment = λ s. refl;
  dash_not_space = refl;
}

toy-lookup-upsert_other :
    (r : Record Text) (s : ℕ) (z : ToyZone) (k : RrKey Text)
    → k ≢ toy_key r
    → lookup_key toy k (toy_upsert r s z) ≡ lookup_key toy k z
toy-lookup-upsert_other r s z k h = ground (
  arith,
  Dict.lookup-insert (key_eq text_eq) k (toy_key r)
      (toy_put r (Dict.lookup (key_eq text_eq) (toy_key r) z)) z,
  key_same_iff text_eq (toy_key r) k,
  λ (p : toy_key r ≡ k). h (sym p),
)

toy-lookup-upsert :
    (r : Record Text) (s : ℕ) (z : ToyZone)
    → lookup_key toy (toy_key r) (toy_upsert r s z)
      ≡ some (toy_put r (lookup_key toy (toy_key r) z))
toy-lookup-upsert r s z =
    Dict.lookup-insert (key_eq text_eq) (toy_key r) (toy_key r) _ z
    ∙ rw ((key_same_iff text_eq (toy_key r) (toy_key r)).1 refl)

toy-is_stored-upsert :
    (r : Record Text) (s : ℕ) (z : ToyZone) (d : RData Text)
    → is_stored toy (toy_key r) (toy_upsert r s z) d
      ≡ (rdata_same text_eq r.rdata d || is_stored toy (toy_key r) z d)
toy-is_stored-upsert r s z d =
    rw (toy-lookup-upsert r s z)
      (elim (Option-cases (lookup_key toy (toy_key r) z)) [ inl e ↦ rw e | inr (set, e) ↦ rw e ])

abbrev toy_kind : Option ToySet → RecordType
toy_kind none = RecordType.a
toy_kind (some set) = set.kind

toy_put-kind :
    (r : Record Text) (z : ToyZone)
    → IsWellTyped toy z
    → (toy_put r (lookup_key toy (toy_key r) z)).kind ≡ to_record_type r.rdata
toy_put-kind r z typed = elim (Option-cases (lookup_key toy (toy_key r) z)) [
  | inl e ↦ rw e
  | inr (set, e) ↦ rw e (typed (toy_key r) set e)
]

toy-upsert-IsWellTyped :
    (r : Record Text) (s : ℕ) (z : ToyZone) → IsWellTyped toy z → IsWellTyped toy (toy_upsert r s z)
toy-upsert-IsWellTyped r s z typed k set e = elim (Bool-cases (key_same text_eq (toy_key r) k)) [
  | inl same ↦
      let p : toy_key r ≡ k = (key_same_iff text_eq (toy_key r) k).0 same in
      let found : some (toy_put r (lookup_key toy (toy_key r) z)) ≡ some set =
        sym (toy-lookup-upsert r s z) ∙ ap (λ j. lookup_key toy j (toy_upsert r s z)) p ∙ e in
      ap (λ o. toy_kind o) (sym found) ∙ toy_put-kind r z typed ∙ ap (λ j. j.record_type) p
  | inr other ↦ typed k set (
      sym (
        toy-lookup-upsert_other r s z k
          (λ p. cc (other, (key_same_iff text_eq (toy_key r) k).1 (sym p))))
      ∙ e)
]

pub toy-IsZoneLawful : IsZoneLawful toy
toy-IsZoneLawful = record {
  rdatas-new_set = λ n t s. refl;
  set_type-new_set = λ n t s. refl;
  contains-add_rdata = λ set e d h k. refl;
  set_type-add_rdata = λ set e. refl;
  set_is_empty_lem = λ set. refl;
  lookup-upsert_other = toy-lookup-upsert_other;
  is_stored-upsert = λ r s z d h. toy-is_stored-upsert r s z d;
  upsert-IsWellTyped = toy-upsert-IsWellTyped;
  upsert-NodupKeys = λ r s z h. Dict.insert-NodupKeys (key_eq text_eq) (toy_key r) _ z h;
}

length-append : (xs ys : Text) → length (xs ++ ys) ≡ length xs + length ys
length-append [] ys = omega arith
length-append (x ∷ xs) ys = ground (arith, length-append xs ys)

longer-ne : (n d : Text) → n ++ b'.' ∷ d ≢ d
longer-ne n d e = ground (arith, length-append n (b'.' ∷ d), ap length e)

toy_append-ne : (n d whole : Text) → toy_append n d ≡ some whole → whole ≢ d
toy_append-ne n d whole e same = elim (Bool-cases (ltb 40 (length (n ++ b'.' ∷ d)))) [
  | inl long ↦ cc (rw long at e)
  | inr short ↦ let this : n ++ b'.' ∷ d ≡ whole = cc (rw short at e) in longer-ne n d (this ∙ same)
]

pub toy-IsAppendLawful : IsAppendLawful toy
toy-IsAppendLawful = record {
  append_domain-ne =
      λ t name domain whole reads some_text no_dot e. toy_append-ne name domain whole e;
}

-- The same with names of any length.
abbrev pub long_toy : Crates
long_toy = record toy { append_domain = λ n d. some (n ++ b'.' ∷ d) }

pub long_toy-IsNamesLawful : IsNamesLawful long_toy
long_toy-IsNamesLawful = record {
  lower-of_lower = λ l. refl;
  of_lower-lower = λ n. refl;
  lower_into_name_lem = λ l. refl;
  name_into_name_lem = λ n. refl;
}

pub long_toy-IsZoneLawful : IsZoneLawful long_toy
long_toy-IsZoneLawful = record {
  rdatas-new_set = toy-IsZoneLawful.rdatas-new_set;
  set_type-new_set = toy-IsZoneLawful.set_type-new_set;
  contains-add_rdata = toy-IsZoneLawful.contains-add_rdata;
  set_type-add_rdata = toy-IsZoneLawful.set_type-add_rdata;
  set_is_empty_lem = toy-IsZoneLawful.set_is_empty_lem;
  lookup-upsert_other = toy-IsZoneLawful.lookup-upsert_other;
  is_stored-upsert = toy-IsZoneLawful.is_stored-upsert;
  upsert-IsWellTyped = toy-IsZoneLawful.upsert-IsWellTyped;
  upsert-NodupKeys = toy-IsZoneLawful.upsert-NodupKeys;
}
