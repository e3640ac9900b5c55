-- ===== src/Net.antt =====
-- Rust's `std::net::IpAddr`.
use zeronsd.Base.{ℕ, ◌≡◌, ◌↔◌, Bool, true, false, ◌&&◌, ◌==◌, Eq, arith}

-- `Ipv4Addr`: its four octets
pub record Ipv4 : Type 0 where
  pub o0 : ℕ
  pub o1 : ℕ
  pub o2 : ℕ
  pub o3 : ℕ

-- `Ipv6Addr`: its eight segments of 16 bits
pub record Ipv6 : Type 0 where
  pub s0 : ℕ
  pub s1 : ℕ
  pub s2 : ℕ
  pub s3 : ℕ
  pub s4 : ℕ
  pub s5 : ℕ
  pub s6 : ℕ
  pub s7 : ℕ

pub data IpAddr : Type 0 where
  v4 : Ipv4 → IpAddr
  v6 : Ipv6 → IpAddr

abbrev pub ipv4_same : Ipv4 → Ipv4 → Bool
ipv4_same x y = x.o0 == y.o0 && x.o1 == y.o1 && x.o2 == y.o2 && x.o3 == y.o3

abbrev pub ipv6_same : Ipv6 → Ipv6 → Bool
ipv6_same x y =
    (x.s0 == y.s0 && x.s1 == y.s1 && x.s2 == y.s2 && x.s3 == y.s3)
    && (x.s4 == y.s4 && x.s5 == y.s5 && x.s6 == y.s6 && x.s7 == y.s7)

pub ipv4_same_iff : (x y : Ipv4) → (ipv4_same x y ≡ true) ↔ (x ≡ y)
ipv4_same_iff x y = ground arith

pub ipv6_same_iff : (x y : Ipv6) → (ipv6_same x y ≡ true) ↔ (x ≡ y)
ipv6_same_iff x y = ground arith

unfoldable pub ip_same : IpAddr → IpAddr → Bool
ip_same (v4 x) (v4 y) = ipv4_same x y
ip_same (v4 x) (v6 y) = false
ip_same (v6 x) (v4 y) = false
ip_same (v6 x) (v6 y) = ipv6_same x y

pub ip_same_iff : (x y : IpAddr) → (ip_same x y ≡ true) ↔ (x ≡ y)
unfolding ip_same
ip_same_iff (v4 x) (v4 y) = ground (arith, ipv4_same_iff x y)
ip_same_iff (v4 x) (v6 y) = ground arith
ip_same_iff (v6 x) (v4 y) = ground arith
ip_same_iff (v6 x) (v6 y) = ground (arith, ipv6_same_iff x y)

abbrev pub ip_eq : Eq IpAddr
ip_eq = record { same = ip_same; same_iff = ip_same_iff }
