-- ===== src/Addresses.antt =====
-- src/addresses.rs: the 6PLANE and RFC 4193 addresses of a network and of its members.
pub mod Digest
pub mod Layout
pub mod Identifiers
use Prim.Native.Nat.{bit_and, bit_or, bit_xor}
use zeronsd.Base.{ℕ, Option, none, some, List, [], ◌∷◌, Text, Outcome, ok, ◌>>=◌, or_err}
use zeronsd.Base.{◌*◌, ◌/◌, ◌%◌, ◌^◌}
use zeronsd.Words.{u16, u64, ◌>>>◌, shl64, shl16, as_u16}
use zeronsd.Net.{Ipv6, IpAddr, v6}
use zeronsd.Central.{Network, Member}
use zeronsd.Crates.{Crates}

-- The `fold` of `digest_hex`; an accumulator `acc` takes the byte `x`.
unfoldable pub fold_bytes : ℕ → List ℕ → ℕ
fold_bytes acc [] = acc
fold_bytes acc (x ∷ bytes) = fold_bytes (bit_or (shl64 acc 8) x) bytes

-- `unwrap_or(String::new())`
abbrev pub text_or_empty : Option Text → Text
text_or_empty none = []
text_or_empty (some text) = text

-- `net_parts ^= net_parts >> 32`
abbrev pub folded : ℕ → ℕ
folded net_parts = bit_xor net_parts (net_parts >>> 32)

-- The segments given to `Ipv6Addr::new`, for each of the four addresses.
unfoldable pub network_sixplane_segments : ℕ → Ipv6
network_sixplane_segments net = record {
  s0 = bit_or 0xfc00 (as_u16 (bit_and (net >>> 24) 0xff));
  s1 = as_u16 (net >>> 8);
  s2 = shl16 (as_u16 (bit_and net 0xff)) 8;
  s3 = 0;
  s4 = 0;
  s5 = 0;
  s6 = 0;
  s7 = 1;
}

unfoldable pub network_rfc4193_segments : ℕ → Ipv6
network_rfc4193_segments net = record {
  s0 = bit_or 0xfd00 (as_u16 (bit_and (net >>> 56) 0xff));
  s1 = as_u16 (bit_and (net >>> 40) 0xffff);
  s2 = as_u16 (bit_and (net >>> 24) 0xffff);
  s3 = as_u16 (bit_and (net >>> 8) 0xffff);
  s4 = bit_or (shl16 (as_u16 (bit_and net 0xff)) 8) 0x99;
  s5 = 0x9300;
  s6 = 0;
  s7 = 0;
}

unfoldable pub member_sixplane_segments : ℕ → ℕ → Ipv6
member_sixplane_segments net node = record {
  s0 = bit_or 0xfc00 (as_u16 (bit_and (net >>> 24) 0xff));
  s1 = as_u16 (net >>> 8);
  s2 = bit_or (shl16 (as_u16 (bit_and net 0xff)) 8) (as_u16 (bit_and (node >>> 32) 0xff));
  s3 = as_u16 (bit_and (node >>> 16) 0xffff);
  s4 = as_u16 (bit_and node 0xffff);
  s5 = 0;
  s6 = 0;
  s7 = 1;
}

unfoldable pub member_rfc4193_segments : ℕ → ℕ → Ipv6
member_rfc4193_segments net node = record {
  s0 = bit_or 0xfd00 (as_u16 (bit_and (net >>> 56) 0xff));
  s1 = as_u16 (bit_and (net >>> 40) 0xffff);
  s2 = as_u16 (bit_and (net >>> 24) 0xffff);
  s3 = as_u16 (bit_and (net >>> 8) 0xffff);
  s4 = bit_or (shl16 (as_u16 (bit_and net 0xff)) 8) 0x99;
  s5 = bit_or 0x9300 (as_u16 (bit_and (node >>> 32) 0xff));
  s6 = as_u16 (bit_and (node >>> 16) 0xffff);
  s7 = as_u16 (bit_and node 0xffff);
}

module _ (C : Crates) where
  unfoldable pub digest_hex : Text → Outcome ℕ
  digest_hex code = or_err (C.hex_decode code) >>= λ bytes. ok (fold_bytes 0 bytes)

  unfoldable pub get_parts : Member → Outcome (ℕ × ℕ)
  get_parts member = digest_hex (text_or_empty member.network_id) >>= λ net.
      digest_hex (text_or_empty member.node_id) >>= λ node. ok (net, node)

  -- `Calculator for Network`
  unfoldable pub network_sixplane : Network → Outcome C.IpNetwork
  network_sixplane network = digest_hex (text_or_empty network.id) >>= λ net.
      or_err (C.new_network (v6 (network_sixplane_segments (folded net))) 40)

  unfoldable pub network_rfc4193 : Network → Outcome C.IpNetwork
  network_rfc4193 network = digest_hex (text_or_empty network.id) >>= λ net.
      or_err (C.new_network (v6 (network_rfc4193_segments net)) 88)

  -- `Calculator for Member`
  unfoldable pub member_sixplane : Member → Outcome C.IpNetwork
  member_sixplane member = get_parts member >>= λ (net, node).
      or_err (C.new_network (v6 (member_sixplane_segments (folded net) node)) 80)

  unfoldable pub member_rfc4193 : Member → Outcome C.IpNetwork
  member_rfc4193 member = get_parts member >>= λ (net, node).
      or_err (C.new_network (v6 (member_rfc4193_segments net node)) 128)
