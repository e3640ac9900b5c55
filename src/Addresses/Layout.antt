-- ===== src/Addresses/Layout.antt =====
-- Where the digits of a network's and a member's identifier stand in the addresses of
-- src/addresses.rs.
use Prim.Native.Nat.{bit_and, bit_or}
use zeronsd.Base.{ℕ, ◌+◌, ◌*◌, ◌/◌, ◌%◌, ◌^◌, ◌≡◌, arith}
use zeronsd.Words.{◌>>>◌, shl16, as_u16}
use zeronsd.Words.Fields.{bit_or_disjoint, bit_and_byte, bit_and_word}
use zeronsd.Addresses.{
  network_sixplane_segments, network_rfc4193_segments, member_sixplane_segments,
  member_rfc4193_segments,
}

-- The parts that the segments are built from, as arithmetic.
tagged_byte : (q a : ℕ) → bit_or (q * 2 ^ 8) (as_u16 (bit_and a 0xff)) ≡ q * 256 + a % 256
tagged_byte q a = rw (bit_and_byte a) (
    let fits : as_u16 (a % 256) ≡ a % 256 = omega arith in
    rw fits (bit_or_disjoint 8 q (a % 256) (omega arith)))

high_byte : (a : ℕ) → shl16 (as_u16 (bit_and a 0xff)) 8 ≡ a % 256 * 2 ^ 8
high_byte a = rw (bit_and_byte a) (omega arith)

word : (a : ℕ) → as_u16 (bit_and a 0xffff) ≡ a % 65536
word a = rw (bit_and_word a) (omega arith)

byte_pair :
    (a b : ℕ)
    → bit_or (shl16 (as_u16 (bit_and a 0xff)) 8) (as_u16 (bit_and b 0xff)) ≡ a % 256 * 256 + b % 256
byte_pair a b = rw (high_byte a) (tagged_byte (a % 256) b)

byte_mark : (a : ℕ) → bit_or (shl16 (as_u16 (bit_and a 0xff)) 8) 0x99 ≡ a % 256 * 256 + 0x99
byte_mark a = rw (high_byte a) (bit_or_disjoint 8 (a % 256) 0x99 (omega arith))

-- The four addresses as arithmetic.
pub member_rfc4193_lem :
    (net node : ℕ)
    → member_rfc4193_segments net node ≡ record {
      s0 = 0xfd00 + net / 2 ^ 56 % 256;
      s1 = net / 2 ^ 40 % 65536;
      s2 = net / 2 ^ 24 % 65536;
      s3 = net / 2 ^ 8 % 65536;
      s4 = net % 256 * 256 + 0x99;
      s5 = 0x9300 + node / 2 ^ 32 % 256;
      s6 = node / 2 ^ 16 % 65536;
      s7 = node % 65536;
    }
unfolding member_rfc4193_segments
member_rfc4193_lem net node = cc (
  tagged_byte 253 (net >>> 56),
  word (net >>> 40),
  word (net >>> 24),
  word (net >>> 8),
  byte_mark net,
  tagged_byte 147 (node >>> 32),
  word (node >>> 16),
  word node,
)

pub member_sixplane_lem :
    (net node : ℕ)
    → member_sixplane_segments net node ≡ record {
      s0 = 0xfc00 + net / 2 ^ 24 % 256;
      s1 = net / 2 ^ 8 % 65536;
      s2 = net % 256 * 256 + node / 2 ^ 32 % 256;
      s3 = node / 2 ^ 16 % 65536;
      s4 = node % 65536;
      s5 = 0;
      s6 = 0;
      s7 = 1;
    }
unfolding member_sixplane_segments
member_sixplane_lem net node =
    cc (tagged_byte 252 (net >>> 24), byte_pair net (node >>> 32), word (node >>> 16), word node)

pub network_rfc4193_lem :
    (net : ℕ)
    → network_rfc4193_segments net ≡ record {
      s0 = 0xfd00 + net / 2 ^ 56 % 256;
      s1 = net / 2 ^ 40 % 65536;
      s2 = net / 2 ^ 24 % 65536;
      s3 = net / 2 ^ 8 % 65536;
      s4 = net % 256 * 256 + 0x99;
      s5 = 0x9300;
      s6 = 0;
      s7 = 0;
    }
unfolding network_rfc4193_segments
network_rfc4193_lem net = cc (
  tagged_byte 253 (net >>> 56),
  word (net >>> 40),
  word (net >>> 24),
  word (net >>> 8),
  byte_mark net,
)

pub network_sixplane_lem :
    (net : ℕ)
    → network_sixplane_segments net ≡ record {
      s0 = 0xfc00 + net / 2 ^ 24 % 256;
      s1 = net / 2 ^ 8 % 65536;
      s2 = net % 256 * 256;
      s3 = 0;
      s4 = 0;
      s5 = 0;
      s6 = 0;
      s7 = 1;
    }
unfolding network_sixplane_segments
network_sixplane_lem net = cc (tagged_byte 252 (net >>> 24), high_byte net)
