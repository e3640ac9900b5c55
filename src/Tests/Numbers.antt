-- ===== src/Tests/Numbers.antt =====
-- The theorems on computed addresses (src/addresses.rs) at concrete identifiers.
use zeronsd.Base.{◌≡◌, refl, ℕ, some, none, [], ◌∷◌, arith}
use zeronsd.Net.{v6}
use zeronsd.Central.{Member}
use zeronsd.Addresses.{
  fold_bytes, network_sixplane_segments, network_rfc4193_segments, member_sixplane_segments,
  member_rfc4193_segments, get_parts, digest_hex, member_rfc4193,
}
use zeronsd.Addresses.Digest.{fold_bytes-big_endian}
use zeronsd.Addresses.Identifiers.{
  rfc4193_network_id, rfc4193_node_id, sixplane_node_id, SharesRfc4193, SharesSixplane,
  member_rfc4193_ids, member_sixplane_node_id, members_in_networks, member_rfc4193_injective,
}
use zeronsd.Tests.Toy.{toy, toy-IsNetworksLawful, ToyNetwork}

-- A network and a member, as hexadecimal texts and as numbers.
abbrev peer : Member
peer = record {
  network_id = some (b'0' ∷ b'a' ∷ []);
  node_id = some (b'1' ∷ b'f' ∷ b'0' ∷ b'2' ∷ []);
  name = none;
  config = none;
}

abbrev peer_network : ToyNetwork
peer_network = record { address = v6 (member_rfc4193_segments 10 0x1f02); bits = 128 }

fold_bytes-big_endian_example : fold_bytes 0 (0x1f ∷ 0x02 ∷ []) ≡ 0x1f02
fold_bytes-big_endian_example =
    fold_bytes-big_endian (0x1f ∷ 0x02 ∷ []) (omega arith, (omega arith, tt))

member_rfc4193_ids_example :
    (rfc4193_network_id (member_rfc4193_segments 0x8056c2e21c000001 0xefcc1b0947)
      ≡ 0x8056c2e21c000001)
    × (rfc4193_node_id (member_rfc4193_segments 0x8056c2e21c000001 0xefcc1b0947) ≡ 0xefcc1b0947)
member_rfc4193_ids_example =
    member_rfc4193_ids 0x8056c2e21c000001 0xefcc1b0947 (omega arith) (omega arith)

member_sixplane_node_id_example :
    sixplane_node_id (member_sixplane_segments 0x8056c2e21c000001 0xefcc1b0947) ≡ 0xefcc1b0947
member_sixplane_node_id_example =
    member_sixplane_node_id 0x8056c2e21c000001 0xefcc1b0947 (omega arith)

members_in_networks_example :
    SharesRfc4193
      (network_rfc4193_segments 0x8056c2e21c000001)
      (member_rfc4193_segments 0x8056c2e21c000001 0xefcc1b0947)
    × SharesSixplane
        (network_sixplane_segments 0x8056c2e21c000001)
        (member_sixplane_segments 0x8056c2e21c000001 0xefcc1b0947)
members_in_networks_example = members_in_networks 0x8056c2e21c000001 0xefcc1b0947

member_rfc4193_injective_example : (◌≡◌ {A = ℕ} 10 10) × (◌≡◌ {A = ℕ} 0x1f02 0x1f02)
unfolding get_parts digest_hex fold_bytes member_rfc4193
member_rfc4193_injective_example =
    member_rfc4193_injective toy toy-IsNetworksLawful peer peer 10 0x1f02 10 0x1f02 peer_network
      peer_network refl refl (omega arith) (omega arith) (omega arith) (omega arith) refl refl refl
