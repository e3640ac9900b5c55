-- ===== src/Addresses/Identifiers.antt =====
-- The addresses of src/addresses.rs tell networks and members apart, and nest.
use zeronsd.Base.{ℕ, ◌+◌, ◌*◌, ◌/◌, ◌%◌, ◌^◌, ◌<◌, ◌≡◌, ◌∙◌, ap, sym, arith, ok}
use zeronsd.Words.{u64}
use zeronsd.Net.{Ipv6, v6}
use zeronsd.Central.{Member}
use zeronsd.Crates.{Crates}
use zeronsd.Crates.Laws.{IsNetworksLawful}
use zeronsd.Addresses.{
  network_sixplane_segments, network_rfc4193_segments, member_sixplane_segments,
  member_rfc4193_segments, get_parts, member_rfc4193,
}
use zeronsd.Addresses.Layout.{
  member_rfc4193_lem, member_sixplane_lem, network_rfc4193_lem, network_sixplane_lem,
}

-- The network identifier that an RFC 4193 address carries, and the member's.
abbrev pub rfc4193_network_id : Ipv6 → ℕ
rfc4193_network_id a =
    a.s0 % 256 * 2 ^ 56 + a.s1 * 2 ^ 40 + a.s2 * 2 ^ 24 + a.s3 * 2 ^ 8 + a.s4 / 256

abbrev pub rfc4193_node_id : Ipv6 → ℕ
rfc4193_node_id a = a.s5 % 256 * 2 ^ 32 + a.s6 * 2 ^ 16 + a.s7

-- If a network identifier has at most 64 bits and a node identifier at most 40, both can be read
-- back from the segments of the member's RFC 4193 address.
pub member_rfc4193_ids :
    (net node : ℕ)
    → net < u64
    → node < 2 ^ 40
    → (rfc4193_network_id (member_rfc4193_segments net node) ≡ net)
      × (rfc4193_node_id (member_rfc4193_segments net node) ≡ node)
member_rfc4193_ids net node hnet hnode = rw (member_rfc4193_lem net node) (omega arith)

abbrev pub sixplane_node_id : Ipv6 → ℕ
sixplane_node_id a = a.s2 % 256 * 2 ^ 32 + a.s3 * 2 ^ 16 + a.s4

-- If a node identifier has at most 40 bits, it can be read back from the segments of the member's
-- 6PLANE address.
pub member_sixplane_node_id :
    (net node : ℕ) → node < 2 ^ 40 → sixplane_node_id (member_sixplane_segments net node) ≡ node
member_sixplane_node_id net node h = rw (member_sixplane_lem net node) (omega arith)

-- The first 88 bits.
abbrev pub SharesRfc4193 : Ipv6 → Ipv6 → Type 0
SharesRfc4193 a b =
    (a.s0 ≡ b.s0)
    × (a.s1 ≡ b.s1)
    × (a.s2 ≡ b.s2)
    × (a.s3 ≡ b.s3)
    × (a.s4 ≡ b.s4)
    × (a.s5 / 256 ≡ b.s5 / 256)

-- The first 40 bits.
abbrev pub SharesSixplane : Ipv6 → Ipv6 → Type 0
SharesSixplane a b = (a.s0 ≡ b.s0) × (a.s1 ≡ b.s1) × (a.s2 / 256 ≡ b.s2 / 256)

-- For all identifiers, the RFC 4193 addresses of a network and of a member of it agree in the
-- first 88 bits, and the 6PLANE addresses in the first 40: the member's address lies in the
-- network.
pub members_in_networks :
    (net node : ℕ)
    → SharesRfc4193 (network_rfc4193_segments net) (member_rfc4193_segments net node)
      × SharesSixplane (network_sixplane_segments net) (member_sixplane_segments net node)
members_in_networks net node =
    rw
      (
        network_sixplane_lem net,
        network_rfc4193_lem net,
        member_sixplane_lem net node,
        member_rfc4193_lem net node,
      )
      (omega arith, omega arith)

module _ (C : Crates) (L : IsNetworksLawful C) where
  -- If both identifiers of a member are hexadecimal, `rfc4193` succeeds, and its address has the
  -- segments computed from them.
  pub member_rfc4193_total :
      (m : Member) (net node : ℕ)
      → get_parts C m ≡ ok (net, node)
      → (n : C.IpNetwork) × (member_rfc4193 C m ≡ ok n)
        × (C.network_ip n ≡ v6 (member_rfc4193_segments net node))
  unfolding member_rfc4193
  member_rfc4193_total m net node e =
      let (n, made) = L.new_network_v6 (member_rfc4193_segments net node) 128 (omega arith) in
      (n, rw (e, made), L.network_ip-new_network _ 128 n made)

  -- Two members with the same RFC 4193 address have the same network identifier and the same node
  -- identifier, if the identifiers are hexadecimal numbers of at most 64 and 40 bits.
  pub member_rfc4193_injective :
      (m m' : Member) (net node net' node' : ℕ) (n n' : C.IpNetwork)
      → get_parts C m ≡ ok (net, node)
      → get_parts C m' ≡ ok (net', node')
      → net < u64
      → net' < u64
      → node < 2 ^ 40
      → node' < 2 ^ 40
      → member_rfc4193 C m ≡ ok n
      → member_rfc4193 C m' ≡ ok n'
      → C.network_ip n ≡ C.network_ip n'
      → (net ≡ net') × (node ≡ node')
  member_rfc4193_injective m m' net node net' node' n n' e e' h h' k k' made made' same =
      let (i, made_i, at_i) = member_rfc4193_total m net node e in
      let (j, made_j, at_j) = member_rfc4193_total m' net' node' e' in
      let segments : member_rfc4193_segments net node ≡ member_rfc4193_segments net' node' =
        cc (made, made', made_i, made_j, at_i, at_j, same) in
      let (a, b) = member_rfc4193_ids net node h k in
      let (c, d) = member_rfc4193_ids net' node' h' k' in
      (sym a ∙ ap rfc4193_network_id segments ∙ c, sym b ∙ ap rfc4193_node_id segments ∙ d)
