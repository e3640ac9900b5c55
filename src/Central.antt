-- ===== src/Central.antt =====
-- The parts of ZeroTier Central's data that the program reads. The types are generated at build
-- time from zerotier-api/specs/centralv1.json; the fields that nothing reads are left out.
use zeronsd.Base.{Bool, Option, List, Text}

pub record V6AssignMode : Type 0 where
  pub sixplane : Option Bool
  pub rfc4193 : Option Bool

pub record DnsConfig : Type 0 where
  pub domain : Option Text
  pub servers : Option (List Text)

pub record NetworkConfig : Type 0 where
  pub dns : Option DnsConfig
  pub v6_assign_mode : Option V6AssignMode

pub record Network : Type 0 where
  pub id : Option Text
  pub config : Option NetworkConfig

pub record MemberConfig : Type 0 where
  pub ip_assignments : Option (List Text)

pub record Member : Type 0 where
  pub network_id : Option Text
  pub node_id : Option Text
  pub name : Option Text
  pub config : Option MemberConfig
