-- ===== src/Authority/Fresh.antt =====
-- `RecordAuthority::new` and `configure_authority` of src/authority.rs: the zone that a server
-- starts with.
use zeronsd.Base.{[], codes, Outcome, ok, ◌>>=◌, or_err, or_panic}
use zeronsd.Base.Dict
use zeronsd.Dns.{RecordType, RData, Soa, key_eq}
use zeronsd.Crates.{Crates, Zone}
use zeronsd.Authority.{RecordAuthority, key_of}

module _ (C : Crates) where
  -- A set with one record.
  abbrev pub single : C.Name → RData C.Name → RecordType → C.RecordSet
  single name rdata rt =
      C.insert_record (C.new_set name rt 1) (record { name = name; ttl = 30; rdata = rdata }) 1

  -- The data of the SOA record.
  abbrev pub first_soa : C.Name → C.Name → Soa C.Name
  first_soa domain_name administrator = record {
    mname = domain_name;
    rname = administrator;
    serial = 1;
    refresh = 30;
    retry = 0;
    -- `-1`
    expire = 0xffffffff;
    minimum = 0;
  }

  unfoldable pub configure_authority : C.Name → C.Name → Outcome (Zone C)
  configure_authority domain_name member_name =
      or_err (C.name_from_str (codes "administrator")) >>= λ name.
      or_err (C.append_domain name domain_name) >>= λ administrator.
      let soa = RData.soa (first_soa domain_name administrator) in
      let with_soa =
        Dict.insert (key_eq C.lower_eq) (key_of C domain_name RecordType.soa)
          (single domain_name soa RecordType.soa) [] in
      or_panic (
        C.new_authority domain_name (
          Dict.insert (key_eq C.lower_eq) (key_of C domain_name RecordType.ns)
            (single domain_name (RData.ns member_name) RecordType.ns) with_soa))

  -- `new`
  unfoldable pub new_zone : C.LowerName → C.LowerName → Outcome (RecordAuthority C)
  new_zone domain_name member_name =
      configure_authority (C.of_lower domain_name) (C.of_lower member_name) >>= λ authority.
      ok (record { domain_name = domain_name; authority = authority })
