-- ===== src/Members.antt =====
-- `ZTRecord` of src/authority.rs: the names and addresses of one member, and how
-- `RecordAuthority` takes them in.
pub mod Names
pub mod Ips
pub mod Kept
pub mod Pointers
pub mod Wildcards
use zeronsd.Base.{
  Bool, true, false, Option, none, some, List, [], ◌∷◌, ◌++◌, codes, Outcome, ok, err, ◌>>=◌,
  or_panic, map_all,
}
use zeronsd.Base.Exec
use zeronsd.Base.Exec.{Exec, for_each}
use zeronsd.Net.{IpAddr}
use zeronsd.Central.{Member}
use zeronsd.Crates.{Crates, Zone}
use zeronsd.Hostname.{to_fqdn, to_wildcard}
use zeronsd.Addresses.{member_sixplane, member_rfc4193}
use zeronsd.Utils.{parse_member_name}
use zeronsd.Authority.{match_or_insert, configure_ptr}

pub record ZtRecord (C : Crates) : Type 0 where
  pub fqdn : C.Name
  pub custom_name : Option C.Name
  pub ptr_name : C.Name
  pub ips : List IpAddr
  pub wildcard : Bool

-- The zone of an authority, and the list of the names that were written to it.
pub record Writing (C : Crates) : Type 0 where
  pub zone : Zone C
  pub written : List C.LowerName

module _ (C : Crates) where
  -- `ip_assignments.map_or(…)`: an assignment that is no address panics.
  unfoldable pub assigned_ips : Member → Outcome (List IpAddr)
  assigned_ips member = or_panic member.config >>= λ config. elim config.ip_assignments [
    | none ↦ ok []
    | some v ↦ map_all (λ s. or_panic (C.parse_ip s)) v
  ]

  -- `if network.is_some() { ips.push(…) }`
  unfoldable pub with_computed :
      Option C.IpNetwork → Outcome C.IpNetwork → List IpAddr → Outcome (List IpAddr)
  with_computed none computed ips = ok ips
  with_computed (some _) computed ips =
      computed >>= λ network. ok (ips ++ C.network_ip network ∷ [])

  abbrev ptr_name_of : C.Name → Option C.Name → C.Name
  ptr_name_of fqdn none = fqdn
  ptr_name_of fqdn (some name) = name

  -- `ZTRecord::new`
  unfoldable pub new_record :
      Member → Option C.IpNetwork → Option C.IpNetwork → C.Name → Bool → Outcome (ZtRecord C)
  unfolding assigned_ips with_computed
  new_record member sixplane rfc4193 domain_name wildcard = or_panic member.node_id >>= λ node_id.
      to_fqdn C (codes "zt-" ++ node_id) domain_name >>= λ fqdn.
      parse_member_name C member.name domain_name >>= λ custom_name.
      assigned_ips member >>= λ assigned.
      with_computed sixplane (member_sixplane C member) assigned >>= λ with_sixplane.
      with_computed rfc4193 (member_rfc4193 C member) with_sixplane >>= λ ips. ok (record {
        fqdn = fqdn;
        custom_name = custom_name;
        ptr_name = ptr_name_of fqdn custom_name;
        ips = ips;
        wildcard = wildcard;
      })

  -- `get_custom_wildcard().unwrap()`
  unfoldable pub get_custom_wildcard : ZtRecord C → Outcome C.Name
  get_custom_wildcard record' = or_panic record'.custom_name >>= λ name. to_wildcard C name

  -- `match_or_insert`, and the name is pushed to the list.
  unfoldable pub write_name : C.Name → List IpAddr → Exec (Writing C) (Unit {0})
  write_name name ips w = (
    ok tt,
    record { zone = match_or_insert C name ips w.zone; written = w.written ++ C.lower name ∷ [] },
  )

  -- `if record.wildcard { … }`
  unfoldable pub write_wildcard : Bool → Outcome C.Name → List IpAddr → Exec (Writing C) (Unit {0})
  write_wildcard false name ips w = (ok tt, w)
  write_wildcard true name ips w = Exec.continue (name, w) (λ n. write_name n ips)

  unfoldable pub write_custom : ZtRecord C → Option C.Name → Exec (Writing C) (Unit {0})
  write_custom record' none w = (ok tt, w)
  write_custom record' (some name) w =
      Exec.continue (write_name name record'.ips w)
        (λ _. write_wildcard record'.wildcard (get_custom_wildcard record') record'.ips)

  -- `insert_member`
  unfoldable pub insert_member : ZtRecord C → Exec (Writing C) (Unit {0})
  insert_member record' w =
      Exec.continue
        (Exec.continue (write_name record'.fqdn record'.ips w)
          (λ _. write_wildcard record'.wildcard (to_wildcard C record'.fqdn) record'.ips))
        (λ _. write_custom record' record'.custom_name)

  -- `configure_ptr`, and the name is pushed to the list.
  unfoldable pub write_ptr : Option C.Name → C.Name → Exec (Writing C) (Unit {0})
  write_ptr none fqdn w = (err, w)
  write_ptr (some ptr) fqdn w =
      let (r, z) = configure_ptr C ptr fqdn w.zone in
      Exec.continue (r, record w { zone = z })
        (λ _ w'. (ok tt, record w' { written = w'.written ++ C.lower ptr ∷ [] }))

  -- `insert_member_ptr`: every address of the record, whichever zone this is
  unfoldable pub insert_member_ptr : ZtRecord C → Exec (Writing C) (Unit {0})
  insert_member_ptr record' =
      for_each (λ ip. write_ptr (C.ip_into_name ip) record'.ptr_name) record'.ips
