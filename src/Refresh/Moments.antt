-- ===== src/Refresh/Moments.antt =====
-- What queries see of the zones while `find_members` of src/authority.rs runs.
use mathlib.Core.Path.{subst}
use zeronsd.Base.{false, ◌≡◌, ◌∙◌, ap, sym, true, Option, List, All, All-map, arith}
use zeronsd.Base.Dict
use zeronsd.Dns.{RecordType, key_eq, to_record_type, type_same_iff}
use zeronsd.Crates.{Crates, Zone}
use zeronsd.Crates.Laws.{IsNamesLawful, IsZoneLawful}
use zeronsd.Hostname.Runs.{IsRegexLawful}
use zeronsd.Hostname.Domains.{IsAppendLawful}
use zeronsd.Authority.{key_of}
use zeronsd.Authority.History.{
  Commit, add, drop_ptr, rebuild_hosts, drop_expired, History, unchanged, later, zones, zones-All,
  match_or_insert-History, configure_ptr-History,
}
use zeronsd.Authority.WellFormed.{upsert-IsWellFormed, remove-IsWellFormed}
use zeronsd.Members.Kept.{IsKept}
use zeronsd.Refresh.{ZtAuthority}
use zeronsd.Refresh.Configure.{Round, find_members}
use zeronsd.Refresh.Zones.Rounds.{HoldsServer, find_members-keeps}
use zeronsd.Refresh.Apex.{soa_key, HasSoa, IsBelow, HasSoa-IsKept, parse_hosts-IsBelow}

module _ (C : Crates) (first : C.LowerName → Zone C) where
  -- The zone of the name was first as given, and all that it has been since satisfies `P`.
  abbrev pub HasBeen : (C.LowerName → Zone C → Type 0) → C.LowerName → Zone C → Type 0
  HasBeen P d z = (h : History C (IsBelow C d) (first d) z) × All (P d) (zones C (IsBelow C d) h)

  History-IsKept :
      IsNamesLawful C
      → IsZoneLawful C
      → IsKept C (IsBelow C) (λ d z. History C (IsBelow C d) (first d) z)
  History-IsKept N L = record {
    match_or_insert-keeps =
        λ d name ips z h. match_or_insert-History C (IsBelow C d) name ips _ z h;
    configure_ptr-keeps =
        λ d ptr fqdn z h. configure_ptr-History C (IsBelow C d) N L ptr fqdn _ z h;
    prune_records-keeps = λ d written z h. later h (drop_expired written z);
    prune_hosts-keeps = λ d hosts z below h. later h (rebuild_hosts hosts z below);
  }

module _ (C : Crates) (N : IsNamesLawful C) (L : IsZoneLawful C)
    (soa : C.LowerName → Option C.RecordSet) where
  -- Every commit leaves the zone well formed and its SOA set as it is.
  Commit-HasSoa :
      (d : C.LowerName) (t u : Zone C)
      → Commit C (IsBelow C d) t u
      → HasSoa C soa d t
      → HasSoa C soa d u
  Commit-HasSoa d _ _ (add r serial z kind) (w, e) = (
    upsert-IsWellFormed C L r serial z w,
    L.lookup-upsert_other r serial z (soa_key C d) (λ p.
          let t : RecordType.soa ≡ to_record_type r.rdata = ap (λ k. k.record_type) p in
          let no : false ≡ true = rw (← t) at kind in (cc))
        ∙ e,
  )
  Commit-HasSoa d _ _ (drop_ptr ptr z) (w, e) = (
    remove-IsWellFormed C L (key_of C ptr RecordType.ptr) z w,
    Dict.lookup-remove (key_eq C.lower_eq) (soa_key C d) (key_of C ptr RecordType.ptr) z
        ∙ ground (arith, type_same_iff RecordType.ptr RecordType.soa)
        ∙ e,
  )
  Commit-HasSoa d _ _ (rebuild_hosts hosts z below) h =
      (HasSoa-IsKept C N L soa).prune_hosts-keeps d hosts z below h
  Commit-HasSoa d _ _ (drop_expired written z) h =
      (HasSoa-IsKept C N L soa).prune_records-keeps d written z h

  has_been :
      (first : C.LowerName → Zone C)
      → ((d : C.LowerName) → HasSoa C soa d (first d))
      → (d : C.LowerName) (z : Zone C) → History C (IsBelow C d) (first d) z
      → HasBeen C first (HasSoa C soa) d z
  has_been first good d z h =
      (h, (zones-All C (IsBelow C d) (HasSoa C soa d) (Commit-HasSoa d) h (good d)).1)

  -- If names are lower-cased, put below the domain and matched as documented, every zone of the
  -- server is at first the one given for its name, all given zones are well formed with a given
  -- set (or none) as the SOA set of their names, and the table of hosts lists no address for the
  -- name of the forward zone, then after any rounds of `find_members`, whatever Central and the
  -- hosts file give and however the rounds end, every zone of the server comes from its first one
  -- by a history of commits, each a single locked write, and every zone of that history is well
  -- formed with that SOA set.
  pub find_members-HasBeen :
      IsRegexLawful C
      → IsAppendLawful C
      → (first : C.LowerName → Zone C) (rounds : List (Round C)) (zt : ZtAuthority C)
      → ((d : C.LowerName) → HasSoa C soa d (first d))
      → HoldsServer C (IsBelow C) (λ d z. z ≡ first d) zt
      → HoldsServer C (IsBelow C) (HasBeen C first (HasSoa C soa)) (find_members C rounds zt).1
  find_members-HasBeen R A first rounds zt good (start, starts, hosts) =
      let begin = λ (d : C.LowerName) (z : Zone C) (p : z ≡ first d).
        subst (History C (IsBelow C d) (first d)) (sym p) unchanged in
      let (forward, reverse, after) =
        find_members-keeps C (IsBelow C) (λ d z. History C (IsBelow C d) (first d) z)
          (History-IsKept C first N L)
          (λ d read file table e. parse_hosts-IsBelow C R A d read file table e) rounds zt
          (
            begin _ _ start,
            All-map (λ e p. begin e.1.domain_name e.1.authority p) zt.reverse_authority_map starts,
            hosts,
          ) in
      (
        has_been first good _ _ forward,
        All-map (λ e h. has_been first good e.1.domain_name e.1.authority h) _ reverse,
        after,
      )
