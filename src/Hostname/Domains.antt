-- ===== src/Hostname/Domains.antt =====
-- Fully qualified names, from `to_fqdn` of src/traits.rs, are below the domain.
use zeronsd.Base.{◌≡◌, ◌≢◌, false, some, Text, is_empty, ok, >>=-eq-ok, or_panic-eq-ok}
use zeronsd.Crates.{Crates}
use zeronsd.Hostname.{to_hostname, to_fqdn, ends_with_dot}
use zeronsd.Hostname.Runs.{IsRegexLawful}
use zeronsd.Hostname.Translate.{to_hostname_sound}

-- A name read from a text that is neither empty nor ends in a dot has labels, so to append a domain
-- to it gives a name other than the domain.
pub record IsAppendLawful (C : Crates) : Type 0 where
  pub append_domain-ne :
      (t : Text) (name domain whole : C.Name)
      → C.text_into_name t ≡ some name
      → is_empty t ≡ false
      → ends_with_dot t ≡ false
      → C.append_domain name domain ≡ some whole
      → whole ≢ domain

pub to_fqdn-ne :
    (C : Crates)
    → IsRegexLawful C
    → IsAppendLawful C
    → (s : Text) (domain name : C.Name) → to_fqdn C s domain ≡ ok name
    → name ≢ domain
unfolding to_fqdn
to_fqdn-ne C R A s domain name e =
    let (host, host_ok, append_ok) = >>=-eq-ok (to_hostname C s) _ e in
    let (t, reads, _, some_text, no_dot, _) = to_hostname_sound C R s host host_ok in
    A.append_domain-ne t host domain name reads some_text no_dot (or_panic-eq-ok _ append_ok)
