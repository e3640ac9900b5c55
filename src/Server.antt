-- ===== src/Server.antt =====
-- `init_catalog` and the `AuthorityObject` of src/authority.rs, and `Server::listen` of
-- src/server.rs.
pub mod Catalog
pub mod Listen
pub mod Start
use zeronsd.Base.{
  ℕ, Bool, false, Option, some, none, List, [], ◌∷◌, Outcome, ok, err, panic, ◌>>=◌, or_err,
  or_panic, Text,
}
use zeronsd.Net.{IpAddr}
use zeronsd.Crates.{Crates, Zone}
use zeronsd.Hostname.{to_ptr_soa_name}
use zeronsd.Authority.{RecordAuthority}
use zeronsd.Refresh.{ZtAuthority}

-- What a catalog has for a name: the forwarder, or the zone of one of our authorities. The zone is
-- shared with the authority.
pub data Served (C : Crates) (Forwarder : Type 0) : Type 0 where
  forwarder : Forwarder → Served C Forwarder
  zone : Zone C → Served C Forwarder

-- The catalog, the forwarder and the server of trust-dns, the sockets of tokio, and the
-- certificates of openssl.
pub record Servers (C : Crates) : Type 1 where
  -- `read_system_conf`
  pub NameServer : Type 0
  pub ResolverOpts : Type 0
  pub system_conf : Option (List NameServer × ResolverOpts)
  -- `ForwardAuthority::try_from_config`, `Name::root`
  pub Forwarder : Type 0
  pub forwarder_from_config : List NameServer → Option ResolverOpts → Option Forwarder
  pub root : C.Name
  -- `ZoneType::Primary`
  pub ZoneType : Type 0
  pub primary : ZoneType
  -- `Catalog::default`, `upsert`
  pub Catalog : Type 0
  pub default_catalog : Catalog
  pub upsert_zone : C.LowerName → Served C Forwarder → Catalog → Catalog
  -- `bind` of a port of an address
  pub Tcp : Type 0
  pub Udp : Type 0
  pub bind_tcp : IpAddr → ℕ → Option Tcp
  pub bind_udp : IpAddr → ℕ → Option Udp
  -- `X509`, `Stack<X509>` and `PKey<Private>`; files are read as bytes
  pub Cert : Type 0
  pub Chain : Type 0
  pub Key : Type 0
  pub read_bytes : Text → Option (List ℕ)
  pub cert_from_pem : List ℕ → Option Cert
  pub stack_from_pem : List ℕ → Option (List Cert)
  pub new_stack : Option Chain
  pub push_cert : Cert → Chain → Option Chain
  pub key_from_pem : List ℕ → Option Key
  -- `ServerFuture`: `new`, the registrations, and how it ends. The flag of `register_tls_listener`
  -- is whether it succeeds.
  pub Future : Type 0
  pub new_future : Catalog → Future
  pub register_tls_listener : Tcp → ℕ → Cert → Option Chain → Key → Future → Bool × Future
  pub register_socket : Udp → Future → Future
  pub register_listener : Tcp → ℕ → Future → Future
  pub block_until_done : Future → Option (Unit {0})

module _ (C : Crates) (S : Servers C) where
  -- `AuthorityObject for RecordAuthority`: `zone_type`, `is_axfr_allowed`, `origin`, `box_clone`;
  -- of the last, it is the zone inside that is boxed.
  abbrev pub zone_type : RecordAuthority C → S.ZoneType
  zone_type authority = S.primary

  abbrev pub is_axfr_allowed : RecordAuthority C → Bool
  is_axfr_allowed authority = false

  abbrev pub origin : RecordAuthority C → C.LowerName
  origin authority = authority.domain_name

  abbrev pub box_clone : RecordAuthority C → Served C S.Forwarder
  box_clone authority = zone authority.authority

  -- The loop over `reverse_authority_map`.
  unfoldable pub add_reverse :
      List (C.IpNetwork × RecordAuthority C) → S.Catalog → Outcome S.Catalog
  add_reverse [] catalog = ok catalog
  add_reverse ((network, authority) ∷ rest) catalog = to_ptr_soa_name C network >>= λ name.
      add_reverse rest (S.upsert_zone name (box_clone authority) catalog)

  unfoldable pub init_catalog : ZtAuthority C → Outcome S.Catalog
  init_catalog zt = or_err S.system_conf >>= λ (name_servers, options).
      or_panic (S.forwarder_from_config name_servers (some options)) >>= λ recursor.
      add_reverse zt.reverse_authority_map (
        S.upsert_zone zt.forward_authority.domain_name (box_clone zt.forward_authority)
          (S.upsert_zone (C.lower S.root) (forwarder recursor) S.default_catalog))

  -- The listener for DNS over TLS; that it cannot be registered is only logged.
  unfoldable pub add_dot :
      IpAddr → ℕ → Option S.Cert → Option S.Chain → Option S.Key → S.Future → Outcome S.Future
  add_dot ip tcp_timeout (some certs) cert_chain (some key) sf =
      or_err (S.bind_tcp ip 853) >>= λ tls.
      ok (S.register_tls_listener tls tcp_timeout certs cert_chain key sf).1
  add_dot ip tcp_timeout certs cert_chain key sf = ok sf

  -- `listen`, up to the wait.
  unfoldable pub configure_server :
      ZtAuthority C → IpAddr → ℕ → Option S.Cert → Option S.Chain → Option S.Key → Outcome S.Future
  configure_server zt ip tcp_timeout certs cert_chain key = or_err (S.bind_tcp ip 53) >>= λ tcp.
      or_err (S.bind_udp ip 53) >>= λ udp. init_catalog zt >>= λ catalog.
      add_dot ip tcp_timeout certs cert_chain key (S.new_future catalog) >>= λ sf.
      ok (S.register_listener tcp tcp_timeout (S.register_socket udp sf))

  unfoldable pub listen :
      ZtAuthority C
      → IpAddr
      → ℕ
      → Option S.Cert
      → Option S.Chain
      → Option S.Key
      → Outcome (Unit {0})
  listen zt ip tcp_timeout certs cert_chain key =
      configure_server zt ip tcp_timeout certs cert_chain key >>= λ sf.
      or_err (S.block_until_done sf)
