-- ===== src/Server/Listen.antt =====
-- What `Server::listen` of src/server.rs listens on.
use zeronsd.Base.{
  ℕ, ◌≡◌, refl, ◌∙◌, ap, sym, Bool, true, false, ◌&&◌, ◌||◌, Option, some, none, List, [], ◌∷◌,
  ◌++◌, is_empty, if◌then◌else◌, ok, or_err, or_err-eq-ok, >>=-eq-ok, arith,
}
use zeronsd.Net.{IpAddr}
use zeronsd.Crates.{Crates}
use zeronsd.Refresh.{ZtAuthority}
use zeronsd.Server.{Servers, init_catalog, add_dot, configure_server}

-- What a server listens on: sockets, and for TLS a certificate, a chain and a key.
pub data Listener (Tcp Udp Cert Chain Key : Type 0) : Type 0 where
  on_udp : Udp → Listener Tcp Udp Cert Chain Key
  on_tcp : Tcp → ℕ → Listener Tcp Udp Cert Chain Key
  on_tls : Tcp → ℕ → Cert → Option Chain → Key → Listener Tcp Udp Cert Chain Key

abbrev pub Listeners : (C : Crates) → Servers C → Type 0
Listeners C S = List (Listener S.Tcp S.Udp S.Cert S.Chain S.Key)

-- A server has the catalog that it was made with, and what was registered.
pub record IsFutureLawful (C : Crates) (S : Servers C) : Type 0 where
  pub catalog_of : S.Future → S.Catalog
  pub listeners : S.Future → Listeners C S
  pub catalog_of-new_future : (c : S.Catalog) → catalog_of (S.new_future c) ≡ c
  pub listeners-new_future : (c : S.Catalog) → listeners (S.new_future c) ≡ []
  pub catalog_of-register_tls :
      (t : S.Tcp) (d : ℕ) (c : S.Cert) (chain : Option S.Chain) (k : S.Key) (f : S.Future)
      → catalog_of (S.register_tls_listener t d c chain k f).1 ≡ catalog_of f
  pub listeners-register_tls :
      (t : S.Tcp) (d : ℕ) (c : S.Cert) (chain : Option S.Chain) (k : S.Key) (f : S.Future)
      → listeners (S.register_tls_listener t d c chain k f).1
        ≡ listeners f
          ++ (if (S.register_tls_listener t d c chain k f).0 then on_tls t d c chain k ∷ [] else [])
  pub catalog_of-register_socket :
      (u : S.Udp) (f : S.Future) → catalog_of (S.register_socket u f) ≡ catalog_of f
  pub listeners-register_socket :
      (u : S.Udp) (f : S.Future) → listeners (S.register_socket u f) ≡ listeners f ++ on_udp u ∷ []
  pub catalog_of-register_listener :
      (t : S.Tcp) (d : ℕ) (f : S.Future) → catalog_of (S.register_listener t d f) ≡ catalog_of f
  pub listeners-register_listener :
      (t : S.Tcp) (d : ℕ) (f : S.Future)
      → listeners (S.register_listener t d f) ≡ listeners f ++ on_tcp t d ∷ []

abbrev pub is_given : {A : Type 0} → Option A → Bool
is_given none = false
is_given (some a) = true

module _ (C : Crates) (S : Servers C) (F : IsFutureLawful C S) where
  -- What `add_dot` adds, if anything.
  add_dot_lem :
      (ip : IpAddr) (d : ℕ) (certs : Option S.Cert) (chain : Option S.Chain) (key : Option S.Key)
      (f f' : S.Future)
      → F.listeners f ≡ []
      → add_dot C S ip d certs chain key f ≡ ok f'
      → (F.catalog_of f' ≡ F.catalog_of f)
        × ((is_empty (F.listeners f') || (is_given certs && is_given key)) ≡ true)
  unfolding add_dot
  add_dot_lem ip d (some c) chain (some k) f f' e h =
      let (tls, _, there) = >>=-eq-ok (or_err (S.bind_tcp ip 853)) _ h in
      let same : (S.register_tls_listener tls d c chain k f).1 ≡ f' = cc in
      (ap F.catalog_of (sym same) ∙ F.catalog_of-register_tls tls d c chain k f, ground arith)
  add_dot_lem ip d none chain key f f' e h =
      let same : f ≡ f' = cc in (ap F.catalog_of (sym same), rw (← same, e) refl)
  add_dot_lem ip d (some c) chain none f f' e h =
      let same : f ≡ f' = cc in (ap F.catalog_of (sym same), rw (← same, e) refl)

  -- A server that `listen` has set up answers from the catalog of `init_catalog`, on port 53 of
  -- the address by UDP and TCP; it has a TLS listener in addition only if a certificate and a key
  -- are given.
  pub configure_server_lem :
      (zt : ZtAuthority C) (ip : IpAddr) (d : ℕ) (certs : Option S.Cert) (chain : Option S.Chain)
      (key : Option S.Key) (f : S.Future)
      → configure_server C S zt ip d certs chain key ≡ ok f
      → (tcp : S.Tcp) × (udp : S.Udp) × (dot : Listeners C S) × (S.bind_tcp ip 53 ≡ some tcp)
        × (S.bind_udp ip 53 ≡ some udp)
        × (init_catalog C S zt ≡ ok (F.catalog_of f))
        × (F.listeners f ≡ (dot ++ on_udp udp ∷ []) ++ on_tcp tcp d ∷ [])
        × ((is_empty dot || (is_given certs && is_given key)) ≡ true)
  unfolding configure_server
  configure_server_lem zt ip d certs chain key f h =
      let (tcp, at_tcp, h1) = >>=-eq-ok (or_err (S.bind_tcp ip 53)) _ h in
      let (udp, at_udp, h2) = >>=-eq-ok (or_err (S.bind_udp ip 53)) _ h1 in
      let (catalog, made, h3) = >>=-eq-ok (init_catalog C S zt) _ h2 in
      let (sf, added, h4) =
        >>=-eq-ok (add_dot C S ip d certs chain key (S.new_future catalog)) _ h3 in
      let (same, only) =
        add_dot_lem ip d certs chain key _ sf (F.listeners-new_future catalog) added in
      let last : S.register_listener tcp d (S.register_socket udp sf) ≡ f = cc in
      (
        tcp,
        udp,
        F.listeners sf,
        or_err-eq-ok (S.bind_tcp ip 53) at_tcp,
        or_err-eq-ok (S.bind_udp ip 53) at_udp,
        made
            ∙ ap ok (
                sym (
                  ap F.catalog_of (sym last)
                  ∙ F.catalog_of-register_listener tcp d _
                  ∙ F.catalog_of-register_socket udp sf
                  ∙ same
                  ∙ F.catalog_of-new_future catalog)),
        ap F.listeners (sym last)
            ∙ F.listeners-register_listener tcp d _
            ∙ ap (λ ls. ls ++ on_tcp tcp d ∷ []) (F.listeners-register_socket udp sf),
        only,
      )
