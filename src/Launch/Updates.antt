-- ===== src/Launch/Updates.antt =====
-- What `Launcher::start` of src/init.rs sends to Central (`update_central_dns` of src/utils.rs).
use zeronsd.Base.{
  ◌≡◌, ◌⊎◌, refl, ◌∙◌, false, some, List, [], ◌∷◌, ◌++◌, Text, is_empty, map_all, Outcome,
  Outcome-cases, ok, err, panic, ◌>>=◌, or_err, or_err-eq-ok, Ensures, Ensures-after, Ensures-ok,
  Option-cases, Bool-cases, inl, inr,
}
use zeronsd.Base.Exec.{continue}
use zeronsd.Central.{Network, NetworkConfig, DnsConfig}
use zeronsd.Crates.{Crates}
use zeronsd.Utils.{Platform, parse_ip_from_cidr, central_token, domain_or_default, authtoken_path}
use zeronsd.Settings.{Launcher}
use zeronsd.Launch.{
  World, central_client, local_client_from_file, get_listen_ips, update_central_dns, make_authority,
  start_settings, start, url_of,
}

-- A last part that leaves the state.
continue_constant :
    {S A B : Type 0} (r : Outcome A × S) (o : Outcome B) → (continue r (λ _ s. (o, s))).1 ≡ r.1
continue_constant (ok a, s) o = refl
continue_constant (err, s) o = refl
continue_constant (panic, s) o = refl

module _ (C : Crates) (W : World C) where
  -- The network with the name and the name servers as its DNS settings, and else unchanged.
  abbrev pub with_dns : C.Name → List Text → Network → NetworkConfig → Network
  with_dns domain_name texts network config =
      let dns : DnsConfig = record {
        domain = some (W.relative_text domain_name);
        servers = some texts;
      } in
      record network { config = some (record config { dns = some dns }) }

  -- One update is sent: of the network that Central has, with its configuration.
  abbrev pub Sends :
      C.Name → List Text → W.Client → Text → List (Text × Network) → List (Text × Network) → Type 0
  Sends domain_name texts client network_id sent after =
      (network : Network) × (config : NetworkConfig) × (W.get_network_by_id client network_id
        ≡ some network)
      × (network.config ≡ some config)
      × (after ≡ sent ++ (network_id, with_dns domain_name texts network config) ∷ [])

  update_central_dns-Sends :
      (domain_name : C.Name) (texts : List Text) (client : W.Client) (network_id : Text)
      (sent : List (Text × Network))
      → ((update_central_dns C W domain_name texts client network_id sent).1 ≡ sent)
        ⊎ Sends domain_name texts client network_id sent
            (update_central_dns C W domain_name texts client network_id sent).1
  unfolding update_central_dns
  update_central_dns-Sends domain_name texts client network_id sent =
      elim (Option-cases (W.get_network_by_id client network_id)) [
        | inl unknown ↦ inl (rw (update_central_dns, unknown) refl)
        | inr (network, fetched) ↦ elim (Option-cases network.config) [
          | inl without ↦ inl (rw (update_central_dns, fetched, without) refl)
          | inr (config, has) ↦
              inr (network, config, fetched, has, rw (update_central_dns, fetched, has) refl)
        ]
      ]

  -- The addresses are those, one at least, that the local service, asked with the token in the
  -- file, has for the network.
  abbrev pub Listens : Text → Text → Text → List Text → Type 0
  Listens authtoken network_id local_url ips =
      (local : W.LocalClient) × (local_client_from_file C W authtoken local_url ≡ ok local)
      × (W.get_network local network_id ≡ some ips)
      × (is_empty ips ≡ false)

  get_listen_ips-Ensures :
      (authtoken network_id local_url : Text)
      → Ensures
          (Listens authtoken network_id local_url)
          (get_listen_ips C W authtoken network_id local_url)
  unfolding get_listen_ips
  get_listen_ips-Ensures authtoken network_id local_url =
      Ensures-after _ (local_client_from_file C W authtoken local_url) _ (λ local is_local.
        Ensures-after _ (or_err (W.get_network local network_id)) _ (λ assigned fetched.
          elim (Bool-cases (is_empty assigned)) [
            | inl nowhere ↦ rw nowhere tt
            | inr somewhere ↦ rw somewhere (local, is_local, or_err-eq-ok _ fetched, somewhere)
          ]))

  -- What the settings come from.
  abbrev AreSettings :
      Platform → Launcher → Text × C.Name × Text × W.Client × List Text × List Text → Type 0
  AreSettings platform l (network_id, domain_name, authtoken, client, ips, texts) =
      (l.network_id ≡ some network_id)
      × (domain_or_default C l.domain ≡ ok domain_name)
      × (authtoken_path platform l.secret ≡ ok authtoken)
      × (central_token C W.read W.token_variable l.token >>= central_client C W ≡ ok client)
      × Listens authtoken network_id (url_of C W l.local_url) ips
      × (map_all (λ ip. parse_ip_from_cidr C ip >>= λ parsed. ok (W.ip_text parsed)) ips ≡ ok texts)

  start_settings-Ensures :
      (platform : Platform) (l : Launcher)
      → Ensures (AreSettings platform l) (start_settings C W platform l)
  unfolding start_settings
  start_settings-Ensures platform l = Ensures-after _ (or_err l.network_id) _ (λ network_id given.
      Ensures-after _ (domain_or_default C l.domain) _ (λ domain_name named.
        Ensures-after _ (authtoken_path platform l.secret) _ (λ authtoken secret.
          Ensures-after _ (central_token C W.read W.token_variable l.token) _ (λ token token_made.
            Ensures-after _ (central_client C W token) _ (λ client client_made.
              Ensures-after _ (get_listen_ips C W authtoken network_id _) _ (λ ips listening.
                Ensures-after _ (map_all _ ips) _ (λ texts parsed. (
                  or_err-eq-ok _ given,
                  named,
                  secret,
                  rw token_made client_made,
                  Ensures-ok _ _ listening (get_listen_ips-Ensures authtoken network_id _),
                  parsed,
                ))))))))

  -- However `start` ends, it has sent nothing to Central, or one update: for the network of the
  -- settings, as Central has it, with the name of the domain and the addresses to listen on as its
  -- DNS settings, and nothing else changed. The addresses are those, one at least, that the local
  -- service, asked with the token file of the settings, has for the network, and the client is
  -- made with the Central token of the settings.
  pub start-Sends :
      (platform : Platform) (l : Launcher) (sent : List (Text × Network))
      → ((start C W platform l sent).1 ≡ sent)
        ⊎ ((network_id : Text) × (domain_name : C.Name) × (authtoken : Text) × (client : W.Client)
            × (ips texts : List Text) × (l.network_id ≡ some network_id)
            × (domain_or_default C l.domain ≡ ok domain_name)
            × (authtoken_path platform l.secret ≡ ok authtoken)
            × (central_token C W.read W.token_variable l.token >>= central_client C W ≡ ok client)
            × Listens authtoken network_id (url_of C W l.local_url) ips
            × (map_all (λ ip. parse_ip_from_cidr C ip >>= λ parsed. ok (W.ip_text parsed)) ips
                ≡ ok texts)
            × Sends domain_name texts client network_id sent (start C W platform l sent).1)
  unfolding start
  start-Sends platform l sent = elim (Outcome-cases (start_settings C W platform l)) [
    | inr (inl fails) ↦ inl (rw (start, fails) refl)
    | inr (inr panics) ↦ inl (rw (start, panics) refl)
    | inl ((network_id, domain_name, authtoken, client, ips, texts), made) ↦
        elim (Bool-cases (is_empty ips)) [
          | inl nowhere ↦ inl (rw (start, made, nowhere) refl)
          | inr somewhere ↦
              let (given, named, secret, client_made, listening, parsed) =
                Ensures-ok _ _ made (start_settings-Ensures platform l) in
              let sending = update_central_dns C W domain_name texts client network_id sent in
              let after : (start C W platform l sent).1 ≡ sending.1 =
                rw (start, made, somewhere)
                  (continue_constant sending (
                    make_authority C W l network_id domain_name authtoken (url_of C W l.local_url)
                      client ips)) in
              elim (update_central_dns-Sends domain_name texts client network_id sent) [
                | inl none_sent ↦ inl (after ∙ none_sent)
                | inr (network, config, fetched, has, last) ↦ inr (
                  network_id,
                  domain_name,
                  authtoken,
                  client,
                  ips,
                  texts,
                  given,
                  named,
                  secret,
                  client_made,
                  listening,
                  parsed,
                  (network, config, fetched, has, after ∙ last),
                )
              ]
        ]
  ]
