-- ===== src/Server/Start.antt =====
-- The listeners of `Launcher::start` of src/init.rs: certificates, and one task for each address.
use zeronsd.Base.{
  ℕ, ◌≡◌, refl, ◌∙◌, ap, Option, some, none, List, [], ◌∷◌, ◌++◌, map, Text, Outcome, ok, ◌>>=◌,
  or_err,
}
use mathlib.Core.List.{append_assoc, append-nil}
use zeronsd.Base.Exec.{Exec, continue, for_each}
use zeronsd.Net.{IpAddr}
use zeronsd.Central.{Network}
use zeronsd.Crates.{Crates}
use zeronsd.Utils.{Platform}
use zeronsd.Settings.{Launcher}
use zeronsd.Refresh.{ZtAuthority}
use zeronsd.Launch
use zeronsd.Launch.{World}
use zeronsd.Server.{Servers}

-- What `tokio::spawn` is given: `find_members`, and `listen` of a server with its arguments.
pub data Task (C : Crates) (S : Servers C) : Type 0 where
  run_find_members : ZtAuthority C → Task C S
  run_listen : ZtAuthority C → IpAddr → ℕ → Option S.Cert → Option S.Chain → Option S.Key → Task C S

module _ (C : Crates) (S : Servers C) where
  unfoldable pub read_cert : Option Text → Outcome (Option S.Cert)
  read_cert none = ok none
  read_cert (some tls_cert) = or_err (S.read_bytes tls_cert) >>= λ pem.
      or_err (S.cert_from_pem pem) >>= λ cert. ok (some cert)

  -- `for cert in chain { stack.push(cert)?; }`
  abbrev push_all : List S.Cert → S.Chain → Outcome S.Chain
  push_all [] stack = ok stack
  push_all (cert ∷ chain) stack =
      or_err (S.push_cert cert stack) >>= λ longer. push_all chain longer

  unfoldable pub read_chain : Option Text → Outcome (Option S.Chain)
  read_chain none = ok none
  read_chain (some chain_cert) = or_err (S.read_bytes chain_cert) >>= λ pem.
      or_err (S.stack_from_pem pem) >>= λ chain.
      or_err S.new_stack >>= λ stack. push_all chain stack >>= λ full. ok (some full)

  unfoldable pub read_key : Option Text → Outcome (Option S.Key)
  read_key none = ok none
  read_key (some key_path) =
      or_err (S.read_bytes key_path) >>= λ pem. or_err (S.key_from_pem pem) >>= λ key. ok (some key)

  -- One round of the loop over `listen_ips`. The state is the list of the tasks.
  unfoldable pub spawn_listener :
      Launcher → ZtAuthority C → IpAddr → Exec (List (Task C S)) (Unit {0})
  spawn_listener l zt ip tasks =
      continue (read_cert l.tls_cert, tasks)
        (λ tls_cert t.
          continue (read_chain l.chain_cert, t)
            (λ chain t'.
              continue (read_key l.tls_key, t')
                (λ key t''. (ok tt, t'' ++ run_listen zt ip 1 tls_cert chain key ∷ []))))

  unfoldable pub spawn_tasks :
      Launcher → ZtAuthority C × List IpAddr → Exec (List (Task C S)) (ZtAuthority C)
  spawn_tasks l (zt, listen_ips) tasks =
      continue (for_each (spawn_listener l zt) listen_ips (tasks ++ run_find_members zt ∷ []))
        (λ _ t. (ok zt, t))

  -- All of `start`. The state is what was sent to Central, and the tasks.
  unfoldable pub launch :
      World C → Platform → Launcher → Exec (List (Text × Network) × List (Task C S)) (ZtAuthority C)
  launch W platform l (sent, tasks) =
      let prepared = Launch.start C W platform l sent in
      let spawned = continue (prepared.0, tasks) (spawn_tasks l) in
      (spawned.0, (prepared.1, spawned.1))

  spawn_listeners_lem :
      (l : Launcher) (zt : ZtAuthority C) (ips : List IpAddr) (cert : Option S.Cert)
      (chain : Option S.Chain) (key : Option S.Key) (tasks : List (Task C S))
      → read_cert l.tls_cert ≡ ok cert
      → read_chain l.chain_cert ≡ ok chain
      → read_key l.tls_key ≡ ok key
      → for_each (spawn_listener l zt) ips tasks
        ≡ (ok tt, tasks ++ map (λ ip. run_listen zt ip 1 cert chain key) ips)
  unfolding for_each spawn_listener
  spawn_listeners_lem l zt [] cert chain key tasks c h k = rw (append-nil tasks) refl
  spawn_listeners_lem l zt (ip ∷ ips) cert chain key tasks c h k =
      rw (spawn_listener, c, h, k)
        (spawn_listeners_lem l zt ips cert chain key
            (tasks ++ run_listen zt ip 1 cert chain key ∷ []) c h k
          ∙ ap (λ ts. (ok tt, ts)) (append_assoc tasks (run_listen zt ip 1 cert chain key ∷ []) _))

  -- If the zones are set up, and the certificate, the chain and the key that are configured can be
  -- read, then `start` succeeds; it starts `find_members`, and one listener for each address, all
  -- with the same certificate, chain and key.
  pub launch_lem :
      (W : World C) (platform : Platform) (l : Launcher) (zt : ZtAuthority C) (ips : List IpAddr)
      (sent sent' : List (Text × Network)) (tasks : List (Task C S)) (cert : Option S.Cert)
      (chain : Option S.Chain) (key : Option S.Key)
      → Launch.start C W platform l sent ≡ (ok (zt, ips), sent')
      → read_cert l.tls_cert ≡ ok cert
      → read_chain l.chain_cert ≡ ok chain
      → read_key l.tls_key ≡ ok key
      → launch W platform l (sent, tasks) ≡ (
        ok zt,
        (sent', tasks ++ run_find_members zt ∷ map (λ ip. run_listen zt ip 1 cert chain key) ips),
      )
  unfolding launch spawn_tasks
  launch_lem W platform l zt ips sent sent' tasks cert chain key h c ch k =
      rw (h, spawn_listeners_lem l zt ips cert chain key (tasks ++ run_find_members zt ∷ []) c ch k)
        (ap (λ ts. (ok zt, (sent', ts))) (append_assoc tasks (run_find_members zt ∷ []) _))
