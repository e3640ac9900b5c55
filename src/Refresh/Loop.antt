-- ===== src/Refresh/Loop.antt =====
-- How the loop `find_members` of src/authority.rs can end.
use zeronsd.Base.{◌≢◌, Option, some, none, List, Outcome, ok, err, panic}
use zeronsd.Base.Exec.{continue-ne-err, for_each-ne-err}
use zeronsd.Central.{Member, Network}
use zeronsd.Crates.{Crates}
use zeronsd.Refresh.{ZtAuthority, configure_hosts}
use zeronsd.Refresh.Configure.{
  configure_members, Round, logged, configure_fetched, find_members_round, find_members,
}

module _ (C : Crates) where
  logged-ne-err : (r : Outcome (Unit {0}) × ZtAuthority C) → (logged C r).0 ≢ err
  logged-ne-err (ok tt, zt) h = cc
  logged-ne-err (err, zt) h = cc
  logged-ne-err (panic, zt) h = cc

  configure_fetched-ne-err :
      (fetched : Option (Network × List Member)) (zt : ZtAuthority C)
      → (configure_fetched C fetched zt).0 ≢ err
  unfolding configure_fetched
  configure_fetched-ne-err none zt h = cc
  configure_fetched-ne-err (some (network, members)) zt h =
      logged-ne-err (configure_members C network members zt) h

  -- No error ends the loop of `find_members`: an error of a round, or of Central, is logged.
  pub find_members-ne-err :
      (rounds : List (Round C)) (zt : ZtAuthority C) → (find_members C rounds zt).0 ≢ err
  unfolding find_members find_members_round
  find_members-ne-err rounds zt =
      for_each-ne-err (find_members_round C)
        (λ round t.
          continue-ne-err (logged C (configure_hosts C round.read t))
            (λ _. configure_fetched C round.fetched)
            (logged-ne-err (configure_hosts C round.read t))
            (λ _. configure_fetched-ne-err round.fetched))
        rounds zt
