-- ===== src/Refresh/Tracks.antt =====
-- The reverse zones in the loops of `configure_members` of src/authority.rs: each keeps its list of
-- written names, so that no operation on one panics.
use zeronsd.Base.{
  ◌≡◌, refl, ◌∙◌, Bool, true, ◌&&◌, ◌||◌, some, List, [], ◌∷◌, any, All, All-map, Eq, arith,
  Outcome, ok, Bool-cases, inl, inr,
}
use zeronsd.Base.Dict
use zeronsd.Base.Exec.{Exec, continue, for_each}
use zeronsd.Net.{IpAddr}
use zeronsd.Crates.{Crates}
use zeronsd.Crates.Laws.{IsNamesLawful, IsZoneLawful}
use zeronsd.Authority.{RecordAuthority, prune_records}
use zeronsd.Authority.Prune.{expired-eq-ok}
use zeronsd.Members.{ZtRecord, Writing, insert_member_ptr}
use zeronsd.Members.Pointers.{HasName, insert_member_ptr-Points}
use zeronsd.Refresh.{Refresh, on_reverse}
use zeronsd.Refresh.Configure.{
  reverse_ip, reverse_network, reverse_member, prune_forward, prune_reverse, prune_all,
}

-- A method that succeeds, and leaves a state with the property.
abbrev pub Reaches : {S : Type 0} → (S → Type 0) → Outcome (Unit {0}) × S → Type 0
Reaches P r = (r.0 ≡ ok tt) × P r.1

pub Reaches-continue :
    {S : Type 0} (P : S → Type 0) (r : Outcome (Unit {0}) × S) (f : Unit {0} → Exec S (Unit {0}))
    → Reaches P r
    → ((s : S) → P s → Reaches P (f tt s))
    → Reaches P (continue r f)
Reaches-continue P (o, s) f (e, h) k = rw e (k s h)

pub Reaches-for_each :
    {S X : Type 0} (P : S → Type 0) (body : X → Exec S (Unit {0})) (xs : List X) (s : S)
    → All (λ x. (t : S) → P t → Reaches P (body x t)) xs
    → P s
    → Reaches P (for_each body xs s)
unfolding for_each
Reaches-for_each P body [] s hs h = (refl, h)
Reaches-for_each P body (x ∷ xs) s (hx, hs) h =
    Reaches-continue P (body x s) (λ _. for_each body xs) (hx s h)
      (λ t k. Reaches-for_each P body xs t hs k)

pub All-of : {X : Type 0} {P : X → Type 0} (xs : List X) → ((x : X) → P x) → All P xs
All-of [] h = tt
All-of (x ∷ xs) h = (h x, All-of xs h)

module _ {K V : Type 0} (E : Eq K) where
  abbrev pub is_key : K → List (K × V) → Bool
  is_key k m = any (λ e. E.same e.0 k) m

  lookup_of_is_key :
      (k : K) (m : List (K × V)) → is_key k m ≡ true → (v : V) × (Dict.lookup E k m ≡ some v)
  lookup_of_is_key k [] h = cc
  lookup_of_is_key k ((j, v) ∷ m) h = elim (Bool-cases (E.same j k)) [
    | inl same ↦ (v, Dict.lookup-cons E k j v m ∙ rw same refl)
    | inr differ ↦
        let (w, e) = lookup_of_is_key k m (rw differ at h) in
        (w, Dict.lookup-cons E k j v m ∙ rw differ e)
  ]

  is_key-insert :
      (k j : K) (v : V) (m : List (K × V))
      → is_key k (Dict.insert E j v m) ≡ (E.same j k || is_key k m)
  unfolding Dict.insert
  is_key-insert k j v [] = refl
  is_key-insert k j v ((i, w) ∷ m) =
      ground (arith, E.same_iff i j, E.same_iff i k, E.same_iff j k, is_key-insert k j v m)

  own_keys : (m : List (K × V)) → All (λ e. is_key e.0 m ≡ true) m
  own_keys [] = tt
  own_keys ((k, v) ∷ m) =
      (ground (arith, (E.same_iff k k).1 refl), All-map (λ e h. ground (arith, h)) m (own_keys m))

module _ (C : Crates) (N : IsNamesLawful C) (L : IsZoneLawful C)
    (networks : List (C.IpNetwork × RecordAuthority C)) where
  -- The networks are those of the reverse zones, and each has its list of written names.
  abbrev pub Tracks : Refresh C → Type 0
  Tracks s =
      ((n : C.IpNetwork)
        → is_key C.net_eq n networks ≡ true
        → (is_key C.net_eq n s.reverse && is_key C.net_eq n s.reverse_records) ≡ true)
      × ((n : C.IpNetwork) → is_key C.net_eq n s.reverse ≡ true → is_key C.net_eq n networks ≡ true)

  on_reverse-Reaches :
      (network : C.IpNetwork) (op : Exec (Writing C) (Unit {0})) (s : Refresh C)
      → is_key C.net_eq network networks ≡ true
      → ((w : Writing C) → (op w).0 ≡ ok tt)
      → Tracks s
      → Reaches Tracks (on_reverse C network op s)
  unfolding on_reverse
  on_reverse-Reaches network op s known works (here, there) =
      let both = here network known in
      let (a, found) = lookup_of_is_key C.net_eq network s.reverse (ground (arith, both)) in
      let (written, listed) =
        lookup_of_is_key C.net_eq network s.reverse_records (ground (arith, both)) in
      let w : Writing C = record { zone = a.authority; written = written } in
      rw (on_reverse, found, listed)
        (
          works w,
          (
            λ n k. ground (
              arith,
              here n k,
              is_key-insert C.net_eq n network (record a { authority = (op w).1.zone }) s.reverse,
              is_key-insert C.net_eq n network (op w).1.written s.reverse_records,
            ),
            λ n k. there n (
                ground (
                  arith,
                  k,
                  is_key-insert C.net_eq n network (record a { authority = (op w).1.zone })
                      s.reverse,
                  C.net_eq.same_iff network n,
                  both,
                )),
          ),
        )

  -- What is done for each of the reverse zones.
  each_reverse :
      (body : C.IpNetwork × RecordAuthority C → Exec (Refresh C) (Unit {0})) (s : Refresh C)
      → ((e : C.IpNetwork × RecordAuthority C) (t : Refresh C)
          → is_key C.net_eq e.0 networks ≡ true
          → Tracks t
          → Reaches Tracks (body e t))
      → Tracks s
      → Reaches Tracks (for_each body s.reverse s)
  each_reverse body s k h =
      Reaches-for_each Tracks body s.reverse s
        (All-map (λ e own t. k e t (h.1 e.0 own)) s.reverse (own_keys C.net_eq s.reverse)) h

  pub reverse_member-Reaches :
      (r : ZtRecord C) (ips : List IpAddr) (s : Refresh C)
      → All (HasName C) r.ips
      → Tracks s
      → Reaches Tracks (reverse_member C r ips s)
  unfolding reverse_member reverse_network reverse_ip
  reverse_member-Reaches r ips s named h =
      each_reverse (reverse_network C r ips) s
        (λ (network, _) t known k.
          Reaches-for_each Tracks (reverse_ip C r network) ips t
            (All-of ips (λ ip t' k'. elim (Bool-cases (C.network_contains network ip)) [
              | inl inside ↦
                  rw (reverse_ip, inside)
                    (on_reverse-Reaches network (insert_member_ptr C r) t' known
                      (λ w. (insert_member_ptr-Points C N L r w named).0) k')
              | inr outside ↦ rw (reverse_ip, outside) (refl, k')
            ]))
            k)
        h

  pub prune_all-Reaches : (s : Refresh C) → Tracks s → Reaches Tracks (prune_all C s)
  unfolding prune_all prune_forward prune_reverse prune_records
  prune_all-Reaches s h =
      Reaches-continue Tracks (prune_forward C s) (λ _ t. for_each (prune_reverse C) t.reverse t)
        (rw (expired-eq-ok C N s.forward_records s.forward) (refl, h))
        (λ t k.
          each_reverse (prune_reverse C) t
            (λ (network, _) t' known k'.
              on_reverse-Reaches network _ t' known
                (λ w. rw (expired-eq-ok C N w.written w.zone) refl) k')
            k)
