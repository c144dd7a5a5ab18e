-- ===== src/Caddy/Render/Listeners.antt =====
-- The addresses and protocols of the servers through the steps of Render.
use caddy_reverse_proxy.Common.{
  ◌≡◌, ◌≢◌, refl, sym, ap, subst, inl, inr, true, false, ◌&&◌, List, [], ◌∷◌, ◌++◌, map, none, ok,
  arith, Bool-cases, Option-cases, All, Any, Distinct, any, find, ok-injective,
}
use caddy_reverse_proxy.Text.{Text, codes, ◌==◌}
use caddy_reverse_proxy.Text.Laws.{==_iff}
use caddy_reverse_proxy.Model.{RouteConfig}
use caddy_reverse_proxy.Model.Config.{CertificateConfig}
use caddy_reverse_proxy.Caddy.{Entry, Server}
use caddy_reverse_proxy.Caddy.Servers.{
  at_address, conflicts, fresh_server, add_server, ensure_server, update_server,
  listener_addresses_overlap, wildcard_certificate_covers_host,
}
use caddy_reverse_proxy.Caddy.Render.{
  route_protocol, skip_covered, skip_certificate, append_entries,
}

-- Address and protocol of a server.
abbrev pub listener_of : Server → Text × Text
listener_of server = (server.listen, server.protocol)

abbrev pub listeners : List Server → List (Text × Text)
listeners servers = map listener_of servers

-- Two listeners have different addresses, and one protocol if their addresses overlap.
abbrev pub Harmonious : Text × Text → Text × Text → Type 0
Harmonious left right =
    (left.0 ≢ right.0) × (listener_addresses_overlap left.0 right.0 ≡ true → left.1 ≡ right.1)

abbrev pub Listens : Text → List (Text × Text) → Type 0
Listens address list = Any (λ l. l.0 ≡ address) list

update_server-listeners :
    (f : Server → Server) (address : Text) (servers : List Server)
    → ((s : Server) → listener_of (f s) ≡ listener_of s)
    → listeners (update_server f address servers) ≡ listeners servers
unfolding update_server
update_server-listeners f address [] h = refl
update_server-listeners f address (s ∷ servers) h = elim (Bool-cases (s.listen == address)) [
  | inl e ↦ rw e (ap (λ (l : Text × Text). l ∷ listeners servers) (h s))
  | inr e ↦ rw e (
      ap (λ (ls : List (Text × Text)). listener_of s ∷ ls)
        (update_server-listeners f address servers h))
]

pub append_entries-listeners :
    (entries : List Entry) (address : Text) (servers : List Server)
    → listeners (update_server (append_entries entries) address servers) ≡ listeners servers
unfolding append_entries
append_entries-listeners entries address servers =
    update_server-listeners _ address servers λ s. refl

pub skip_covered-listeners :
    (certificate : CertificateConfig) (route : RouteConfig) (address : Text) (servers : List Server)
    → listeners (skip_covered certificate route address servers) ≡ listeners servers
unfolding skip_covered skip_certificate
skip_covered-listeners certificate route address servers =
    elim (Bool-cases (
      route_protocol route == codes "https"
      && wildcard_certificate_covers_host certificate.subjects route.host)) [
        | inl e ↦ rw e (update_server-listeners _ address servers λ s. refl)
        | inr e ↦ rw e refl
      ]

Distinct-snoc :
    (ls : List (Text × Text)) (l : Text × Text)
    → Distinct Harmonious ls
    → All (λ k. Harmonious k l) ls
    → Distinct Harmonious (ls ++ l ∷ [])
Distinct-snoc [] l h k = (tt, tt)
Distinct-snoc (m ∷ ls) l (h, hs) (k, ks) = (snoc ls h, Distinct-snoc ls l hs ks)
  where
    snoc : (ms : List (Text × Text)) → All (Harmonious m) ms → All (Harmonious m) (ms ++ l ∷ [])
    snoc [] p = (k, tt)
    snoc (n ∷ ms) (p, ps) = (p, snoc ms ps)

Listens-append :
    (address : Text) (xs ys : List (Text × Text)) → Listens address xs → Listens address (xs ++ ys)
Listens-append address [] ys m = absurd m
Listens-append address (x ∷ xs) ys (inl e) = inl e
Listens-append address (x ∷ xs) ys (inr m) = inr (Listens-append address xs ys m)

Listens-snoc :
    (address protocol : Text) (xs : List (Text × Text))
    → Listens address (xs ++ (address, protocol) ∷ [])
Listens-snoc address protocol [] = inl refl
Listens-snoc address protocol (x ∷ xs) = inr (Listens-snoc address protocol xs)

any-Listens :
    (address : Text) (servers : List Server)
    → any (at_address address) servers ≡ true
    → Listens address (listeners servers)
unfolding any
any-Listens address [] h = cc
any-Listens address (s ∷ servers) h = elim (Bool-cases (s.listen == address)) [
  | inl e ↦ inl ((==_iff s.listen address).0 e)
  | inr e ↦ inr (any-Listens address servers (rw e at h))
]

pub Listens-any :
    (address : Text) (servers : List Server)
    → Listens address (listeners servers)
    → any (at_address address) servers ≡ true
unfolding any
Listens-any address [] m = absurd m
Listens-any address (s ∷ servers) (inl e) = rw ((==_iff s.listen address).1 e) refl
Listens-any address (s ∷ servers) (inr m) = elim (Bool-cases (s.listen == address)) [
  | inl e ↦ rw e refl
  | inr e ↦ rw e (Listens-any address servers m)
]

module _ (address protocol : Text) where
  no_conflict-Harmonious :
      (servers : List Server)
      → find (conflicts address protocol) servers ≡ none
      → any (at_address address) servers ≡ false
      → All (λ k. Harmonious k (address, protocol)) (listeners servers)
  unfolding find any conflicts
  no_conflict-Harmonious [] h k = tt
  no_conflict-Harmonious (s ∷ servers) h k = (
    (λ e. ground (arith, ==_iff s.listen address), λ e. ground (arith, ==_iff s.protocol protocol)),
    no_conflict-Harmonious servers (ground arith) (ground arith),
  )

  -- What a server that is ensured leaves of the listeners.
  pub record IsEnsured (servers added : List Server) : Type 0 where
    pub distinct : Distinct Harmonious (listeners servers) → Distinct Harmonious (listeners added)
    pub listens : Listens address (listeners added)
    pub keeps : (other : Text) → Listens other (listeners servers) → Listens other (listeners added)

  listeners-snoc :
      (servers : List Server) (s : Server)
      → listeners (servers ++ s ∷ []) ≡ listeners servers ++ listener_of s ∷ []
  listeners-snoc [] s = refl
  listeners-snoc (t ∷ servers) s =
      ap (λ (ls : List (Text × Text)). listener_of t ∷ ls) (listeners-snoc servers s)

  add_server-IsEnsured :
      (servers : List Server)
      → find (conflicts address protocol) servers ≡ none
      → IsEnsured servers (add_server address protocol servers)
  unfolding add_server
  add_server-IsEnsured servers free = elim (Bool-cases (any (at_address address) servers)) [
    | inl e ↦ rw e (record {
      distinct = λ h. h;
      listens = any-Listens address servers e;
      keeps = λ other m. m;
    })
    | inr e ↦
        let more = sym (listeners-snoc servers (fresh_server address protocol)) in
        rw e (record {
          distinct = λ h.
              subst (Distinct Harmonious) more
                (Distinct-snoc _ _ h (no_conflict-Harmonious servers free e));
          listens =
              subst (Listens address) more (Listens-snoc address protocol (listeners servers));
          keeps = λ other m. subst (Listens other) more (Listens-append other _ _ m);
        })
  ]

  pub ensure_server-IsEnsured :
      (servers : List Server) {added : List Server}
      → ensure_server address protocol servers ≡ ok added
      → IsEnsured servers added
  unfolding ensure_server
  ensure_server-IsEnsured servers h =
      elim (Option-cases (find (conflicts address protocol) servers)) [
        | inl free ↦
            subst (IsEnsured servers) (ok-injective (rw free at h))
              (add_server-IsEnsured servers free)
        | inr (s, taken) ↦ absurd (ground (arith))
      ]
