-- ===== src/Caddy/Render/Addresses.antt =====
-- The entries of the server at an address, as the steps of Render change them.
use caddy_reverse_proxy.Common.{
  ◌≡◌, refl, sym, ap, subst, inl, inr, true, false, List, [], ◌∷◌, ◌++◌, ok, if◌then◌else◌, arith,
  Bool-cases, Option-cases, any, find, ok-injective,
}
use caddy_reverse_proxy.Text.{Text, ◌==◌}
use caddy_reverse_proxy.Text.Laws.{==_iff}
use caddy_reverse_proxy.Caddy.{Entry, Server}
use caddy_reverse_proxy.Caddy.Servers.{
  at_address, conflicts, fresh_server, add_server, ensure_server, update_server,
}
use caddy_reverse_proxy.Caddy.Render.{append_entries}

-- The entries of the server at an address; none if there is no such server.
abbrev pub routes_at : Text → List Server → List Entry
routes_at address [] = []
routes_at address (s ∷ servers) =
    if s.listen == address then s.routes else routes_at address servers

same_address : (s t a : Text) → s == a ≡ true → s ≡ t → t == a ≡ true
same_address s t a h e = rw e at h

pub routes_at-update_same :
    (f : Server → Server) (b a : Text) (servers : List Server)
    → ((s : Server) → ((f s).listen ≡ s.listen) × ((f s).routes ≡ s.routes))
    → routes_at a (update_server f b servers) ≡ routes_at a servers
unfolding update_server
routes_at-update_same f b a [] h = refl
routes_at-update_same f b a (s ∷ servers) h = elim (Bool-cases (s.listen == b)) [
  | inl e ↦ rw e (rw ((h s).0, (h s).1) refl)
  | inr e ↦ rw e (
      ap (λ (rest : List Entry). if s.listen == a then s.routes else rest)
        (routes_at-update_same f b a servers h))
]

pub routes_at-append_other :
    (es : List Entry) (b a : Text) (servers : List Server)
    → b == a ≡ false
    → routes_at a (update_server (append_entries es) b servers) ≡ routes_at a servers
unfolding update_server append_entries
routes_at-append_other es b a [] h = refl
routes_at-append_other es b a (s ∷ servers) h = elim (Bool-cases (s.listen == b)) [
  | inl e ↦
      let same = (==_iff s.listen b).0 e in
      let off : s.listen == a ≡ false = subst (λ (t : Text). t == a ≡ false) (sym same) h in
      rw (e, off) refl
  | inr e ↦ rw e (
      ap (λ (rest : List Entry). if s.listen == a then s.routes else rest)
        (routes_at-append_other es b a servers h))
]

pub routes_at-append_here :
    (es : List Entry) (a : Text) (servers : List Server)
    → any (at_address a) servers ≡ true
    → routes_at a (update_server (append_entries es) a servers) ≡ routes_at a servers ++ es
unfolding update_server append_entries any
routes_at-append_here es a [] h = cc
routes_at-append_here es a (s ∷ servers) h = elim (Bool-cases (s.listen == a)) [
  | inl e ↦ rw (e, e) refl
  | inr e ↦ rw (e, e) (routes_at-append_here es a servers (rw e at h))
]

routes_at-snoc :
    (a : Text) (servers : List Server) (s : Server)
    → s.routes ≡ []
    → routes_at a (servers ++ s ∷ []) ≡ routes_at a servers
routes_at-snoc a [] s h = ground arith
routes_at-snoc a (t ∷ servers) s h =
    ap (λ (rest : List Entry). if t.listen == a then t.routes else rest)
      (routes_at-snoc a servers s h)

pub routes_at-ensure_server :
    (address protocol a : Text) (servers : List Server) {added : List Server}
    → ensure_server address protocol servers ≡ ok added
    → routes_at a added ≡ routes_at a servers
unfolding ensure_server add_server
routes_at-ensure_server address protocol a servers h =
    elim (Option-cases (find (conflicts address protocol) servers)) [
      | inr (s, taken) ↦ absurd (ground arith)
      | inl free ↦
          let same = ok-injective (rw free at h) in
          subst (λ (all : List Server). routes_at a all ≡ routes_at a servers) same
            (elim (Bool-cases (any (at_address address) servers)) [
              | inl e ↦ rw e refl
              | inr e ↦ rw e (routes_at-snoc a servers (fresh_server address protocol) refl)
            ])
    ]
