-- ===== src/Caddy/Matchers/Laws.antt =====
-- What the generated path matchers match: the denied prefixes, within the prefix of the route.
use caddy_reverse_proxy.Common.{
  ◌≡◌, refl, sym, subst, ◌↔◌, ◌⊎◌, inl, inr, Bool, true, false, Option, none, some, List, [], ◌∷◌,
  ◌++◌, if◌then◌else◌, arith, Bool-cases, All, Any, any,
}
use caddy_reverse_proxy.Text.{Text, codes, ◌==◌, contains_any, to_lower}
use caddy_reverse_proxy.Text.Laws.{==_iff}
use caddy_reverse_proxy.Caddy.Matchers.{
  append_new, append_unique, add_restricted, trim_prefix, route_path_matchers,
  intersect_path_prefixes, restrict_from, restricted_path_matchers,
}
use caddy_reverse_proxy.Caddy.Matchers.Paths.{
  Below, BelowSome, intersect_path_prefixes_lem, intersect_path_prefixes-eq-some,
}

-- Two texts are the same but for the case of their letters.
abbrev pub Spells : Text → Text → Type 0
Spells s t = to_lower s ≡ to_lower t

-- A prefix without the characters that have a meaning of their own in a path pattern of Caddy.
abbrev pub IsLiteral : Text → Type 0
IsLiteral prefix = contains_any (codes "*?[\\%") prefix ≡ false

-- What Caddy documents of its path matcher, for a request with the path `path`; `takes` tells which
-- patterns take it. A pattern without a star takes the path itself, one with a star at its end all
-- paths that begin like it, and the case of letters does not matter.
pub record IsPathMatcher (path : Text) (takes : Text → Bool) : Type 0 where
  pub exact : (p : Text) → IsLiteral p → (takes p ≡ true) ↔ Spells p path
  pub deep :
      (p : Text)
      → IsLiteral p
      → (takes (p ++ codes "/*") ≡ true) ↔ ((rest : Text) × Spells (p ++ b'/' ∷ rest) path)

module _ (P : Text → Type 0) where
  Any-append : (xs ys : List Text) → Any P (xs ++ ys) ↔ (Any P xs ⊎ Any P ys)
  Any-append [] ys = ground arith
  Any-append (x ∷ xs) ys = ground (arith, Any-append xs ys)

  any-Any :
      (value : Text) (xs : List Text) → any (λ old. old == value) xs ≡ true → P value → Any P xs
  unfolding any
  any-Any value [] h p = cc
  any-Any value (x ∷ xs) h p = elim (Bool-cases (x == value)) [
    | inl e ↦ inl (subst P (sym ((==_iff x value).0 e)) p)
    | inr e ↦ inr (any-Any value xs (rw e at h) p)
  ]

  add_value-Any :
      (output : List Text) (value : Text)
      → Any P (if any (λ old. old == value) output then output else output ++ value ∷ [])
        ↔ (Any P output ⊎ P value)
  add_value-Any output value = elim (Bool-cases (any (λ old. old == value) output)) [
    | inl e ↦ rw e (λ h. inl h, λ h. elim h [ inl k ↦ k | inr p ↦ any-Any value output e p ])
    | inr e ↦ rw e (ground (arith, Any-append output (value ∷ [])))
  ]

  pub append_unique-Any :
      (base values : List Text) → Any P (append_unique base values) ↔ (Any P base ⊎ Any P values)
  unfolding append_unique append_new
  append_unique-Any base [] = ground arith
  append_unique-Any base (value ∷ values) = ground (
    arith,
    add_value-Any base value,
    append_unique-Any (if any (λ old. old == value) base then base else base ++ value ∷ []) values,
  )

-- A prefix that trimming leaves as it is once trimmed, and that is literal.
abbrev pub IsPlain : Text → Type 0
IsPlain prefix =
    IsLiteral (trim_prefix prefix) × (trim_prefix (trim_prefix prefix) ≡ trim_prefix prefix)

module _ (rest : Text) (takes : Text → Bool) (caddy : IsPathMatcher (b'/' ∷ rest) takes) where
  abbrev pub Taken : Text → Type 0
  Taken pattern = takes pattern ≡ true

  -- Some spelling of the path is as `P` asks.
  abbrev pub Spelt : (Text → Type 0) → Type 0
  Spelt P = (q : Text) × Spells q (b'/' ∷ rest) × P q

  prefix_matchers-Below :
      (p : Text)
      → IsLiteral p
      → Any Taken (if p == [] then codes "/*" ∷ [] else p ∷ (p ++ codes "/*") ∷ [])
        ↔ Spelt (λ q. Below q p)
  unfolding ◌==◌
  prefix_matchers-Below [] h =
      (λ m. (b'/' ∷ rest, refl, inl refl), λ b. inl ((caddy.deep [] h).1 (rest, refl)))
  prefix_matchers-Below (c ∷ p) h = (
    λ m. elim m [
      | inl e ↦ (c ∷ p, (caddy.exact (c ∷ p) h).0 e, inr (inl refl))
      | inr (inl e) ↦
          let (more, same) = (caddy.deep (c ∷ p) h).0 e in
          (c ∷ p ++ b'/' ∷ more, same, inr (inr (more, refl)))
      | inr (inr e) ↦ absurd e
    ],
    λ (q, same, below). elim below [
      | inl e ↦ cc
      | inr (inl e) ↦
          inl ((caddy.exact (c ∷ p) h).1 (subst (λ (t : Text). Spells t (b'/' ∷ rest)) e same))
      | inr (inr (more, e)) ↦ inr (
          inl
            ((caddy.deep (c ∷ p) h).1 (more, subst (λ (t : Text). Spells t (b'/' ∷ rest)) e same)))
    ],
  )

  pub matchers-Below :
      (p q : Text)
      → IsPlain p
      → q ≡ trim_prefix p
      → Any Taken (route_path_matchers q) ↔ Spelt (λ s. Below s q)
  unfolding route_path_matchers
  matchers-Below p q h e =
      let again : trim_prefix q ≡ q = rw e h.1 in
      let plain : IsLiteral q = rw e h.0 in rw again (prefix_matchers-Below q plain)

  add_restricted-Any :
      (output : List Text) (route denied : Text) (answer : Option Text)
      → IsPlain route
      → IsPlain denied
      → intersect_path_prefixes route denied ≡ answer
      → Any Taken (add_restricted output answer)
        ↔ (Any Taken output ⊎ Spelt (λ q. BelowSome q answer))
  add_restricted-Any output route denied none h k e =
      (λ m. inl m, λ m. elim m [ inl old ↦ old | inr b ↦ absurd b.2 ])
  add_restricted-Any output route denied (some q) h k e =
      let added = append_unique-Any Taken output (route_path_matchers q) in
      let matched : Any Taken (route_path_matchers q) ↔ Spelt (λ s. Below s q) =
        elim (intersect_path_prefixes-eq-some route denied e) [
          | inl same ↦ matchers-Below route q h same
          | inr same ↦ matchers-Below denied q k same
        ] in
      (
        λ m. elim (added.0 m) [ inl old ↦ inl old | inr new ↦ inr (matched.0 new) ],
        λ m. added.1 (elim m [ inl old ↦ inl old | inr new ↦ inr (matched.1 new) ]),
      )

  abbrev Restricted : Text → List Text → Text → Type 0
  Restricted route denied q =
      Below q (trim_prefix route) × Any (λ prefix. Below q (trim_prefix prefix)) denied

  restrict_from-Any :
      (route : Text) (output denied : List Text)
      → IsPlain route
      → All IsPlain denied
      → Any Taken (restrict_from route output denied)
        ↔ (Any Taken output ⊎ Spelt (Restricted route denied))
  unfolding restrict_from
  restrict_from-Any route output [] h k =
      (λ m. inl m, λ m. elim m [ inl a ↦ a | inr b ↦ absurd b.2.1 ])
  restrict_from-Any route output (prefix ∷ denied) h (k, ks) =
      let answer = intersect_path_prefixes route prefix in
      let added = add_restricted-Any output route prefix answer h k refl in
      let both = λ (q : Text). intersect_path_prefixes_lem route prefix q in
      let more = restrict_from-Any route (add_restricted output answer) denied h ks in
      (
        λ m. elim (more.0 m) [
          | inl old ↦ elim (added.0 old) [
            | inl older ↦ inl older
            | inr (q, same, new) ↦ let b = (both q).1 new in inr (q, same, (b.0, inl b.1))
          ]
          | inr (q, same, later) ↦ inr (q, same, (later.0, inr later.1))
        ],
        λ m. more.1 (elim m [
          | inl old ↦ inl (added.1 (inl old))
          | inr (q, same, (below, inl here)) ↦
              inl (added.1 (inr (q, same, (both q).0 (below, here))))
          | inr (q, same, (below, inr later)) ↦ inr (q, same, (below, later))
        ]),
      )

  restrict_from-keeps :
      (route : Text) (output denied : List Text)
      → Any Taken output
      → Any Taken (restrict_from route output denied)
  unfolding restrict_from
  restrict_from-keeps route output [] h = h
  restrict_from-keeps route output (prefix ∷ denied) h =
      restrict_from-keeps route (add_restricted output (intersect_path_prefixes route prefix))
        denied (kept (intersect_path_prefixes route prefix))
    where
      kept : (answer : Option Text) → Any Taken (add_restricted output answer)
      kept none = h
      kept (some q) = (append_unique-Any Taken output (route_path_matchers q)).1 (inl h)

  pub restrict_from-takes :
      (route q : Text) (output denied : List Text)
      → IsPlain route
      → Spells q (b'/' ∷ rest)
      → Below q (trim_prefix route)
      → Any (λ prefix. IsPlain prefix × Below q (trim_prefix prefix)) denied
      → Any Taken (restrict_from route output denied)
  unfolding restrict_from
  restrict_from-takes route q output [] h same below none_denied = absurd none_denied
  restrict_from-takes route q output (prefix ∷ denied) h same below (inl (plain, here)) =
      let answer = intersect_path_prefixes route prefix in
      let both = (intersect_path_prefixes_lem route prefix q).0 (below, here) in
      restrict_from-keeps route (add_restricted output answer) denied
        ((add_restricted-Any output route prefix answer h plain refl).1 (inr (q, same, both)))
  restrict_from-takes route q output (prefix ∷ denied) h same below (inr later) =
      restrict_from-takes route q (add_restricted output (intersect_path_prefixes route prefix))
        denied h same below later

  -- The path matchers that reject denied prefixes take a request exactly when some spelling of its
  -- path, with its letters in whatever case, is below the prefix of the route and below one of the
  -- denied prefixes, both trimmed of spaces and trailing slashes and otherwise as they are written. So
  -- a denied prefix that writes what it has in common with the route's prefix in another case is not
  -- enforced. Caddy's path matcher is taken to do what it documents; the prefixes are to have no
  -- character with a meaning of its own in a pattern, and to be in a form that trimming a second time
  -- does not change.
  pub restricted_path_matchers_lem :
      (route : Text) (denied : List Text)
      → IsPlain route
      → All IsPlain denied
      → Any (λ pattern. takes pattern ≡ true) (restricted_path_matchers route denied) ↔ (
          (q : Text) × Spells q (b'/' ∷ rest)
          × Below q (trim_prefix route)
          × Any (λ prefix. Below q (trim_prefix prefix)) denied)
  unfolding restricted_path_matchers
  restricted_path_matchers_lem route denied h k =
      let all = restrict_from-Any route [] denied h k in
      (
        λ m. elim (all.0 m) [
          | inl a ↦ absurd a
          | inr (q, same, (below, within)) ↦ (q, same, below, within)
        ],
        λ (q, same, below, within). all.1 (inr (q, same, (below, within))),
      )
