-- ===== src/Caddy/Matchers/Samples.antt =====
-- A path matcher that does what Caddy documents of its own, for the tests.
use mathlib.Core.List.{append_assoc}
use caddy_reverse_proxy.Common.{
  ◌≡◌, refl, sym, ap, ◌∙◌, ◌↔◌, Bool, true, false, ◌||◌, ◌&&◌, [], ◌∷◌, ◌++◌, eqb, arith, any,
}
use caddy_reverse_proxy.Text.{Text, codes, ◌==◌, contains, contains_any, lower, to_lower}
use caddy_reverse_proxy.Text.Laws.{==_iff}
use caddy_reverse_proxy.Caddy.Matchers.Laws.{IsLiteral, IsPathMatcher}

-- A pattern with a star at its end or none: a prefix, or the text itself.
matches_pattern : Text → Text → Bool
matches_pattern [] path = path == []
matches_pattern (c ∷ pattern) [] = eqb c b'*' && pattern == []
matches_pattern (c ∷ pattern) (d ∷ path) =
    eqb c b'*' && pattern == [] || eqb c d && matches_pattern pattern path

-- The same, without regard to case.
pub takes_path : Text → Text → Bool
takes_path path pattern = matches_pattern (to_lower pattern) (to_lower path)

matches_exactly :
    (p path : Text) → contains b'*' p ≡ false → (matches_pattern p path ≡ true) ↔ (path ≡ p)
unfolding matches_pattern contains any
matches_exactly [] path h = ==_iff path []
matches_exactly (c ∷ p) [] h = ground arith
matches_exactly (c ∷ p) (d ∷ path) h = ground (arith, matches_exactly p path)

matches_below :
    (p path : Text)
    → contains b'*' p ≡ false
    → (matches_pattern (p ++ codes "/*") path ≡ true) ↔ ((rest : Text) × (path ≡ p ++ b'/' ∷ rest))
unfolding matches_pattern contains any ◌==◌
matches_below [] [] h = (λ e. cc, λ e. cc)
matches_below [] (d ∷ []) h = (λ e. ([], ground arith), λ e. ground arith)
matches_below [] (d ∷ f ∷ path) h = (λ e. (f ∷ path, ground arith), λ e. ground arith)
matches_below (c ∷ p) [] h = (λ e. ground arith, λ e. cc)
matches_below (c ∷ p) (d ∷ path) h = (
  λ e.
      let (rest, k) = (matches_below p path (ground arith)).0 (ground arith) in
      (rest, ground arith),
  λ e. let inner = (matches_below p path (ground arith)).1 (e.0, ground arith) in ground arith,
)

to_lower-append : (s t : Text) → to_lower (s ++ t) ≡ to_lower s ++ to_lower t
unfolding to_lower
to_lower-append [] t = refl
to_lower-append (c ∷ s) t = ap (λ (u : Text). lower c ∷ u) (to_lower-append s t)

-- A literal prefix has no star, also in lower case.
contains-to_lower : (p : Text) → IsLiteral p → contains b'*' (to_lower p) ≡ false
unfolding contains contains_any any to_lower lower
contains-to_lower [] h = refl
contains-to_lower (c ∷ p) h = ground (arith, contains-to_lower p)

-- What is left of a text in lower case is some text in lower case.
unlowered : (s a r : Text) → to_lower s ≡ a ++ r → (t : Text) × (to_lower t ≡ r)
unfolding to_lower
unlowered s [] r h = (s, h)
unlowered [] (c ∷ a) r h = cc
unlowered (d ∷ s) (c ∷ a) r h = unlowered s a r (cc)

pub takes_path-IsPathMatcher : (path : Text) → IsPathMatcher path (takes_path path)
unfolding takes_path lower to_lower
takes_path-IsPathMatcher path = record {
  exact = λ p h.
      let there = matches_exactly (to_lower p) (to_lower path) (contains-to_lower p h) in
      (λ m. sym (there.0 m), λ same. there.1 (sym same));
  deep = λ p h.
      let there = matches_below (to_lower p) (to_lower path) (contains-to_lower p h) in
      (
        λ m.
            let (r, e) = there.0 (rw (to_lower-append p (codes "/*")) at m) in
            let (t, same) =
              unlowered path (to_lower p ++ codes "/") r
                (e ∙ sym (append_assoc (to_lower p) (codes "/") r)) in
            (
              t,
              to_lower-append p (b'/' ∷ t) ∙ ap (λ (u : Text). to_lower p ++ b'/' ∷ u) same ∙ sym e,
            ),
        λ (t, same).
            rw (to_lower-append p (codes "/*"))
              (there.1 (to_lower t, sym same ∙ to_lower-append p (b'/' ∷ t))),
      );
}
