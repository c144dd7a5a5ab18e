-- ===== src/Text/Laws.antt =====
-- Laws of the text functions.
use caddy_reverse_proxy.Common.{◌≡◌, refl, subst, ◌↔◌, true, [], ◌∷◌, arith}
use caddy_reverse_proxy.Text.{Text, ◌==◌}

pub ==_sound : (s t : Text) → s == t ≡ true → s ≡ t
unfolding ◌==◌
==_sound [] [] h = refl
==_sound [] (b ∷ t) h = cc
==_sound (a ∷ s) [] h = cc
==_sound (a ∷ s) (b ∷ t) h = ground (arith, ==_sound s t)

pub ==_refl : (s : Text) → s == s ≡ true
unfolding ◌==◌
==_refl [] = refl
==_refl (a ∷ s) = ground (arith, ==_refl s)

pub ==_iff : (s t : Text) → (s == t ≡ true) ↔ (s ≡ t)
==_iff s t = (==_sound s t, λ e. subst (λ u. s == u ≡ true) e (==_refl s))
