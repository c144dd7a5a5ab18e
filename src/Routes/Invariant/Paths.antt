-- ===== src/Routes/Invariant/Paths.antt =====
-- The paths of the rules on one listener are apart.
use caddy_reverse_proxy.Common.{◌≡◌, ◌≢◌, true, false, List, [], ◌∷◌, ok, arith, All}
use caddy_reverse_proxy.Text.{Text}
use caddy_reverse_proxy.Text.Laws.{==_iff}
use caddy_reverse_proxy.Model.{RoutingRule}
use caddy_reverse_proxy.Routes.Rules.{rule_has_id, check_rule_paths, check_new_rule}
use caddy_reverse_proxy.Routes.Invariant.{RulesApart}

abbrev pub SamePath : RoutingRule → RoutingRule → Type 0
SamePath a b = (a.listener_id ≡ b.listener_id) × (a.path_prefix ≡ b.path_prefix)

pub check_rule_paths-All :
    (r : RoutingRule) (replacing : Text) (rules : List RoutingRule)
    → check_rule_paths r replacing rules ≡ ok tt
    → All (λ e. e.id ≢ replacing → ¬ SamePath e r) rules
unfolding check_rule_paths
check_rule_paths-All r replacing [] h = tt
check_rule_paths-All r replacing (e ∷ es) h = (
  λ other same. ground (
    arith,
    ==_iff e.id replacing,
    ==_iff e.listener_id r.listener_id,
    ==_iff e.path_prefix r.path_prefix,
  ),
  check_rule_paths-All r replacing es (ground arith),
)

pub check_new_rule-All :
    (r : RoutingRule) (rules : List RoutingRule)
    → check_new_rule r rules ≡ ok tt
    → All (λ e. e.id ≢ r.id) rules
unfolding check_new_rule
check_new_rule-All r [] h = tt
check_new_rule-All r (e ∷ es) h =
    (ground (arith, ==_iff e.id r.id), check_new_rule-All r es (ground arith))

pub RulesApart-single :
    (id : Text) (x y : RoutingRule)
    → RulesApart x y
    → rule_has_id id x ≡ true
    → rule_has_id id y ≡ false
RulesApart-single id x y apart h = ground (arith, ==_iff x.id id, ==_iff y.id id)
