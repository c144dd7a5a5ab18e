-- ===== src/Reconcile/System.antt =====
-- backend/internal/reconcile/reconciler.go: syncs that overlap. The first part of a sync is one step,
-- since it holds the mutex; its checks end in a later step, and other syncs, calls of the store and
-- changes of the configuration may come in between. They are taken not to come within a first part.
pub mod Numbers
pub mod Laws
use caddy_reverse_proxy.Common.{ℕ, zero, suc, ◌+◌, Option, none, some, List, [], ◌∷◌}
use caddy_reverse_proxy.Model.Config.{AppConfig, CertificateConfig}
use caddy_reverse_proxy.Routes.Std.{Std, Call}
use caddy_reverse_proxy.Routes.Calls.{Method, run}
use caddy_reverse_proxy.Reconcile.{
  Services, Answers, Request, Reconciler, update_config, update_certificate,
}
use caddy_reverse_proxy.Reconcile.Sync.{Pending, Phase, finished, checking, sync}
use caddy_reverse_proxy.Reconcile.Checks.{CheckAnswers, check}

-- The reconciler and the syncs that still check, the newest first.
pub record System (Output : Type 0) : Type 0 where
  pub reconciler : Reconciler Output
  pub pending : List Pending

pub data Event (Output : Type 0) : Type 0 where
  start : Answers Output → Request → Event Output
  -- The checks of one of the syncs end; it is given by its place in the list.
  settle : ℕ → CheckAnswers → Event Output
  edit : Call → Method → Event Output
  configure : AppConfig → Event Output
  certify : CertificateConfig → Event Output

abbrev pub push : Phase → List Pending → List Pending
push (finished result) pending = pending
push (checking p) pending = p ∷ pending

unfoldable pub nth : ℕ → List Pending → Option Pending
nth n [] = none
nth zero (p ∷ pending) = some p
nth (suc n) (p ∷ pending) = nth n pending

unfoldable pub remove : ℕ → List Pending → List Pending
remove n [] = []
remove zero (p ∷ pending) = pending
remove (suc n) (p ∷ pending) = p ∷ remove n pending

module _ {Output : Type 0} where
  abbrev pub settled : Option Pending → CheckAnswers → Reconciler Output → Reconciler Output
  settled none answers r = r
  settled (some p) answers r = (check answers p r).1

  unfoldable pub step : Std → Services Output → Event Output → System Output → System Output
  unfolding sync check nth remove update_config update_certificate run
  step std services (start answers request) s =
      let (phase, r) = sync services answers request s.reconciler in
      record { reconciler = r; pending = push phase s.pending }
  step std services (settle n answers) s = record {
    reconciler = settled (nth n s.pending) answers s.reconciler;
    pending = remove n s.pending;
  }
  step std services (edit call method) s = record s {
    reconciler = record s.reconciler { world = (run std call method s.reconciler.world).1 };
  }
  step std services (configure cfg) s = record s {
    reconciler = update_config services cfg s.reconciler;
  }
  step std services (certify cert) s = record s {
    reconciler = update_certificate services cert s.reconciler;
  }

  unfoldable pub steps : Std → Services Output → List (Event Output) → System Output → System Output
  unfolding step
  steps std services [] s = s
  steps std services (event ∷ events) s = steps std services events (step std services event s)
