-- ===== src/Reconcile/System/Laws.antt =====
-- Of syncs that overlap, only the newest leaves a result.
use caddy_reverse_proxy.Common.{
  ℕ, zero, suc, ◌+◌, ◌^◌, ◌≤◌, ◌<◌, ◌≡◌, refl, sym, ◌∙◌, Option, none, some, List, [], ◌∷◌, arith,
  All, Distinct,
}
use caddy_reverse_proxy.Routes.Std.{Std}
use caddy_reverse_proxy.Reconcile.{Services, Reconciler, update_config, update_certificate}
use caddy_reverse_proxy.Reconcile.Sync.{Pending, Phase, finished, checking, sync}
use caddy_reverse_proxy.Reconcile.Checks.{CheckAnswers, check}
use caddy_reverse_proxy.Reconcile.System.{
  System, Event, start, settle, edit, configure, certify, push, nth, remove, settled, step, steps,
}
use caddy_reverse_proxy.Reconcile.System.Numbers.{sync-IsNumbered, check-stale, check-generation}

-- The syncs that still check have falling numbers, from the current generation down.
pub record IsNumberedDown {Output : Type 0} (s : System Output) : Type 0 where
  pub falling : Distinct (λ p q. q.generation < p.generation) s.pending
  pub below : All (λ p. p.generation ≤ s.reconciler.generation) s.pending

All-raise :
    (n m : ℕ) (pending : List Pending)
    → n ≤ m
    → All (λ p. p.generation ≤ n) pending
    → All (λ p. p.generation ≤ m) pending
All-raise n m [] h k = tt
All-raise n m (p ∷ pending) h (k, ks) = (omega arith, All-raise n m pending h ks)

All-under :
    (n m : ℕ) (pending : List Pending)
    → n < m
    → All (λ p. p.generation ≤ n) pending
    → All (λ p. p.generation < m) pending
All-under n m [] h k = tt
All-under n m (p ∷ pending) h (k, ks) = (omega arith, All-under n m pending h ks)

All-remove :
    (P : Pending → Type 0) (n : ℕ) (pending : List Pending)
    → All P pending
    → All P (remove n pending)
unfolding remove
All-remove P n [] h = tt
All-remove P zero (p ∷ pending) (h, hs) = hs
All-remove P (suc n) (p ∷ pending) (h, hs) = (h, All-remove P n pending hs)

Distinct-remove :
    (R : Pending → Pending → Type 0) (n : ℕ) (pending : List Pending)
    → Distinct R pending
    → Distinct R (remove n pending)
unfolding remove
Distinct-remove R n [] h = tt
Distinct-remove R zero (p ∷ pending) (h, hs) = hs
Distinct-remove R (suc n) (p ∷ pending) (h, hs) =
    (All-remove (R p) n pending h, Distinct-remove R n pending hs)

-- How many syncs start in a run.
abbrev pub starts : {Output : Type 0} → List (Event Output) → ℕ
starts [] = 0
starts (start answers request ∷ events) = suc (starts events)
starts (_ ∷ events) = starts events

module _ {Output : Type 0} (std : Std) (services : Services Output) where
  start-IsNumberedDown :
      (phase : Phase) (r r' : Reconciler Output) (pending : List Pending)
      → r'.generation ≡ r.generation + 1
      → ((p : Pending) → phase ≡ checking p → p.generation ≡ r'.generation)
      → IsNumberedDown (record { reconciler = r; pending = pending })
      → IsNumberedDown (record { reconciler = r'; pending = push phase pending })
  start-IsNumberedDown (finished result) r r' pending h k s = record {
    falling = s.falling;
    below = All-raise r.generation _ pending (omega arith) s.below;
  }
  start-IsNumberedDown (checking p) r r' pending h k s = record {
    falling = (All-under r.generation _ pending (omega (arith, k p refl)) s.below, s.falling);
    below = (omega (arith, k p refl), All-raise r.generation _ pending (omega arith) s.below);
  }

  settled-generation :
      (o : Option Pending) (answers : CheckAnswers) (r : Reconciler Output)
      → (settled o answers r).generation ≡ r.generation
  settled-generation none answers r = refl
  settled-generation (some p) answers r = check-generation answers p r

  -- A step that leaves the generation and starts no sync.
  remove-IsNumberedDown :
      (n : ℕ) (s : System Output) (r' : Reconciler Output)
      → r'.generation ≡ s.reconciler.generation
      → IsNumberedDown s
      → IsNumberedDown (record { reconciler = r'; pending = remove n s.pending })
  remove-IsNumberedDown n s r' h k = record {
    falling = Distinct-remove (λ p q. q.generation < p.generation) n s.pending k.falling;
    below =
        All-remove (λ p. p.generation ≤ r'.generation) n s.pending
          (All-raise s.reconciler.generation r'.generation s.pending (omega arith) k.below);
  }

  steps-IsNumberedDown :
      (events : List (Event Output)) (s : System Output)
      → s.reconciler.generation + starts events < 2 ^ 64
      → IsNumberedDown s
      → IsNumberedDown (steps std services events s)
  unfolding steps step update_config update_certificate
  steps-IsNumberedDown [] s h k = k
  steps-IsNumberedDown (start answers request ∷ events) s h k =
      let o = sync services answers request s.reconciler in
      let numbered = sync-IsNumbered services answers request s.reconciler in
      let up : o.1.generation ≡ s.reconciler.generation + 1 = numbered.generation ∙ omega arith in
      steps-IsNumberedDown events (record { reconciler = o.1; pending = push o.0 s.pending })
        (omega arith)
        (start-IsNumberedDown o.0 s.reconciler o.1 s.pending up
          (λ p e. numbered.number p e ∙ sym numbered.generation) k)
  steps-IsNumberedDown (settle n answers ∷ events) s h k =
      let r' = settled (nth n s.pending) answers s.reconciler in
      let same = settled-generation (nth n s.pending) answers s.reconciler in
      steps-IsNumberedDown events (record { reconciler = r'; pending = remove n s.pending })
        (omega (arith, same)) (remove-IsNumberedDown n s r' same k)
  steps-IsNumberedDown (edit call method ∷ events) s h k =
      steps-IsNumberedDown events _ h (record { falling = k.falling; below = k.below })
  steps-IsNumberedDown (configure cfg ∷ events) s h k =
      steps-IsNumberedDown events _ h (record { falling = k.falling; below = k.below })
  steps-IsNumberedDown (certify cert ∷ events) s h k =
      steps-IsNumberedDown events _ h (record { falling = k.falling; below = k.below })

stale-pending :
    {Output : Type 0} (answers : CheckAnswers) (r : Reconciler Output) (pending : List Pending)
    → Distinct (λ p q. q.generation < p.generation) pending
    → All (λ p. p.generation ≤ r.generation) pending
    → Distinct (λ newer older. (check answers older r).1 ≡ r) pending
stale-pending answers r [] h k = tt
stale-pending answers r (p ∷ pending) (h, hs) (k, ks) =
    (all pending h, stale-pending answers r pending hs ks)
  where
    all :
        (qs : List Pending)
        → All (λ q. q.generation < p.generation) qs
        → All (λ older. (check answers older r).1 ≡ r) qs
    all [] m = tt
    all (q ∷ qs) (m, ms) = (check-stale answers q r (omega arith), all qs ms)

-- Syncs may overlap, and only the newest one can leave a result, as long as the generation does not
-- wrap around. After any run from a state in which no sync is going on, where the generation that it
-- starts with and the number of its syncs are less than 2^64 together, with their checks ending in
-- any order, and calls of the store and changes of the configuration between them: of the syncs that
-- still check, every one but the newest changes nothing when it ends, neither the last result nor the
-- store, whatever its checks answer.
pub steps-stale :
    {Output : Type 0} (std : Std) (services : Services Output) (events : List (Event Output))
    (r : Reconciler Output) (answers : CheckAnswers)
    → r.generation + starts events < 2 ^ 64
    → let s = steps std services events (record { reconciler = r; pending = [] }) in
      Distinct (λ newer older. (check answers older s.reconciler).1 ≡ s.reconciler) s.pending
steps-stale std services events r answers h =
    let s = steps std services events (record { reconciler = r; pending = [] }) in
    let down =
      steps-IsNumberedDown std services events (record { reconciler = r; pending = [] }) h
        (record { falling = tt; below = tt }) in
    stale-pending answers s.reconciler s.pending down.falling down.below
