-- ===== src/Logs/Ring.antt =====
-- The ring holds a bounded queue: what each step does to the entries in their order.
pub mod Evict
pub mod Add
pub mod Read
use caddy_reverse_proxy.Common.{
  ℕ, zero, suc, ◌+◌, ◌-◌, ◌%◌, ◌<◌, ◌≤◌, ◌≡◌, ◌≢◌, ◌⊎◌, inl, inr, refl, ap, sym, subst, ◌∙◌, Bool,
  true, false, not, ◌&&◌, ◌||◌, Bool-cases, List, [], ◌∷◌, ◌++◌, arith, length, ltb, eqb,
  if◌then◌else◌, Option, none, some,
}
use native.Mathlib.Nat.{mod-add-mod, mod-eq_of_lt, mod-lt}
use caddy_reverse_proxy.Logs.Arrays.{
  get_or, set, length-set, get_or-set, get_or-set_other, mod_once,
}
use caddy_reverse_proxy.Logs.Queue.{total, fits, make_room, push}
use caddy_reverse_proxy.Logs.{Entry, Store, no_entry, must_evict, drop_oldest, evict, append}

module _ {F : Type 0} (nil : F) (L : ℕ) where
  abbrev pub slot : List (Entry F) → List ℕ → ℕ → Entry F × ℕ
  slot es ss i = (get_or es i (no_entry nil), get_or ss i 0)

  -- `k` entries from the index `i` on, around the end of the arrays.
  unfoldable pub slots : List (Entry F) → List ℕ → ℕ → ℕ → List (Entry F × ℕ)
  slots es ss i zero = []
  slots es ss i (suc k) = slot es ss i ∷ slots es ss ((i + 1) % L) k

  -- `j` is none of the `k` indices from `i` on.
  abbrev pub Outside : ℕ → ℕ → ℕ → Type 0
  Outside i k j = (i ≤ j → i + k ≤ j) × (j < i → i + k ≤ j + L)

  pub next-lt : (i : ℕ) → i < L → (i + 1) % L < L
  next-lt i h = mod-lt (i + 1) (omega arith)

  Outside-next : (i k j : ℕ) → i < L → j < L → Outside i (suc k) j → Outside ((i + 1) % L) k j
  Outside-next i k j hi hj out = elim (mod_once (i + 1) L (omega arith)) [
    | inl (below, e) ↦ rw e (λ h. ground arith, λ h. ground arith)
    | inr (over, e) ↦ rw e (λ h. ground arith, λ h. ground arith)
  ]

  pub slots-set :
      (es : List (Entry F)) (ss : List ℕ) (e : Entry F) (n i j k : ℕ)
      → i < L
      → j < L
      → Outside i k j
      → slots (set es j e) (set ss j n) i k ≡ slots es ss i k
  unfolding slots
  slots-set es ss e n i j zero hi hj out = refl
  slots-set es ss e n i j (suc k) hi hj out =
      let other : j ≢ i = λ same. ground arith in
      rw
        (
          get_or-set_other es j i e (no_entry nil) other,
          get_or-set_other ss j i n 0 other,
          slots-set es ss e n ((i + 1) % L) j k (next-lt i hi) hj (Outside-next i k j hi hj out),
        )
        refl

  pub slots-suc :
      (es : List (Entry F)) (ss : List ℕ) (i k : ℕ)
      → i < L
      → slots es ss i (suc k) ≡ slots es ss i k ++ slot es ss ((i + k) % L) ∷ []
  unfolding slots
  slots-suc es ss i zero h =
      let same : (i + 0) % L ≡ i = ap (λ n. n % L) (omega arith) ∙ mod-eq_of_lt h in
      ap (λ j. slot es ss j ∷ []) (sym same)
  slots-suc es ss i (suc k) h =
      let next = (i + 1) % L in
      let same : (next + k) % L ≡ (i + suc k) % L =
        mod-add-mod (i + 1) L k ∙ ap (λ n. n % L) (omega arith) in
      ap (λ q. slot es ss i ∷ q)
        (slots-suc es ss next k (next-lt i h)
          ∙ ap (λ j. slots es ss next k ++ slot es ss j ∷ []) same)

  pub length-slots : (es : List (Entry F)) (ss : List ℕ) (i k : ℕ) → length (slots es ss i k) ≡ k
  unfolding slots
  length-slots es ss i zero = refl
  length-slots es ss i (suc k) = ap suc (length-slots es ss ((i + 1) % L) k)

  pub slots-append :
      (es : List (Entry F)) (ss : List ℕ) (e : Entry F) (n i k : ℕ)
      → length es ≡ L
      → length ss ≡ L
      → i < L
      → k < L
      → slots (set es ((i + k) % L) e) (set ss ((i + k) % L) n) i (suc k)
        ≡ slots es ss i k ++ (e, n) ∷ []
  slots-append es ss e n i k hes hss hi hk =
      let j = (i + k) % L in
      let inside : j < L = mod-lt (i + k) (omega arith) in
      slots-suc (set es j e) (set ss j n) i k hi
      ∙ (rw
          (
            slots-set es ss e n i j k hi inside (Outside-end i k hi hk),
            get_or-set es j e (no_entry nil) (ground (arith, inside)),
            get_or-set ss j n 0 (ground (arith, inside)),
          )
          refl)
    where
      Outside-end : (m n : ℕ) → m < L → n < L → Outside m n ((m + n) % L)
      Outside-end m n hm hn = elim (mod_once (m + n) L (omega arith)) [
        | inl (below, e) ↦ rw e (λ h. ground arith, λ h. ground arith)
        | inr (over, e) ↦ rw e (λ h. ground arith, λ h. ground arith)
      ]

module _ {F : Type 0} (nil : F) where
  -- The entries of a store with their sizes, oldest first.
  unfoldable pub contents : Store F → List (Entry F × ℕ)
  contents s = slots nil s.limit s.entries s.sizes s.start s.count

  pub record IsRing (s : Store F) : Type 0 where
    pub entries : length s.entries ≡ s.limit
    pub sizes : length s.sizes ≡ s.limit
    pub start : s.start < s.limit
    pub count : s.count ≤ s.limit
    pub stored : s.stored_bytes ≡ total (contents s)
    pub bytes : s.stored_bytes ≤ s.byte_limit

  pub length-contents : (s : Store F) → length (contents s) ≡ s.count
  unfolding contents
  length-contents s = length-slots nil s.limit s.entries s.sizes s.start s.count

module _ {F : Type 0} where
  -- A store with the fields given, so that the count can be matched.
  abbrev pub ring : List (Entry F) → List ℕ → ℕ → ℕ → ℕ → ℕ → ℕ → Store F
  ring es ss i k b L B = record {
    entries = es;
    sizes = ss;
    start = i;
    count = k;
    stored_bytes = b;
    limit = L;
    byte_limit = B;
  }
