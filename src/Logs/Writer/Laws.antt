-- ===== src/Logs/Writer/Laws.antt =====
-- Write reads byte by byte, so it does not matter how a stream is cut into calls.
use caddy_reverse_proxy.Common.{
  ℕ, zero, suc, ◌+◌, ◌-◌, ◌≤◌, ◌<◌, ◌≡◌, ◌⊎◌, inl, inr, refl, ap, sym, subst, ◌∙◌, Bool, true,
  false, Bool-cases, Option, none, some, List, [], ◌∷◌, ◌++◌, eqb, ltb, length, if◌then◌else◌,
  arith,
}
use mathlib.Core.List.{append-nil, append_assoc}
use caddy_reverse_proxy.Text.{Text}
use caddy_reverse_proxy.Logs.Queue.{take}
use caddy_reverse_proxy.Logs.Writer.{
  LineWriter, no_line, first_line, take_part, add_line, write_loop, write,
}

length-append : {A : Type 0} (xs ys : List A) → length (xs ++ ys) ≡ length xs + length ys
length-append [] ys = omega arith
length-append (x ∷ xs) ys = ground (arith, length-append xs ys)

abbrev writer : Text → Bool → LineWriter
writer pending dropping = record { pending = pending; dropping = dropping }

module _ (limit : ℕ) where
  take_part-nil : (p : Text) (b : Bool) → take_part limit [] (writer p b) ≡ writer p b
  unfolding take_part
  take_part-nil p true = refl
  take_part-nil p false =
      let fits : ltb (limit - length p) 0 ≡ false = ground arith in
      rw fits (ap (λ q. writer q false) (append-nil p))

  -- Where no byte fits, and where one does.
  full_part :
      (c : ℕ) (part p : Text)
      → limit - length p ≡ 0
      → take_part limit (c ∷ part) (writer p false) ≡ writer (p ++ []) true
  unfolding take_part take
  full_part c part p e =
      let over : ltb (limit - length p) (suc (length part)) ≡ true = ground arith in
      rw over (ap (λ a. writer (p ++ take a (c ∷ part)) true) e)

  next_part :
      (c : ℕ) (part p : Text) (a : ℕ)
      → limit - length p ≡ suc a
      → take_part limit (c ∷ part) (writer p false)
        ≡ take_part limit part (writer (p ++ c ∷ []) false)
  unfolding take_part take
  next_part c part p a e =
      let size : length (p ++ c ∷ []) ≡ length p + 1 = length-append p (c ∷ []) in
      let rest : limit - length (p ++ c ∷ []) ≡ a = omega arith in
      elim (Bool-cases (ltb a (length part))) [
        | inl over ↦
            let over' : ltb (limit - length p) (suc (length part)) ≡ true = ground arith in
            let over'' : ltb (limit - length (p ++ c ∷ [])) (length part) ≡ true = ground arith in
            rw (over', over'')
              (ap (λ n. writer (p ++ take n (c ∷ part)) true) e
                ∙ ap (λ q. writer q true) (sym (append_assoc p (c ∷ []) (take a part)))
                ∙ ap (λ n. writer (p ++ c ∷ [] ++ take n part) true) (sym rest))
        | inr fits ↦
            let fits' : ltb (limit - length p) (suc (length part)) ≡ false = ground arith in
            let fits'' : ltb (limit - length (p ++ c ∷ [])) (length part) ≡ false = ground arith in
            rw (fits', fits'') (ap (λ q. writer q false) (sym (append_assoc p (c ∷ []) part)))
      ]

  take_part-cons :
      (c : ℕ) (part p : Text) (b : Bool)
      → take_part limit (c ∷ part) (writer p b)
        ≡ take_part limit part (take_part limit (c ∷ []) (writer p b))
  unfolding take_part
  take_part-cons c part p true = refl
  take_part-cons c part p false = elim (cases (limit - length p)) [
    | inl zero_left ↦
        full_part c part p zero_left ∙ sym (ap (take_part limit part) (full_part c [] p zero_left))
    | inr (a, e) ↦
        next_part c part p a e
        ∙ sym (ap (take_part limit part) (next_part c [] p a e ∙ take_part-nil (p ++ c ∷ []) false))
  ]
    where
      cases : (n : ℕ) → (n ≡ 0) ⊎ ((a : ℕ) × (n ≡ suc a))
      cases zero = inl refl
      cases (suc a) = inr (a, refl)

  module _ {S : Type 0} (emit : Text → S → S) where
    -- One byte of the stream.
    abbrev next_byte : ℕ → LineWriter × S → LineWriter × S
    next_byte c (w, s) =
        if eqb c 10
        then (no_line, add_line limit emit w.pending s)
        else (take_part limit (c ∷ []) w, s)

    feed : Text → LineWriter × S → LineWriter × S
    feed [] v = v
    feed (c ∷ bytes) v = feed bytes (next_byte c v)

    feed-append : (xs ys : Text) (v : LineWriter × S) → feed (xs ++ ys) v ≡ feed ys (feed xs v)
    unfolding feed
    feed-append [] ys v = refl
    feed-append (c ∷ xs) ys v = feed-append xs ys (next_byte c v)

    -- A turn of the loop, and the bytes behind it.
    abbrev finish : Text × Option Text → LineWriter × S → LineWriter × S
    finish (part, none) (w, s) = (take_part limit part w, s)
    finish (part, some left) (w, s) =
        feed left (no_line, add_line limit emit (take_part limit part w).pending s)

    finish-cons :
        (c : ℕ) (cut : Text × Option Text) (p : Text) (b : Bool) (s : S)
        → finish cut (take_part limit (c ∷ []) (writer p b), s)
          ≡ finish (c ∷ cut.0, cut.1) (writer p b, s)
    finish-cons c (part, none) p b s = ap (λ w. (w, s)) (sym (take_part-cons c part p b))
    finish-cons c (part, some left) p b s =
        ap (λ w. feed left (no_line, add_line limit emit w.pending s))
          (sym (take_part-cons c part p b))

    feed-finish :
        (bytes p : Text) (b : Bool) (s : S)
        → feed bytes (writer p b, s) ≡ finish (first_line bytes) (writer p b, s)
    unfolding feed first_line
    feed-finish [] p b s = ap (λ w. (w, s)) (sym (take_part-nil p b))
    feed-finish (c ∷ bytes) p b s = elim (Bool-cases (eqb c 10)) [
      | inl newline ↦ rw newline (
          ap (λ w. feed bytes (no_line, add_line limit emit w.pending s)) (sym (take_part-nil p b)))
      | inr other ↦
          let w = take_part limit (c ∷ []) (writer p b) in
          rw other
            (feed-finish bytes w.pending w.dropping s ∙ finish-cons c (first_line bytes) p b s)
    ]

    shorter :
        (bytes : Text) {left : Text} → (first_line bytes).1 ≡ some left → length left < length bytes
    unfolding first_line
    shorter [] h = absurd (ground arith)
    shorter (c ∷ bytes) {left} h = elim (Bool-cases (eqb c 10)) [
      | inl newline ↦ let same : left ≡ bytes = ground arith in ground (arith, ap length same)
      | inr other ↦
          let later : (first_line bytes).1 ≡ some left = ground arith in
          ground (arith, shorter bytes later)
    ]

    -- One turn of the loop, if the loop is right behind a newline.
    turn-finish :
        (fuel : ℕ) (cut : Text × Option Text) (w : LineWriter) (s : S)
        → ((left : Text)
            → cut.1 ≡ some left
            → (v : LineWriter) → (t : S) → write_loop limit emit fuel left v t ≡ feed left (v, t))
        → (elim cut.1 [
          | none ↦ (take_part limit cut.0 w, s)
          | some left ↦
              write_loop limit emit fuel left no_line
                (add_line limit emit (take_part limit cut.0 w).pending s)
        ])
          ≡ finish cut (w, s)
    turn-finish fuel (part, none) w s h = refl
    turn-finish fuel (part, some left) w s h = h left refl no_line _

    write_loop-feed :
        (fuel : ℕ) (bytes : Text) (w : LineWriter) (s : S)
        → length bytes ≤ fuel
        → write_loop limit emit fuel bytes w s ≡ feed bytes (w, s)
    unfolding write_loop feed
    write_loop-feed zero [] w s h = refl
    write_loop-feed zero (c ∷ bytes) w s h = absurd (omega arith)
    write_loop-feed (suc fuel) [] w s h = refl
    write_loop-feed (suc fuel) (c ∷ bytes) w s h =
        turn-finish fuel (first_line (c ∷ bytes)) w s (λ left cut v t.
          let less = shorter (c ∷ bytes) cut in write_loop-feed fuel left v t (omega arith))
        ∙ sym (feed-finish (c ∷ bytes) w.pending w.dropping s)

    write-feed : (bytes : Text) (v : LineWriter × S) → write limit emit bytes v ≡ feed bytes v
    unfolding write
    write-feed bytes (w, s) = write_loop-feed (length bytes) bytes w s (omega arith)

    -- The loop of Write ends within as many turns as there are bytes: with any number of turns from
    -- there on it leaves what Write leaves.
    pub write_loop-enough :
        (fuel : ℕ) (bytes : Text) (w : LineWriter) (s : S)
        → length bytes ≤ fuel
        → write_loop limit emit fuel bytes w s ≡ write limit emit bytes (w, s)
    write_loop-enough fuel bytes w s h =
        write_loop-feed fuel bytes w s h ∙ sym (write-feed bytes (w, s))

    -- Two calls of Write leave the writer and the log store as one call with the bytes of both: how
    -- a stream is cut into calls does not matter, also inside a line and behind its length limit.
    pub write-append :
        (xs ys : Text) (v : LineWriter × S)
        → write limit emit (xs ++ ys) v ≡ write limit emit ys (write limit emit xs v)
    write-append xs ys v =
        write-feed (xs ++ ys) v
        ∙ feed-append xs ys v
        ∙ sym (write-feed ys (write limit emit xs v) ∙ ap (feed ys) (write-feed xs v))

length-take : {A : Type 0} (n : ℕ) (xs : List A) → length (take n xs) ≤ n
unfolding take
length-take zero xs = omega arith
length-take (suc n) [] = omega arith
length-take (suc n) (x ∷ xs) = ground (arith, length-take n xs)

module _ (limit : ℕ) where
  take_part-bound :
      (part p : Text) (b : Bool)
      → length p ≤ limit
      → length (take_part limit part (writer p b)).pending ≤ limit
  unfolding take_part
  take_part-bound part p true h = h
  take_part-bound part p false h =
      let kept = length-take (limit - length p) part in
      let cut = length-append p (take (limit - length p) part) in
      let whole = length-append p part in ground (arith, h, kept, cut, whole)

  module _ {S : Type 0} (emit : Text → S → S) where
    next_byte-bound :
        (c : ℕ) (v : LineWriter × S)
        → length v.0.pending ≤ limit
        → length (next_byte limit emit c v).0.pending ≤ limit
    next_byte-bound c (w, s) h =
        either (eqb c 10) (no_line, add_line limit emit w.pending s) (take_part limit (c ∷ []) w, s)
          (omega arith) (take_part-bound (c ∷ []) w.pending w.dropping h)
      where
        either :
            (test : Bool) (x y : LineWriter × S)
            → length x.0.pending ≤ limit
            → length y.0.pending ≤ limit
            → length (if test then x else y).0.pending ≤ limit
        either true x y k l = k
        either false x y k l = l

    feed-bound :
        (bytes : Text) (v : LineWriter × S)
        → length v.0.pending ≤ limit
        → length (feed limit emit bytes v).0.pending ≤ limit
    unfolding feed
    feed-bound [] v h = h
    feed-bound (c ∷ bytes) v h = feed-bound bytes (next_byte limit emit c v) (next_byte-bound c v h)

    -- Write keeps at most `limit` bytes of a line that has not ended, however long the line is.
    pub write-bound :
        (bytes : Text) (w : LineWriter) (s : S)
        → length w.pending ≤ limit
        → length (write limit emit bytes (w, s)).0.pending ≤ limit
    write-bound bytes w s h =
        subst (λ v. length v.0.pending ≤ limit) (sym (write-feed limit emit bytes (w, s)))
          (feed-bound bytes (w, s) h)
