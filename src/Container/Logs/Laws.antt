-- ===== src/Container/Logs/Laws.antt =====
-- internal/container/logs.go: `emitFilteredBacklog` emits what `--tail` asks for.
use lstk.Container.Logs.Emission.{emitted-last}
use lstk.Container.Logs.Rings.{
  length-new_line_ring, length-IsHolding, reset-IsHolding, ring_len-full, add_all-IsHolding,
  IsHolding,
}
use native.Mathlib.Nat.{mod-eq_of_lt}
use lstk.Container.Logs.{
  new_line_ring, ring_len, reset, add_all, LineRing, RawLine, LogLine, surviving,
  emit_filtered_backlog, backlog_loop, after_read, is_unbounded, times_factor, tail_arg,
}
use lstk.Prelude.{
  append-nil, if-cases, length-drop, last-short, ◌∷◌, [], ◌++◌, inl, inr, Bool-cases, ◌||◌, ltb,
  ◌==◌, true, false, none, some, nat_beq_iff, ltb→lt, inr, inl, Bool-cases, ◌⊎◌, true, some,
  last-append, none, Result, ◌*◌, ◌++◌, take, ℕ, Option, List, ok, nat_eq, arith, refl, sym, ap,
  ◌∙◌, ◌≡◌, ◌≤◌, ◌<◌, ◌-◌, last, suc, zero, length, subst, take-append-drop,
}

surviving-append : (xs ys : List RawLine) → surviving (xs ++ ys) ≡ surviving xs ++ surviving ys
unfolding surviving
surviving-append [] ys = refl
surviving-append ((line, truncated) ∷ xs) ys = ground (arith, surviving-append xs ys)

-- A suffix of the log that has enough survivors, or is all of it, has the last survivors.
last-surviving :
    (limit k : ℕ) (history : List RawLine)
    → limit ≤ length (surviving (last k history))
    → last limit (surviving (last k history)) ≡ last limit (surviving history)
last-surviving limit k history h = sym (
    ap (λ t. last limit (surviving t)) (sym (take-append-drop (length history - k) history))
    ∙ (ap (λ t. last limit t)
          (surviving-append (take (length history - k) history) (last k history))
        ∙ last-append limit (surviving (take (length history - k) history))
            (surviving (last k history)) h))

-- The growth of the fetched suffix, without wrap-around.
abbrev grown : ℕ → ℕ → ℕ
grown zero fetch = fetch
grown (suc k) fetch = grown k (fetch * 8)

-- Where the rounds stop, what was read decides the result.
stopped-last :
    (limit fetch : ℕ) (history lines : List RawLine) (r : LineRing)
    → IsHolding limit (surviving lines) r
    → (is_unbounded fetch ≡ true → lines ≡ history)
    → (is_unbounded fetch ≡ false → lines ≡ last fetch history)
    → (is_unbounded fetch || ring_len r == limit || ltb (length lines) fetch) ≡ true
    → last limit (surviving lines) ≡ last limit (surviving history)
stopped-last limit fetch history lines r h whole part stop =
    elim (Bool-cases (is_unbounded fetch)) [
      | inl u ↦ ap (λ t. last limit (surviving t)) (whole u)
      | inr b ↦ elim (Bool-cases (ring_len r == limit)) [
        | inl f ↦
            ap (λ t. last limit (surviving t)) (part b)
            ∙ last-surviving limit fetch history (
                subst (λ t. limit ≤ length (surviving t)) (part b)
                  (ring_len-full limit (surviving lines) r h
                    ((nat_beq_iff (ring_len r) limit).0 f)))
        | inr f ↦
            let short : length lines < fetch =
              ltb→lt (length lines) fetch (ground (arith, stop, b, f)) in
            ap (λ t. last limit (surviving t))
              (part b
                ∙ last-short fetch history (
                    omega (
                      arith,
                      short,
                      ap (λ t. length t) (part b),
                      length-drop (length history - fetch) history,
                    )))
      ]
    ]

module _ {E : Type 0} (history : List RawLine) where
  after_read-last :
      (again : LineRing → Option (Result E (List LogLine))) (limit fetch : ℕ) (ring : LineRing)
      (lines : List RawLine)
      → 1 ≤ limit
      → length ring.buf ≡ limit
      → (is_unbounded fetch ≡ true → lines ≡ history)
      → (is_unbounded fetch ≡ false → lines ≡ last fetch history)
      → (is_unbounded fetch ≡ false
          → (r : LineRing) → length r.buf ≡ limit
          → again r ≡ some (ok (last limit (surviving history))))
      → after_read again limit fetch ring (ok lines) ≡ some (ok (last limit (surviving history)))
  after_read-last again limit fetch ring lines h e whole part next =
      let filled = add_all (surviving lines) (reset ring) in
      let holding : IsHolding limit (surviving lines) filled =
        add_all-IsHolding limit [] (surviving lines) (reset ring)
          (reset-IsHolding limit ring h e) in
      if-cases
        (λ (o : Option (Result E (List LogLine))). o ≡ some (ok (last limit (surviving history))))
        (is_unbounded fetch || ring_len filled == limit || ltb (length lines) fetch)
        (λ stop.
          ap (λ t. some (ok t))
            (emitted-last limit (surviving lines) filled holding
              ∙ stopped-last limit fetch history lines filled holding whole part stop))
        (λ go.
          next (ground (arith, go)) filled
            (length-IsHolding limit (surviving lines) filled holding))

bounded : (fetch : ℕ) → is_unbounded fetch ≡ false → (1 ≤ fetch) × (fetch ≤ 100000)
unfolding is_unbounded
bounded fetch h = (ground (arith, h), ground (arith, h))

not_grown :
    (fuel fetch : ℕ)
    → is_unbounded fetch ≡ false
    → (is_unbounded fetch ≡ true) ⊎ (100000 < grown zero fetch)
    → ⊥
not_grown fuel fetch b (inl u) = cc
not_grown fuel fetch b (inr g) = let (low, high) = bounded fetch b in omega (arith, g, high)

-- While the suffix is bounded it grows without wrap-around.
still_grown :
    (fuel fetch : ℕ)
    → is_unbounded fetch ≡ false
    → (is_unbounded fetch ≡ true) ⊎ (100000 < grown (suc fuel) fetch)
    → 100000 < grown fuel (times_factor fetch)
still_grown fuel fetch b (inl u) = cc
still_grown fuel fetch b (inr g) =
    let (low, high) = bounded fetch b in
    subst (λ t. 100000 < grown fuel t) {x = fetch * 8} (sym (mod-eq_of_lt (omega (arith, high)))) g

first_grown : (fetch : ℕ) → (is_unbounded fetch ≡ true) ⊎ (100000 < grown 6 fetch)
first_grown fetch = elim (Bool-cases (is_unbounded fetch)) [
  | inl u ↦ inl u
  | inr b ↦ let (low, high) = bounded fetch b in inr (omega (arith, low))
]

last-zero : {A : Type 0} (xs : List A) → last 0 xs ≡ []
last-zero xs = ap (λ t. last 0 t) (sym (append-nil xs)) ∙ last-append 0 xs [] (omega arith)

module _ {E : Type 0} (stream : Option ℕ → Result E (List RawLine)) (history : List RawLine)
    -- The runtime's tail, of a log that does not grow meanwhile.
    (all_lines : stream none ≡ ok history)
    (last_lines : (k : ℕ) → stream (some k) ≡ ok (last k history)) where
  read-last :
      (again : LineRing → Option (Result E (List LogLine))) (limit fetch : ℕ) (ring : LineRing)
      → 1 ≤ limit
      → length ring.buf ≡ limit
      → (is_unbounded fetch ≡ false
          → (r : LineRing) → length r.buf ≡ limit
          → again r ≡ some (ok (last limit (surviving history))))
      → after_read again limit fetch ring (stream (tail_arg fetch))
        ≡ some (ok (last limit (surviving history)))
  read-last again limit fetch ring h e next = elim (Bool-cases (is_unbounded fetch)) [
    | inl u ↦
        subst
          (λ t. after_read again limit fetch ring t ≡ some (ok (last limit (surviving history))))
          {x = ok history} (sym (rw u all_lines))
          (after_read-last history again limit fetch ring history h e (λ _. refl) (λ b. cc) next)
    | inr b ↦
        subst
          (λ t. after_read again limit fetch ring t ≡ some (ok (last limit (surviving history))))
          {x = ok (last fetch history)} (sym (rw b (last_lines fetch)))
          (after_read-last history again limit fetch ring (last fetch history) h e (λ u. cc)
            (λ _. refl) next)
  ]

  backlog_loop-last :
      (fuel limit fetch : ℕ) (ring : LineRing)
      → 1 ≤ limit
      → length ring.buf ≡ limit
      → (is_unbounded fetch ≡ true) ⊎ (100000 < grown fuel fetch)
      → backlog_loop stream (suc fuel) limit fetch ring ≡ some (ok (last limit (surviving history)))
  unfolding backlog_loop
  backlog_loop-last zero limit fetch ring h e g =
      read-last (backlog_loop stream zero limit (times_factor fetch)) limit fetch ring h e
        (λ b r e'. absurd (not_grown zero fetch b g))
  backlog_loop-last (suc fuel) limit fetch ring h e g =
      read-last (backlog_loop stream (suc fuel) limit (times_factor fetch)) limit fetch ring h e
        (λ b r e'.
          backlog_loop-last fuel limit (times_factor fetch) r h e'
            (inr (still_grown fuel fetch b g)))

  -- `emitFilteredBacklog` ends within seven rounds, and emits the last `limit` of the lines that
  -- survive the filter in the whole log, in their order, whatever suffix of it is read.
  pub emit_filtered_backlog-last :
      (limit : ℕ)
      → emit_filtered_backlog stream 7 limit ≡ some (ok (last limit (surviving history)))
  unfolding emit_filtered_backlog
  emit_filtered_backlog-last limit =
      if-cases
        (λ (o : Option (Result E (List LogLine))). o ≡ some (ok (last limit (surviving history))))
        (limit == 0)
        (λ z.
          ap (λ t. some (ok t))
            (sym (
              ap (λ n. last n (surviving history)) ((nat_beq_iff limit 0).0 z)
              ∙ last-zero (surviving history))))
        (λ n.
          backlog_loop-last 6 limit (times_factor limit) (new_line_ring limit) (ground (arith, n))
            (length-new_line_ring limit) (first_grown (times_factor limit)))
