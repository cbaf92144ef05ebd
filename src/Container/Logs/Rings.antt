-- ===== src/Container/Logs/Rings.antt =====
-- internal/container/logs.go: the ring keeps the last lines, in order.
use native.Mathlib.Nat.{mod-eq_of_lt, mod-eq_of_lt, mod_self}
use lstk.Container.Logs.{
  LineRing, LogLine, add, add_all, set_at, ring_len, blank_lines, reset, new_line_ring,
}
use lstk.Prelude.{
  inr, length-drop, inl, Bool-cases, append-nil, last-short, append_assoc, length-append,
  last-append, ◌==◌, last-last-append, true, if◌then◌else◌, false, [], ◌++◌, Bool, ◌%◌, ◌∷◌, List,
  ℕ, nat_eq, arith, refl, sym, ap, ◌∙◌, ◌≡◌, ◌≤◌, ◌+◌, ◌-◌, last, suc, zero, length, subst,
}

-- A ring of `n` lines that has been given `xs`: the next line goes behind `front`, and `back` is
-- blank until the ring is full.
pub record IsHolding (n : ℕ) (xs : List LogLine) (r : LineRing) : Type 0 where
  pub front : List LogLine
  pub back : List LogLine
  pub buf_eq : r.buf ≡ front ++ back
  pub next_eq : r.next ≡ length front
  pub size : length front + length back ≡ n
  pub room : 1 ≤ length back
  pub unfilled : r.full ≡ false → xs ≡ front
  pub filled : r.full ≡ true → back ++ front ≡ last n xs

set_at-append :
    (front back : List LogLine) (x y : LogLine)
    → set_at (length front) x (front ++ y ∷ back) ≡ front ++ x ∷ back
unfolding set_at
set_at-append [] back x y = refl
set_at-append (f ∷ front) back x y = ap (λ t. f ∷ t) (set_at-append front back x y)

-- What `add` makes of a ring that has room.
add-step :
    (r : LineRing) (x : LogLine) (m : ℕ) (buf : List LogLine)
    → 1 ≤ length r.buf
    → set_at r.next x r.buf ≡ buf
    → (r.next + 1) % length r.buf ≡ m
    → add x r ≡ record { buf = buf; next = m; full = if m == 0 then true else r.full }
unfolding add
add-step r x m buf h e f = ground (arith, h, e, f)

-- The oldest line gives way to a new one.
last-step :
    (n : ℕ) (xs back front : List LogLine) (x y : LogLine)
    → length front + suc (length back) ≡ n
    → (y ∷ back) ++ front ≡ last n xs
    → back ++ (front ++ x ∷ []) ≡ last n (xs ++ x ∷ [])
last-step n xs back front x y size h =
    let e₁ = last-last-append n xs (x ∷ []) in
    let e₂ =
      last-append n (y ∷ []) (back ++ (front ++ x ∷ []))
        (omega (arith, size, length-append back (front ++ x ∷ []), length-append front (x ∷ []))) in
    let e₃ =
      last-short n (back ++ (front ++ x ∷ []))
        (omega (arith, size, length-append back (front ++ x ∷ []), length-append front (x ∷ []))) in
    sym e₃
    ∙ (sym e₂
        ∙ (ap (λ t. last n t)
              (ap (λ t. y ∷ t) (sym (append_assoc back front (x ∷ []))) ∙ ap (λ t. t ++ x ∷ []) h)
            ∙ e₁))

last-wrap :
    (n : ℕ) (xs front : List LogLine) (x y : LogLine) (full : Bool)
    → length front + 1 ≡ n
    → (full ≡ false → xs ≡ front)
    → (full ≡ true → (y ∷ []) ++ front ≡ last n xs)
    → front ++ x ∷ [] ≡ last n (xs ++ x ∷ [])
last-wrap n xs front x y true size unfilled filled = last-step n xs [] front x y size (filled refl)
last-wrap n xs front x y false size unfilled filled =
    ap (λ t. t ++ x ∷ []) (sym (unfilled refl))
    ∙ sym (
        last-short n (xs ++ x ∷ [])
          (omega (arith, size, length-append xs (x ∷ []), ap (λ t. length t) (unfilled refl))))

keeps_full : (k : ℕ) (full : Bool) → (if k + 1 == 0 then true else full) ≡ full
keeps_full k full = ground arith

add-front :
    (n : ℕ) (xs front back : List LogLine) (x y : LogLine) (full : Bool)
    → length front + suc (length back) ≡ n
    → (full ≡ false → xs ≡ front)
    → (full ≡ true → (y ∷ back) ++ front ≡ last n xs)
    → IsHolding n
        (xs ++ x ∷ [])
        (add x (record { buf = front ++ y ∷ back; next = length front; full = full }))
add-front n xs front [] x y full size unfilled filled =
    subst (IsHolding n (xs ++ x ∷ [])) {x = record { buf = front ++ x ∷ []; next = 0; full = true }}
      (sym (
        add-step (record { buf = front ++ y ∷ []; next = length front; full = full }) x 0
          (front ++ x ∷ []) (omega (arith, length-append front (y ∷ [])))
          (set_at-append front [] x y)
          (ap (λ k. (length front + 1) % k) (omega (arith, length-append front (y ∷ [])))
            ∙ mod_self (length front + 1))))
      (record {
        front = [];
        back = front ++ x ∷ [];
        buf_eq = refl;
        next_eq = refl;
        size = omega (arith, size, length-append front (x ∷ []));
        room = omega (arith, length-append front (x ∷ []));
        unfilled = λ e. cc;
        filled =
            λ e. append-nil (front ++ x ∷ []) ∙ last-wrap n xs front x y full size unfilled filled;
      })
add-front n xs front (b ∷ back) x y full size unfilled filled =
    subst (IsHolding n (xs ++ x ∷ []))
      {x = record { buf = front ++ x ∷ b ∷ back; next = length front + 1; full = full }}
      (sym (
        add-step (record { buf = front ++ y ∷ b ∷ back; next = length front; full = full }) x
          (length front + 1) (front ++ x ∷ b ∷ back)
          (omega (arith, length-append front (y ∷ b ∷ back))) (set_at-append front (b ∷ back) x y)
          (mod-eq_of_lt (omega (arith, length-append front (y ∷ b ∷ back))))
        ∙ ap (λ f. record { buf = front ++ x ∷ b ∷ back; next = length front + 1; full = f })
            (keeps_full (length front) full)))
      (record {
        front = front ++ x ∷ [];
        back = b ∷ back;
        buf_eq = sym (append_assoc front (x ∷ []) (b ∷ back));
        next_eq = omega (arith, length-append front (x ∷ []));
        size = omega (arith, size, length-append front (x ∷ []));
        room = omega arith;
        unfilled = λ e. ap (λ t. t ++ x ∷ []) (unfilled e);
        filled = λ e. last-step n xs (b ∷ back) front x y size (filled e);
      })

add-IsHolding :
    (n : ℕ) (xs : List LogLine) (x : LogLine) (r : LineRing)
    → IsHolding n xs r
    → IsHolding n (xs ++ x ∷ []) (add x r)
add-IsHolding n xs x r h =
    by_back h.front h.back h.buf_eq h.next_eq h.size h.room h.unfilled h.filled
  where
    by_back :
        (front back : List LogLine)
        → r.buf ≡ front ++ back
        → r.next ≡ length front
        → length front + length back ≡ n
        → 1 ≤ length back
        → (r.full ≡ false → xs ≡ front)
        → (r.full ≡ true → back ++ front ≡ last n xs)
        → IsHolding n (xs ++ x ∷ []) (add x r)
    by_back front [] b e size room u f = absurd (omega (arith, room))
    by_back front (y ∷ back) b e size room u f =
        subst (λ (t : LineRing). IsHolding n (xs ++ x ∷ []) (add x t))
          {x = record { buf = front ++ y ∷ back; next = length front; full = r.full }}
          (sym (
            ap (λ t. record { buf = t; next = r.next; full = r.full }) b
            ∙ ap (λ k. record { buf = front ++ y ∷ back; next = k; full = r.full }) e))
          (add-front n xs front back x y r.full size u f)

pub add_all-IsHolding :
    (n : ℕ) (xs more : List LogLine) (r : LineRing)
    → IsHolding n xs r
    → IsHolding n (xs ++ more) (add_all more r)
unfolding add_all
add_all-IsHolding n xs [] r h = subst (λ t. IsHolding n t r) (sym (append-nil xs)) h
add_all-IsHolding n xs (x ∷ more) r h =
    subst (λ t. IsHolding n t (add_all more (add x r))) (append_assoc xs (x ∷ []) more)
      (add_all-IsHolding n (xs ++ x ∷ []) more (add x r) (add-IsHolding n xs x r h))

length-blank_lines : (n : ℕ) → length (blank_lines n) ≡ n
unfolding blank_lines
length-blank_lines zero = refl
length-blank_lines (suc n) = omega (arith, length-blank_lines n)

-- A ring that has been reset holds nothing.
pub reset-IsHolding : (n : ℕ) (r : LineRing) → 1 ≤ n → length r.buf ≡ n → IsHolding n [] (reset r)
reset-IsHolding n r h e = record {
  front = [];
  back = r.buf;
  buf_eq = refl;
  next_eq = refl;
  size = omega (arith, e);
  room = omega (arith, e, h);
  unfilled = λ _. refl;
  filled = λ e'. cc;
}

pub length-new_line_ring : (n : ℕ) → length (new_line_ring n).buf ≡ n
length-new_line_ring n = length-blank_lines n

pub length-IsHolding :
    (n : ℕ) (xs : List LogLine) (r : LineRing) → IsHolding n xs r → length r.buf ≡ n
length-IsHolding n xs r h = ap (λ t. length t) h.buf_eq ∙ (length-append h.front h.back ∙ h.size)

-- A ring that counts as many lines as it has room for was given at least that many.
pub ring_len-full :
    (n : ℕ) (xs : List LogLine) (r : LineRing) → IsHolding n xs r → ring_len r ≡ n → n ≤ length xs
ring_len-full n xs r h e = elim (Bool-cases r.full) [
  | inl f ↦ omega (
    arith,
    h.size,
    ap (λ t. length t) (h.filled f),
    length-append h.back h.front,
    length-drop (length xs - n) xs,
  )
  | inr f ↦
      let w : r.next ≡ n = ground (arith, e, f) in
      absurd (omega (arith, h.size, h.room, h.next_eq, w))
]
