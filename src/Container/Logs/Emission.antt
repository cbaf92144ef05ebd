-- ===== src/Container/Logs/Emission.antt =====
-- internal/container/logs.go: the ring emits its lines in the order in which they came.
use native.Mathlib.Nat.{add-mod_left, mod-eq_of_lt}
use lstk.Container.Logs.{LineRing, LogLine, emit_loop, emitted, line_at}
use lstk.Container.Logs.Rings.{IsHolding}
use lstk.Prelude.{
  last-short, append_assoc, length-append, append-nil, inr, inl, ◌∷◌, [], ◌%◌, ◌++◌, Bool-cases, ℕ,
  List, nat_eq, arith, refl, sym, ap, ◌∙◌, ◌≡◌, ◌<◌, ◌+◌, last, suc, zero, length,
}

line_at-append :
    (pre post : List LogLine) (m : LogLine) → line_at (length pre) (pre ++ m ∷ post) ≡ m
line_at-append [] post m = refl
line_at-append (p ∷ pre) post m = line_at-append pre post m

-- A run of `emit` over `mid`, whose indices lie `off` behind its place in the buffer.
emit_loop-run :
    (start off n k i j : ℕ) (pre mid post buf : List LogLine)
    → buf ≡ pre ++ (mid ++ post)
    → ((k : ℕ) → k < length buf → (off + k) % length buf ≡ k)
    → start + i ≡ off + length pre
    → n ≡ length mid + k
    → j ≡ i + length mid
    → emit_loop start n i buf ≡ mid ++ emit_loop start k j buf
unfolding emit_loop
emit_loop-run start off n k i j pre [] post buf b h e c d =
    ap (λ t. emit_loop start t i buf) {y = k} (omega (arith, c))
    ∙ ap (λ t. emit_loop start k t buf) {y = j} (omega (arith, d))
emit_loop-run start off zero k i j pre (m ∷ mid) post buf b h e c d = absurd (omega (arith, c))
emit_loop-run start off (suc n) k i j pre (m ∷ mid) post buf b h e c d =
    ap (λ t. t ∷ emit_loop start n (suc i) buf)
      (ap (λ t. line_at t buf)
          (ap (λ t. t % length buf) e
            ∙ h (length pre)
                (omega (arith, ap (λ t. length t) b, length-append pre (m ∷ mid ++ post))))
        ∙ (ap (λ t. line_at (length pre) t) b ∙ line_at-append pre (mid ++ post) m))
    ∙ ap (λ t. m ∷ t)
        (emit_loop-run start off n k (suc i) j (pre ++ m ∷ []) mid post buf
          (b ∙ sym (append_assoc pre (m ∷ []) (mid ++ post))) h
          (omega (arith, e, length-append pre (m ∷ []))) (omega (arith, c)) (omega (arith, d)))

emit-filled :
    (front back buf : List LogLine)
    → buf ≡ front ++ back
    → emit_loop (length front) (length buf) 0 buf ≡ back ++ front
emit-filled front back buf b =
    emit_loop-run (length front) 0 (length buf) (length front) 0 (length back) front back [] buf
      (b ∙ ap (λ t. front ++ t) (sym (append-nil back)))
      (λ k h. ap (λ t. t % length buf) {y = k} (omega arith) ∙ mod-eq_of_lt h) (omega arith)
      (ap (λ t. length t) b ∙ (length-append front back ∙ omega arith)) (omega arith)
    ∙ ap (λ t. back ++ t)
        (emit_loop-run (length front) (length buf) (length front) 0 (length back)
            (length back + length front) [] front back buf b
            (λ k h. add-mod_left (length buf) k ∙ mod-eq_of_lt h)
            (sym (length-append front back) ∙ (ap (λ t. length t) (sym b) ∙ omega arith))
            (omega arith) refl
          ∙ unfold emit_loop in append-nil front)

emit-unfilled :
    (front back buf : List LogLine) → buf ≡ front ++ back → emit_loop 0 (length front) 0 buf ≡ front
unfolding emit_loop
emit-unfilled front back buf b =
    emit_loop-run 0 0 (length front) 0 0 (length front) [] front back buf b
      (λ k h. ap (λ t. t % length buf) {y = k} (omega arith) ∙ mod-eq_of_lt h) refl (omega arith)
      (omega arith)
    ∙ append-nil front

-- A ring of `n` lines emits the last `n` of the lines that it has been given, in their order.
pub emitted-last :
    (n : ℕ) (xs : List LogLine) (r : LineRing) → IsHolding n xs r → emitted r ≡ last n xs
unfolding emitted
emitted-last n xs r h = elim (Bool-cases r.full) [
  | inl e ↦ rw (e, h.next_eq) (emit-filled h.front h.back r.buf h.buf_eq ∙ h.filled e)
  | inr e ↦
      rw (e, h.next_eq)
        (emit-unfilled h.front h.back r.buf h.buf_eq
          ∙ (sym (h.unfilled e)
              ∙ sym (last-short n xs (omega (arith, h.size, ap (λ t. length t) (h.unfilled e))))))
]
