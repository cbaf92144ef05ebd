-- ===== src/Container/LogTail/Laws.antt =====
-- internal/container/logtail.go: the buffer holds the last bytes written, and never more.
use lstk.Container.LogTail.{LogTail, make_room, new_log_tail, write_all, write}
use lstk.Prelude.{
  subst, last-last-append, last-append_short, ◌-◌, leb→le, last-append, append_assoc, last-short,
  length-last, append-nil, [], if-cases, ◌≤◌, length, ◌∷◌, ◌++◌, List, ℕ, arith, refl, sym, ap, ◌∙◌,
  ◌≡◌, last, ltb, leb,
}

abbrev pub joined : List (List ℕ) → List ℕ
joined [] = []
joined (p ∷ ps) = p ++ joined ps

make_room-last : (room : ℕ) (buf : List ℕ) → make_room room buf ≡ last room buf
make_room-last room buf =
    if-cases (λ (b : List ℕ). b ≡ last room buf) (ltb room (length buf)) (λ h. refl)
      (λ h. sym (last-short room buf (ground (arith, h))))

-- A write to a buffer that holds the last of `seen`.
write-buf :
    (max_bytes : ℕ) (seen p : List ℕ)
    → (write (record { buf = last max_bytes seen; max_bytes = max_bytes }) p)
      ≡ record { buf = last max_bytes (seen ++ p); max_bytes = max_bytes }
unfolding write
write-buf max_bytes seen p =
    if-cases
      (λ (l : LogTail). l ≡ record { buf = last max_bytes (seen ++ p); max_bytes = max_bytes })
      (leb max_bytes (length p))
      (λ h.
        ap (λ b. record { buf = b; max_bytes = max_bytes })
          (sym (last-append max_bytes seen p (leb→le max_bytes (length p) h))))
      (λ h.
        ap (λ b. record { buf = b; max_bytes = max_bytes })
          (ap (λ b. b ++ p) (make_room-last (max_bytes - length p) (last max_bytes seen))
            ∙ (sym (
                  last-append_short max_bytes (max_bytes - length p) (last max_bytes seen) p
                    (ground (arith, h)))
                ∙ last-last-append max_bytes seen p)))

write_all-buf :
    (max_bytes : ℕ) (seen buf : List ℕ) (ps : List (List ℕ))
    → buf ≡ last max_bytes seen
    → (write_all (record { buf = buf; max_bytes = max_bytes }) ps).buf
      ≡ last max_bytes (seen ++ joined ps)
unfolding write_all
write_all-buf max_bytes seen buf [] h = h ∙ ap (λ b. last max_bytes b) (sym (append-nil seen))
write_all-buf max_bytes seen buf (p ∷ ps) h =
    subst (λ (l : LogTail). (write_all l ps).buf ≡ last max_bytes (seen ++ (p ++ joined ps)))
      (sym (
        ap (λ b. write (record { buf = b; max_bytes = max_bytes }) p) h
        ∙ write-buf max_bytes seen p))
      (write_all-buf max_bytes (seen ++ p) _ ps refl
        ∙ ap (λ b. last max_bytes b) (append_assoc seen p (joined ps)))

-- Whatever is written, however it is cut into writes, the buffer is the last `max_bytes` bytes of it,
-- so at most that many.
pub write_all-last :
    (max_bytes : ℕ) (ps : List (List ℕ))
    → ((write_all (new_log_tail max_bytes) ps).buf ≡ last max_bytes (joined ps))
      × (length (write_all (new_log_tail max_bytes) ps).buf ≤ max_bytes)
unfolding new_log_tail
write_all-last max_bytes ps =
    let e = write_all-buf max_bytes [] [] ps (sym (last-short max_bytes [] (omega arith))) in
    (e, subst (λ b. length b ≤ max_bytes) (sym e) (length-last max_bytes (joined ps)))
