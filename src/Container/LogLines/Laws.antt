-- ===== src/Container/LogLines/Laws.antt =====
-- internal/container/logs.go: a line is cut at the bound, however the reader slices it.
use lstk.Container.LogLines.{
  kept_before, strip_newline, strip_return, strip_last, read_slices, read_bounded_line, at_newline,
  buffer_full, stream_over, trim_eol, BoundedLine, SliceEnd, take_chunk,
}
use lstk.Prelude.{
  nat_eq, ◌==◌, Option, some, none, if◌then◌else◌, none, some, ◌==◌, Option, if◌then◌else◌, true,
  append_assoc, append-nil, false, length-append, zero, suc, ◌-◌, ◌≤◌, ◌+◌, Bool, ℕ, List, arith,
  refl, ◌≡◌, ap, sym, ◌∙◌, subst, [], ◌∷◌, ◌++◌, take, length, if-cases, ltb, leb,
}

-- A slice without its newline, and without a carriage return right in front of it.
abbrev pub without_eol : List ℕ → List ℕ
without_eol [] = []
without_eol (c ∷ []) = if c == 10 then [] else c ∷ []
without_eol (c ∷ d ∷ []) = if d == 10 then (if c == 13 then [] else c ∷ []) else c ∷ d ∷ []
without_eol (c ∷ d ∷ e ∷ chunk) = c ∷ without_eol (d ∷ e ∷ chunk)

strip_return-cons :
    (c : ℕ) (b : List ℕ) (o : Option (List ℕ))
    → strip_return (c ∷ b) (kept_before c o) ≡ c ∷ strip_return b o
strip_return-cons c b none = refl
strip_return-cons c b (some b') = refl

strip_newline-cons :
    (c d : ℕ) (b : List ℕ) (o : Option (List ℕ))
    → strip_newline (c ∷ b) (kept_before c (kept_before d o))
      ≡ c ∷ strip_newline b (kept_before d o)
unfolding strip_last
strip_newline-cons c d b none = refl
strip_newline-cons c d b (some xs) = strip_return-cons c (d ∷ xs) (strip_last 13 (d ∷ xs))

-- `trimEOL` drops the end of a line.
pub trim_eol-without_eol : (chunk : List ℕ) → trim_eol chunk ≡ without_eol chunk
unfolding trim_eol strip_last
trim_eol-without_eol [] = refl
trim_eol-without_eol (c ∷ []) = ground arith
trim_eol-without_eol (c ∷ d ∷ []) = ground arith
trim_eol-without_eol (c ∷ d ∷ e ∷ chunk) =
    strip_newline-cons c d (d ∷ e ∷ chunk) (strip_last 10 (e ∷ chunk))
    ∙ ap (λ t. c ∷ t) (trim_eol-without_eol (d ∷ e ∷ chunk))

-- The bytes of the line that the slices hold.
abbrev pub whole_line : List (List ℕ × SliceEnd) → List ℕ
whole_line [] = []
whole_line ((chunk, buffer_full) ∷ slices) = chunk ++ whole_line slices
whole_line ((chunk, at_newline) ∷ slices) = without_eol chunk
whole_line ((chunk, stream_over) ∷ slices) = chunk

take-nil : (n : ℕ) → take {A = ℕ} n [] ≡ []
take-nil zero = refl
take-nil (suc n) = refl

take-append_long : (n : ℕ) (xs ys : List ℕ) → n ≤ length xs → take n (xs ++ ys) ≡ take n xs
take-append_long zero xs ys h = refl
take-append_long (suc n) [] ys h = absurd (omega (arith, h))
take-append_long (suc n) (x ∷ xs) ys h =
    ap (λ t. x ∷ t) (take-append_long n xs ys (omega (arith, h)))

take-append_short :
    (n m : ℕ) (xs ys : List ℕ) → n ≡ length xs + m → take n (xs ++ ys) ≡ xs ++ take m ys
take-append_short n m [] ys h = ap (λ k. take k ys) {x = n} (omega (arith, h))
take-append_short zero m (x ∷ xs) ys h = absurd (omega (arith, h))
take-append_short (suc n) m (x ∷ xs) ys h =
    ap (λ t. x ∷ t) (take-append_short n m xs ys (omega (arith, h)))

take-all : (n : ℕ) (xs : List ℕ) → length xs ≤ n → take n xs ≡ xs
take-all zero [] h = refl
take-all zero (x ∷ xs) h = absurd (omega (arith, h))
take-all (suc n) [] h = refl
take-all (suc n) (x ∷ xs) h = ap (λ t. x ∷ t) (take-all n xs (omega (arith, h)))

length-take : (n : ℕ) (xs : List ℕ) → length (take n xs) ≤ n
length-take zero xs = omega arith
length-take (suc n) [] = omega arith
length-take (suc n) (x ∷ xs) = omega (arith, length-take n xs)

-- What the loop has made of the bytes `seen`.
pub record IsCut (max : ℕ) (seen : List ℕ) (l : BoundedLine) : Type 0 where
  pub line_eq : l.line ≡ take max seen
  pub truncated_eq : l.truncated ≡ length seen - max

length-cut : (max : ℕ) (seen : List ℕ) → length (take max seen) + (length seen - max) ≡ length seen
length-cut zero seen = omega arith
length-cut (suc max) [] = omega arith
length-cut (suc max) (x ∷ seen) = omega (arith, length-cut max seen)

take_chunk-IsCut :
    (max : ℕ) (seen chunk : List ℕ) (newline : Bool) (l : BoundedLine)
    → IsCut max seen l
    → IsCut max (seen ++ chunk) (take_chunk max chunk newline l)
unfolding take_chunk
take_chunk-IsCut max seen chunk newline l h =
    if-cases (IsCut max (seen ++ chunk)) (ltb 0 (max - length l.line))
      (λ e.
        let short : length seen ≤ max =
          ground (arith, e, length-cut max seen, ap (λ t. length t) h.line_eq) in
        let same : l.line ≡ seen = h.line_eq ∙ take-all max seen short in
        if-cases (IsCut max (seen ++ chunk)) (leb (length chunk) (max - length l.line))
          (λ f. record {
            line_eq =
                ap (λ t. t ++ chunk) same
                ∙ sym (
                    take-all max (seen ++ chunk) ground
                      (arith, f, length-append seen chunk, ap (λ t. length t) same, e));
            truncated_eq = ground (
              arith,
              f,
              e,
              short,
              h.truncated_eq,
              length-append seen chunk,
              ap (λ t. length t) same,
            );
          })
          (λ f. record {
            line_eq =
                ap (λ t. t ++ take (max - length l.line) chunk) same
                ∙ sym (
                    take-append_short max (max - length l.line) seen chunk
                      (ground (arith, e, ap (λ t. length t) same)));
            truncated_eq = ground (
              arith,
              f,
              e,
              short,
              h.truncated_eq,
              length-append seen chunk,
              ap (λ t. length t) same,
            );
          }))
      (λ e.
        let long : max ≤ length seen =
          ground (arith, e, length-cut max seen, ap (λ t. length t) h.line_eq) in
        record {
          line_eq = h.line_eq ∙ sym (take-append_long max seen chunk long);
          truncated_eq = ground (arith, e, long, h.truncated_eq, length-append seen chunk);
        })

read_slices-IsCut :
    (max : ℕ) (slices : List (List ℕ × SliceEnd)) (seen : List ℕ) (l : BoundedLine)
    → IsCut max seen l
    → IsCut max (seen ++ whole_line slices) (read_slices max slices l)
unfolding read_slices
read_slices-IsCut max [] seen l h = subst (λ t. IsCut max t l) (sym (append-nil seen)) h
read_slices-IsCut max ((chunk, buffer_full) ∷ slices) seen l h =
    subst (λ t. IsCut max t (read_slices max slices (take_chunk max chunk false l)))
      (append_assoc seen chunk (whole_line slices))
      (read_slices-IsCut max slices (seen ++ chunk) (take_chunk max chunk false l)
        (take_chunk-IsCut max seen chunk false l h))
read_slices-IsCut max ((chunk, at_newline) ∷ slices) seen l h =
    subst (λ t. IsCut max (seen ++ t) (take_chunk max (trim_eol chunk) true l))
      (trim_eol-without_eol chunk) (take_chunk-IsCut max seen (trim_eol chunk) true l h)
read_slices-IsCut max ((chunk, stream_over) ∷ slices) seen l h =
    take_chunk-IsCut max seen chunk false l h

-- However the reader slices the stream, the line is the first `max` bytes of it up to its end of
-- line, and `truncated` counts the others.
pub read_bounded_line-IsCut :
    (max : ℕ) (slices : List (List ℕ × SliceEnd))
    → IsCut max (whole_line slices) (read_bounded_line max slices)
unfolding read_bounded_line
read_bounded_line-IsCut max slices =
    read_slices-IsCut max slices [] (record { line = []; truncated = 0; was_read = false })
      (record { line_eq = sym (take-nil max); truncated_eq = omega arith })
