-- ===== src/Update/LineWriter.antt =====
-- internal/update/update.go: `logLineWriter`, which passes on the lines of what is written to it.
use lstk.Text.Basic.{text_eq, Text}
use lstk.Prelude.{
  append_assoc, append-nil, sym, ap, refl, ◌∙◌, arith, if-cases, ◌≡◌, nat_eq, ◌==◌, if◌then◌else◌,
  not, ◌++◌, keep, [], ◌∷◌, List,
}

pub record LineWriter : Type 0 where
  pub buf : Text

-- The loop of `Write`: the lines that are complete, and what is left; `line` is the one that has
-- begun.
unfoldable pub split_lines : Text → Text → List Text × Text
split_lines line [] = ([], line)
split_lines line (c ∷ s) =
    let (lines, left) = split_lines [] s in
    let longer = split_lines (line ++ c ∷ []) s in if c == 10 then (line ∷ lines, left) else longer

abbrev pub shown : List Text → List Text
shown = keep (λ line. not (line == []))

-- `Write`: the writer behind it, and the lines that it emits.
unfoldable pub write_lines : LineWriter → Text → LineWriter × List Text
unfolding split_lines
write_lines w p =
    let (lines, left) = split_lines [] (w.buf ++ p) in (record { buf = left }, shown lines)

-- `Flush`
unfoldable pub flush_lines : LineWriter → LineWriter × List Text
flush_lines w = (record { buf = [] }, shown (w.buf ∷ []))

-- A process that writes these pieces and ends.
unfoldable pub write_pieces : LineWriter → List Text → List Text
unfolding write_lines flush_lines
write_pieces w [] = (flush_lines w).1
write_pieces w (p ∷ pieces) = let (w', lines) = write_lines w p in lines ++ write_pieces w' pieces

-- The lines of a text, the last one without its end.
unfoldable pub lines_of : Text → List Text
unfolding split_lines
lines_of s = let (lines, left) = split_lines [] s in lines ++ left ∷ []

abbrev pub concat : List Text → Text
concat [] = []
concat (p ∷ pieces) = p ++ concat pieces

split_lines-append :
    (line s t : Text)
    → split_lines line (s ++ t) ≡ (
      (split_lines line s).0 ++ (split_lines (split_lines line s).1 t).0,
      (split_lines (split_lines line s).1 t).1,
    )
unfolding split_lines
split_lines-append line [] t = refl
split_lines-append line (c ∷ s) t =
    ground (arith, split_lines-append [] s t, split_lines-append (line ++ c ∷ []) s t)

-- A text in which no line ends.
abbrev IsPart : Text → Type 0
IsPart s = split_lines [] s ≡ ([], s)

part-append : (s t : Text) → IsPart s → split_lines [] (s ++ t) ≡ split_lines s t
part-append s t h =
    split_lines-append [] s t
    ∙ ap (λ (r : List Text × Text). (r.0 ++ (split_lines r.1 t).0, (split_lines r.1 t).1)) h

left-IsPart : (line s : Text) → IsPart line → IsPart (split_lines line s).1
unfolding split_lines
left-IsPart line [] h = h
left-IsPart line (c ∷ s) h =
    if-cases (λ (r : List Text × Text). IsPart r.1) (c == 10) (λ e. left-IsPart [] s refl)
      (λ e. left-IsPart (line ++ c ∷ []) s (part-append line (c ∷ []) h ∙ rw e refl))

shown-append : (xs ys : List Text) → shown (xs ++ ys) ≡ shown xs ++ shown ys
shown-append [] ys = refl
shown-append (x ∷ xs) ys = ground (arith, shown-append xs ys)

-- The lines that are emitted at the end.
abbrev ended : List Text × Text → List Text
ended r = shown (r.0 ++ r.1 ∷ [])

write_pieces-shown :
    (w : LineWriter) (pieces : List Text)
    → IsPart w.buf
    → write_pieces w pieces ≡ shown (lines_of (w.buf ++ concat pieces))
unfolding write_pieces lines_of
write_pieces-shown w [] h = sym (ap ended (ap (split_lines []) (append-nil w.buf) ∙ h))
write_pieces-shown w (p ∷ pieces) h =
    let (lines, left) = split_lines [] (w.buf ++ p) in
    let more : List Text × Text = split_lines left (concat pieces) in
    let part : IsPart left = left-IsPart [] (w.buf ++ p) refl in
    ap (λ z. shown lines ++ z)
      (write_pieces-shown (record { buf = left }) pieces part
        ∙ ap ended (part-append left (concat pieces) part))
    ∙ sym (shown-append lines (more.0 ++ more.1 ∷ []))
    ∙ ap shown (sym (append_assoc lines more.0 (more.1 ∷ [])))
    ∙ ap ended (
        sym (split_lines-append [] (w.buf ++ p) (concat pieces))
        ∙ ap (split_lines []) (append_assoc w.buf p (concat pieces)))

-- However the output of a process is cut into writes, its lines that are not empty are emitted, in
-- order, the last one also if it does not end.
pub write_pieces-lines_of :
    (pieces : List Text)
    → write_pieces (record { buf = [] }) pieces ≡ shown (lines_of (concat pieces))
unfolding split_lines
write_pieces-lines_of pieces = write_pieces-shown (record { buf = [] }) pieces refl
