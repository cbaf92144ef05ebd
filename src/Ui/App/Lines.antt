-- ===== src/Ui/App/Lines.antt =====
-- internal/ui/app.go: the order of the lines, also of those that wait for a spinner.
use lstk.Ui.App.{
  flush_buffered_lines, append_line, max_lines, StyledLine, add_line, App, append_all, add_lines,
}
use lstk.Prelude.{
  append-nil, length-drop, last-append, length-last, append_assoc, last-last-append, leb→le,
  last-short, length, last, ℕ, ◌-◌, ◌≤◌, ◌≡◌, sym, ap, ◌∙◌, ◌⊎◌, inl, inr, true, List, [], ◌∷◌,
  ◌++◌, arith, leb, nat_eq, Bool-cases, if-cases,
}
use lstk.Text.Basic.{text_eq}
use lstk.Ui.Coherent.{add_lines-IsCoherent, IsCoherent}

module _ {ℓ} {A : Type ℓ} (n : ℕ) where
  last-append-last : (xs ys : List A) → last n (xs ++ last n ys) ≡ last n (xs ++ ys)
  last-append-last xs ys = elim (Bool-cases (leb (length ys) n)) [
    | inl e ↦ ap (λ z. last n (xs ++ z)) (last-short n ys (leb→le _ _ e))
    | inr e ↦
        last-append n xs (last n ys) (ground (arith, length-drop (length ys - n) ys, e))
        ∙ last-short n (last n ys) (length-last n ys)
        ∙ sym (last-append n xs ys (ground (arith, e)))
  ]

append_all-last :
    (lines buffered : List StyledLine)
    → length lines ≤ max_lines
    → append_all lines buffered ≡ last max_lines (lines ++ buffered)
unfolding append_all
append_all-last lines [] h =
    sym (ap (last max_lines) (append-nil lines) ∙ last-short max_lines lines h)
append_all-last lines (line ∷ buffered) h =
    append_all-last (append_line lines line) buffered (length-last max_lines (lines ++ line ∷ []))
    ∙ last-last-append max_lines (lines ++ line ∷ []) buffered
    ∙ ap (last max_lines) (append_assoc lines (line ∷ []) buffered)

-- No line waits, or the spinner still does.
abbrev pub IsOrdered : App → Type 0
IsOrdered a = (a.buffered_lines ≡ []) ⊎ (a.spinner.pending_stop ≡ true)

abbrev pub transcript : App → List StyledLine
transcript a = last max_lines (a.lines ++ a.buffered_lines)

append-nil_between :
    (lines : List StyledLine) (line : StyledLine) (buffered : List StyledLine)
    → buffered ≡ []
    → (lines ++ line ∷ []) ++ buffered ≡ (lines ++ buffered) ++ line ∷ []
append-nil_between lines line buffered e =
    rw e (append-nil (lines ++ line ∷ []) ∙ ap (λ z. z ++ line ∷ []) (sym (append-nil lines)))

add_line-transcript :
    (line : StyledLine) (a : App)
    → IsOrdered a
    → transcript (add_line line a) ≡ last max_lines (transcript a ++ line ∷ [])
unfolding add_line
add_line-transcript line a h =
    if-cases (λ b. transcript b ≡ last max_lines (transcript a ++ line ∷ [])) a.spinner.pending_stop
      (λ e.
        last-append-last max_lines a.lines (a.buffered_lines ++ line ∷ [])
        ∙ ap (last max_lines) (sym (append_assoc a.lines a.buffered_lines (line ∷ [])))
        ∙ sym (last-last-append max_lines (a.lines ++ a.buffered_lines) (line ∷ [])))
      (λ e. elim h [
        | inl empty ↦
            last-last-append max_lines (a.lines ++ line ∷ []) a.buffered_lines
            ∙ ap (last max_lines) (append-nil_between a.lines line a.buffered_lines empty)
            ∙ sym (last-last-append max_lines (a.lines ++ a.buffered_lines) (line ∷ []))
        | inr pending ↦ cc
      ])

add_line-IsOrdered : (line : StyledLine) (a : App) → IsOrdered a → IsOrdered (add_line line a)
unfolding add_line
add_line-IsOrdered line a h = ground arith

add_lines-transcript :
    (lines : List StyledLine) (a : App)
    → IsOrdered a
    → transcript (add_lines lines a) ≡ last max_lines (transcript a ++ lines)
unfolding add_lines
add_lines-transcript [] a h = sym (
    ap (last max_lines) (append-nil (transcript a))
    ∙ last-short max_lines (transcript a) (length-last max_lines (a.lines ++ a.buffered_lines)))
add_lines-transcript (line ∷ lines) a h =
    add_lines-transcript lines (add_line line a) (add_line-IsOrdered line a h)
    ∙ ap (λ z. last max_lines (z ++ lines)) (add_line-transcript line a h)
    ∙ last-last-append max_lines (transcript a ++ line ∷ []) lines
    ∙ ap (last max_lines) (append_assoc (transcript a) (line ∷ []) lines)

-- In an app that keeps its bounds, and where no lines wait or the spinner that they wait for is still
-- to end, the lines that addLine is given appear in their order behind those before, once those that
-- wait are flushed, and the last 200 of all stay. Lines that are appended past addLine are not meant.
pub flush-add_lines :
    (lines : List StyledLine) (a : App)
    → IsCoherent a
    → IsOrdered a
    → (flush_buffered_lines (add_lines lines a)).lines
      ≡ last max_lines ((a.lines ++ a.buffered_lines) ++ lines)
unfolding flush_buffered_lines
flush-add_lines lines a h ordered =
    append_all-last (add_lines lines a).lines (add_lines lines a).buffered_lines
      (add_lines-IsCoherent lines a h).lines_bounded
    ∙ add_lines-transcript lines a ordered
    ∙ last-last-append max_lines (a.lines ++ a.buffered_lines) lines
