-- ===== src/Ui/Coherent/Keys.antt =====
-- internal/ui/app.go: keys keep the terminal UI coherent.
use lstk.Ui.Coherent.{LeavesCoherent, IsCoherent, Shows, IsSelected}
use lstk.Ui.Keys.{key_other}
use lstk.Ui.Keys.{
  key_enter, key_down, key_up, resolve_option, format_resolved_input, KeyMsg, KeyType, Letters,
}
use lstk.Ui.Update.{
  skip_or_prompt, choose_inline, prompt_key, update_key, choose_or_stay, enter_row, option_at,
  resolve_row, choose_row, interrupt, handle_vertical_prompt_key,
}
use lstk.Ui.App.{plain_line, max_lines, App}
use lstk.Ui.Prompt.{select_next, select_previous, InputOption, InputRequest, InputPrompt}
use lstk.Prelude.{
  refl, ◌||◌, ◌==◌, if-cases, length-last, ◌≡◌, Option, none, some, [], ◌∷◌, ◌++◌, arith, nat_eq,
}
use lstk.Text.Basic.{codes, text_eq}

pub interrupt-IsCoherent :
    (a : App) (o : Option InputRequest)
    → a.pending_input ≡ o
    → IsCoherent a
    → IsCoherent (interrupt a o).0
interrupt-IsCoherent a none e h = ground (arith, e)
interrupt-IsCoherent a (some req) e h = ground (arith, e)

pub choose_row-IsCoherent :
    (a : App) (req : InputRequest) (opt : InputOption)
    → IsCoherent a
    → IsCoherent (choose_row a req opt).0
choose_row-IsCoherent a req opt h =
    ground (
      arith,
      length-last max_lines (a.lines ++ plain_line (format_resolved_input req opt.key) ∷ []),
    )

pub resolve_row-IsCoherent :
    (letters : Letters) (a : App) (req : InputRequest) (key : KeyMsg)
    → IsCoherent a
    → IsCoherent (resolve_row letters a req key).0
resolve_row-IsCoherent letters a req key h =
    elim (resolve_option letters req.options key)
      as (λ o. IsCoherent (choose_or_stay a (choose_row a req) o).0) [
        | none ↦ h
        | some opt ↦ choose_row-IsCoherent a req opt h
      ]

pub move-IsCoherent :
    (a : App) (p : InputPrompt)
    → IsCoherent a
    → Shows p a.pending_input
    → IsSelected p
    → IsCoherent (record a { input_prompt = p })
move-IsCoherent a p h shows selected = record {
  shows = shows;
  selected = selected;
  lines_bounded = h.lines_bounded;
  buffer_bounded = h.buffer_bounded;
}

pub select_previous-Shows :
    (p : InputPrompt) (o : Option InputRequest) → Shows p o → Shows (select_previous p) o
unfolding select_previous
select_previous-Shows p none h = ground arith
select_previous-Shows p (some req) h = ground arith

pub select_next-Shows :
    (p : InputPrompt) (o : Option InputRequest) → Shows p o → Shows (select_next p) o
unfolding select_next
select_next-Shows p none h = ground arith
select_next-Shows p (some req) h = ground arith

select_previous-IsSelected : (p : InputPrompt) → IsSelected p → IsSelected (select_previous p)
unfolding select_previous
select_previous-IsSelected p h = ground arith

select_next-IsSelected : (p : InputPrompt) → IsSelected p → IsSelected (select_next p)
unfolding select_next
select_next-IsSelected p h = ground arith

pub vertical-IsCoherent :
    (letters : Letters) (type : KeyType) (a : App) (req : InputRequest) (key : KeyMsg)
    → IsCoherent a
    → IsCoherent (handle_vertical_prompt_key letters type a req key).0
unfolding handle_vertical_prompt_key
vertical-IsCoherent letters key_up a req key h =
    move-IsCoherent a (select_previous a.input_prompt) h
      (select_previous-Shows a.input_prompt a.pending_input h.shows)
      (select_previous-IsSelected a.input_prompt h.selected)
vertical-IsCoherent letters key_down a req key h =
    move-IsCoherent a (select_next a.input_prompt) h
      (select_next-Shows a.input_prompt a.pending_input h.shows)
      (select_next-IsSelected a.input_prompt h.selected)
vertical-IsCoherent letters key_enter a req key h =
    elim (option_at req.options a.input_prompt.selected_index)
      as (λ o. IsCoherent (enter_row letters a req key o).0) [
        | none ↦ resolve_row-IsCoherent letters a req key h
        | some opt ↦ choose_row-IsCoherent a req opt h
      ]
vertical-IsCoherent letters key_other a req key h = resolve_row-IsCoherent letters a req key h

pub prompt_key-IsCoherent :
    (letters : Letters) (a : App) (key : KeyMsg) (o : Option InputRequest)
    → IsCoherent a
    → IsCoherent (prompt_key letters a key o).0
prompt_key-IsCoherent letters a key none h = h
prompt_key-IsCoherent letters a key (some req) h =
    if-cases LeavesCoherent req.vertical (λ e. vertical-IsCoherent letters key.type a req key h)
      (λ e.
        elim (resolve_option letters req.options key)
          as (λ o. IsCoherent (choose_or_stay a (choose_inline a req) o).0) [
            | none ↦ h
            | some opt ↦ ground arith
          ])

pub update_key-IsCoherent :
    (letters : Letters) (a : App) (key : KeyMsg)
    → IsCoherent a
    → IsCoherent (update_key letters a key).0
unfolding update_key
update_key-IsCoherent letters a key h =
    if-cases LeavesCoherent (key.name == codes "ctrl+c" || key.name == codes "q")
      (λ e. interrupt-IsCoherent a a.pending_input refl h)
      (λ e. elim a.pull_skip as (λ o. IsCoherent (skip_or_prompt letters a key o).0) [
        | none ↦ prompt_key-IsCoherent letters a key a.pending_input h
        | some ch ↦
            if-cases LeavesCoherent (key.name == codes "esc")
              (λ e. record {
                shows = h.shows;
                selected = h.selected;
                lines_bounded = h.lines_bounded;
                buffer_bounded = h.buffer_bounded;
              })
              (λ e. prompt_key-IsCoherent letters a key a.pending_input h)
      ])
