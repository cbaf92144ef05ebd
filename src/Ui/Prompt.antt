-- ===== src/Ui/Prompt.antt =====
-- The prompts of the terminal UI: internal/output/prompt.go, the prompts of
-- internal/output/plain_format.go and internal/ui/components/input_prompt.go.
use lstk.Text.Search.{split, join}
use lstk.Text.Basic.{Text, codes, text_eq}
use lstk.Prelude.{
  ◌-◌, ◌+◌, ◌&&◌, ℕ, Bool, true, false, Option, List, [], ◌∷◌, ◌++◌, length, ltb, ◌==◌, ◌||◌,
  if◌then◌else◌,
}

pub record InputOption : Type 0 where
  pub key : Text
  pub label : Text

pub record InputResponse : Type 0 where
  pub selected_key : Text
  pub cancelled : Bool

-- `UserInputRequestEvent`; a channel is its identity, or none if it is nil.
pub record InputRequest : Type 0 where
  pub prompt : Text
  pub options : List InputOption
  pub response_ch : Option ℕ
  pub vertical : Bool

-- `KeyAny`
abbrev pub key_any : Text
key_any = codes "any"

pub data ConfirmDefault : Type 0 where
  default_yes default_no : ConfirmDefault

abbrev pub yes_no : Text → Text → List InputOption
yes_no y n = record { key = codes "y"; label = y } ∷ record { key = codes "n"; label = n } ∷ []

-- `Confirm`
unfoldable pub confirm : Text → ConfirmDefault → Option ℕ → InputRequest
confirm prompt default_yes ch = record {
  prompt = prompt;
  options = yes_no (codes "Y") (codes "n");
  response_ch = ch;
  vertical = false;
}
confirm prompt default_no ch = record {
  prompt = prompt;
  options = yes_no (codes "y") (codes "N");
  response_ch = ch;
  vertical = false;
}

-- `ActionChoice`
abbrev pub action_choice : Text → List InputOption → Option ℕ → InputRequest
action_choice prompt options ch = record {
  prompt = prompt;
  options = options;
  response_ch = ch;
  vertical = true;
}

-- `Acknowledge`
abbrev pub acknowledge : Text → Text → Option ℕ → InputRequest
acknowledge prompt label ch = record {
  prompt = prompt;
  options = record { key = key_any; label = label } ∷ [];
  response_ch = ch;
  vertical = false;
}

-- `namedShortcuts`, and what `shortcut` makes of any other key.
abbrev pub named_shortcut : Text → Text → Text
named_shortcut key upper =
    if key == codes "enter"
    then codes "ENTER"
    else if key == codes "esc"
    then codes "ESC"
    else if key == codes "space"
    then codes "SPACE"
    else if key == codes "tab"
    then codes "TAB"
    else upper

-- `appendPromptSuffix`
abbrev pub with_suffix : List Text → Text → List Text
with_suffix [] suffix = suffix ∷ []
with_suffix (line ∷ lines) suffix = (line ++ suffix) ∷ lines

unfoldable pub append_prompt_suffix : Text → Text → Text
append_prompt_suffix prompt suffix = join (with_suffix (split prompt 10) suffix) (codes "\n")

-- `FormatPromptLabels`
unfoldable pub labels_of : List InputOption → List Text
labels_of [] = []
labels_of (opt ∷ options) =
    let rest = labels_of options in if opt.label == [] then rest else opt.label ∷ rest

abbrev pub label_suffix : List Text → Text
label_suffix [] = []
label_suffix (l ∷ []) = codes " (" ++ (l ++ codes ")")
label_suffix (l ∷ m ∷ labels) = codes " [" ++ (join (l ∷ m ∷ labels) (codes "/") ++ codes "]")

unfoldable pub format_prompt_labels : List InputOption → Text
unfolding labels_of
format_prompt_labels options = label_suffix (labels_of options)

-- `FormatPrompt`
unfoldable pub format_prompt : Text → List InputOption → Text
unfolding append_prompt_suffix format_prompt_labels
format_prompt prompt options = append_prompt_suffix prompt (format_prompt_labels options)

abbrev pub slash_suffix : List Text → Text
slash_suffix [] = []
slash_suffix (l ∷ labels) = codes " " ++ join (l ∷ labels) (codes " / ")

-- `strings.ToUpper` is a parameter.
module _ (to_upper : Text → Text) where
  unfoldable pub shortcut : Text → Text
  shortcut key = if key == [] || key == key_any then [] else named_shortcut key (to_upper key)

  -- `OptionLabel`
  unfoldable pub option_label : InputOption → Text
  unfolding shortcut
  option_label opt =
      if shortcut opt.key == []
      then opt.label
      else if opt.label == []
      then codes "[" ++ (shortcut opt.key ++ codes "]")
      else codes "[" ++ (shortcut opt.key ++ (codes "] " ++ opt.label))

  unfoldable pub option_labels : List InputOption → List Text
  unfolding option_label
  option_labels [] = []
  option_labels (opt ∷ options) =
      let rest = option_labels options in
      if option_label opt == [] then rest else option_label opt ∷ rest

  -- `FormatPromptEvent`
  unfoldable pub format_prompt_event : InputRequest → Text
  unfolding option_labels format_prompt append_prompt_suffix
  format_prompt_event e =
      if e.vertical
      then append_prompt_suffix e.prompt (slash_suffix (option_labels e.options))
      else format_prompt e.prompt e.options

-- internal/ui/components/input_prompt.go
pub record InputPrompt : Type 0 where
  pub prompt : Text
  pub options : List InputOption
  pub visible : Bool
  pub selected_index : ℕ
  pub vertical : Bool

-- `NewInputPrompt`
abbrev pub new_input_prompt : InputPrompt
new_input_prompt = record {
  prompt = [];
  options = [];
  visible = false;
  selected_index = 0;
  vertical = false;
}

-- `Show`
abbrev pub show_prompt : InputRequest → InputPrompt
show_prompt e = record {
  prompt = e.prompt;
  options = e.options;
  visible = true;
  selected_index = 0;
  vertical = e.vertical;
}

-- `Hide`
abbrev pub hide_prompt : InputPrompt → InputPrompt
hide_prompt p = record p { visible = false }

-- `SetSelectedIndex` at the index above, which is -1 at the top, and at the one below.
unfoldable pub select_previous : InputPrompt → InputPrompt
select_previous p =
    if ltb 0 p.selected_index && ltb (p.selected_index - 1) (length p.options)
    then record p { selected_index = p.selected_index - 1 }
    else p

unfoldable pub select_next : InputPrompt → InputPrompt
select_next p =
    if ltb (p.selected_index + 1) (length p.options)
    then record p { selected_index = p.selected_index + 1 }
    else p
