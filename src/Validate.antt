-- ===== src/Validate.antt =====
-- internal/validate/validate.go: validators of user-supplied values.
-- An error is its field and its rule; the text of the message is left out. A validator returns
-- `none` for Go's `nil`.
pub mod Names
pub mod Services
use lstk.Prelude.{
  String, ℕ, suc, ◌≡◌, Bool, true, false, not, ◌&&◌, ◌||◌, Option, none, some, List, [], ◌∷◌, map,
  ltb, ◌==◌, nat_eq, all, any, if◌then◌else◌, Result, ok, err,
}
use lstk.Text.Basic.{
  Text, codes, is_alnum, is_digit, is_lower, is_upper, is_control, is_space, byte_len,
}
use lstk.Text.Search.{contains_char, contains_any, split, trim_space}

pub data Rule : Type 0 where
  empty control_chars encoding embedded metachars format range : Rule

pub record Error : Type 0 where
  pub field : String
  pub rule : Rule

abbrev pub new_error : String → Rule → Option Error
new_error field rule = some (record { field = field; rule = rule })

abbrev pub is_empty : Text → Bool
is_empty [] = true
is_empty (c ∷ s) = false

-- A control character other than tab, newline and carriage return.
abbrev pub denied_control : ℕ → Bool
denied_control r = not (r == 9 || r == 10 || r == 13) && is_control r

unfoldable pub contains_control_chars : Text → Bool
contains_control_chars s = any denied_control s

unfoldable pub no_control_chars : String → Text → Option Error
no_control_chars field value =
    if contains_control_chars value then new_error field control_chars else none

-- `^[a-zA-Z_][a-zA-Z0-9_]*$`
unfoldable pub env_var_key_matches : Text → Bool
env_var_key_matches [] = false
env_var_key_matches (c ∷ s) =
    (is_lower c || is_upper c || c == b'_') && all (λ d. is_alnum d || d == b'_') s

unfoldable pub env_var_name : Text → Option Error
env_var_name name = if env_var_key_matches name then none else new_error "env" format

-- `^[a-zA-Z0-9_-]+$`
abbrev pub pod_char : ℕ → Bool
pod_char c = is_alnum c || c == b'_' || c == b'-'

unfoldable pub pod_name_matches : Text → Bool
pod_name_matches value = not (is_empty value) && all pod_char value

abbrev pub shell_meta_chars : Text
shell_meta_chars = codes ";&|$`<>(){}[]!*'~\\\""

unfoldable pub pod_name : Text → Option Error
unfolding pod_name_matches
pod_name value =
    if is_empty value
    then new_error "pod name" empty
    else if contains_control_chars value
    then new_error "pod name" control_chars
    else if contains_char value b'%'
    then new_error "pod name" encoding
    else if contains_any value (codes "/?#")
    then new_error "pod name" embedded
    else if contains_any value shell_meta_chars
    then new_error "pod name" metachars
    else if ltb 128 (byte_len value)
    then new_error "pod name" range
    else if not (pod_name_matches value)
    then new_error "pod name" format
    else none

-- `^[a-zA-Z0-9][a-zA-Z0-9_.-]*$`
abbrev pub container_char : ℕ → Bool
container_char c = is_alnum c || c == b'_' || c == b'.' || c == b'-'

unfoldable pub container_name_matches : Text → Bool
container_name_matches [] = false
container_name_matches (c ∷ s) = is_alnum c && all container_char s

unfoldable pub container_name : Text → Option Error
container_name value =
    if is_empty value
    then new_error "container name" empty
    else if contains_control_chars value
    then new_error "container name" control_chars
    else if contains_char value b'%'
    then new_error "container name" encoding
    else if contains_any value (codes "/?#")
    then new_error "container name" embedded
    else if contains_any value shell_meta_chars
    then new_error "container name" metachars
    else if ltb 128 (byte_len value)
    then new_error "container name" range
    else if not (container_name_matches value)
    then new_error "container name" format
    else none

-- `^\d{12}$`: twelve characters, all of them digits.
unfoldable pub aws_account_id_matches : Text → Bool
aws_account_id_matches value = all is_digit value && (byte_len value == 12)

unfoldable pub aws_account_id : Text → Option Error
unfolding aws_account_id_matches
aws_account_id value =
    if is_empty value
    then new_error "account" empty
    else if contains_control_chars value
    then new_error "account" control_chars
    else if not (byte_len value == 12)
    then new_error "account" range
    else if not (aws_account_id_matches value)
    then new_error "account" format
    else none

-- `\s` and `[\w-]` of Go's regular expressions.
unfoldable pub regex_space : ℕ → Bool
regex_space c = c == 9 || c == 10 || c == 12 || c == 13 || c == 32

unfoldable pub word_char : ℕ → Bool
word_char c = is_alnum c || c == b'_' || c == b'-'

-- The automaton of `^\s*[\w-]+(\s*,\s*[\w-]+)*\s*$`. Its states: in the spaces before a word,
-- inside a word, in the spaces behind one.
pub data Phase : Type 0 where
  before inside behind : Phase

unfoldable pub service_list_run : Phase → Text → Bool
service_list_run before [] = false
service_list_run inside [] = true
service_list_run behind [] = true
service_list_run before (c ∷ s) =
    let skip = service_list_run before s in
    let word = service_list_run inside s in
    if regex_space c then skip else if word_char c then word else false
service_list_run inside (c ∷ s) =
    let word = service_list_run inside s in
    let gap = service_list_run behind s in
    let next = service_list_run before s in
    if word_char c then word else if regex_space c then gap else if c == b',' then next else false
service_list_run behind (c ∷ s) =
    let gap = service_list_run behind s in
    let next = service_list_run before s in
    if regex_space c then gap else if c == b',' then next else false

unfoldable pub service_list_matches : Text → Bool
service_list_matches = service_list_run before

-- `(nil, nil)` and an empty slice are one value.
unfoldable pub service_list : Text → Result Error (List Text)
service_list value =
    if is_empty value
    then ok []
    else if not (service_list_matches value)
    then err (record { field = "services"; rule = format })
    else ok (map trim_space (split value b','))

-- The loop over the runes of a token.
unfoldable pub auth_token_scan : Text → Option Error
auth_token_scan [] = none
auth_token_scan (r ∷ value) =
    let rest = auth_token_scan value in
    if is_control r
    then new_error "auth token" control_chars
    else if is_space r
    then new_error "auth token" format
    else rest

unfoldable pub auth_token : Text → Option Error
unfolding auth_token_scan
auth_token value = if is_empty value then none else elim (auth_token_scan value) [
  | some e ↦ some e
  | none ↦ if ltb 1024 (byte_len value) then new_error "auth token" range else none
]
