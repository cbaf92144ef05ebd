-- ===== src/Container/OptionalPorts.antt =====
-- internal/container/start.go: host ports that lstk publishes on its own, which a start can do
-- without: `requiredHostPorts`, `dropBusyOptionalPorts`, `failedOptionalPortBind`,
-- `startWithOptionalPortFallback`.
pub mod Laws
pub mod Fallback
pub mod Busy
use lstk.Text.Search.{contains}
use lstk.Ports.{PortMapping}
use lstk.Prelude.{
  drop, take, ℕ, zero, suc, ◌+◌, ◌-◌, ◌≤◌, ◌<◌, ◌≡◌, refl, sym, ap, ◌∙◌, ◌≢◌, ◌↔◌, ◌⊎◌, inl, inr,
  Bool, true, false, not, ◌&&◌, ◌||◌, Option, none, some, List, [], ◌∷◌, ◌++◌, map, arith, ltb, leb,
  ◌==◌, nat_eq, all, any, All, if◌then◌else◌, Bool-cases, Result, ok, err, ◌>>=◌,
}
use lstk.Text.Basic.{Text, codes, text_eq, text_beq_iff}

-- `portDropCause`
pub data DropCause : Type 0 where
  port_busy port_bind_denied : DropCause

-- A port that the start goes on without, and why.
pub record DropWarning : Type 0 where
  pub port : Text
  pub cause : DropCause

-- `requiredHostPorts`
unfoldable pub required_host_ports : List PortMapping → List Text
required_host_ports [] = []
required_host_ports (ep ∷ mappings) =
    let rest = required_host_ports mappings in
    if not ep.optional && not (ep.protocol == codes "udp") then ep.host_port ∷ rest else rest

-- The variables of `dropBusyOptionalPorts`; `before` is `mappings[:i]`.
pub record Drop : Type 0 where
  pub before : List PortMapping
  pub kept : List PortMapping
  pub dropped : Bool
  pub warnings : List DropWarning

module _ (is_available : Text → Bool) where
  -- The body of its loop.
  unfoldable pub drop_one : PortMapping → Drop → Drop
  drop_one ep st =
      if ep.optional && not (is_available ep.host_port)
      then record {
        before = st.before ++ ep ∷ [];
        kept = if not st.dropped then st.kept ++ st.before else st.kept;
        dropped = true;
        warnings = st.warnings ++ record { port = ep.host_port; cause = port_busy } ∷ [];
      }
      else record {
        before = st.before ++ ep ∷ [];
        kept = if st.dropped then st.kept ++ ep ∷ [] else st.kept;
        dropped = st.dropped;
        warnings = st.warnings;
      }

  unfoldable pub drop_all : List PortMapping → Drop → Drop
  drop_all [] st = st
  drop_all (ep ∷ mappings) st = drop_all mappings (drop_one ep st)

  abbrev pub drop_start : Drop
  drop_start = record { before = []; kept = []; dropped = false; warnings = [] }

  -- `dropBusyOptionalPorts`
  unfoldable pub drop_busy_optional_ports : List PortMapping → List PortMapping × List DropWarning
  unfolding drop_all
  drop_busy_optional_ports mappings =
      let st = drop_all mappings drop_start in
      (if not st.dropped then mappings else st.kept, st.warnings)

-- How a daemon's error text names a port that it could not bind.
abbrev pub bind_text : Text → Text
bind_text port = codes ":" ++ (port ++ codes ": bind:")

-- The loop of `failedOptionalPortBind`; `none` stands for -1.
unfoldable pub failed_bind_loop : Text → List PortMapping → Option ℕ
failed_bind_loop text [] = none
failed_bind_loop text (ep ∷ mappings) =
    let rest = failed_bind_loop text mappings in
    if ep.optional && contains text (bind_text ep.host_port)
    then some 0
    else elim rest [ none ↦ none | some i ↦ some (suc i) ]

unfoldable pub failed_optional_port_bind : Text → List PortMapping → Option ℕ
unfolding failed_bind_loop
failed_optional_port_bind text mappings =
    if not (contains text (codes "bind:")) then none else failed_bind_loop text mappings

abbrev pub port_at : ℕ → List PortMapping → Text
port_at n [] = []
port_at zero (ep ∷ mappings) = ep.host_port
port_at (suc n) (ep ∷ mappings) = port_at n mappings

abbrev pub remove_at : ℕ → List PortMapping → List PortMapping
remove_at i mappings = take i mappings ++ drop (suc i) mappings

-- How the start of a container ended: running with the ports that are left, refused by the daemon,
-- or refused with the container of the attempt left behind. The remedy that
-- `annotateRequiredPortBindError` appends to the text of a refusal is left out.
pub data Outcome : Type 0 where
  started : Text → List PortMapping → Outcome
  refused : Text → List PortMapping → Outcome
  leftover : Text → Outcome

-- What one attempt comes to: the end, with the warning it may have given, or another attempt with
-- fewer ports.
pub data Round {ℓ} (S : Type ℓ) : Type ℓ where
  finished : Outcome → List DropWarning → S → Round S
  again : DropWarning → List PortMapping → S → Round S

-- The runtime, which is the daemon's: `start` answers with an identity or an error text, `remove`
-- with whether it succeeded, and each changes the daemon's state.
module _ {ℓ} {S : Type ℓ} (start : S → List PortMapping → Result Text Text × S)
    (remove : S → Bool × S) where
  abbrev pub cause_of : Text → DropCause
  cause_of text = if contains text (codes "permission denied") then port_bind_denied else port_busy

  abbrev pub warning_at : Text → ℕ → List PortMapping → DropWarning
  warning_at text i ports = record { port = port_at i ports; cause = cause_of text }

  unfoldable pub after_remove : Text → ℕ → List PortMapping → Bool × S → Round S
  after_remove text i ports (true, s) = again (warning_at text i ports) (remove_at i ports) s
  after_remove text i ports (false, s) = finished (leftover text) (warning_at text i ports ∷ []) s

  unfoldable pub after_bind : Text → List PortMapping → S → Option ℕ → Round S
  unfolding after_remove
  after_bind text ports s none = finished (refused text ports) [] s
  after_bind text ports s (some i) = after_remove text i ports (remove s)

  unfoldable pub after_start : List PortMapping → Result Text Text × S → Round S
  unfolding after_bind failed_optional_port_bind
  after_start ports (ok id, s) = finished (started id ports) [] s
  after_start ports (err text, s) = after_bind text ports s (failed_optional_port_bind text ports)

  abbrev pub prepend_warning :
      DropWarning
      → Option (Outcome × List DropWarning × S)
      → Option (Outcome × List DropWarning × S)
  prepend_warning w none = none
  prepend_warning w (some (o, ws, s)) = some (o, w ∷ ws, s)

  -- What follows a round; `retry` is the loop from the next one on.
  unfoldable pub continue_with :
      (S → List PortMapping → Option (Outcome × List DropWarning × S))
      → Round S
      → Option (Outcome × List DropWarning × S)
  continue_with retry (finished o ws s) = some (o, ws, s)
  continue_with retry (again w ports s) = prepend_warning w (retry s ports)

  -- `startWithOptionalPortFallback`, each round of whose loop takes one unit of fuel; `none` if it
  -- runs out.
  unfoldable pub start_with_optional_port_fallback :
      ℕ → S → List PortMapping → Option (Outcome × List DropWarning × S)
  unfolding after_start continue_with
  start_with_optional_port_fallback zero s ports = none
  start_with_optional_port_fallback (suc fuel) s ports =
      continue_with (start_with_optional_port_fallback fuel) (after_start ports (start s ports))
