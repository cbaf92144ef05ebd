-- ===== src/Container/Select/Ready.antt =====
-- internal/container/start.go: a container that `selectContainersToStart` lets through can get its
-- ports.
use lstk.Container.OptionalPorts.{drop_busy_optional_ports, required_host_ports}
use lstk.Config.Emulators.{emulator_type_for_image}
use lstk.Ports.{PortMapping}
use lstk.Container.Select.{publish, on_edge, with_ports, occupied, judge_running}
use lstk.Text.Basic.{text_eq, Text}
use lstk.Prelude.{
  refl, arith, ◌&&◌, arith, true, ◌==◌, not, all, [], some, ◌∷◌, none, List, Bool, ◌≡◌, Result,
  Option,
}
use lstk.Container.Actions.{pure, fail}
use lstk.Container.Actions.Outcomes.{Ends, returns, fails, if-Ends}
use lstk.Container.Outside.{
  running_elsewhere, emulator_mismatch, RunningContainer, StartError, Container, Outside,
}
use lstk.Ports.Available.{check_available, is_free}
use lstk.Container.OptionalPorts.Busy.{
  drop_busy_optional_ports-publishable, required_host_ports-drop_busy_optional_ports, is_busy,
  publishable,
}

-- A container with the settings of `c` whose host port and required ports are free in a state, and
-- that publishes no optional port that is busy.
pub record IsReady {S : Type 0} (outside : Outside S) (c : Container) (s : S) (chosen : Container)
    : Type 0 where
  pub settings : chosen ≡ with_ports chosen.extra_ports c
  pub edge_free : check_available (outside.port_free s) (c.port ∷ []) ≡ none
  pub required_free :
      check_available (outside.port_free s) (required_host_ports chosen.extra_ports) ≡ none
  pub optional_free :
      all (λ m. not (is_busy (is_free (outside.port_free s)) m)) chosen.extra_ports ≡ true

pub data Chosen {S : Type 0} (outside : Outside S) (c : Container) (s : S)
    : Option Container → Type 0 where
  nothing : Chosen outside c s none
  ready : (chosen : Container) → IsReady outside c s chosen → Chosen outside c s (some chosen)

publishable-free :
    (free : Text → Bool) (mappings : List PortMapping)
    → all (λ m. not (is_busy free m)) (publishable free mappings) ≡ true
publishable-free free [] = refl
publishable-free free (m ∷ mappings) = ground (arith, publishable-free free mappings)

drop_busy-free :
    (free : Text → Bool) (mappings : List PortMapping)
    → all (λ m. not (is_busy free m)) (drop_busy_optional_ports free mappings).0 ≡ true
drop_busy-free free mappings =
    rw (drop_busy_optional_ports-publishable free mappings) (publishable-free free mappings)

module _ {S : Type 0} (outside : Outside S) where
  -- A run that changes nothing, and what it chooses.
  abbrev pub Judges : Container → S → Result StartError (Option Container) × S → Type 0
  Judges c s r = Ends (λ chosen s'. (s ≡ s') × Chosen outside c s' chosen) (λ e s'. s ≡ s') r

  occupied-Judges :
      (c : Container) (info : Option Text) (s : S) → Judges c s (occupied outside c info s)
  occupied-Judges c none s = fails _ _ refl
  occupied-Judges c (some version) s = returns _ _ (refl, nothing)

  publish-Judges :
      (c : Container) (conflict : Option Text) (s : S)
      → check_available (outside.port_free s) (c.port ∷ []) ≡ none
      → check_available (outside.port_free s) (required_host_ports c.extra_ports) ≡ conflict
      → Judges c s (publish outside c conflict s)
  publish-Judges c (some port) s edge required = fails _ _ refl
  publish-Judges c none s edge required =
      let free = is_free (outside.port_free s) in
      returns _ _ (
        refl,
        ready _ (record {
          settings = refl;
          edge_free = edge;
          required_free =
              rw (required_host_ports-drop_busy_optional_ports free c.extra_ports) required;
          optional_free = drop_busy-free free c.extra_ports;
        }),
      )

  on_edge-Judges :
      (c : Container) (busy : Option Text) (s : S)
      → check_available (outside.port_free s) (c.port ∷ []) ≡ busy
      → Judges c s (on_edge outside c busy s)
  on_edge-Judges c (some port) s edge = occupied-Judges c _ s
  on_edge-Judges c none s edge = publish-Judges c _ s edge refl

  pub judge_running-Judges :
      (c : Container) (found : Option RunningContainer) (s : S)
      → Judges c s (judge_running outside c found s)
  unfolding judge_running
  judge_running-Judges c none s = on_edge-Judges c _ s refl
  judge_running-Judges c (some found) s =
      let type = emulator_type_for_image found.image in
      if-Ends (not (type == []) && not (type == c.emulator))
        (fail (emulator_mismatch found.bound_port)) _ s (λ h. fails _ _ refl)
        (λ h.
          if-Ends (not (found.bound_port == c.port)) (fail (running_elsewhere found.bound_port))
            (pure none) s (λ h'. fails _ _ refl) (λ h'. returns _ _ (refl, nothing)))
