-- ===== src/Container/OptionalPorts/Fallback.antt =====
-- internal/container/start.go: `startWithOptionalPortFallback` ends, and starts the emulator with
-- all that is required.
use lstk.Container.OptionalPorts.Laws.{after_start-started, after_start-again, required}
use lstk.Container.OptionalPorts.{
  prepend_warning, started, finished, again, after_start, Round, Outcome, DropWarning,
  continue_with, start_with_optional_port_fallback,
}
use lstk.Ports.{PortMapping}
use lstk.Prelude.{
  length, ℕ, zero, suc, ◌+◌, ◌<◌, ◌≡◌, refl, ◌∙◌, Bool, Option, none, some, List, [], ◌∷◌, arith,
  nat_eq, Result,
}
use lstk.Text.Basic.{Text, text_eq}

-- What a start that succeeded has kept: all mandatory mappings, and all but one per warning.
pub record IsKept (ports kept : List PortMapping) (ws : List DropWarning) : Type 0 where
  pub required_eq : required kept ≡ required ports
  pub length_eq : length kept + length ws ≡ length ports

module _ {ℓ} {S : Type ℓ} (start : S → List PortMapping → Result Text Text × S)
    (remove : S → Bool × S) where
  continue-ends :
      (retry : S → List PortMapping → Option (Outcome × List DropWarning × S)) (r : Round S)
      → ((w : DropWarning) (ports : List PortMapping) (s : S)
          → r ≡ again w ports s
          → (o : Outcome × List DropWarning × S) × (retry s ports ≡ some o))
      → (o : Outcome × List DropWarning × S) × (continue_with start remove retry r ≡ some o)
  unfolding continue_with
  continue-ends retry (finished o ws s) h = ((o, ws, s), refl)
  continue-ends retry (again w ports s) h =
      let ((o, ws, s'), e) = h w ports s refl in ((o, w ∷ ws, s'), rw e refl)

  -- The loop ends, whatever the daemon answers: fuel for one round more than there are mappings is
  -- enough.
  pub fallback_ends :
      (fuel : ℕ) (s : S) (ports : List PortMapping)
      → length ports < fuel
      → (r : Outcome × List DropWarning × S) × (start_with_optional_port_fallback start remove fuel
            s ports
          ≡ some r)
  unfolding start_with_optional_port_fallback
  fallback_ends zero s ports h = ground arith
  fallback_ends (suc fuel) s ports h =
      continue-ends (start_with_optional_port_fallback start remove fuel)
        (after_start start remove ports (start s ports))
        (λ w ports' s' e.
          let (_, shorter) = after_start-again start remove ports (start s ports) e in
          fallback_ends fuel s' ports' (omega (arith, shorter, h)))

  prepend-eq-some :
      (w : DropWarning) (m : Option (Outcome × List DropWarning × S)) {o : Outcome}
      {ws : List DropWarning} {s : S}
      → prepend_warning start remove w m ≡ some (o, ws, s)
      → (ws' : List DropWarning) × (ws ≡ w ∷ ws') × (m ≡ some (o, ws', s))
  prepend-eq-some w none h = cc
  prepend-eq-some w (some (o, ws, s)) h = (ws, cc, cc)

  keeps_one :
      {ports ports' kept : List PortMapping} (w : DropWarning) (ws : List DropWarning)
      → (required ports' ≡ required ports) × (suc (length ports') ≡ length ports)
      → IsKept ports' kept ws
      → IsKept ports kept (w ∷ ws)
  keeps_one w ws (r, l) k = record {
    required_eq = k.required_eq ∙ r;
    length_eq = omega (arith, l, k.length_eq);
  }

  continue-IsKept :
      (retry : S → List PortMapping → Option (Outcome × List DropWarning × S)) (r : Round S)
      (ports : List PortMapping) {id : Text} {kept : List PortMapping} {ws : List DropWarning}
      {s' : S}
      → ((ws' : List DropWarning)
          → r ≡ finished (started id kept) ws' s'
          → (kept ≡ ports) × (ws' ≡ []))
      → ((w : DropWarning) (ports' : List PortMapping) (s : S) (ws' : List DropWarning)
          → r ≡ again w ports' s
          → retry s ports' ≡ some (started id kept, ws', s')
          → IsKept ports kept (w ∷ ws'))
      → continue_with start remove retry r ≡ some (started id kept, ws, s')
      → IsKept ports kept ws
  unfolding continue_with
  continue-IsKept retry (finished o ws₀ s) ports {id} {kept} {ws} {s'} f g h =
      let (e, e') = f ws (cc) in rw (e, e') (record { required_eq = refl; length_eq = omega arith })
  continue-IsKept retry (again w ports' s) ports {id} {kept} {ws} {s'} f g h =
      let (ws', e, k) = prepend-eq-some w (retry s ports') h in rw e (g w ports' s ws' refl k)

  -- A start that succeeded has published every mapping that is not optional, in its order, and has
  -- left out exactly as many mappings as it gave warnings.
  pub fallback-IsKept :
      (fuel : ℕ) (s : S) (ports : List PortMapping) {id : Text} {kept : List PortMapping}
      {ws : List DropWarning} {s' : S}
      → start_with_optional_port_fallback start remove fuel s ports ≡ some (started id kept, ws, s')
      → IsKept ports kept ws
  unfolding start_with_optional_port_fallback
  fallback-IsKept zero s ports h = cc
  fallback-IsKept (suc fuel) s ports {id} {kept} {ws} {s'} h =
      continue-IsKept (start_with_optional_port_fallback start remove fuel)
        (after_start start remove ports (start s ports)) ports
        (λ ws' e. after_start-started start remove ports (start s ports) e)
        (λ w ports' s'' ws' e k.
          keeps_one w ws' (after_start-again start remove ports (start s ports) e)
            (fallback-IsKept fuel s'' ports' k))
        h
