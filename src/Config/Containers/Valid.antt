-- ===== src/Config/Containers/Valid.antt =====
-- internal/config/containers.go: what a block that `Validate` accepts is like.
use lstk.Config.ExposePorts.{exposed_ports}
use lstk.Ports.{PortSpec}
use lstk.Validate.Names.{container_name_iff, IsContainerName}
use lstk.Text.Decimal.{negsuc, atoi, pos, ℤ}
use lstk.Config.Containers.{
  bad_volume, port_out_of_range, bad_expose_port, port_required, validate_tag, validate_volumes,
  check_conflict, as_config, check_name, check_port, ContainerConfig, ConfigError, validate,
}
use lstk.Config.Volumes.{parsed_volumes, persistence_target, VolumeMount, check_persistence}
use lstk.Prelude.{
  ok-injective, guard-eq-ok, >>=-eq-ok, ℕ, ◌≤◌, ◌≡◌, refl, ◌⊎◌, inl, inr, Bool, false, not, ◌&&◌,
  Option, none, some, List, [], ◌∷◌, arith, leb, ◌==◌, nat_eq, any, if◌then◌else◌, Bool-cases,
  Result, ok, err, guard, Option-cases,
}
use lstk.Text.Basic.{text_beq, Text, text_eq, text_beq_iff}
use lstk.Validate

-- A mount that is not the persistence directory, read-only.
abbrev pub spoils_persistence : VolumeMount → Bool
spoils_persistence m = m.target == persistence_target && m.read_only

module _ (home cache : Option Text) (config_dir : Text) where
  pub record IsValid (c : ContainerConfig) : Type 0 where
    pub valid_tag : validate_tag c.tag ≡ ok tt
    pub valid_name : (c.custom_name ≡ []) ⊎ IsContainerName c.custom_name
    pub port_number : ℕ
    pub port_eq : atoi c.port ≡ some (pos port_number)
    pub port_low : 1 ≤ port_number
    pub port_high : port_number ≤ 65535
    pub specs : List PortSpec
    pub exposed : exposed_ports c.expose_ports ≡ ok specs
    pub mounts : List VolumeMount
    pub parsed : parsed_volumes home config_dir c.volumes ≡ ok mounts
    pub writable : any spoils_persistence mounts ≡ false

  as_config-ok :
      {E A : Type 0} (f : E → ConfigError) (m : Result E A) {a : A}
      → as_config f m ≡ ok a
      → m ≡ ok a
  as_config-ok f (ok a) h = let e = ok-injective h in cc
  as_config-ok f (err e) h = cc

  check_port-ok :
      (z : Option ℤ)
      → check_port home cache config_dir z ≡ ok tt
      → (n : ℕ) × (z ≡ some (pos n)) × (1 ≤ n) × (n ≤ 65535)
  check_port-ok none h = cc
  check_port-ok (some (negsuc n)) h = cc
  check_port-ok (some (pos n)) h =
      let g = guard-eq-ok (leb 1 n && leb n 65535) port_out_of_range h in
      (n, refl, ground (arith, g), ground (arith, g))

  check_name-ok :
      (c : ContainerConfig)
      → (if not (c.custom_name == [])
          then check_name home cache config_dir (Validate.container_name c.custom_name)
          else ok tt)
        ≡ ok tt
      → (c.custom_name ≡ []) ⊎ IsContainerName c.custom_name
  check_name-ok c h = elim (Bool-cases (text_beq c.custom_name [])) [
    | inl e ↦ inl ((text_beq_iff c.custom_name []).0 e)
    | inr n ↦ elim (Option-cases (Validate.container_name c.custom_name)) [
      | inl v ↦ inr ((container_name_iff c.custom_name).0 v)
      | inr (e, v) ↦ absurd (ground (arith, n, v, h))
    ]
  ]

  check_persistence-writable :
      (mounts : List VolumeMount) (source : Text) {s : Text}
      → check_persistence mounts source ≡ some s
      → any spoils_persistence mounts ≡ false
  unfolding check_persistence
  check_persistence-writable [] source h = refl
  check_persistence-writable (m ∷ mounts) source {s} h = ground (
    arith,
    h,
    check_persistence-writable mounts source {s = s},
    check_persistence-writable mounts m.source {s = s},
  )

  check_conflict-writable :
      (c : ContainerConfig) (mounts : List VolumeMount)
      → check_conflict home cache config_dir c (check_persistence mounts []) ≡ ok tt
      → any spoils_persistence mounts ≡ false
  check_conflict-writable c mounts h = elim (Option-cases (check_persistence mounts [])) [
    | inl n ↦ absurd (ground (arith, n, h))
    | inr (s, e) ↦ check_persistence-writable mounts [] e
  ]

  -- A block that is accepted has a valid tag, a valid container name or none, a port between 1 and
  -- 65535, `expose_ports` and volumes that parse, and no read-only mount of the persistence
  -- directory.
  pub validate-IsValid :
      (c : ContainerConfig) → validate home cache config_dir c ≡ ok tt → IsValid c
  unfolding validate validate_volumes
  validate-IsValid c h =
      let (_, e₁, h₁) = >>=-eq-ok (validate_tag c.tag) _ h in
      let (_, e₂, h₂) =
        >>=-eq-ok
          (if not (c.custom_name == [])
            then check_name home cache config_dir (Validate.container_name c.custom_name)
            else ok tt)
          _ h₁ in
      let (_, e₃, h₃) = >>=-eq-ok (guard (not (c.port == [])) port_required) _ h₂ in
      let (_, e₄, h₄) = >>=-eq-ok (check_port home cache config_dir (atoi c.port)) _ h₃ in
      let (specs, e₅, h₅) =
        >>=-eq-ok (as_config bad_expose_port (exposed_ports c.expose_ports)) _ h₄ in
      let (mounts, e₆, h₆) =
        >>=-eq-ok (as_config bad_volume (parsed_volumes home config_dir c.volumes)) _ h₅ in
      let (n, pe, low, high) = check_port-ok (atoi c.port) e₄ in
      record {
        valid_tag = e₁;
        valid_name = check_name-ok c e₂;
        port_number = n;
        port_eq = pe;
        port_low = low;
        port_high = high;
        specs = specs;
        exposed = as_config-ok bad_expose_port (exposed_ports c.expose_ports) e₅;
        mounts = mounts;
        parsed = as_config-ok bad_volume (parsed_volumes home config_dir c.volumes) e₆;
        writable = check_conflict-writable c mounts h₆;
      }
