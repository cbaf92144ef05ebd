-- ===== src/Config/ExposePorts/Laws.antt =====
-- internal/config/containers.go: what `ExposedPorts` guarantees to the code that publishes its
-- result.
use lstk.Text.Search.{cut, contains_char, trim_space}
use lstk.Text.Decimal.{negsuc, pos, atoi, ℤ, itoa}
use lstk.Ports.{spec_eq, PortSpec}
use lstk.Config.ExposePorts.{
  bad_shape, split_ports, parse_spec, parse_expose_port, port_and_protocols, checked_port,
  parse_port_number, protocols_of, split_protocol,
}
use lstk.Prelude.{
  ok-injective, guard, >>=-eq-ok, subst, ℕ, ◌≤◌, ◌≡◌, refl, sym, ◌⊎◌, inl, inr, not, Option, none,
  some, List, [], ◌∷◌, map, arith, nat_eq, All, ok,
}
use lstk.Text.Basic.{to_lower, Text, codes, text_eq, text_beq_iff}

-- A port number as the code prints it.
abbrev pub IsPortNumber : Text → Type 0
IsPortNumber p = (n : ℕ) × (p ≡ itoa n) × (1 ≤ n) × (n ≤ 65535)

abbrev pub IsProtocol : Text → Type 0
IsProtocol p = (p ≡ codes "tcp") ⊎ (p ≡ codes "udp")

pub record IsPublication (s : PortSpec) : Type 0 where
  pub host_port-IsPortNumber : IsPortNumber s.host_port
  pub container_port-IsPortNumber : IsPortNumber s.container_port
  pub known_protocol : IsProtocol s.protocol

checked_port-IsPortNumber :
    (entry : Text) (z : Option ℤ) {p : Text} → checked_port entry z ≡ ok p → IsPortNumber p
checked_port-IsPortNumber entry (some (pos n)) {p} h =
    let (e, low, high) = bounds in (n, e, low, high)
  where
    bounds : (p ≡ itoa n) × (1 ≤ n) × (n ≤ 65535)
    bounds = ground arith
checked_port-IsPortNumber entry (some (negsuc n)) h = cc
checked_port-IsPortNumber entry none h = cc

parse_port_number-IsPortNumber :
    (entry value : Text) {p : Text} → parse_port_number entry value ≡ ok p → IsPortNumber p
unfolding parse_port_number
parse_port_number-IsPortNumber entry value h =
    checked_port-IsPortNumber entry (atoi (trim_space value)) h

protocols_of-found :
    (entry proto : Text) {protocols : List Text}
    → protocols_of entry proto ≡ ok protocols
    → (protocols ≡ to_lower (trim_space proto) ∷ []) × IsProtocol (to_lower (trim_space proto))
unfolding protocols_of
protocols_of-found entry proto h = ground (
  arith,
  text_beq_iff (to_lower (trim_space proto)) (codes "tcp"),
  text_beq_iff (to_lower (trim_space proto)) (codes "udp"),
)

protocols_of-known :
    (entry proto : Text) {protocols : List Text}
    → protocols_of entry proto ≡ ok protocols
    → All IsProtocol protocols
protocols_of-known entry proto h =
    let (e, k) = protocols_of-found entry proto h in subst (All IsProtocol) (sym e) (k, tt)

port_and_protocols-known :
    (entry spec : Text) (parts : Option (Text × Text)) {port_part : Text} {protocols : List Text}
    → port_and_protocols entry spec parts ≡ ok (port_part, protocols)
    → All IsProtocol protocols
unfolding port_and_protocols
port_and_protocols-known entry spec none h =
    subst (All IsProtocol) {x = codes "tcp" ∷ codes "udp" ∷ []} (cc) (inl refl, (inr refl, tt))
port_and_protocols-known entry spec (some (left, proto)) h =
    let (ps, e, k) = >>=-eq-ok (protocols_of entry proto) (λ ps. ok (left, ps)) h in
    subst (All IsProtocol) {x = ps} (cc) (protocols_of-known entry proto e)

specs_of-IsPublication :
    (host_port container_port : Text) (protocols : List Text)
    → IsPortNumber host_port
    → IsPortNumber container_port
    → All IsProtocol protocols
    → All IsPublication (
        map
          (λ p. record { host_port = host_port; container_port = container_port; protocol = p })
          protocols)
specs_of-IsPublication h c [] hh hc hp = tt
specs_of-IsPublication h c (p ∷ protocols) hh hc (hp, hps) = (
  record { host_port-IsPortNumber = hh; container_port-IsPortNumber = hc; known_protocol = hp },
  specs_of-IsPublication h c protocols hh hc hps,
)

parse_spec-IsPublication :
    (entry spec : Text) {specs : List PortSpec}
    → parse_spec entry spec ≡ ok specs
    → All IsPublication specs
unfolding parse_spec
parse_spec-IsPublication entry spec h =
    let ((port_part, protocols), e₁, h₁) = >>=-eq-ok (split_protocol entry spec) _ h in
    let (u, e₂, h₂) =
      >>=-eq-ok (guard (not (contains_char (split_ports port_part).1 b':')) (bad_shape entry)) _
        h₁ in
    let (host_port, e₃, h₃) = >>=-eq-ok (parse_port_number entry (split_ports port_part).0) _ h₂ in
    let (container_port, e₄, h₄) =
      >>=-eq-ok (parse_port_number entry (split_ports port_part).1) _ h₃ in
    subst (All IsPublication)
      {x = map
        (λ p. record { host_port = host_port; container_port = container_port; protocol = p })
        protocols}
      (ok-injective h₄)
      (specs_of-IsPublication host_port container_port protocols
        (parse_port_number-IsPortNumber entry (split_ports port_part).0 e₃)
        (parse_port_number-IsPortNumber entry (split_ports port_part).1 e₄)
        (port_and_protocols-known entry spec (cut spec b'/') e₁))

-- Every publication of an entry that parses has ports between 1 and 65535 on both sides, printed
-- without a sign or leading zeros, and is for tcp or for udp.
pub parse_expose_port-IsPublication :
    (entry : Text) {specs : List PortSpec}
    → parse_expose_port entry ≡ ok specs
    → All IsPublication specs
unfolding parse_expose_port
parse_expose_port-IsPublication entry {specs} h =
    parse_spec-IsPublication entry (trim_space entry) (ground arith)
