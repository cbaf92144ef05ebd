-- ===== src/Tests/Ports.antt =====
-- Ports that users ask for, and a daemon that refuses one.
use lstk.Container.Expose.{merge_expose_ports, edge_spec}
use lstk.Text.Decimal.{atoi, itoa}
use lstk.Text.Search.{contains, trim_space, cut}
use lstk.Config.ExposePorts.{
  expose_all, parse_spec, protocols_of, parse_port_number, expose, port_and_protocols,
  expose_entries, parse_expose_port, exposed_ports,
}
use lstk.Config.ExposePorts.Coherent.{exposed_ports-IsExposed, IsExposed}
use lstk.Container.Expose.Laws.{merge_expose_ports-IsMerged, IsMerged}
use lstk.Container.OptionalPorts.{
  started, port_bind_denied, start_with_optional_port_fallback, DropWarning, Outcome,
}
use lstk.Container.OptionalPorts.Fallback.{fallback-IsKept, fallback_ends, IsKept}
use lstk.Ports.{lookup, PortSpec, PortMapping}
use lstk.Prelude.{
  ℕ, suc, ◌-◌, ◌≡◌, refl, Bool, true, false, not, some, List, [], ◌∷◌, arith, ◌==◌, nat_eq, any,
  if◌then◌else◌, Result, ok, err,
}
use lstk.Text.Basic.{text_beq, to_lower, Text, codes, text_eq}

abbrev dns : PortSpec
dns = record { host_port = codes "5353"; container_port = codes "53"; protocol = codes "udp" }

abbrev tls : PortMapping
tls = record {
  container_port = codes "443";
  host_port = codes "443";
  protocol = [];
  optional = true;
}

abbrev service : PortMapping
service = record {
  container_port = codes "4510";
  host_port = codes "4510";
  protocol = [];
  optional = false;
}

exposed_run : exposed_ports (codes "5353:53/udp" ∷ []) ≡ ok (dns ∷ [])
unfolding exposed_ports expose_entries parse_expose_port text_beq trim_space parse_spec
    port_and_protocols cut protocols_of to_lower parse_port_number atoi expose_all expose lookup
    itoa
exposed_run = refl

exposed_ports-IsExposed_example : IsExposed (codes "5353:53/udp" ∷ []) (dns ∷ [])
exposed_ports-IsExposed_example = exposed_ports-IsExposed (codes "5353:53/udp" ∷ []) exposed_run

merge_expose_ports-IsMerged_example :
    IsMerged
      (tls ∷ service ∷ [])
      (edge_spec (codes "4566") (codes "4566"))
      (merge_expose_ports (tls ∷ service ∷ []) (codes "4566") (codes "4566") (dns ∷ [])).0
merge_expose_ports-IsMerged_example =
    merge_expose_ports-IsMerged (tls ∷ service ∷ []) (codes "4566") (codes "4566") (dns ∷ [])

-- The state of the daemon is the number of containers that failed attempts have left behind. It
-- refuses as long as 443 is among the ports.
abbrev bind_error : Text
bind_error = codes "listen tcp 127.0.0.1:443: bind: permission denied"

abbrev start_container : ℕ → List PortMapping → Result Text Text × ℕ
start_container s ports =
    if any (λ p. p.host_port == codes "443") ports
    then (err bind_error, suc s)
    else (ok (codes "id"), s)

abbrev remove_container : ℕ → Bool × ℕ
remove_container s = (true, s - 1)

abbrev denied : DropWarning
denied = record { port = codes "443"; cause = port_bind_denied }

fallback_run :
    start_with_optional_port_fallback start_container remove_container 3 0 (tls ∷ service ∷ [])
    ≡ some (started (codes "id") (service ∷ []), denied ∷ [], 0)
unfolding start_with_optional_port_fallback text_beq contains
fallback_run = refl

fallback-IsKept_example : IsKept (tls ∷ service ∷ []) (service ∷ []) (denied ∷ [])
fallback-IsKept_example =
    fallback-IsKept start_container remove_container 3 0 (tls ∷ service ∷ []) fallback_run

fallback_ends_example :
    (r : Outcome × List DropWarning × ℕ) × (start_with_optional_port_fallback start_container
        remove_container 3 0
        (tls ∷ service ∷ [])
      ≡ some r)
fallback_ends_example =
    fallback_ends start_container remove_container 3 0 (tls ∷ service ∷ []) (omega arith)

abbrev not_443 : Text → Bool
not_443 port = not (port == codes "443")
