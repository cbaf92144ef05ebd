-- ===== src/Config/ExposePorts.antt =====
-- internal/config/containers.go: `expose_ports`.
pub mod Laws
pub mod Coherent
use lstk.Prelude.{
  ℕ, ◌≤◌, Bool, true, false, not, ◌&&◌, ◌||◌, Option, none, some, List, [], ◌∷◌, ◌++◌, map, leb,
  ◌==◌, nat_eq, any, if◌then◌else◌, Result, ok, err, ◌>>=◌, ◌>>◌, guard,
}
use lstk.Text.Basic.{Text, codes, text_eq, to_lower}
use lstk.Text.Search.{contains_char, cut, trim_space}
use lstk.Text.Decimal.{ℤ, itoa, atoi, pos, negsuc}
use lstk.Ports.{PortSpec, spec_eq, Claims, claim, lookup, container_key, host_key}

-- Each error with what its message names.
pub data PortError : Type 0 where
  entry_empty : PortError
  bad_protocol bad_shape bad_number out_of_range : Text → PortError
  container_clash : Text → Text → Text → PortError
  host_clash : Text → Text → Text → PortError

-- The checks of `parsePortNumber` on the number that `strconv.Atoi` returned.
abbrev pub checked_port : Text → Option ℤ → Result PortError Text
checked_port entry none = err (bad_number entry)
checked_port entry (some (negsuc n)) = err (out_of_range entry)
checked_port entry (some (pos n)) =
    if leb 1 n && leb n 65535 then ok (itoa n) else err (out_of_range entry)

-- `parsePortNumber`
unfoldable pub parse_port_number : Text → Text → Result PortError Text
parse_port_number entry value = checked_port entry (atoi (trim_space value))

-- The protocols that an entry stands for, from what follows its `/`.
unfoldable pub protocols_of : Text → Text → Result PortError (List Text)
protocols_of entry proto =
    let p = to_lower (trim_space proto) in
    if not (p == codes "tcp") && not (p == codes "udp")
    then err (bad_protocol entry)
    else ok (p ∷ [])

-- The part before the first `/` and the protocols, from the cut of the whole at that `/`.
unfoldable pub port_and_protocols :
    Text → Text → Option (Text × Text) → Result PortError (Text × List Text)
port_and_protocols entry spec none = ok (spec, codes "tcp" ∷ codes "udp" ∷ [])
port_and_protocols entry spec (some (port_part, proto)) = do
  protocols ← protocols_of entry proto
  ok (port_part, protocols)

abbrev pub split_protocol : Text → Text → Result PortError (Text × List Text)
split_protocol entry spec = port_and_protocols entry spec (cut spec b'/')

-- The host port and the container port; a bare port is both.
unfoldable pub split_ports : Text → Text × Text
split_ports port_part = elim (cut port_part b':') [
  | none ↦ (port_part, port_part)
  | some (host_port, container_port) ↦ (host_port, container_port)
]

-- What `parseExposePort` does with an entry that is not empty once trimmed.
unfoldable pub parse_spec : Text → Text → Result PortError (List PortSpec)
unfolding split_ports
parse_spec entry spec = do
  (port_part, protocols) ← split_protocol entry spec
  guard (not (contains_char (split_ports port_part).1 b':')) (bad_shape entry)
  host_port ← parse_port_number entry (split_ports port_part).0
  container_port ← parse_port_number entry (split_ports port_part).1
  ok (
      map (λ p. record { host_port = host_port; container_port = container_port; protocol = p })
        protocols)

-- `parseExposePort`
unfoldable pub parse_expose_port : Text → Result PortError (List PortSpec)
parse_expose_port entry =
    let spec = trim_space entry in if spec == [] then err entry_empty else parse_spec entry spec

-- What the loops of `ExposedPorts` have gathered.
pub record Exposed : Type 0 where
  pub specs : List PortSpec
  pub seen : List PortSpec
  pub claims : Claims

abbrev pub nothing_exposed : Exposed
nothing_exposed = record {
  specs = [];
  seen = [];
  claims = record { host_for = []; container_for = [] };
}

-- The body of the inner loop.
unfoldable pub expose : PortSpec → Exposed → Result PortError Exposed
expose s st =
    if any (λ t. t == s) st.seen
    then ok st
    else elim (lookup (container_key s) st.claims.host_for) [
      | some host ↦ err (container_clash (container_key s) host s.host_port)
      | none ↦ elim (lookup (host_key s) st.claims.container_for) [
        | some container ↦ err (host_clash (host_key s) container s.container_port)
        | none ↦
            ok (record {
              specs = st.specs ++ s ∷ [];
              seen = s ∷ st.seen;
              claims = claim st.claims s;
            })
      ]
    ]

unfoldable pub expose_all : List PortSpec → Exposed → Result PortError Exposed
expose_all [] st = ok st
expose_all (s ∷ parsed) st = expose s st >>= expose_all parsed

unfoldable pub expose_entries : List Text → Exposed → Result PortError Exposed
expose_entries [] st = ok st
expose_entries (entry ∷ entries) st = do
  parsed ← parse_expose_port entry
  st' ← expose_all parsed st
  expose_entries entries st'

-- `ExposedPorts`
unfoldable pub exposed_ports : List Text → Result PortError (List PortSpec)
exposed_ports entries = do st ← expose_entries entries nothing_exposed; ok st.specs
