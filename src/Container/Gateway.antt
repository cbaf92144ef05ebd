-- ===== src/Container/Gateway.antt =====
-- internal/container/gateway.go: the addresses that the gateway listens on, and the ports that are
-- published for it. `netip.ParseAddr` is the parameter `is_addr`.
pub mod Laws
pub mod Parse
use lstk.Ports.{PortMapping}
use lstk.Text.Decimal.{pos, itoa, negsuc, atoi, ℤ}
use lstk.Text.Search.{split, trim_space, join, cut_last, cut, contains_char}
use lstk.Prelude.{
  guard, ℕ, zero, suc, ◌+◌, ◌-◌, ◌≤◌, ◌<◌, ◌≡◌, refl, sym, ap, ◌∙◌, ◌≢◌, ◌↔◌, ◌⊎◌, inl, inr, Bool,
  true, false, not, ◌&&◌, ◌||◌, Option, none, some, List, [], ◌∷◌, ◌++◌, map, arith, ltb, leb, ◌==◌,
  nat_eq, all, any, All, if◌then◌else◌, Bool-cases, Result, ok, err, ◌>>=◌, ◌>>◌,
}
use lstk.Text.Basic.{Text, codes, text_eq, text_beq_iff}

pub record GatewayEntry : Type 0 where
  pub host : Text
  pub port : Text

-- `bad_address` stands for what `net.SplitHostPort` refuses; the errors of an entry name it.
pub data GatewayError : Type 0 where
  bad_address bad_port bad_host : Text → GatewayError
  no_entries : Text → GatewayError

abbrev pub default_gateway_listen : Text
default_gateway_listen = codes ":4566,:443"

abbrev pub default_bind_host : Text
default_bind_host = codes "127.0.0.1"

-- `net.SplitHostPort`: what precedes the last colon is the host. In brackets it may hold colons.
abbrev pub bracketed : Text → Option (Text × Text) → Option (Text × Text)
bracketed port none = none
bracketed port (some (host, behind)) =
    if behind == b':' ∷ port
      && not (contains_char host b'[')
      && not (contains_char port b'[' || contains_char port b']')
    then some (host, port)
    else none

abbrev pub unbracketed : Text → Text → Option (Text × Text)
unbracketed host port =
    if contains_char host b':'
      || contains_char host b'['
      || contains_char host b']'
      || contains_char port b'['
      || contains_char port b']'
    then none
    else some (host, port)

abbrev pub split_at_colon : Text → Option (Text × Text) → Option (Text × Text)
split_at_colon s none = none
split_at_colon [] (some (before, port)) = unbracketed before port
split_at_colon (c ∷ s) (some (before, port)) =
    if c == b'[' then bracketed port (cut s b']') else unbracketed before port

unfoldable pub go_split_host_port : Text → Option (Text × Text)
go_split_host_port s = split_at_colon s (cut_last s b':')

-- `net.JoinHostPort`
unfoldable pub join_host_port : Text → Text → Text
join_host_port host port =
    if contains_char host b':' then b'[' ∷ (host ++ b']' ∷ b':' ∷ port) else host ++ b':' ∷ port

abbrev pub is_none : Option ℤ → Bool
is_none none = true
is_none (some z) = false

-- `inServicePortRange`
abbrev pub in_service_range : Option ℤ → Bool
in_service_range none = false
in_service_range (some (negsuc n)) = false
in_service_range (some (pos p)) = leb 4510 p && leb p 4559

unfoldable pub in_service_port_range : Text → Bool
in_service_port_range port = in_service_range (atoi port)

abbrev pub is_nil : List GatewayEntry → Bool
is_nil [] = true
is_nil (e ∷ g) = false

module _ (is_addr : Text → Bool) where
  -- What is checked of the host and the port of an entry.
  unfoldable pub checked_entry : Text → Option (Text × Text) → Result GatewayError GatewayEntry
  checked_entry entry none = err (bad_address entry)
  checked_entry entry (some (host, port)) =
      if is_none (atoi port)
      then err (bad_port entry)
      else if not (host == []) && not (is_addr host)
      then err (bad_host entry)
      else ok (record { host = host; port = port })

  -- `splitHostPort`
  unfoldable pub split_host_port : Text → Result GatewayError GatewayEntry
  split_host_port entry =
      checked_entry entry
        (go_split_host_port (if not (contains_char entry b':') then b':' ∷ entry else entry))

  -- The loop over the parts.
  unfoldable pub parse_parts : List Text → Result GatewayError (List GatewayEntry)
  parse_parts [] = ok []
  parse_parts (part ∷ parts) =
      let rest = parse_parts parts in
      if trim_space part == []
      then rest
      else (do e ← split_host_port (trim_space part); entries ← rest; ok (e ∷ entries))

  -- `parseGatewayListen`
  unfoldable pub parse_gateway_listen : Text → Result GatewayError (List GatewayEntry)
  parse_gateway_listen value =
      let listen = if trim_space value == [] then default_gateway_listen else value in
      do
        entries ← parse_parts (split listen b',')
        guard (not (is_nil entries)) (no_entries listen)
        ok entries

-- `bindHost`
unfoldable pub bind_host : List GatewayEntry → Text
bind_host [] = default_bind_host
bind_host (e ∷ g) = if e.host == [] then default_bind_host else e.host

-- `containerEnvValue`
abbrev pub container_host : Text → Text
container_host host = if host == default_bind_host then [] else host

unfoldable pub container_env_value : List GatewayEntry → Text
container_env_value g =
    join (map (λ e. join_host_port (container_host e.host) e.port) g) (codes ",")

-- `extraGatewayPorts`; `seen` is its set of ports.
abbrev pub gateway_mapping : Text → Bool → PortMapping
gateway_mapping port optional = record {
  container_port = port;
  host_port = port;
  protocol = [];
  optional = optional;
}

unfoldable pub extra_loop : Bool → List Text → List GatewayEntry → List PortMapping
extra_loop optional seen [] = []
extra_loop optional seen (e ∷ g) =
    let skipped = extra_loop optional seen g in
    let taken = extra_loop optional (e.port ∷ seen) g in
    if any (λ p. p == e.port) seen || in_service_port_range e.port
    then skipped
    else gateway_mapping e.port optional ∷ taken

unfoldable pub extra_gateway_ports : List GatewayEntry → Text → Bool → List PortMapping
unfolding extra_loop
extra_gateway_ports g primary_port optional = extra_loop optional (primary_port ∷ []) g

-- internal/container/start.go: `servicePortRange`, from its first port and how many follow.
unfoldable pub service_ports : ℕ → ℕ → List PortMapping
service_ports p zero = []
service_ports p (suc n) = gateway_mapping (itoa p) false ∷ service_ports (suc p) n

unfoldable pub service_port_range : List PortMapping
unfolding service_ports
service_port_range = service_ports 4510 50
