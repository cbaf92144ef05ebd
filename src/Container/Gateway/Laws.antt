-- ===== src/Container/Gateway/Laws.antt =====
-- internal/container/gateway.go: what is published for the gateway.
use lstk.Ports.{PortMapping}
use lstk.Container.Gateway.{
  gateway_mapping, extra_loop, in_service_port_range, GatewayEntry, extra_gateway_ports,
}
use lstk.Prelude.{
  subst, ◌≡◌, refl, sym, inl, inr, Bool, true, false, ◌||◌, List, [], ◌∷◌, arith, ◌==◌, nat_eq, any,
  All, Bool-cases,
}
use lstk.Text.Basic.{text_beq_refl, Text, text_eq, text_beq_iff}

-- A port is in a list of mappings, on either side.
abbrev pub publishes : List PortMapping → Text → Bool
publishes mappings port = any (λ m. m.host_port == port) mappings

-- Why a port needs no mapping of its own.
abbrev pub covered : List Text → Text → Bool
covered seen port = any (λ p. p == port) seen || in_service_port_range port

abbrev pub NoRepeat : List PortMapping → Type 0
NoRepeat [] = Unit
NoRepeat (m ∷ mappings) = (publishes mappings m.host_port ≡ false) × NoRepeat mappings

-- A mapping of a port to itself that is not covered, and as optional as asked for.
pub record IsExtra (optional : Bool) (seen : List Text) (m : PortMapping) : Type 0 where
  pub same_port : m.container_port ≡ m.host_port
  pub uncovered : covered seen m.host_port ≡ false
  pub optional_eq : m.optional ≡ optional

IsExtra-weaken :
    (optional : Bool) (seen : List Text) (p : Text) (mappings : List PortMapping)
    → All (IsExtra optional (p ∷ seen)) mappings
    → All (IsExtra optional seen) mappings
IsExtra-weaken optional seen p [] h = tt
IsExtra-weaken optional seen p (m ∷ mappings) (h, hs) = (
  record {
    same_port = h.same_port;
    uncovered = ground (arith, h.uncovered);
    optional_eq = h.optional_eq;
  },
  IsExtra-weaken optional seen p mappings hs,
)

-- Ports that are not covered by a list that holds a port differ from it.
IsExtra-absent :
    (optional : Bool) (seen : List Text) (p : Text) (mappings : List PortMapping)
    → All (IsExtra optional (p ∷ seen)) mappings
    → publishes mappings p ≡ false
IsExtra-absent optional seen p [] h = refl
IsExtra-absent optional seen p (m ∷ mappings) (h, hs) = ground (
  arith,
  h.uncovered,
  text_beq_iff m.host_port p,
  text_beq_iff p m.host_port,
  IsExtra-absent optional seen p mappings hs,
)

extra_loop-IsExtra :
    (optional : Bool) (seen : List Text) (g : List GatewayEntry)
    → All (IsExtra optional seen) (extra_loop optional seen g)
unfolding extra_loop
extra_loop-IsExtra optional seen [] = tt
extra_loop-IsExtra optional seen (e ∷ g) = elim (Bool-cases (covered seen e.port)) [
  | inl c ↦ rw c (extra_loop-IsExtra optional seen g)
  | inr c ↦ rw c (
    record { same_port = refl; uncovered = c; optional_eq = refl },
    IsExtra-weaken optional seen e.port _ (extra_loop-IsExtra optional (e.port ∷ seen) g),
  )
]

extra_loop-NoRepeat :
    (optional : Bool) (seen : List Text) (g : List GatewayEntry)
    → NoRepeat (extra_loop optional seen g)
unfolding extra_loop
extra_loop-NoRepeat optional seen [] = tt
extra_loop-NoRepeat optional seen (e ∷ g) = elim (Bool-cases (covered seen e.port)) [
  | inl c ↦ rw c (extra_loop-NoRepeat optional seen g)
  | inr c ↦ rw c (
    IsExtra-absent optional seen e.port _ (extra_loop-IsExtra optional (e.port ∷ seen) g),
    extra_loop-NoRepeat optional (e.port ∷ seen) g,
  )
]

-- Every port of the entries is covered or published.
abbrev pub AllReached : List Text → List PortMapping → List GatewayEntry → Type 0
AllReached seen mappings g = All (λ e. (covered seen e.port || publishes mappings e.port) ≡ true) g

AllReached-taken :
    (seen : List Text) (p : Text) (optional : Bool) (mappings : List PortMapping)
    (g : List GatewayEntry)
    → AllReached (p ∷ seen) mappings g
    → AllReached seen (gateway_mapping p optional ∷ mappings) g
AllReached-taken seen p optional mappings [] h = tt
AllReached-taken seen p optional mappings (e ∷ g) (h, hs) =
    (ground (arith, h), AllReached-taken seen p optional mappings g hs)

extra_loop-covered :
    (optional : Bool) (seen : List Text) (e : GatewayEntry) (g : List GatewayEntry)
    → covered seen e.port ≡ true
    → extra_loop optional seen (e ∷ g) ≡ extra_loop optional seen g
unfolding extra_loop
extra_loop-covered optional seen e g c = rw c refl

extra_loop-uncovered :
    (optional : Bool) (seen : List Text) (e : GatewayEntry) (g : List GatewayEntry)
    → covered seen e.port ≡ false
    → extra_loop optional seen (e ∷ g)
      ≡ gateway_mapping e.port optional ∷ extra_loop optional (e.port ∷ seen) g
unfolding extra_loop
extra_loop-uncovered optional seen e g c = rw c refl

extra_loop-AllReached :
    (optional : Bool) (seen : List Text) (g : List GatewayEntry)
    → AllReached seen (extra_loop optional seen g) g
extra_loop-AllReached optional seen [] = tt
extra_loop-AllReached optional seen (e ∷ g) = elim (Bool-cases (covered seen e.port)) [
  | inl c ↦
      subst (λ r. AllReached seen r (e ∷ g)) (sym (extra_loop-covered optional seen e g c))
        (ground (arith, c), extra_loop-AllReached optional seen g)
  | inr c ↦
      subst (λ r. AllReached seen r (e ∷ g)) (sym (extra_loop-uncovered optional seen e g c))
        (
          ground (arith, text_beq_refl e.port),
          AllReached-taken seen e.port optional _ g
              (extra_loop-AllReached optional (e.port ∷ seen) g),
        )
]

-- What the start publishes for the gateway.
pub record IsPublished (g : List GatewayEntry) (primary : Text) (optional : Bool)
    (r : List PortMapping) : Type 0 where
  pub extra : All (IsExtra optional (primary ∷ [])) r
  pub no_repeat : NoRepeat r
  pub reached : AllReached (primary ∷ []) r g

-- Every port that the gateway listens on is the primary one, one of the service range or published,
-- each to itself and only once; none of the published ones is the primary one or in the service
-- range, which are published elsewhere, and all are optional exactly if asked for.
pub extra_gateway_ports-IsPublished :
    (g : List GatewayEntry) (primary : Text) (optional : Bool)
    → IsPublished g primary optional (extra_gateway_ports g primary optional)
unfolding extra_gateway_ports
extra_gateway_ports-IsPublished g primary optional = record {
  extra = extra_loop-IsExtra optional (primary ∷ []) g;
  no_repeat = extra_loop-NoRepeat optional (primary ∷ []) g;
  reached = extra_loop-AllReached optional (primary ∷ []) g;
}
