-- ===== src/Ports.antt =====
-- Published ports: `PortSpec` of internal/config/containers.go, `PortMapping` of
-- internal/runtime/runtime.go, and the maps in which both files record what is taken.
pub mod Apart
pub mod Available
use lstk.Prelude.{
  ◌≡◌, ◌↔◌, Bool, true, false, ◌&&◌, Option, none, some, List, [], ◌∷◌, ◌++◌, arith, Comparable,
  ◌==◌, if◌then◌else◌,
}
use lstk.Text.Basic.{Text, codes, text_beq, text_beq_iff, text_eq}

pub record PortSpec : Type 0 where
  pub host_port : Text
  pub container_port : Text
  pub protocol : Text

pub record PortMapping : Type 0 where
  pub container_port : Text
  pub host_port : Text
  -- The empty text stands for tcp.
  pub protocol : Text
  pub optional : Bool

abbrev pub spec_beq : PortSpec → PortSpec → Bool
spec_beq a b =
    text_beq a.host_port b.host_port
    && text_beq a.container_port b.container_port
    && text_beq a.protocol b.protocol

pub spec_beq_iff : (a b : PortSpec) → (spec_beq a b ≡ true) ↔ (a ≡ b)
spec_beq_iff a b = ground (
  arith,
  text_beq_iff a.host_port b.host_port,
  text_beq_iff a.container_port b.container_port,
  text_beq_iff a.protocol b.protocol,
)

instance abbrev pub spec_eq : Comparable PortSpec
spec_eq = record { equals = spec_beq; equals_iff = spec_beq_iff }

-- The keys `<port>/<protocol>` of a publication on either side.
abbrev pub key : Text → Text → Text
key port protocol = port ++ b'/' ∷ protocol

abbrev pub container_key : PortSpec → Text
container_key s = key s.container_port s.protocol

abbrev pub host_key : PortSpec → Text
host_key s = key s.host_port s.protocol

-- A Go map from texts to texts; the entry written last stands first.
unfoldable pub lookup : Text → List (Text × Text) → Option Text
lookup k [] = none
lookup k ((j, v) ∷ m) = if text_beq j k then some v else lookup k m

-- The host port that each container key is published on, and the container port behind each host
-- key.
pub record Claims : Type 0 where
  pub host_for : List (Text × Text)
  pub container_for : List (Text × Text)

abbrev pub claim : Claims → PortSpec → Claims
claim c s = record {
  host_for = (container_key s, s.host_port) ∷ c.host_for;
  container_for = (host_key s, s.container_port) ∷ c.container_for;
}
