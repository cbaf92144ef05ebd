-- ===== src/Container/Expose/Laws.antt =====
-- internal/container/expose.go: lstk's own mappings are kept, what is added collides with nothing.
use lstk.Container.Expose.Merging.{
  IsMerging, merge_all-IsMerging, claim_all-IsClaimed, claim_all_self,
}
use lstk.Ports.Apart.{IsClaimed-self, Distinct, AreApart}
use lstk.Ports.{Claims, claim, PortMapping, PortSpec}
use lstk.Container.Expose.{own_ports, edge_spec, merge_all, merge_expose_ports, spec_of}
use lstk.Prelude.{
  if◌then◌else◌, false, append-nil, subst, ◌≡◌, refl, sym, ap, List, [], ◌∷◌, ◌++◌, map, ◌==◌,
  nat_eq, All,
}
use lstk.Text.Basic.{text_beq, codes, Text, text_eq}

-- How the daemon reads a mapping: without a protocol it is one of tcp.
abbrev protocol_of : Text → Text
protocol_of [] = codes "tcp"
protocol_of (c ∷ protocol) = c ∷ protocol

abbrev pub binding : PortMapping → PortSpec
binding m = record {
  host_port = m.host_port;
  container_port = m.container_port;
  protocol = protocol_of m.protocol;
}

-- A mapping that the start cannot do without.
abbrev pub mandatory : PortSpec → PortMapping
mandatory e = record {
  container_port = e.container_port;
  host_port = e.host_port;
  protocol = e.protocol;
  optional = false;
}

protocol_of-if :
    (protocol : Text) → (if protocol == [] then codes "tcp" else protocol) ≡ protocol_of protocol
unfolding text_beq
protocol_of-if [] = refl
protocol_of-if (c ∷ protocol) = refl

spec_of-binding : (m : PortMapping) → spec_of m ≡ binding m
spec_of-binding m =
    ap
      (λ (p : Text). record {
        host_port = m.host_port;
        container_port = m.container_port;
        protocol = p;
      })
      (protocol_of-if m.protocol)

All-binding :
    (P : PortSpec → Type 0) (mappings : List PortMapping)
    → All P (map spec_of mappings)
    → All P (map binding mappings)
All-binding P [] h = tt
All-binding P (m ∷ mappings) (h, hs) = (subst P (spec_of-binding m) h, All-binding P mappings hs)

All-apart_nothing : (own : List PortSpec) → All (λ o. All (AreApart o) []) own
All-apart_nothing [] = tt
All-apart_nothing (o ∷ own) = (tt, All-apart_nothing own)

-- What the merge promises to the daemon, which keys bindings by port: lstk's own mappings come
-- first and unchanged, and each added one shares no key with the edge port, them or each other.
pub record IsMerged (base : List PortMapping) (edge : PortSpec) (r : List PortMapping)
    : Type 0 where
  pub added : List PortSpec
  pub result_eq : r ≡ base ++ map mandatory added
  pub edge_apart : All (AreApart edge) added
  pub own_apart : All (λ o. All (AreApart o) added) (map binding base)
  pub distinct : Distinct added

-- Merging `expose_ports` keeps lstk's own mappings, in place and in order, and appends mandatory
-- mappings only, none of which takes a container port or a host port of the edge port, of lstk's
-- own mappings or of another added mapping on the same protocol.
pub merge_expose_ports-IsMerged :
    (base : List PortMapping) (primary_container_port primary_host_port : Text)
    (exposed : List PortSpec)
    → IsMerged base
        (edge_spec primary_container_port primary_host_port)
        (merge_expose_ports base primary_container_port primary_host_port exposed).0
unfolding merge_expose_ports
merge_expose_ports-IsMerged base pc ph exposed = record {
  added = m.added;
  result_eq = m.mappings_eq;
  edge_apart = m.apart.0;
  own_apart = All-binding (λ o. All (AreApart o) m.added) base m.apart.1;
  distinct = m.distinct;
}
  where
    edge : PortSpec
    edge = edge_spec pc ph

    start : Claims
    start = claim (record { host_for = []; container_for = [] }) edge

    m : IsMerging base (edge ∷ map spec_of base) (merge_all exposed (own_ports base pc ph))
    m = merge_all-IsMerging exposed (own_ports base pc ph) (record {
      added = [];
      mappings_eq = sym (append-nil base);
      own_claimed = (
        claim_all-IsClaimed start base edge
            (IsClaimed-self (record { host_for = []; container_for = [] }) edge),
        claim_all_self start base,
      );
      added_claimed = tt;
      apart = All-apart_nothing (edge ∷ map spec_of base);
      distinct = tt;
    })
