-- ===== src/Container/Expose.antt =====
-- internal/container/expose.go: the publications of `expose_ports` on top of lstk's own.
pub mod Merging
pub mod Laws
use lstk.Ports.{host_key, container_key, claim, lookup, PortMapping, Claims, PortSpec}
use lstk.Prelude.{
  ℕ, zero, suc, ◌+◌, ◌-◌, ◌≤◌, ◌<◌, ◌≡◌, refl, sym, ap, ◌∙◌, ◌≢◌, ◌↔◌, ◌⊎◌, inl, inr, Bool, true,
  false, not, ◌&&◌, ◌||◌, Option, none, some, List, [], ◌∷◌, ◌++◌, map, arith, ltb, leb, ◌==◌,
  nat_eq, all, any, All, if◌then◌else◌, Bool-cases, Result, ok, err, ◌>>=◌,
}
use lstk.Text.Basic.{Text, codes, text_eq, text_beq_iff}

-- A warning names the entry, the key that is taken, and what it is taken by.
pub data ExposeWarning : Type 0 where
  container_taken host_taken : PortSpec → Text → Text → ExposeWarning

-- A mapping as the maps see it: the empty protocol is tcp.
abbrev pub spec_of : PortMapping → PortSpec
spec_of m = record {
  host_port = m.host_port;
  container_port = m.container_port;
  protocol = if m.protocol == [] then codes "tcp" else m.protocol;
}

abbrev pub mapping_of : PortSpec → PortMapping
mapping_of e = record {
  container_port = e.container_port;
  host_port = e.host_port;
  protocol = e.protocol;
  optional = false;
}

abbrev pub edge_spec : Text → Text → PortSpec
edge_spec container_port host_port = record {
  host_port = host_port;
  container_port = container_port;
  protocol = codes "tcp";
}

-- The loop over lstk's own mappings.
unfoldable pub claim_all : Claims → List PortMapping → Claims
claim_all c [] = c
claim_all c (m ∷ mappings) = claim_all (claim c (spec_of m)) mappings

pub record Merge : Type 0 where
  pub claims : Claims
  pub mappings : List PortMapping
  pub warnings : List ExposeWarning

abbrev pub warn : ExposeWarning → Merge → Merge
warn w st = record { claims = st.claims; mappings = st.mappings; warnings = st.warnings ++ w ∷ [] }

-- The body of the loop over `exposed`.
unfoldable pub merge_one : PortSpec → Merge → Merge
merge_one e st = elim (lookup (container_key e) st.claims.host_for) [
  | some host ↦
      if not (host == e.host_port) then warn (container_taken e (container_key e) host) st else st
  | none ↦ elim (lookup (host_key e) st.claims.container_for) [
    | some container ↦ warn (host_taken e (host_key e) container) st
    | none ↦ record {
      claims = claim st.claims e;
      mappings = st.mappings ++ mapping_of e ∷ [];
      warnings = st.warnings;
    }
  ]
]

unfoldable pub merge_all : List PortSpec → Merge → Merge
merge_all [] st = st
merge_all (e ∷ exposed) st = merge_all exposed (merge_one e st)

-- What the loop starts from.
abbrev pub own_ports : List PortMapping → Text → Text → Merge
own_ports mappings primary_container_port primary_host_port = record {
  claims =
      claim_all
        (claim (record { host_for = []; container_for = [] })
          (edge_spec primary_container_port primary_host_port))
        mappings;
  mappings = mappings;
  warnings = [];
}

-- `mergeExposePorts`
unfoldable pub merge_expose_ports :
    List PortMapping → Text → Text → List PortSpec → List PortMapping × List ExposeWarning
unfolding merge_all claim_all
merge_expose_ports mappings primary_container_port primary_host_port exposed =
    let st = merge_all exposed (own_ports mappings primary_container_port primary_host_port) in
    (st.mappings, st.warnings)
