-- ===== src/Ports/Apart.antt =====
-- internal/config/containers.go, internal/container/expose.go: publications that were accepted
-- because neither of their keys was taken share no key.
use lstk.Prelude.{All-append, ◌≡◌, ◌≢◌, none, List, [], ◌∷◌, ◌++◌, arith, nat_eq, All}
use lstk.Text.Basic.{text_beq_refl, Text, text_eq}
use lstk.Ports.{PortSpec, Claims, claim, lookup, container_key, host_key}

-- Both keys of a publication are taken.
pub record IsClaimed (c : Claims) (s : PortSpec) : Type 0 where
  pub by_container : lookup (container_key s) c.host_for ≢ none
  pub by_host : lookup (host_key s) c.container_for ≢ none

-- Two publications share no key.
pub record AreApart (s t : PortSpec) : Type 0 where
  pub container_apart : container_key s ≢ container_key t
  pub host_apart : host_key s ≢ host_key t

abbrev pub Distinct : List PortSpec → Type 0
Distinct [] = Unit
Distinct (s ∷ specs) = All (AreApart s) specs × Distinct specs

lookup-cons :
    (k j v : Text) (m : List (Text × Text)) → lookup k m ≢ none → lookup k ((j, v) ∷ m) ≢ none
unfolding lookup
lookup-cons k j v m h = ground arith

lookup_self : (k v : Text) (m : List (Text × Text)) → lookup k ((k, v) ∷ m) ≢ none
unfolding lookup
lookup_self k v m = ground (arith, text_beq_refl k)

pub IsClaimed-claim : (c : Claims) (s t : PortSpec) → IsClaimed c t → IsClaimed (claim c s) t
IsClaimed-claim c s t h = record {
  by_container = lookup-cons _ _ _ c.host_for h.by_container;
  by_host = lookup-cons _ _ _ c.container_for h.by_host;
}

pub IsClaimed-self : (c : Claims) (s : PortSpec) → IsClaimed (claim c s) s
IsClaimed-self c s = record {
  by_container = lookup_self _ _ c.host_for;
  by_host = lookup_self _ _ c.container_for;
}

pub All-IsClaimed-claim :
    (c : Claims) (s : PortSpec) (specs : List PortSpec)
    → All (IsClaimed c) specs
    → All (IsClaimed (claim c s)) specs
All-IsClaimed-claim c s [] h = tt
All-IsClaimed-claim c s (t ∷ specs) (h, hs) =
    (IsClaimed-claim c s t h, All-IsClaimed-claim c s specs hs)

-- A publication whose keys are free is apart from one whose keys are taken.
free-AreApart :
    (c : Claims) (s t : PortSpec)
    → lookup (container_key s) c.host_for ≡ none
    → lookup (host_key s) c.container_for ≡ none
    → IsClaimed c t
    → AreApart t s
free-AreApart c s t fc fh h = record {
  container_apart = λ e. h.by_container (rw e fc);
  host_apart = λ e. h.by_host (rw e fh);
}

pub free-All_apart :
    (c : Claims) (s : PortSpec) (specs : List PortSpec)
    → lookup (container_key s) c.host_for ≡ none
    → lookup (host_key s) c.container_for ≡ none
    → All (IsClaimed c) specs
    → All (λ t. AreApart t s) specs
free-All_apart c s [] fc fh h = tt
free-All_apart c s (t ∷ specs) fc fh (h, hs) =
    (free-AreApart c s t fc fh h, free-All_apart c s specs fc fh hs)

pub Distinct-append :
    (specs : List PortSpec) (s : PortSpec)
    → Distinct specs
    → All (λ t. AreApart t s) specs
    → Distinct (specs ++ s ∷ [])
Distinct-append [] s d h = (tt, tt)
Distinct-append (t ∷ specs) s (a, d) (h, hs) =
    (All-append (AreApart t) specs (s ∷ []) a (h, tt), Distinct-append specs s d hs)
