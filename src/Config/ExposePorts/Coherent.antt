-- ===== src/Config/ExposePorts/Coherent.antt =====
-- internal/config/containers.go: the loops of `ExposedPorts` lose no publication and let no two
-- share a key.
use lstk.Config.ExposePorts.Laws.{parse_expose_port-IsPublication, IsPublication}
use lstk.Ports.Apart.{
  IsClaimed-self, All-IsClaimed-claim, free-All_apart, Distinct-append, IsClaimed, Distinct,
}
use lstk.Ports.{spec_eq, host_key, container_key, claim, spec_beq_iff, lookup, PortSpec}
use lstk.Config.ExposePorts.{
  parse_expose_port, Exposed, exposed_ports, expose_entries, expose, expose_all, nothing_exposed,
}
use lstk.Prelude.{
  Option-cases, ok-injective, All-append, >>=-eq-ok, subst, ◌≡◌, sym, ◌⊎◌, inl, inr, true, none,
  List, [], ◌∷◌, ◌++◌, arith, ◌==◌, nat_eq, any, All, Bool-cases, ok,
}
use lstk.Text.Basic.{Text, text_eq}

-- Some publication of the list is the given one.
abbrev pub Includes : List PortSpec → PortSpec → Type 0
Includes specs s = any (λ t. t == s) specs ≡ true

-- What the loops keep: publications are apart from each other, have their keys taken, and include
-- every publication seen so far.
record IsCoherent (st : Exposed) : Type 0 where
  apart : Distinct st.specs
  claimed : All (IsClaimed st.claims) st.specs
  included : (s : PortSpec) → any (λ t. t == s) st.seen ≡ true → Includes st.specs s

Includes-append :
    (specs more : List PortSpec) (s : PortSpec) → Includes specs s → Includes (specs ++ more) s
Includes-append [] more s h = ground arith
Includes-append (t ∷ specs) more s h = ground (arith, Includes-append specs more s)

Includes-last : (specs : List PortSpec) (s : PortSpec) → Includes (specs ++ s ∷ []) s
Includes-last [] s = ground (arith, spec_beq_iff s s)
Includes-last (t ∷ specs) s = ground (arith, Includes-last specs s)

included_after :
    (st : Exposed) (s : PortSpec)
    → IsCoherent st
    → (t : PortSpec) → any (λ u. u == t) (s ∷ st.seen) ≡ true
    → Includes (st.specs ++ s ∷ []) t
included_after st s c t h = elim (Bool-cases (s == t)) [
  | inl e ↦
      subst (Includes (st.specs ++ s ∷ [])) ((spec_beq_iff s t).0 e) (Includes-last st.specs s)
  | inr e ↦ Includes-append st.specs (s ∷ []) t (c.included t (ground arith))
]

-- The state after a publication whose keys were free.
abbrev accepted : PortSpec → Exposed → Exposed
accepted s st = record {
  specs = st.specs ++ s ∷ [];
  seen = s ∷ st.seen;
  claims = claim st.claims s;
}

accepted-IsCoherent :
    (s : PortSpec) (st : Exposed)
    → IsCoherent st
    → lookup (container_key s) st.claims.host_for ≡ none
    → lookup (host_key s) st.claims.container_for ≡ none
    → IsCoherent (accepted s st)
accepted-IsCoherent s st c fc fh = record {
  apart = Distinct-append st.specs s c.apart (free-All_apart st.claims s st.specs fc fh c.claimed);
  claimed =
      All-append (IsClaimed (claim st.claims s)) st.specs (s ∷ [])
        (All-IsClaimed-claim st.claims s st.specs c.claimed) (IsClaimed-self st.claims s, tt);
  included = included_after st s c;
}

expose-eq-ok :
    (s : PortSpec) (st : Exposed) {st' : Exposed}
    → expose s st ≡ ok st'
    → ((st' ≡ st) × (any (λ t. t == s) st.seen ≡ true))
      ⊎ ((st' ≡ accepted s st)
          × (lookup (container_key s) st.claims.host_for ≡ none)
          × (lookup (host_key s) st.claims.container_for ≡ none))
unfolding expose
expose-eq-ok s st h = elim (Option-cases (lookup (container_key s) st.claims.host_for)) [
  | inl c ↦ elim (Option-cases (lookup (host_key s) st.claims.container_for)) [
    | inl d ↦ ground arith
    | inr (container, d) ↦ ground arith
  ]
  | inr (host, c) ↦ ground arith
]

expose-IsCoherent :
    (s : PortSpec) (st : Exposed) {st' : Exposed}
    → expose s st ≡ ok st'
    → IsCoherent st
    → IsCoherent st'
expose-IsCoherent s st h c = elim (expose-eq-ok s st h) [
  | inl (e, _) ↦ subst IsCoherent (sym e) c
  | inr (e, fc, fh) ↦ subst IsCoherent (sym e) (accepted-IsCoherent s st c fc fh)
]

-- A publication that was included stays so.
expose-keeps :
    (s : PortSpec) (st : Exposed) {st' : Exposed}
    → expose s st ≡ ok st'
    → (t : PortSpec) → Includes st.specs t
    → Includes st'.specs t
expose-keeps s st h t i = elim (expose-eq-ok s st h) [
  | inl (e, _) ↦ subst (λ x. Includes x.specs t) (sym e) i
  | inr (e, _, _) ↦ subst (λ x. Includes x.specs t) (sym e) (Includes-append st.specs (s ∷ []) t i)
]

expose-Includes :
    (s : PortSpec) (st : Exposed) {st' : Exposed}
    → expose s st ≡ ok st'
    → IsCoherent st
    → Includes st'.specs s
expose-Includes s st h c = elim (expose-eq-ok s st h) [
  | inl (e, seen) ↦ subst (λ x. Includes x.specs s) (sym e) (c.included s seen)
  | inr (e, _, _) ↦ subst (λ x. Includes x.specs s) (sym e) (Includes-last st.specs s)
]

expose-IsPublication :
    (s : PortSpec) (st : Exposed) {st' : Exposed}
    → expose s st ≡ ok st'
    → IsPublication s
    → All IsPublication st.specs
    → All IsPublication st'.specs
expose-IsPublication s st h p ps = elim (expose-eq-ok s st h) [
  | inl (e, _) ↦ subst (λ x. All IsPublication x.specs) (sym e) ps
  | inr (e, _, _) ↦
      subst (λ x. All IsPublication x.specs) (sym e)
        (All-append IsPublication st.specs (s ∷ []) ps (p, tt))
]

-- What one round of a loop makes of its state, for the publications that it was given.
record Advances (parsed : List PortSpec) (st st' : Exposed) : Type 0 where
  coherent : IsCoherent st'
  valid : All IsPublication st'.specs
  keeps : (t : PortSpec) → Includes st.specs t → Includes st'.specs t
  includes : All (Includes st'.specs) parsed

expose_all-Advances :
    (parsed : List PortSpec) (st : Exposed) {st' : Exposed}
    → expose_all parsed st ≡ ok st'
    → IsCoherent st
    → All IsPublication st.specs
    → All IsPublication parsed
    → Advances parsed st st'
unfolding expose_all
expose_all-Advances [] st h c v p =
    subst (Advances [] st) (ok-injective h)
      (record { coherent = c; valid = v; keeps = λ t i. i; includes = tt })
expose_all-Advances (s ∷ parsed) st h c v (p, ps) =
    let (mid, e, h₁) = >>=-eq-ok (expose s st) (expose_all parsed) h in
    let next =
      expose_all-Advances parsed mid h₁ (expose-IsCoherent s st e c)
        (expose-IsPublication s st e p v) ps in
    record {
      coherent = next.coherent;
      valid = next.valid;
      keeps = λ t i. next.keeps t (expose-keeps s st e t i);
      includes = (next.keeps s (expose-Includes s st e c), next.includes);
    }

-- The entry parses, and each of its publications is included.
abbrev pub IsHonoured : List PortSpec → Text → Type 0
IsHonoured specs entry =
    (parsed : List PortSpec) × (parse_expose_port entry ≡ ok parsed) × All (Includes specs) parsed

record Completes (entries : List Text) (st st' : Exposed) : Type 0 where
  coherent : IsCoherent st'
  valid : All IsPublication st'.specs
  keeps : (t : PortSpec) → Includes st.specs t → Includes st'.specs t
  honoured : All (IsHonoured st'.specs) entries

All-Includes-mono :
    (specs specs' parsed : List PortSpec)
    → ((t : PortSpec) → Includes specs t → Includes specs' t)
    → All (Includes specs) parsed
    → All (Includes specs') parsed
All-Includes-mono specs specs' [] f h = tt
All-Includes-mono specs specs' (s ∷ parsed) f (h, hs) =
    (f s h, All-Includes-mono specs specs' parsed f hs)

expose_entries-Completes :
    (entries : List Text) (st : Exposed) {st' : Exposed}
    → expose_entries entries st ≡ ok st'
    → IsCoherent st
    → All IsPublication st.specs
    → Completes entries st st'
unfolding expose_entries
expose_entries-Completes [] st h c v =
    subst (Completes [] st) (ok-injective h)
      (record { coherent = c; valid = v; keeps = λ t i. i; honoured = tt })
expose_entries-Completes (entry ∷ entries) st {st'} h c v =
    let (parsed, e, h₁) = >>=-eq-ok (parse_expose_port entry) _ h in
    let (mid, e₂, h₂) = >>=-eq-ok (expose_all parsed st) (expose_entries entries) h₁ in
    let step = expose_all-Advances parsed st e₂ c v (parse_expose_port-IsPublication entry e) in
    let next = expose_entries-Completes entries mid h₂ step.coherent step.valid in
    record {
      coherent = next.coherent;
      valid = next.valid;
      keeps = λ t i. next.keeps t (step.keeps t i);
      honoured = (
        (parsed, e, All-Includes-mono mid.specs st'.specs parsed next.keeps step.includes),
        next.honoured,
      );
    }

nothing-IsCoherent : IsCoherent nothing_exposed
nothing-IsCoherent = record { apart = tt; claimed = tt; included = λ s h. ground arith }

-- What the start of an emulator relies on in its list of publications.
pub record IsExposed (entries : List Text) (specs : List PortSpec) : Type 0 where
  pub distinct : Distinct specs
  pub valid : All IsPublication specs
  pub honoured : All (IsHonoured specs) entries

-- When `expose_ports` is accepted, no two of its publications share a container port or a host
-- port on one protocol, all of them have ports between 1 and 65535 and a known protocol, every
-- entry parses, and every publication an entry asks for is in the result.
pub exposed_ports-IsExposed :
    (entries : List Text) {specs : List PortSpec}
    → exposed_ports entries ≡ ok specs
    → IsExposed entries specs
unfolding exposed_ports
exposed_ports-IsExposed entries h =
    let (st, e, h₁) = >>=-eq-ok (expose_entries entries nothing_exposed) _ h in
    let whole = expose_entries-Completes entries nothing_exposed e nothing-IsCoherent tt in
    subst (IsExposed entries) (ok-injective h₁)
      (record { distinct = whole.coherent.apart; valid = whole.valid; honoured = whole.honoured })
