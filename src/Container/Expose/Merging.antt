-- ===== src/Container/Expose/Merging.antt =====
-- internal/container/expose.go: what the loops of `mergeExposePorts` keep.
use lstk.Ports.Apart.{
  IsClaimed-claim, Distinct-append, free-All_apart, IsClaimed-self, All-IsClaimed-claim, Distinct,
  IsClaimed, AreApart,
}
use lstk.Ports.{Claims, claim, host_key, container_key, lookup, PortMapping, PortSpec}
use lstk.Container.Expose.{
  merge_all, claim_all, spec_of, host_taken, warn, container_taken, ExposeWarning, Merge,
  mapping_of, merge_one,
}
use lstk.Prelude.{
  subst, append_assoc, Option-cases, All-append, ◌≡◌, refl, sym, ap, ◌∙◌, ◌⊎◌, inl, inr, none, some,
  List, [], ◌∷◌, ◌++◌, map, arith, ◌==◌, nat_eq, All, Bool-cases,
}
use lstk.Text.Basic.{text_eq, text_beq_iff}

-- What the loop keeps, `own` being the publications it began with and `base` their mappings: the
-- mappings are those and the added ones, which share no key with the own ones or each other.
pub record IsMerging (base : List PortMapping) (own : List PortSpec) (st : Merge) : Type 0 where
  pub added : List PortSpec
  pub mappings_eq : st.mappings ≡ base ++ map mapping_of added
  pub own_claimed : All (IsClaimed st.claims) own
  pub added_claimed : All (IsClaimed st.claims) added
  pub apart : All (λ o. All (AreApart o) added) own
  pub distinct : Distinct added

apart-append :
    (own added : List PortSpec) (e : PortSpec)
    → All (λ o. All (AreApart o) added) own
    → All (λ o. AreApart o e) own
    → All (λ o. All (AreApart o) (added ++ e ∷ [])) own
apart-append [] added e h k = tt
apart-append (o ∷ own) added e (h, hs) (k, ks) =
    (All-append (AreApart o) added (e ∷ []) h (k, tt), apart-append own added e hs ks)

map_snoc :
    (added : List PortSpec) (e : PortSpec)
    → map mapping_of added ++ mapping_of e ∷ [] ≡ map mapping_of (added ++ e ∷ [])
map_snoc [] e = refl
map_snoc (a ∷ added) e = ap (◌∷◌ (mapping_of a)) (map_snoc added e)

abbrev accepted_merge : PortSpec → Merge → Merge
accepted_merge e st = record {
  claims = claim st.claims e;
  mappings = st.mappings ++ mapping_of e ∷ [];
  warnings = st.warnings;
}

accepted_merge-IsMerging :
    {base : List PortMapping} {own : List PortSpec} (e : PortSpec) (st : Merge)
    → IsMerging base own st
    → lookup (container_key e) st.claims.host_for ≡ none
    → lookup (host_key e) st.claims.container_for ≡ none
    → IsMerging base own (accepted_merge e st)
accepted_merge-IsMerging {base} {own} e st m fc fh = record {
  added = m.added ++ e ∷ [];
  mappings_eq =
      ap (λ x. x ++ mapping_of e ∷ []) m.mappings_eq
      ∙ (append_assoc base (map mapping_of m.added) (mapping_of e ∷ [])
          ∙ ap (◌++◌ base) (map_snoc m.added e));
  own_claimed = All-IsClaimed-claim st.claims e own m.own_claimed;
  added_claimed =
      All-append (IsClaimed (claim st.claims e)) m.added (e ∷ [])
        (All-IsClaimed-claim st.claims e m.added m.added_claimed) (IsClaimed-self st.claims e, tt);
  apart = apart-append own m.added e m.apart (free-All_apart st.claims e own fc fh m.own_claimed);
  distinct =
      Distinct-append m.added e m.distinct
        (free-All_apart st.claims e m.added fc fh m.added_claimed);
}

warn-IsMerging :
    {base : List PortMapping} {own : List PortSpec} (w : ExposeWarning) (st : Merge)
    → IsMerging base own st
    → IsMerging base own (warn w st)
warn-IsMerging w st m = record {
  added = m.added;
  mappings_eq = m.mappings_eq;
  own_claimed = m.own_claimed;
  added_claimed = m.added_claimed;
  apart = m.apart;
  distinct = m.distinct;
}

merge_one-cases :
    (e : PortSpec) (st : Merge)
    → ((merge_one e st ≡ st) × (lookup (container_key e) st.claims.host_for ≡ some e.host_port))
      ⊎ (((w : ExposeWarning) × (merge_one e st ≡ warn w st))
          ⊎ ((merge_one e st ≡ accepted_merge e st)
              × (lookup (container_key e) st.claims.host_for ≡ none)
              × (lookup (host_key e) st.claims.container_for ≡ none)))
unfolding merge_one
merge_one-cases e st = elim (Option-cases (lookup (container_key e) st.claims.host_for)) [
  | inr (host, c) ↦ elim (Bool-cases (host == e.host_port)) [
    | inl q ↦ inl (ground arith, rw (c, (text_beq_iff host e.host_port).0 q) refl)
    | inr q ↦ inr (inl (container_taken e (container_key e) host, ground arith))
  ]
  | inl c ↦ elim (Option-cases (lookup (host_key e) st.claims.container_for)) [
    | inr (container, d) ↦ inr (inl (host_taken e (host_key e) container, ground arith))
    | inl d ↦ inr (inr (ground arith, c, d))
  ]
]

merge_one-IsMerging :
    {base : List PortMapping} {own : List PortSpec} (e : PortSpec) (st : Merge)
    → IsMerging base own st
    → IsMerging base own (merge_one e st)
merge_one-IsMerging {base} {own} e st m = elim (merge_one-cases e st) [
  | inl (q, _) ↦ subst (IsMerging base own) (sym q) m
  | inr (inl (w, q)) ↦ subst (IsMerging base own) (sym q) (warn-IsMerging w st m)
  | inr (inr (q, fc, fh)) ↦
      subst (IsMerging base own) (sym q) (accepted_merge-IsMerging e st m fc fh)
]

pub merge_all-IsMerging :
    {base : List PortMapping} {own : List PortSpec} (exposed : List PortSpec) (st : Merge)
    → IsMerging base own st
    → IsMerging base own (merge_all exposed st)
unfolding merge_all
merge_all-IsMerging [] st m = m
merge_all-IsMerging (e ∷ exposed) st m =
    merge_all-IsMerging exposed (merge_one e st) (merge_one-IsMerging e st m)

pub claim_all-IsClaimed :
    (c : Claims) (mappings : List PortMapping) (s : PortSpec)
    → IsClaimed c s
    → IsClaimed (claim_all c mappings) s
unfolding claim_all
claim_all-IsClaimed c [] s h = h
claim_all-IsClaimed c (m ∷ mappings) s h =
    claim_all-IsClaimed (claim c (spec_of m)) mappings s (IsClaimed-claim c (spec_of m) s h)

pub claim_all_self :
    (c : Claims) (mappings : List PortMapping)
    → All (IsClaimed (claim_all c mappings)) (map spec_of mappings)
unfolding claim_all
claim_all_self c [] = tt
claim_all_self c (m ∷ mappings) = (
  claim_all-IsClaimed (claim c (spec_of m)) mappings (spec_of m) (IsClaimed-self c (spec_of m)),
  claim_all_self (claim c (spec_of m)) mappings,
)
