-- ===== src/Container/OptionalPorts/Laws.antt =====
-- internal/container/start.go: what becomes of the ports that a start can do without.
use lstk.Text.Search.{contains}
use lstk.Container.OptionalPorts.{
  after_bind, after_remove, started, again, finished, bind_text, DropWarning, after_start,
  failed_optional_port_bind, remove_at, failed_bind_loop,
}
use lstk.Ports.{PortMapping}
use lstk.Prelude.{
  Option-cases, length, ℕ, zero, suc, ◌<◌, ◌≡◌, refl, ◌≢◌, ◌⊎◌, inl, inr, Bool, true, false, ◌&&◌,
  Option, none, some, List, [], ◌∷◌, arith, nat_eq, if◌then◌else◌, Bool-cases, Result, ok, err,
}
use lstk.Text.Basic.{Text, text_eq}

-- The mappings that a start cannot do without, in order.
abbrev pub required : List PortMapping → List PortMapping
required [] = []
required (ep ∷ mappings) = let rest = required mappings in if ep.optional then rest else ep ∷ rest

failed_bind_loop-cases :
    (text : Text) (ep : PortMapping) (mappings : List PortMapping) {i : ℕ}
    → failed_bind_loop text (ep ∷ mappings) ≡ some i
    → ((i ≡ 0) × (ep.optional ≡ true))
      ⊎ ((j : ℕ) × (i ≡ suc j) × (failed_bind_loop text mappings ≡ some j))
unfolding failed_bind_loop
failed_bind_loop-cases text ep mappings {i} h =
    elim (Bool-cases (ep.optional && contains text (bind_text ep.host_port))) [
      | inl e ↦ inl (ground arith, ground arith)
      | inr e ↦ elim (Option-cases (failed_bind_loop text mappings)) [
        | inl f ↦ absurd (ground arith)
        | inr (j, f) ↦ inr (j, ground arith, f)
      ]
    ]

-- The mapping that the daemon's error names is one of the list.
pub failed_bind_loop-lt :
    (text : Text) (mappings : List PortMapping) {i : ℕ}
    → failed_bind_loop text mappings ≡ some i
    → i < length mappings
failed_bind_loop-lt text [] h = unfold failed_bind_loop in cc
failed_bind_loop-lt text (ep ∷ mappings) {i} h = elim (failed_bind_loop-cases text ep mappings h) [
  | inl (e, o) ↦ rw e (ground arith)
  | inr (j, e, f) ↦ rw e (omega (arith, failed_bind_loop-lt text mappings f))
]

-- It is an optional one: the required mappings are the same without it.
pub required-remove_at :
    (text : Text) (mappings : List PortMapping) {i : ℕ}
    → failed_bind_loop text mappings ≡ some i
    → required (remove_at i mappings) ≡ required mappings
required-remove_at text [] h = unfold failed_bind_loop in cc
required-remove_at text (ep ∷ mappings) {i} h = elim (failed_bind_loop-cases text ep mappings h) [
  | inl (e, o) ↦ rw (e, o) refl
  | inr (j, e, f) ↦ rw e (ground (arith, required-remove_at text mappings f))
]

pub length-remove_at :
    (mappings : List PortMapping) (i : ℕ)
    → i < length mappings
    → suc (length (remove_at i mappings)) ≡ length mappings
length-remove_at [] i h = ground arith
length-remove_at (ep ∷ mappings) zero h = refl
length-remove_at (ep ∷ mappings) (suc i) h = ground (arith, length-remove_at mappings i)

failed_optional_port_bind-loop :
    (text : Text) (mappings : List PortMapping) {i : ℕ}
    → failed_optional_port_bind text mappings ≡ some i
    → failed_bind_loop text mappings ≡ some i
unfolding failed_optional_port_bind
failed_optional_port_bind-loop text mappings h = ground arith

module _ {ℓ} {S : Type ℓ} (start : S → List PortMapping → Result Text Text × S)
    (remove : S → Bool × S) where
  after_remove-again :
      (text : Text) (i : ℕ) (ports : List PortMapping) (r : Bool × S) {w : DropWarning}
      {ports' : List PortMapping} {s' : S}
      → after_remove start remove text i ports r ≡ again w ports' s'
      → ports' ≡ remove_at i ports
  unfolding after_remove
  after_remove-again text i ports (true, s) h = cc
  after_remove-again text i ports (false, s) h = cc

  after_bind-again :
      (text : Text) (ports : List PortMapping) (s : S) (o : Option ℕ) {w : DropWarning}
      {ports' : List PortMapping} {s' : S}
      → failed_optional_port_bind text ports ≡ o
      → after_bind start remove text ports s o ≡ again w ports' s'
      → (required ports' ≡ required ports) × (suc (length ports') ≡ length ports)
  unfolding after_bind
  after_bind-again text ports s none e h = cc
  after_bind-again text ports s (some i) e h =
      let f = failed_optional_port_bind-loop text ports e in
      rw (after_remove-again text i ports (remove s) h) (
        required-remove_at text ports f,
        length-remove_at ports i (failed_bind_loop-lt text ports f),
      )

  -- A round that is not the last drops one mapping, which is optional.
  pub after_start-again :
      (ports : List PortMapping) (r : Result Text Text × S) {w : DropWarning}
      {ports' : List PortMapping} {s' : S}
      → after_start start remove ports r ≡ again w ports' s'
      → (required ports' ≡ required ports) × (suc (length ports') ≡ length ports)
  unfolding after_start
  after_start-again ports (ok id, s) h = cc
  after_start-again ports (err text, s) h =
      after_bind-again text ports s (failed_optional_port_bind text ports) refl h

  after_remove-not_started :
      (text : Text) (i : ℕ) (ports : List PortMapping) (r : Bool × S) {id : Text}
      {kept : List PortMapping} {ws : List DropWarning} {s' : S}
      → after_remove start remove text i ports r ≢ finished (started id kept) ws s'
  unfolding after_remove
  after_remove-not_started text i ports (true, s) h = cc
  after_remove-not_started text i ports (false, s) h = cc

  after_bind-not_started :
      (text : Text) (ports : List PortMapping) (s : S) (o : Option ℕ) {id : Text}
      {kept : List PortMapping} {ws : List DropWarning} {s' : S}
      → after_bind start remove text ports s o ≢ finished (started id kept) ws s'
  unfolding after_bind
  after_bind-not_started text ports s none h = cc
  after_bind-not_started text ports s (some i) h =
      after_remove-not_started text i ports (remove s) h

  pub after_start-started :
      (ports : List PortMapping) (r : Result Text Text × S) {id : Text} {kept : List PortMapping}
      {ws : List DropWarning} {s' : S}
      → after_start start remove ports r ≡ finished (started id kept) ws s'
      → (kept ≡ ports) × (ws ≡ [])
  unfolding after_start
  after_start-started ports (ok id, s) h = ground arith
  after_start-started ports (err text, s) h =
      absurd (after_bind-not_started text ports s (failed_optional_port_bind text ports) h)
