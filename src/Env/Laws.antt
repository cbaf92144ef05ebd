-- ===== src/Env/Laws.antt =====
-- internal/awscli/exec.go: how `set`, `setIfAbsent` and `remove` change what a key reads.
use lstk.Text.Search.{cut, contains_char, has_prefix}
use lstk.Env.{env_value, env_value_loop, prefix_of, entry, remove, set, env_has_key, set_if_absent}
use lstk.Prelude.{
  none, some, Bool, Option, length, drop, ◌≡◌, refl, ◌∙◌, inl, inr, true, false, not, ◌&&◌, ◌||◌,
  List, [], ◌∷◌, ◌++◌, arith, nat_eq, if◌then◌else◌, Bool-cases,
}
use lstk.Text.Basic.{text_beq, Text, text_eq, text_beq_iff}

-- A name without `=`, as every variable's is.
abbrev pub IsKey : Text → Type 0
IsKey key = contains_char key b'=' ≡ false

-- An entry belongs to one key at most.
pub has_prefix_other :
    (e k j : Text)
    → IsKey k
    → IsKey j
    → has_prefix e (prefix_of k) ≡ true
    → has_prefix e (prefix_of j) ≡ text_beq k j
unfolding has_prefix text_beq
has_prefix_other [] [] j hk hj h = cc
has_prefix_other [] (c ∷ k) j hk hj h = cc
has_prefix_other (d ∷ e) [] [] hk hj h = h
has_prefix_other (d ∷ e) [] (b ∷ j) hk hj h = ground arith
has_prefix_other (d ∷ e) (c ∷ k) [] hk hj h = ground arith
has_prefix_other (d ∷ e) (c ∷ k) (b ∷ j) hk hj h = ground (arith, has_prefix_other e k j)

pub has_prefix-entry : (k v : Text) → has_prefix (entry k v) (prefix_of k) ≡ true
unfolding has_prefix
has_prefix-entry [] v = refl
has_prefix-entry (c ∷ k) v = ground (arith, has_prefix-entry k v)

pub entry_other :
    (k j v : Text) → IsKey k → IsKey j → has_prefix (entry k v) (prefix_of j) ≡ text_beq k j
entry_other k j v hk hj = has_prefix_other (entry k v) k j hk hj (has_prefix-entry k v)

pub env_has_key-append :
    (env more : List Text) (k : Text)
    → env_has_key (env ++ more) k ≡ (env_has_key env k || env_has_key more k)
unfolding env_has_key
env_has_key-append [] more k = refl
env_has_key-append (e ∷ env) more k = ground (arith, env_has_key-append env more k)

pub env_has_key-remove :
    (env : List Text) (k j : Text)
    → IsKey k
    → IsKey j
    → env_has_key (remove env k) j ≡ (not (text_beq k j) && env_has_key env j)
unfolding env_has_key remove
env_has_key-remove [] k j hk hj = ground arith
env_has_key-remove (e ∷ env) k j hk hj =
    ground (arith, has_prefix_other e k j hk hj, text_beq_iff k j, env_has_key-remove env k j hk hj)

pub env_has_key-set :
    (env : List Text) (k j v : Text)
    → IsKey k
    → IsKey j
    → env_has_key (set env k v) j ≡ (text_beq k j || env_has_key env j)
unfolding set
env_has_key-set env k j v hk hj =
    rw (env_has_key-append, env_has_key-remove env k j hk hj)
      (unfold env_has_key in ground (arith, entry_other k j v hk hj))

pub env_has_key-set_if_absent :
    (env : List Text) (k j v : Text)
    → IsKey k
    → IsKey j
    → env_has_key (set_if_absent env k v) j ≡ (text_beq k j || env_has_key env j)
unfolding set_if_absent
env_has_key-set_if_absent env k j v hk hj = elim (Bool-cases (env_has_key env k)) [
  | inl e ↦ rw e (ground (arith, e, text_beq_iff k j))
  | inr e ↦
      rw (e, env_has_key-append env (entry k v ∷ []) j)
        (unfold env_has_key in ground (arith, entry_other k j v hk hj))
]

-- `env_value` is a loop with an accumulator: it returns the last match, or what it began with.
pub env_value_loop-append :
    (p : Text) (env more : List Text) (v : Text)
    → env_value_loop p (env ++ more) v ≡ env_value_loop p more (env_value_loop p env v)
unfolding env_value_loop
env_value_loop-append p [] more v = refl
env_value_loop-append p (e ∷ env) more v = env_value_loop-append p env more _

drop-entry : (k v : Text) → drop (length (prefix_of k)) (entry k v) ≡ v
drop-entry [] v = refl
drop-entry (c ∷ k) v = drop-entry k v

pub drop-entry-eq :
    (k j v : Text) → text_beq k j ≡ true → drop (length (prefix_of j)) (entry k v) ≡ v
drop-entry-eq k j v e = rw ((text_beq_iff k j).0 e) (drop-entry j v)

-- An entry at the end of an environment decides its own key and leaves all others.
pub env_value-entry :
    (env : List Text) (k j v : Text)
    → IsKey k
    → IsKey j
    → env_value (env ++ entry k v ∷ []) j ≡ (if text_beq k j then v else env_value env j)
unfolding env_value
env_value-entry env k j v hk hj =
    rw (env_value_loop-append (prefix_of j) env (entry k v ∷ []) [], entry_other k j v hk hj)
      (ground (arith, text_beq_iff k j, drop-entry j v))

env_value_loop-remove :
    (env : List Text) (k j v : Text)
    → IsKey k
    → IsKey j
    → text_beq k j ≡ false
    → env_value_loop (prefix_of j) (remove env k) v ≡ env_value_loop (prefix_of j) env v
unfolding env_value_loop remove
env_value_loop-remove [] k j v hk hj h = refl
env_value_loop-remove (e ∷ env) k j v hk hj h = elim (Bool-cases (has_prefix e (prefix_of k))) [
  | inl m ↦
      let other : has_prefix e (prefix_of j) ≡ false = has_prefix_other e k j hk hj m ∙ h in
      rw (m, other) (env_value_loop-remove env k j v hk hj h)
  | inr m ↦ rw m (env_value_loop-remove env k j _ hk hj h)
]

-- What `set` and `setIfAbsent` leave for another key to read.
pub env_value-set :
    (env : List Text) (k j v : Text)
    → IsKey k
    → IsKey j
    → env_value (set env k v) j ≡ (if text_beq k j then v else env_value env j)
unfolding set
env_value-set env k j v hk hj = elim (Bool-cases (text_beq k j)) [
  | inl e ↦ rw (env_value-entry (remove env k) k j v hk hj, e)
  | inr e ↦
      rw (env_value-entry (remove env k) k j v hk hj, e)
        (unfold env_value in env_value_loop-remove env k j [] hk hj e)
]

pub env_value-remove :
    (env : List Text) (k j : Text)
    → IsKey k
    → IsKey j
    → text_beq k j ≡ false
    → env_value (remove env k) j ≡ env_value env j
unfolding env_value
env_value-remove env k j hk hj e = env_value_loop-remove env k j [] hk hj e

pub env_value-set_if_absent :
    (env : List Text) (k j v : Text)
    → IsKey k
    → IsKey j
    → text_beq k j ≡ false
    → env_value (set_if_absent env k v) j ≡ env_value env j
unfolding set_if_absent
env_value-set_if_absent env k j v hk hj e = elim (Bool-cases (env_has_key env k)) [
  | inl p ↦ rw p
  | inr p ↦ rw (p, env_value-entry env k j v hk hj, e)
]

abbrev pub key_is : Option (Text × Text) → Text → Bool
key_is none j = false
key_is (some (key, value)) j = text_beq key j

-- An entry begins with a key and `=` exactly when the key is what stands before its first `=`.
pub has_prefix-cut : (e j : Text) → IsKey j → has_prefix e (prefix_of j) ≡ key_is (cut e b'=') j
unfolding has_prefix cut text_beq
has_prefix-cut [] [] hj = refl
has_prefix-cut [] (b ∷ j) hj = refl
has_prefix-cut (c ∷ e) [] hj = ground arith
has_prefix-cut (c ∷ e) (b ∷ j) hj = ground (arith, has_prefix-cut e j (ground arith))
