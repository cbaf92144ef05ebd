-- ===== src/Env/Sam.antt =====
-- internal/iac/sam/cli/env.go: what the SAM CLI sees.
use lstk.Env.{
  entry, managed, env_value, append_managed, sam_build_env, is_skipped, prefix_of, env_value_loop,
  is_managed, strip,
}
use lstk.Env.Laws.{has_prefix-cut, key_is, env_value_loop-append, drop-entry-eq, entry_other, IsKey}
use lstk.Text.Search.{cut, has_prefix}
use lstk.Prelude.{
  arith, any, ◌≡◌, refl, sym, ap, ◌∙◌, inl, inr, true, false, not, ◌&&◌, Option, none, some, List,
  [], ◌∷◌, nat_eq, All, if◌then◌else◌, Bool-cases,
}
use lstk.Text.Basic.{codes, text_beq, Text, text_eq, text_beq_iff}

-- An entry of a key is skipped exactly when the key is managed or stripped.
is_skipped-key :
    (entries : List (Text × Text)) (e j : Text)
    → IsKey j
    → has_prefix e (prefix_of j) ≡ true
    → is_skipped entries (cut e b'=') ≡ is_managed entries j
is_skipped-key entries e j hj h = from (cut e b'=') (sym (has_prefix-cut e j hj) ∙ h)
  where
    from :
        (o : Option (Text × Text)) → key_is o j ≡ true → is_skipped entries o ≡ is_managed entries j
    from none k = cc
    from (some (key, value)) k = ap (is_managed entries) ((text_beq_iff key j).0 k)

module _ (entries : List (Text × Text)) (j : Text) (hj : IsKey j) where
  -- A key that is neither managed nor stripped keeps its value.
  strip-value :
      (base : List Text) (v : Text)
      → is_managed entries j ≡ false
      → env_value_loop (prefix_of j) (strip entries base) v ≡ env_value_loop (prefix_of j) base v
  unfolding strip env_value_loop
  strip-value [] v h = refl
  strip-value (e ∷ base) v h = elim (Bool-cases (has_prefix e (prefix_of j))) [
    | inl p ↦
        rw (is_skipped-key entries e j hj p, h) (rw (p, env_value_loop) (strip-value base _ h))
    | inr p ↦ elim (Bool-cases (is_skipped entries (cut e b'='))) [
      | inl m ↦ rw m (rw (p, env_value_loop) (strip-value base v h))
      | inr m ↦ rw m (rw (p, env_value_loop) (strip-value base v h))
    ]
  ]

  -- A key that is managed or stripped keeps none.
  strip-stripped :
      (base : List Text) (v : Text)
      → is_managed entries j ≡ true
      → env_value_loop (prefix_of j) (strip entries base) v ≡ v
  unfolding strip env_value_loop
  strip-stripped [] v h = refl
  strip-stripped (e ∷ base) v h = elim (Bool-cases (has_prefix e (prefix_of j))) [
    | inl p ↦ rw (is_skipped-key entries e j hj p, h) (strip-stripped base v h)
    | inr p ↦ elim (Bool-cases (is_skipped entries (cut e b'='))) [
      | inl m ↦ rw m (strip-stripped base v h)
      | inr m ↦ rw m (rw (p, env_value_loop) (strip-stripped base v h))
    ]
  ]

-- The value that the managed entries give a key: the last one of the key that is not empty.
abbrev pub managed_value : List (Text × Text) → Text → Text → Text
managed_value [] j v = v
managed_value ((key, value) ∷ entries) j v =
    managed_value entries j (if text_beq key j && not (text_beq value []) then value else v)

append_managed-value :
    (entries : List (Text × Text)) (j v : Text)
    → IsKey j
    → All (λ m. IsKey m.0) entries
    → env_value_loop (prefix_of j) (append_managed entries) v ≡ managed_value entries j v
unfolding append_managed env_value_loop
append_managed-value [] j v hj hm = refl
append_managed-value ((key, value) ∷ entries) j v hj (hk, hm) =
    elim (Bool-cases (text_beq value [])) [
      | inl e ↦ elim (Bool-cases (text_beq key j)) [
        | inl k ↦ rw (e, k) (append_managed-value entries j v hj hm)
        | inr k ↦ rw (e, k) (append_managed-value entries j v hj hm)
      ]
      | inr e ↦ elim (Bool-cases (text_beq key j)) [
        | inl k ↦
            let own : has_prefix (entry key value) (prefix_of j) ≡ true =
              entry_other key j value hk hj ∙ k in
            rw (e, k)
              (rw (own, env_value_loop)
                (rw (drop-entry-eq key j value k) (append_managed-value entries j value hj hm)))
        | inr k ↦
            let other : has_prefix (entry key value) (prefix_of j) ≡ false =
              entry_other key j value hk hj ∙ k in
            rw (e, k) (rw (other, env_value_loop) (append_managed-value entries j v hj hm))
      ]
    ]

sam_build_env-value :
    (base : List Text) (endpoint_url account region j : Text)
    → IsKey j
    → env_value (sam_build_env base endpoint_url account region) j
      ≡ managed_value
          (managed endpoint_url account region)
          j
          (if is_managed (managed endpoint_url account region) j then [] else env_value base j)
unfolding sam_build_env env_value
sam_build_env-value base endpoint_url account region j hj =
    let m = managed endpoint_url account region in
    rw env_value_loop-append (elim (Bool-cases (is_managed m j)) [
      | inl e ↦
          rw (strip-stripped m j hj base [] e, e)
            (append_managed-value m j [] hj (refl, (refl, (refl, (refl, (refl, tt))))))
      | inr e ↦
          rw (strip-value m j hj base [] e, e)
            (append_managed-value m j _ hj (refl, (refl, (refl, (refl, (refl, tt))))))
    ])

-- The variables of which nothing ambient reaches the SAM CLI.
abbrev pub isolated : List Text
isolated =
    codes "AWS_ENDPOINT_URL"
    ∷ codes "AWS_ACCESS_KEY_ID"
    ∷ codes "AWS_SECRET_ACCESS_KEY"
    ∷ codes "AWS_REGION"
    ∷ codes "AWS_DEFAULT_REGION"
    ∷ codes "AWS_PROFILE"
    ∷ codes "AWS_DEFAULT_PROFILE"
    ∷ codes "AWS_SESSION_TOKEN"
    ∷ []

-- The value given, also where it is empty and the variable is not set.
given_value : (value : Text) → (if not (text_beq value []) then value else []) ≡ value
unfolding text_beq
given_value [] = refl
given_value (c ∷ value) = refl

other_value :
    (entries : List (Text × Text)) (j v : Text)
    → any (λ m. text_beq m.0 j) entries ≡ false
    → managed_value entries j v ≡ v
other_value [] j v h = refl
other_value ((key, value) ∷ entries) j v h = elim (Bool-cases (text_beq key j)) [
  | inl e ↦ ground (arith, h, e)
  | inr e ↦ rw e (ground (arith, other_value entries j v, h, e))
]

not_isolated :
    (endpoint_url account region j : Text)
    → any (λ k. text_beq k j) isolated ≡ false
    → (any (λ m. text_beq m.0 j) (managed endpoint_url account region) ≡ false)
      × (is_managed (managed endpoint_url account region) j ≡ false)
not_isolated endpoint_url account region j h = ground (arith, h)

-- The SAM CLI sees LocalStack's endpoint, the account and the region that were resolved, and no
-- profile and no session token, whatever the ambient environment has; an empty endpoint, account or
-- region leaves its variable without a value, also an ambient one. Every other variable keeps its
-- ambient value.
pub sam_build_env-isolated :
    (base : List Text) (endpoint_url account region j : Text)
    → IsKey j
    → any (λ k. text_beq k j) isolated ≡ false
    → let env = sam_build_env base endpoint_url account region in
      (env_value env (codes "AWS_ENDPOINT_URL") ≡ endpoint_url)
      × (env_value env (codes "AWS_ACCESS_KEY_ID") ≡ account)
      × (env_value env (codes "AWS_SECRET_ACCESS_KEY") ≡ codes "test")
      × (env_value env (codes "AWS_REGION") ≡ region)
      × (env_value env (codes "AWS_DEFAULT_REGION") ≡ region)
      × (env_value env (codes "AWS_PROFILE") ≡ [])
      × (env_value env (codes "AWS_DEFAULT_PROFILE") ≡ [])
      × (env_value env (codes "AWS_SESSION_TOKEN") ≡ [])
      × (env_value env j ≡ env_value base j)
unfolding text_beq
sam_build_env-isolated base endpoint_url account region j hj h =
    let at = sam_build_env-value base endpoint_url account region in
    let (unmanaged, kept) = not_isolated endpoint_url account region j h in
    (
      at (codes "AWS_ENDPOINT_URL") refl ∙ given_value endpoint_url,
      at (codes "AWS_ACCESS_KEY_ID") refl ∙ given_value account,
      at (codes "AWS_SECRET_ACCESS_KEY") refl,
      at (codes "AWS_REGION") refl ∙ given_value region,
      at (codes "AWS_DEFAULT_REGION") refl ∙ given_value region,
      at (codes "AWS_PROFILE") refl,
      at (codes "AWS_DEFAULT_PROFILE") refl,
      at (codes "AWS_SESSION_TOKEN") refl,
      at j hj
          ∙ rw kept
              (other_value (managed endpoint_url account region) j (env_value base j) unmanaged),
    )
