-- ===== src/Endpoint/Laws.antt =====
-- internal/endpoint/target.go: what a resolved target is, and what the hint at another scheme means.
use lstk.Text.Search.{trim_right}
use lstk.Config.Emulators.{emulator_azure}
use lstk.Endpoint.{
  aws_signature_services, unknown_type, probe_type, bad_scheme, EndpointError, not_absolute,
  resolve, resolve_source, given, validate_url, judge_info, https, judge_health,
  classify_by_services, http, checked_url, Url, health_url, Health, Target, Network,
  resolved_source,
}
use lstk.Prelude.{
  if-cases, any, inr, inl, >>=-eq-ok, guard-eq-ok, guard, Result, Option, Bool-cases, not, ◌⊎◌,
  ◌++◌, if◌then◌else◌, Option, List, ok, err, refl, arith, ◌≡◌, ◌≢◌, true, false, none, some, [],
  ◌∷◌, ◌==◌, ◌||◌, nat_eq, subst, sym, ap, ◌∙◌, ok-injective,
}
use lstk.Text.Basic.{codes, Text, text_eq, text_beq, text_beq_iff}

-- The first source that is not empty.
abbrev pub first_given : List Text → Option Text
first_given [] = none
first_given (v ∷ vs) = let rest = first_given vs in if v == [] then rest else some v

-- Which type a list of services shows.
abbrev pub Offers : List Text → Text → Type 0
Offers services name = any (λ s. s == name) services ≡ true

pub data ShowsType (services : List Text) : Text → Type 0 where
  shows_snowflake : Offers services (codes "snowflake") → ShowsType services (codes "snowflake")
  shows_aws :
      any (λ s. s == codes "snowflake") services ≡ false
      → any (λ name. any (λ s. s == name) services) aws_signature_services ≡ true
      → ShowsType services (codes "aws")

classify_by_services-ShowsType :
    (services : List Text)
    → classify_by_services services ≢ []
    → ShowsType services (classify_by_services services)
unfolding classify_by_services
classify_by_services-ShowsType services n =
    if-cases (λ (t : Text). t ≢ [] → ShowsType services t)
      (any (λ s. s == codes "snowflake") services) (λ h n. shows_snowflake h)
      (λ h.
        if-cases (λ (t : Text). t ≢ [] → ShowsType services t)
          (any (λ name. any (λ s. s == name) services) aws_signature_services)
          (λ g n. shows_aws h g) (λ g n. absurd (n refl)))
      n

-- How the type of an emulator was found: by the services of a health answer that has a version, or by
-- the version in the info of one that has none.
pub data IsProbed (net : Network) (url : Text) : Text → Type 0 where
  by_services :
      (health : Health) (type : Text)
      → net.fetch_health (health_url net url) ≡ some health
      → health.version ≢ []
      → ShowsType health.services type
      → IsProbed net url type
  by_info :
      (health : Health) (version : Text)
      → net.fetch_health (health_url net url) ≡ some health
      → health.version ≡ []
      → net.fetch_info (url ++ codes "/_localstack/info") ≡ some version
      → version ≢ []
      → IsProbed net url (codes "azure")

pub record IsTarget (net : Network) (raw : Text) (t : Target) : Type 0 where
  pub parsed : Url
  pub parsed_eq : net.parse raw ≡ some parsed
  pub has_host : parsed.host ≢ []
  pub web_scheme : (parsed.scheme ≡ http) ⊎ (parsed.scheme ≡ https)
  pub url_eq : t.url ≡ trim_right (λ c. c == b'/') (net.print parsed)
  pub probed : IsProbed net t.url t.type

abbrev source_value : Option (Text × Text) → Option Text
source_value none = none
source_value (some (source, v)) = some v

resolved_source-first :
    (flag : Option Text) (lstk_url aws_url : Text)
    → first_given (given flag ∷ lstk_url ∷ aws_url ∷ [])
      ≡ source_value (resolved_source flag lstk_url aws_url)
unfolding resolved_source
resolved_source-first flag lstk_url aws_url = ground arith

nonempty : (t : Text) → (t == []) ≡ false → t ≢ []
nonempty t h e = let w : text_beq t [] ≡ true = (text_beq_iff t []).1 e in cc

web :
    (scheme : Text)
    → (scheme == http || scheme == https) ≡ true
    → (scheme ≡ http) ⊎ (scheme ≡ https)
web scheme h = elim (Bool-cases (scheme == http)) [
  | inl e ↦ inl ((text_beq_iff scheme http).0 e)
  | inr e ↦ inr ((text_beq_iff scheme https).0 (ground (arith, h, e)))
]

abbrev or_else : Option Target → Target
or_else none = record { url = []; type = [] }
or_else (some t) = t

module _ (net : Network) where
  judge_info-IsProbed :
      (url : Text) (health : Health) (info : Option Text) {type : Text}
      → net.fetch_health (health_url net url) ≡ some health
      → health.version ≡ []
      → net.fetch_info (url ++ codes "/_localstack/info") ≡ info
      → judge_info net url info ≡ ok type
      → IsProbed net url type
  judge_info-IsProbed url health none f v i h = cc
  judge_info-IsProbed url health (some version) {type} f v i h = elim (Bool-cases (version == [])) [
    | inl e ↦
        let w : ◌≡◌ {A = Result EndpointError Text} (err (unknown_type url)) (ok type) =
          rw e at h in
        cc
    | inr e ↦
        subst (IsProbed net url) {x = emulator_azure} (ok-injective (rw e at h))
          (by_info health version f v i (nonempty version e))
  ]

  judge_health-IsProbed :
      (url : Text) (found : Option Health) {type : Text}
      → net.fetch_health (health_url net url) ≡ found
      → judge_health net url found ≡ ok type
      → IsProbed net url type
  judge_health-IsProbed url none f h = cc
  judge_health-IsProbed url (some health) {type} f h = elim (Bool-cases (health.version == [])) [
    | inl e ↦
        judge_info-IsProbed url health _ f ((text_beq_iff health.version []).0 e) refl (rw e at h)
    | inr e ↦ elim (Bool-cases (classify_by_services health.services == [])) [
      | inl c ↦
          let w : ◌≡◌ {A = Result EndpointError Text} (err (unknown_type url)) (ok type) =
            rw (e, c) at h in
          cc
      | inr c ↦
          subst (IsProbed net url) {x = classify_by_services health.services}
            (ok-injective (rw (e, c) at h))
            (by_services health _ f (nonempty health.version e)
              (classify_by_services-ShowsType health.services (nonempty _ c)))
    ]
  ]

  checked_url-ok :
      (raw : Text) (found : Option Url) {url : Text}
      → checked_url net raw found ≡ ok url
      → (u : Url) × (found ≡ some u)
        × (u.host ≢ [])
        × ((u.scheme ≡ http) ⊎ (u.scheme ≡ https))
        × (url ≡ trim_right (λ c. c == b'/') (net.print u))
  checked_url-ok raw none h = cc
  checked_url-ok raw (some u) h =
      let (_, g, h₁) =
        >>=-eq-ok (guard (not (u.host == [] || u.scheme == [])) (not_absolute raw)) _ h in
      let (_, g', h₂) =
        >>=-eq-ok (guard (u.scheme == http || u.scheme == https) (bad_scheme u.scheme)) _ h₁ in
      let b = guard-eq-ok (not (u.host == [] || u.scheme == [])) (not_absolute raw) g in
      let b' = guard-eq-ok (u.scheme == http || u.scheme == https) (bad_scheme u.scheme) g' in
      (u, refl, nonempty u.host (ground (arith, b)), web u.scheme b', sym (ok-injective h₂))

  target :
      (raw url type : Text) (t : Target)
      → validate_url net raw ≡ ok url
      → probe_type net url ≡ ok type
      → some (record { url = url; type = type }) ≡ some t
      → IsTarget net raw t
  unfolding validate_url probe_type
  target raw url type t v p e =
      let (u, f, host, scheme, same) = checked_url-ok raw (net.parse raw) v in
      subst (λ (o : Target). IsTarget net raw o) {x = record { url = url; type = type }}
        (ap (λ (o : Option Target). or_else o) e)
        (record {
          parsed = u;
          parsed_eq = f;
          has_host = host;
          web_scheme = scheme;
          url_eq = same;
          probed = judge_health-IsProbed url _ refl p;
        })

  resolve_source-IsTarget :
      (found : Option (Text × Text)) {t : Target}
      → resolve_source net found ≡ ok (some t)
      → (raw : Text) × (source_value found ≡ some raw) × IsTarget net raw t
  resolve_source-IsTarget none {t} h = let e = ok-injective h in cc
  resolve_source-IsTarget (some (source, raw)) {t} h =
      let (url, v, h₁) = >>=-eq-ok (validate_url net raw) _ h in
      let (type, p, h₂) = >>=-eq-ok (probe_type net url) _ h₁ in
      (raw, refl, target raw url type t v p (ok-injective h₂))

  -- A target that `Resolve` returns comes from the first source that is given, is an http or https
  -- URL with a host, and has the type that its own answers show: snowflake if its services name it,
  -- aws if they do not and name one of aws's, azure if its info has a version and its health has none.
  pub resolve-IsTarget :
      (flag : Option Text) (lstk_url aws_url : Text) {t : Target}
      → resolve net flag lstk_url aws_url ≡ ok (some t)
      → (raw : Text) × (first_given (given flag ∷ lstk_url ∷ aws_url ∷ []) ≡ some raw)
        × IsTarget net raw t
  unfolding resolve
  resolve-IsTarget flag lstk_url aws_url h =
      let (raw, e, target') = resolve_source-IsTarget (resolved_source flag lstk_url aws_url) h in
      (raw, resolved_source-first flag lstk_url aws_url ∙ e, target')
