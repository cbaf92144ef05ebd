-- ===== src/Endpoint.antt =====
-- internal/endpoint/target.go: the emulator that an endpoint URL names. The URL library (net/url) and
-- the HTTP requests of the probe are parameters.
pub mod Laws
use lstk.Prelude.{
  not, any, if◌then◌else◌, Bool, err, Result, ◌++◌, Option, List, ok, ◌>>=◌, ◌>>◌, guard, [], ◌∷◌,
  some, none, ◌==◌, ◌||◌, ◌&&◌, nat_eq,
}
use lstk.Text.Basic.{Text, codes, text_eq}
use lstk.Text.Search.{trim_right}
use lstk.Config.Emulators.{emulator_aws, emulator_azure, emulator_snowflake}

pub record Target : Type 0 where
  pub url : Text
  pub type : Text

-- A parsed URL, as far as the code looks at it; `rest` is what else it prints.
pub record Url : Type 0 where
  pub scheme : Text
  pub host : Text
  pub rest : Text

-- `healthResponse`, with the names of its services.
pub record Health : Type 0 where
  pub version : Text
  pub services : List Text

pub data EndpointError : Type 0 where
  not_absolute bad_scheme no_answer unknown_type : Text → EndpointError
  scheme_mismatch : Text → Text → EndpointError

-- `url.Parse` and `String`, and `fetchJSON` of the health and of the version in the info; `none`
-- stands for an error.
pub record Network : Type 0 where
  pub parse : Text → Option Url
  pub print : Url → Text
  pub fetch_health : Text → Option Health
  pub fetch_info : Text → Option Text

-- `ResolvedSource`: the flag, if it was given, and the two environment variables.
abbrev pub given : Option Text → Text
given none = []
given (some v) = v

unfoldable pub resolved_source : Option Text → Text → Text → Option (Text × Text)
resolved_source flag lstk_url aws_url =
    if not (given flag == [])
    then some (codes "--endpoint-url", given flag)
    else if not (lstk_url == [])
    then some (codes "LSTK_ENDPOINT_URL", lstk_url)
    else if not (aws_url == [])
    then some (codes "AWS_ENDPOINT_URL", aws_url)
    else none

abbrev pub http : Text
http = codes "http"

abbrev pub https : Text
https = codes "https"

-- `classifyByServices`; the empty text stands for neither.
abbrev pub aws_signature_services : List Text
aws_signature_services =
    codes "s3"
    ∷ codes "sqs"
    ∷ codes "sts"
    ∷ codes "iam"
    ∷ codes "lambda"
    ∷ codes "dynamodb"
    ∷ codes "cloudformation"
    ∷ codes "ec2"
    ∷ codes "kinesis"
    ∷ []

abbrev pub has_service : List Text → Text → Bool
has_service services name = any (λ s. s == name) services

unfoldable pub classify_by_services : List Text → Text
classify_by_services services =
    if has_service services (codes "snowflake")
    then emulator_snowflake
    else if any (has_service services) aws_signature_services
    then emulator_aws
    else []

module _ (net : Network) where
  -- `validateURL`
  abbrev pub checked_url : Text → Option Url → Result EndpointError Text
  checked_url raw none = err (not_absolute raw)
  checked_url raw (some u) = do
    guard (not (u.host == [] || u.scheme == [])) (not_absolute raw)
    guard (u.scheme == http || u.scheme == https) (bad_scheme u.scheme)
    ok (trim_right (λ c. c == b'/') (net.print u))

  unfoldable pub validate_url : Text → Result EndpointError Text
  validate_url raw = checked_url raw (net.parse raw)

  -- `swapScheme`
  abbrev pub swapped : Option Url → Option Text
  swapped none = none
  swapped (some u) =
      if u.scheme == http
      then some (net.print (record { scheme = https; host = u.host; rest = u.rest }))
      else if u.scheme == https
      then some (net.print (record { scheme = http; host = u.host; rest = u.rest }))
      else none

  unfoldable pub swap_scheme : Text → Option Text
  swap_scheme url = swapped (net.parse url)

  -- `unreachable`
  abbrev pub health_url : Text → Text
  health_url url = url ++ codes "/_localstack/health"

  abbrev pub mismatch : Text → Text → Option Health → EndpointError
  mismatch url alt none = no_answer url
  mismatch url alt (some health) = scheme_mismatch alt url

  abbrev pub other_scheme : Text → Option Text → EndpointError
  other_scheme url none = no_answer url
  other_scheme url (some alt) = mismatch url alt (net.fetch_health (health_url alt))

  unfoldable pub unreachable : Text → EndpointError
  unfolding swap_scheme
  unreachable url = other_scheme url (swap_scheme url)

  -- `probeType`
  abbrev pub judge_info : Text → Option Text → Result EndpointError Text
  judge_info url none = err (no_answer url)
  judge_info url (some version) =
      if version == [] then err (unknown_type url) else ok emulator_azure

  abbrev pub judge_health : Text → Option Health → Result EndpointError Text
  judge_health url none = err (unreachable url)
  judge_health url (some health) =
      if not (health.version == [])
      then (if not (classify_by_services health.services == [])
          then ok (classify_by_services health.services)
          else err (unknown_type url))
      else judge_info url (net.fetch_info (url ++ codes "/_localstack/info"))

  unfoldable pub probe_type : Text → Result EndpointError Text
  unfolding unreachable
  probe_type url = judge_health url (net.fetch_health (health_url url))

  -- `Resolve`
  abbrev pub resolve_source : Option (Text × Text) → Result EndpointError (Option Target)
  resolve_source none = ok none
  resolve_source (some (source, raw)) = do
    url ← validate_url raw
    type ← probe_type url
    ok (some (record { url = url; type = type }))

  unfoldable pub resolve : Option Text → Text → Text → Result EndpointError (Option Target)
  unfolding validate_url probe_type resolved_source
  resolve flag lstk_url aws_url = resolve_source (resolved_source flag lstk_url aws_url)
