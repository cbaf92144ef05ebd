-- ===== src/Tests/Endpoints.antt =====
-- An endpoint URL in the environment, at which an AWS emulator answers.
use lstk.Text.Search.{trim_right}
use lstk.Endpoint.{classify_by_services, Network, Target, resolve, given}
use lstk.Endpoint.Laws.{IsTarget, first_given, resolve-IsTarget}
use lstk.Text.Basic.{text_beq, Text, codes}
use lstk.Prelude.{refl, ◌≡◌, ok, some, none, [], ◌∷◌, ◌++◌}

abbrev local : Network
local = record {
  parse = λ t. some (record { scheme = codes "http"; host = codes "localhost:4566"; rest = [] });
  print = λ u. u.scheme ++ (codes "://" ++ (u.host ++ (u.rest ++ codes "/")));
  fetch_health =
      λ t. some (record { version = codes "2026.3.0"; services = codes "sqs" ∷ codes "s3" ∷ [] });
  fetch_info = λ t. none;
}

abbrev found : Target
found = record { url = codes "http://localhost:4566"; type = codes "aws" }

resolve_run : resolve local none (codes "http://localhost:4566/") [] ≡ ok (some found)
unfolding resolve text_beq classify_by_services trim_right
resolve_run = refl

resolve-IsTarget_example :
    (raw : Text) × (first_given (given none ∷ codes "http://localhost:4566/" ∷ [] ∷ []) ≡ some raw)
    × IsTarget local raw found
resolve-IsTarget_example =
    resolve-IsTarget local none (codes "http://localhost:4566/") [] resolve_run
