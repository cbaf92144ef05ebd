-- ===== src/Tests/Gateway.antt =====
-- A value of GATEWAY_LISTEN, and the ports published for it.
use lstk.Text.Search.{cut_last, split, trim_space, join}
use lstk.Text.Decimal.{atoi}
use lstk.Container.Gateway.Laws.{extra_gateway_ports-IsPublished, IsPublished}
use lstk.Container.Gateway.Parse.{parse_gateway_listen-blank}
use lstk.Container.Gateway.{
  in_service_port_range, go_split_host_port, parse_parts, checked_entry, gateway_mapping,
  join_host_port, split_host_port, GatewayEntry, parse_gateway_listen, container_env_value,
  extra_gateway_ports,
}
use lstk.Prelude.{◌≡◌, refl, Bool, false, List, [], ◌∷◌, ◌==◌, nat_eq, ok}
use lstk.Text.Basic.{text_beq, Text, codes, text_eq}

abbrev is_any : Text → Bool
is_any host = host == codes "0.0.0.0"

abbrev entries : List GatewayEntry
entries =
    record { host = codes "0.0.0.0"; port = codes "4566" }
    ∷ record { host = []; port = codes "4510" }
    ∷ record { host = []; port = codes "8443" }
    ∷ []

parse_run : parse_gateway_listen is_any (codes "0.0.0.0:4566, 4510,:8443") ≡ ok entries
unfolding parse_gateway_listen parse_parts split text_beq trim_space split_host_port checked_entry
    go_split_host_port cut_last atoi
parse_run = refl

blank_value :
    parse_gateway_listen is_any (codes "  ")
    ≡ ok (record { host = []; port = codes "4566" } ∷ record { host = []; port = codes "443" } ∷ [])
unfolding trim_space
blank_value = parse_gateway_listen-blank is_any (codes "  ") refl

extra_gateway_ports-IsPublished_example :
    IsPublished entries (codes "4566") false (extra_gateway_ports entries (codes "4566") false)
extra_gateway_ports-IsPublished_example =
    extra_gateway_ports-IsPublished entries (codes "4566") false

only_8443 :
    extra_gateway_ports entries (codes "4566") false ≡ gateway_mapping (codes "8443") false ∷ []
unfolding extra_gateway_ports text_beq in_service_port_range atoi
only_8443 = refl

container_value : container_env_value entries ≡ codes "0.0.0.0:4566,:4510,:8443"
unfolding container_env_value join join_host_port text_beq
container_value = refl
