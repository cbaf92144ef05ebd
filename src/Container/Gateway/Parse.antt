-- ===== src/Container/Gateway/Parse.antt =====
-- internal/container/gateway.go: which values of GATEWAY_LISTEN are accepted.
use lstk.Text.Decimal.{atoi}
use lstk.Text.Search.{cut_last, split, trim_space}
use lstk.Container.Gateway.{
  no_entries, is_nil, default_gateway_listen, is_none, parse_gateway_listen, split_host_port,
  GatewayEntry, checked_entry, parse_parts,
}
use lstk.Prelude.{
  guard-eq-ok, guard, >>=-eq-ok, ok-injective, subst, ◌≡◌, refl, ◌≢◌, ◌⊎◌, inl, inr, Bool, true,
  false, not, Option, none, some, List, [], ◌∷◌, arith, ◌==◌, nat_eq, All, if◌then◌else◌,
  Bool-cases, ok,
}
use lstk.Text.Basic.{text_beq, Text, codes, text_eq, text_beq_iff}
use lstk.Container.Gateway

-- An entry with a numeric port whose host, if it has one, is an IP address.
pub record IsEntry (is_addr : Text → Bool) (e : GatewayEntry) : Type 0 where
  pub numeric_port : is_none (atoi e.port) ≡ false
  pub address : (e.host ≡ []) ⊎ (is_addr e.host ≡ true)

is_nil-nonempty : (g : List GatewayEntry) → not (is_nil g) ≡ true → g ≢ []
is_nil-nonempty [] h e = cc
is_nil-nonempty (x ∷ g) h e = cc

module _ (is_addr : Text → Bool) where
  checked_entry-IsEntry :
      (entry : Text) (o : Option (Text × Text)) {e : GatewayEntry}
      → checked_entry is_addr entry o ≡ ok e
      → IsEntry is_addr e
  unfolding checked_entry
  checked_entry-IsEntry entry none h = cc
  checked_entry-IsEntry entry (some (host, port)) {e} h =
      subst (IsEntry is_addr) {x = record { host = host; port = port }} (ground arith)
        (record { numeric_port = ground arith; address = ground (arith, text_beq_iff host []) })

  split_host_port-IsEntry :
      (entry : Text) {e : GatewayEntry} → split_host_port is_addr entry ≡ ok e → IsEntry is_addr e
  unfolding split_host_port
  split_host_port-IsEntry entry h = checked_entry-IsEntry entry _ h

  parse_parts-IsEntry :
      (parts : List Text) {g : List GatewayEntry}
      → parse_parts is_addr parts ≡ ok g
      → All (IsEntry is_addr) g
  unfolding parse_parts
  parse_parts-IsEntry [] h = subst (All (IsEntry is_addr)) {x = []} (ok-injective h) tt
  parse_parts-IsEntry (part ∷ parts) {g} h = elim (Bool-cases (trim_space part == [])) [
    | inl b ↦ parse_parts-IsEntry parts (rw b at h)
    | inr b ↦
        let h' = rw b at h in
        let (e, f, h₁) = >>=-eq-ok (split_host_port is_addr (trim_space part)) _ h' in
        let (entries, k, h₂) = >>=-eq-ok (parse_parts is_addr parts) _ h₁ in
        subst (All (IsEntry is_addr)) {x = e ∷ entries} (ok-injective h₂)
          (split_host_port-IsEntry (trim_space part) f, parse_parts-IsEntry parts k)
  ]

  -- A value of GATEWAY_LISTEN that is accepted, or the default that stands for a blank one, has at
  -- least one entry, every port of it is numeric, and every host is an IP address or empty.
  parse_gateway_listen-IsEntry :
      (value : Text) {g : List GatewayEntry}
      → parse_gateway_listen is_addr value ≡ ok g
      → (g ≢ []) × All (IsEntry is_addr) g
  unfolding parse_gateway_listen
  parse_gateway_listen-IsEntry value {g} h =
      let (entries, k, h₁) = >>=-eq-ok (parse_parts is_addr (split listen b',')) _ h in
      let (u, n, h₂) = >>=-eq-ok (guard (not (is_nil entries)) (no_entries listen)) _ h₁ in
      let nonempty : not (is_nil entries) ≡ true = guard-eq-ok (not (is_nil entries)) _ n in
      subst (λ x. (x ≢ []) × All (IsEntry is_addr) x) {x = entries} (ok-injective h₂)
        (is_nil-nonempty entries nonempty, parse_parts-IsEntry (split listen b',') k)
    where
      listen : Text
      listen = if trim_space value == [] then default_gateway_listen else value

  -- A blank value stands for port 4566 and, for TLS, port 443, on all interfaces.
  pub parse_gateway_listen-blank :
      (value : Text)
      → trim_space value ≡ []
      → parse_gateway_listen is_addr value
        ≡ ok (
            record { host = []; port = codes "4566" }
            ∷ record { host = []; port = codes "443" }
            ∷ [])
  unfolding parse_gateway_listen parse_parts split text_beq trim_space split_host_port checked_entry
      Gateway.go_split_host_port cut_last atoi
  parse_gateway_listen-blank value h = rw h refl
