-- ===== src/Auxdata.antt =====
-- internal/auxdata: the validators, and those that server/main.go enables. The parsers are parameters.
use pkd_server_go.Prelude.{String, ◌≡◌, Bool, true, List, [], ◌∷◌, ◌==◌, arith, if◌then◌else◌}
use pkd_server_go.Text.{trim, is_space}
use pkd_server_go.Domain.Service.{Validator, accepts, registered}

-- age.ParseX25519Recipient and ssh.ParseAuthorizedKey: whether they read a text
pub record Parsers : Type 0 where
  pub parse_recipient : String → Bool
  pub parse_authorized_key : String → Bool

abbrev pub age_validator : Parsers → Validator
age_validator p = record { type_name = "age-v1"; validate = p.parse_recipient }

-- strings.TrimSpace
abbrev pub ssh_validator : Parsers → Validator
ssh_validator p = record {
  type_name = "ssh-v2";
  validate = λ text. p.parse_authorized_key (trim is_space text);
}

abbrev pub enabled_validators : Parsers → List Validator
enabled_validators p = age_validator p ∷ ssh_validator p ∷ []

-- What is stored of auxiliary data: an age recipient and an SSH key only where the parser reads it,
-- and data of every other type unread.
accepts-enabled_validators :
    (p : Parsers) (type text : String)
    → accepts (registered (enabled_validators p) type) text ≡ (
        if "ssh-v2" == type
        then p.parse_authorized_key (trim is_space text)
        else if "age-v1" == type
        then p.parse_recipient text
        else true)
unfolding registered
accepts-enabled_validators p type text = ground arith
