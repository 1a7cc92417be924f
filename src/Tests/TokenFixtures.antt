-- ===== src/Tests/TokenFixtures.antt =====
-- Inputs for the runs of internal/auth and of the administration: ciphers, tokens and times.
use Prim.Native.Char.{code}
use pkd_server_go.Prelude.{
  String, ℕ, zero, suc, ◌+◌, ◌*◌, ◌/◌, ◌%◌, ◌≤◌, ◌≡◌, refl, sym, ap, ◌∙◌, Bool, true, false, ◌&&◌,
  [], ◌∷◌, Option, some, none, arith, eqb, eqb_iff, ◌==◌, eq_iff, and-true_iff, length, Bool-cases,
  inl, inr, if◌then◌else◌,
}
use pkd_server_go.Json.{Json, Fields, null, boolean, str, obj, end, field}
use pkd_server_go.Signing.{Bytes}
use pkd_server_go.Auth.KeyFile.{KeyCiphers, FileSystem, FileKeyManager}
use pkd_server_go.Auth.KeyFileRoundTrip.{AreKeyCiphers}
use pkd_server_go.Auth.Tokens.{
  Paseto, TokenService, Moment, second, access_ttl, refresh_ttl, access_claims, refresh_claims,
  token_claims,
}
use pkd_server_go.Auth.Lifetime.{AreTokens}

abbrev pub repeat : ℕ → ℕ → Bytes
repeat zero b = []
repeat (suc n) b = b ∷ repeat n b

pub length-repeat : (n b : ℕ) → length (repeat n b) ≡ n
length-repeat zero b = refl
length-repeat (suc n) b = omega (arith, length-repeat n b)

-- A derivation of one byte, and a seal that adds nothing.
abbrev pub key_ciphers : KeyCiphers
key_ciphers = record {
  argon2_id = λ password salt time memory threads n. repeat n 4;
  new_gcm = λ key. true;
  seal = λ key nonce plaintext additional. plaintext;
  open_sealed = λ key nonce ciphertext additional. some ciphertext;
}

pub key_ciphers-AreKeyCiphers : AreKeyCiphers key_ciphers
key_ciphers-AreKeyCiphers = record {
  argon2-length = λ password salt time memory threads n. length-repeat n 4;
  takes_key = λ key l. refl;
  open-seal = λ key nonce plaintext additional. refl;
  seal-IsByte = λ key nonce plaintext additional h. h;
}

abbrev pub files : FileSystem
files = record {
  stat_fails = false;
  read_fails = false;
  write_error = none;
  random_key = some (repeat 32 5);
  random_salt = some (repeat 16 6);
}

abbrev pub manager : FileKeyManager
manager = record {
  password = 112 ∷ 119 ∷ [];
  argon2id_time = 1;
  argon2id_memory = 64;
  argon2id_threads = 1;
}

abbrev digit_before : Bool → Bool → String → String
digit_before true odd rest = ""
digit_before false true rest = String.◌∷◌ "1" rest
digit_before false false rest = String.◌∷◌ "0" rest

-- Binary digits, the lowest first, as a stand-in for RFC 3339.
unfoldable pub bits : ℕ → ℕ → String
bits zero n = ""
bits (suc fuel) n = digit_before (eqb n 0) (eqb (n % 2) 1) (bits fuel (n / 2))

unfoldable pub of_bits : String → ℕ
of_bits String.[] = 0
of_bits (String.◌∷◌ c s) = (if eqb (code c) 49 then 1 else 0) + 2 * of_bits s

of_bits-bits : (fuel n : ℕ) → n ≤ fuel → of_bits (bits fuel n) ≡ n
unfolding bits of_bits
of_bits-bits zero n l = omega arith
of_bits-bits (suc fuel) n l = elim (Bool-cases (eqb n 0)) [
  | inl z ↦
      ap (λ b. of_bits (digit_before b (eqb (n % 2) 1) (bits fuel (n / 2)))) z
      ∙ sym ((eqb_iff n 0).0 z)
  | inr p ↦
      let rest = of_bits-bits fuel (n / 2) (ground (arith, eqb_iff n 0)) in
      elim (Bool-cases (eqb (n % 2) 1)) [
        | inl odd ↦
            let e = (eqb_iff (n % 2) 1).0 odd in
            ap (λ b. of_bits (digit_before b (eqb (n % 2) 1) (bits fuel (n / 2)))) p
            ∙ (ap (λ b. of_bits (digit_before false b (bits fuel (n / 2)))) odd ∙ omega arith)
        | inr even ↦
            let e : n % 2 ≡ 0 = ground (arith, eqb_iff (n % 2) 1) in
            ap (λ b. of_bits (digit_before b (eqb (n % 2) 1) (bits fuel (n / 2)))) p
            ∙ (ap (λ b. of_bits (digit_before false b (bits fuel (n / 2)))) even ∙ omega arith)
      ]
]

unfoldable mutual
  pub same_json : Json → Json → Bool
  same_json null null = true
  same_json (boolean true) (boolean true) = true
  same_json (boolean false) (boolean false) = true
  same_json (str s) (str t) = s == t
  same_json (obj fs) (obj gs) = same_fields fs gs
  same_json _ _ = false

  pub same_fields : Fields → Fields → Bool
  same_fields end end = true
  same_fields (field k v fs) (field l w gs) = k == l && (same_json v w && same_fields fs gs)
  same_fields _ _ = false

mutual
  unfolding same_json same_fields

  same_json_sound : (a b : Json) → same_json a b ≡ true → a ≡ b
  same_json_sound null null h = refl
  same_json_sound (boolean true) (boolean true) h = refl
  same_json_sound (boolean false) (boolean false) h = refl
  same_json_sound (str s) (str t) h = ap str ((eq_iff s t).0 h)
  same_json_sound (obj fs) (obj gs) h = ap obj (same_fields_sound fs gs h)
  same_json_sound a b h = ground arith

  same_fields_sound : (fs gs : Fields) → same_fields fs gs ≡ true → fs ≡ gs
  same_fields_sound end end h = refl
  same_fields_sound (field k v fs) (field l w gs) h =
      let (a, b) = (and-true_iff (k == l) (same_json v w && same_fields fs gs)).0 h in
      let (b, d) = (and-true_iff (same_json v w) (same_fields fs gs)).0 b in
      let first = (eq_iff k l).0 a in
      let value = same_json_sound v w b in let rest = same_fields_sound fs gs d in cc
  same_fields_sound fs gs h = ground arith

abbrev pub service_now : ℕ
service_now = 7 * second

abbrev format_unix : ℕ → String
format_unix t = bits (t / second) (t / second)

abbrev parse_unix : String → Option ℕ
parse_unix s = some (of_bits s * second)

abbrev pub first_moment : Moment
first_moment = record { now = service_now; uuid = some "u1"; random = [] }

abbrev pub second_moment : Moment
second_moment = record { now = service_now; uuid = some "u2"; random = [] }

-- A PASETO that knows two payloads by heart: A is the access token, and R the refresh token.
abbrev knows : Json → Json → Json → Option String
knows access refresh payload =
    if same_json access payload
    then some "A"
    else if same_json refresh payload
    then some "R"
    else none

abbrev reads : Json → Json → String → Option (Option Json)
reads access refresh token =
    if token == "A" then some (some access) else if token == "R" then some (some refresh) else none

abbrev paseto_of : Json → Json → Paseto
paseto_of access refresh = record {
  local_key = λ seed. some seed;
  encrypt = λ key random payload. knows access refresh payload;
  decrypt = λ key token. reads access refresh token;
  format_time = format_unix;
  parse_time = parse_unix;
}

some_injective : {a b : String} → ◌≡◌ {A = Option String} (some a) (some b) → a ≡ b
some_injective h = cc

reads-knows :
    (access refresh payload : Json) (token : String)
    → knows access refresh payload ≡ some token
    → reads access refresh token ≡ some (some payload)
reads-knows access refresh payload token e = elim (Bool-cases (same_json access payload)) [
  | inl a ↦
      let other = if same_json refresh payload then some "R" else none in
      let is : ◌≡◌ {A = Option String} (some "A") (some token) =
        sym (ap (λ b. if b then some "A" else other) a) ∙ e in
      let t : "A" ≡ token = some_injective is in
      ap (reads access refresh) (sym t) ∙ ap (λ p. some (some p)) (same_json_sound access payload a)
  | inr n ↦
      let rest : (if same_json refresh payload then some "R" else none) ≡ some token =
        sym
          (ap (λ b. if b then some "A" else if same_json refresh payload then some "R" else none) n)
        ∙ e in
      elim (Bool-cases (same_json refresh payload)) [
        | inl r ↦
            let is : ◌≡◌ {A = Option String} (some "R") (some token) =
              sym (ap (λ b. if b then some "R" else none) r) ∙ rest in
            let t : "R" ≡ token = some_injective is in
            ap (reads access refresh) (sym t)
            ∙ ap (λ p. some (some p)) (same_json_sound refresh payload r)
        | inr m ↦
            let is : ◌≡◌ {A = Option String} none (some token) =
              sym (ap (λ b. if b then some "R" else none) m) ∙ rest in
            cc
      ]
]

paseto_of-AreTokens : (access refresh : Json) → AreTokens (paseto_of access refresh)
paseto_of-AreTokens access refresh = record {
  decrypt-encrypt = λ key random payload token e. reads-knows access refresh payload token e;
  parse-format =
      λ t. ap (λ n. some (n * second)) (of_bits-bits (t / second) (t / second) (omega arith));
}

abbrev pub service_of : Paseto → TokenService
service_of p = record {
  paseto = p;
  symmetric_key = some (repeat 32 5);
  host = "pkd";
  select_fails = false;
  insert_fails = false;
  unique_jti = true;
}

-- The payload of a token that the service makes.
abbrev payload : Moment → String → ℕ → Fields → Json
payload m jti ttl claims = obj (token_claims (service_of (paseto_of null null)) m jti ttl claims)

abbrev pub paseto : Paseto
paseto =
    paseto_of (payload first_moment "u1" access_ttl access_claims)
      (payload second_moment "u2" refresh_ttl refresh_claims)

pub paseto-AreTokens : AreTokens paseto
paseto-AreTokens = paseto_of-AreTokens _ _

abbrev pub service : TokenService
service = service_of paseto
