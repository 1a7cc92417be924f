-- ===== src/Config/Generated.antt =====
-- What the server of internal/config reads of the keys that cmd/keygen.go has made.
use pkd_server_go.Prelude.{
  ℕ, suc, ◌≡◌, ◌≢◌, refl, sym, ap, ◌∙◌, false, [], ◌∷◌, some, ok, arith, ◌==◌, eq_iff, eq_refl, All,
  length, inl, inr, ℕ-cases, Bool-cases,
}
use pkd_server_go.Encoding.{encode_raw_url, decode_raw_url, digits_of, pack}
use pkd_server_go.Encoding.RoundTrip.{IsByte, decode-encode_raw_url}
use pkd_server_go.Signing.{Bytes, private_key_size, encode_private_key, decode_secret_key}
use pkd_server_go.Api.Handler.{lookup}
use pkd_server_go.Config.{Config, Environment, get_string, load_and_validate}
use pkd_server_go.Config.Keygen.{
  Flags, Generator, Files, read_config, entries_of, key_entries, config_entries, has_keys,
  generate_keys,
}

decode_empty : decode_raw_url "" ≡ some []
unfolding decode_raw_url digits_of pack
decode_empty = refl

-- The text of some bytes is not empty.
encode_raw_url-full :
    (n : ℕ) (bs : Bytes) → All IsByte bs → length bs ≡ suc n → (encode_raw_url bs == "") ≡ false
encode_raw_url-full n [] h l = ground arith
encode_raw_url-full n (b ∷ bs) h l = elim (Bool-cases (encode_raw_url (b ∷ bs) == "")) [
  | inr differs ↦ differs
  | inl same ↦
      let e = ap decode_raw_url ((eq_iff (encode_raw_url (b ∷ bs)) "").0 same) in
      let r = decode-encode_raw_url (b ∷ bs) h in let z = decode_empty in cc
]

abbrev loaded_config : Config → Bytes → Bytes → Config
loaded_config cfg private_key hpke_key = record cfg {
  server = record cfg.server {
    private_key = encode_raw_url private_key;
    hpke_secret_key = encode_raw_url hpke_key;
  };
}

module _ (flags : Flags) (g : Generator) (files : Files) (private_key hpke_key : Bytes)
    (private_is : g.private_key ≡ some private_key)
    (hpke_is : g.hpke_secret_key ≡ some hpke_key) where
  -- What a run that has not failed has written, where its two files are not one.
  generate_keys-written :
      (generate_keys flags g files).0 ≡ ok tt
      → flags.config ≢ flags.key_file
      → ((generate_keys flags g files).1 flags.key_file ≡ some (key_entries private_key hpke_key))
        × (read_config flags (generate_keys flags g files).1
            ≡ config_entries flags (read_config flags files))
  unfolding generate_keys
  generate_keys-written h apart =
      let same = (eq_iff flags.key_file flags.config).0 in
      let itself = eq_refl flags.key_file in
      let itself' = eq_refl flags.config in
      elim (Bool-cases (flags.key_file == flags.config)) [
        | inl e ↦ absurd (apart (sym (same e)))
        | inr e ↦ (ground arith, ground arith)
      ]

  -- Where keygen has made keys, of 64 and of the KEM's seed size, in a key file that is not its
  -- configuration, and the server's configuration is the one that it has written, with the key file at
  -- its path: LoadAndValidate succeeds, with the private key that was made and the HPKE keys that are
  -- derived from the secret that was made.
  pub load_and_validate-generate_keys :
      (e : Environment) (cfg : Config)
      → (generate_keys flags g files).0 ≡ ok tt
      → flags.config ≢ flags.key_file
      → length private_key ≡ private_key_size
      → length hpke_key ≡ e.seed_size
      → e.seed_size ≢ 0
      → All IsByte private_key
      → All IsByte hpke_key
      → e.load ≡ some cfg
      → cfg.server.key_file.path
        ≡ get_string "server.key_file.path" (read_config flags (generate_keys flags g files).1)
      → flags.key_file ≢ ""
      → e.read_key_file cfg.server.key_file.path
        ≡ (generate_keys flags g files).1 cfg.server.key_file.path
      → (loaded : Config) × (load_and_validate e
          ≡ ok (
            loaded,
            record {
              signing_key = private_key;
              hpke_public_key = (e.derive_key_pair hpke_key).0;
              hpke_private_key = (e.derive_key_pair hpke_key).1;
            },
          ))
  unfolding load_and_validate decode_secret_key encode_private_key lookup
  load_and_validate-generate_keys e cfg h apart lp lh nz hp hh le path named read =
      let (keys, config) = generate_keys-written h apart in
      let at : cfg.server.key_file.path ≡ flags.key_file =
        path ∙ ap (get_string "server.key_file.path") config in
      let there : (cfg.server.key_file.path == "") ≡ false =
        elim (Bool-cases (cfg.server.key_file.path == "")) [
          | inr differs ↦ differs
          | inl same ↦ absurd (named (sym at ∙ (eq_iff cfg.server.key_file.path "").0 same))
        ] in
      let read' = read ∙ ap (generate_keys flags g files).1 at ∙ keys in
      let first = decode-encode_raw_url private_key hp in
      let second = decode-encode_raw_url hpke_key hh in
      let full₁ = encode_raw_url-full 63 private_key hp lp in
      let full₂ = elim (ℕ-cases e.seed_size) as (λ x. (encode_raw_url hpke_key == "") ≡ false) [
        | inl z ↦ absurd (nz z)
        | inr (m, z) ↦ encode_raw_url-full m hpke_key hh (lh ∙ z)
      ] in
      (loaded_config cfg private_key hpke_key, ground arith)

module _ (flags : Flags) (g : Generator) (files : Files) (private_key hpke_key : Bytes)
    (private_is : g.private_key ≡ some private_key)
    (hpke_is : g.hpke_secret_key ≡ some hpke_key) where
  -- The check for old keys asks the configuration, while the keys are written to the key file: after a
  -- run that has made keys beside a configuration without any, a second run with the same two files,
  -- without --force, makes others in their place, if nothing fails.
  pub generate_keys-again :
      (flags' : Flags) (g' : Generator) (private_key' hpke_key' : Bytes)
      → has_keys (read_config flags files) ≡ false
      → (generate_keys flags g files).0 ≡ ok tt
      → flags.config ≢ flags.key_file
      → flags'.config ≡ flags.config
      → flags'.key_file ≡ flags.key_file
      → g'.private_key ≡ some private_key'
      → g'.hpke_secret_key ≡ some hpke_key'
      → g'.key_file_fails ≡ false
      → g'.config_fails ≡ false
      → flags'.force ≡ false
      → ((generate_keys flags g files).1 flags.key_file ≡ some (key_entries private_key hpke_key))
        × ((generate_keys flags' g' (generate_keys flags g files).1).0 ≡ ok tt)
        × ((generate_keys flags' g' (generate_keys flags g files).1).1 flags.key_file
            ≡ some (key_entries private_key' hpke_key'))
  unfolding generate_keys lookup
  generate_keys-again flags' g' private_key' hpke_key' absent h apart ce kp pe he kf cf nf =
      let (keys, config) =
        generate_keys-written flags g files private_key hpke_key private_is hpke_is h apart in
      let first = (generate_keys flags g files).1 in
      let read : read_config flags' first ≡ read_config flags first =
        ap (λ path. entries_of (first path)) ce in
      let kept : has_keys (read_config flags' first) ≡ false =
        ap has_keys (read ∙ config) ∙ absent in
      let again : (generate_keys flags' g' first).0 ≡ ok tt = ground arith in
      let apart' : flags'.config ≢ flags'.key_file = λ q. apart (sym ce ∙ q ∙ kp) in
      let (keys', config') =
        generate_keys-written flags' g' first private_key' hpke_key' pe he again apart' in
      (keys, again, ap (generate_keys flags' g' first).1 (sym kp) ∙ keys')
