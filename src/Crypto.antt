-- ===== src/Crypto.antt =====
-- `RfoCrypto` of src/crypto/mod.rs. The hash functions, HMAC and `hex::encode` are parameters; the
-- random nonces and the test of their format only call the uuid crate. Times are seconds.
pub mod Derivation
use rfo_protocol.Base.{
  ℕ, zero, suc, ◌+◌, ◌-◌, ◌%◌, Bool, List, [], ◌∷◌, ◌++◌, Bytes, Text, ltb, if◌then◌else◌, length,
  take, min,
}
use rfo_protocol.Base.Int.{ℤ, pos_part, neg_part, ltb_ℤ}
use rfo_protocol.Base.Keys.{text_beq}
use rfo_protocol.Base.Strings.{as_bytes}
use rfo_protocol.SiteId.{decimal_i64}

-- The primitives of the sha2, hmac and hex crates.
pub record Primitives : Type 0 where
  pub sha256 : Bytes → Bytes
  pub sha512 : Bytes → Bytes
  pub hmac_sha256 : Bytes → Bytes → Bytes
  pub hmac_sha512 : Bytes → Bytes → Bytes
  pub hex_encode : Bytes → Text

module _ (p : Primitives) where
  -- `verify_slice`: the code is computed again and compared.
  unfoldable pub verify_hmac_sha256 : Bytes → Bytes → Bytes → Bool
  verify_hmac_sha256 key data_bytes expected = text_beq (p.hmac_sha256 key data_bytes) expected

  unfoldable pub verify_hmac_sha512 : Bytes → Bytes → Bytes → Bool
  verify_hmac_sha512 key data_bytes expected = text_beq (p.hmac_sha512 key data_bytes) expected

  unfoldable pub hash_content : Text → Text
  hash_content content = p.hex_encode (p.sha256 (as_bytes content))

  -- What is hashed before `info`: the last block, from the second round on.
  abbrev pub chained : ℕ → Bytes → Bytes
  chained counter block = if ltb 1 counter then block else []

  unfoldable pub next_block : Bytes → Bytes → ℕ → Bytes → Bytes
  next_block prk info counter block =
      p.hmac_sha256 prk (chained counter block ++ (info ++ (counter ∷ [])))

  -- The `while` of `derive_key`, on fuel; the counter is a u8.
  unfoldable pub expand : ℕ → Bytes → Bytes → ℕ → ℕ → Bytes → Bytes → Bytes
  expand zero prk info len counter block output = output
  expand (suc fuel) prk info len counter block output =
      let block' = next_block prk info counter block in
      let taken = take (min (len - length output) 32) block' in
      let rest = expand fuel prk info len ((counter + 1) % 256) block' (output ++ taken) in
      if ltb (length output) len then rest else output

  -- Every round adds a byte or more.
  unfoldable pub derive_key : Bytes → Bytes → Bytes → ℕ → Bytes
  derive_key secret salt info len =
      let prk = p.hmac_sha256 salt secret in expand len prk info len 1 [] []

  -- `format!("{}|{}|{}", domain, content, timestamp)`
  unfoldable pub content_hash : Text → Text → ℤ → Text
  content_hash domain content timestamp =
      let payload = domain ++ (124 ∷ (content ++ (124 ∷ decimal_i64 timestamp))) in
      p.hex_encode (p.sha256 (as_bytes payload))

  unfoldable pub verify_content_integrity : Text → Text → ℤ → Text → Bool
  verify_content_integrity domain content timestamp expected_hash =
      text_beq (content_hash domain content timestamp) expected_hash

  unfoldable pub bind_domain : Text → Text → ℤ → Text
  bind_domain secret domain hour_window =
      let payload = secret ++ (124 ∷ (domain ++ (124 ∷ decimal_i64 hour_window))) in
      p.hex_encode (p.sha256 (as_bytes payload))

  unfoldable pub verify_domain_binding : Text → Text → ℤ → Text → Bool
  verify_domain_binding secret domain hour_window expected_site_id =
      text_beq (bind_domain secret domain hour_window) expected_site_id

  unfoldable pub sign_request : Text → Text → Text → Bytes → ℤ → Text
  sign_request secret method path body timestamp =
      let payload =
        method
        ++ (124
            ∷ (path ++ (124 ∷ (decimal_i64 timestamp ++ (124 ∷ p.hex_encode (p.sha256 body)))))) in
      p.hex_encode (p.hmac_sha256 (as_bytes secret) (as_bytes payload))

  unfoldable pub verify_request_signature : Text → Text → Text → Bytes → ℤ → Text → Bool
  verify_request_signature secret method path body timestamp expected_signature =
      text_beq (sign_request secret method path body timestamp) expected_signature
