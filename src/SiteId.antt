-- ===== src/SiteId.antt =====
-- src/crypto/site_id.rs: site identifiers and the freshness of handshakes. HMAC-SHA256 and `hex::encode`
-- are parameters, and `RFO_SECRET_KEY` an argument, `none` where not set. Times are seconds, of an
-- i64.
pub mod Windows
use rfo_protocol.Base.{
  ℕ, zero, suc, ◌+◌, ◌-◌, ◌*◌, ◌/◌, ◌^◌, Bool, true, false, not, ◌&&◌, Option, none, some, List, [],
  ◌∷◌, ◌++◌, Bytes, Text, Outcome, ok, panicked, ltb, leb, ◌==◌, if◌then◌else◌, length,
}
use rfo_protocol.Base.Int.{ℤ, pos, negsuc}
use rfo_protocol.Base.Keys.{text_beq}
use rfo_protocol.Base.Print.{decimal}
use rfo_protocol.Base.Strings.{is_empty, as_bytes}

abbrev minus : ℕ → ℤ
minus zero = pos 0
minus (suc n) = negsuc n

-- `(unix_ts / 3600) * 3600`, with the division of i64, towards zero.
unfoldable pub replay_window_timestamp : ℤ → ℤ
replay_window_timestamp (pos n) = pos (n / 3600 * 3600)
replay_window_timestamp (negsuc n) = minus ((n + 1) / 3600 * 3600)

-- `{}` of an i64
unfoldable pub decimal_i64 : ℤ → Text
decimal_i64 (pos n) = decimal n
decimal_i64 (negsuc n) = 45 ∷ decimal (n + 1)

-- `{domain_url}|{timestamp}`
unfoldable pub message : Text → ℤ → Text
message domain_url timestamp = domain_url ++ (124 ∷ decimal_i64 timestamp)

module _ (hmac_sha256 : Bytes → Bytes → Bytes) (hex_encode : Bytes → Text) where
  unfoldable pub signed : Text → Text → ℤ → Text
  signed secret domain_url timestamp = hex_encode (
      hmac_sha256 (as_bytes secret)
        (as_bytes (message domain_url (replay_window_timestamp timestamp))))

  -- It panics where the secret is not set.
  unfoldable pub generate_site_id : Option Text → ℤ → Text → Outcome Text Text
  generate_site_id none now domain_url = panicked
  generate_site_id (some secret) now domain_url = ok (signed secret domain_url now)

  unfoldable pub verify_site_id : Option Text → Text → Text → ℤ → Bool
  verify_site_id none site_id domain_url timestamp = false
  verify_site_id (some secret) site_id domain_url timestamp =
      text_beq (signed secret domain_url timestamp) site_id

-- `(now - timestamp).abs()`, with the wrap of i64 in a release build.
unfoldable pub age : ℕ → ℤ → ℤ
age now (pos t) = pos ((now - t) + (t - now))
age now (negsuc n) =
    let d = now + n + 1 in
    if ltb d (2 ^ 63) then pos d else if d == 2 ^ 63 then negsuc (2 ^ 63 - 1) else pos (2 ^ 64 - d)

-- `age <= 300`
abbrev pub at_most_300 : ℤ → Bool
at_most_300 (pos n) = leb n 300
at_most_300 (negsuc n) = true

unfoldable pub verify_handshake_nonce : ℕ → Text → ℤ → Bool
verify_handshake_nonce now nonce timestamp =
    at_most_300 (age now timestamp) && (not (is_empty nonce) && leb 16 (length (as_bytes nonce)))
