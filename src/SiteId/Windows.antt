-- ===== src/SiteId/Windows.antt =====
-- Which site identifiers and handshakes src/crypto/site_id.rs accepts.
use rfo_protocol.Base.{
  ℕ, ◌+◌, ◌*◌, ◌/◌, ◌^◌, ◌≤◌, ◌<◌, ◌≡◌, ◌↔◌, ◌⊎◌, sym, ap, ◌∙◌, Bool, true, some, [], ◌∷◌, Bytes,
  Text, Outcome, ok, err, panicked, not, ◌&&◌, arith, length, leb,
}
use rfo_protocol.Base.Int.{ℤ, pos, negsuc}
use rfo_protocol.Base.Keys.{text_beq_iff}
use rfo_protocol.Base.Strings.{is_empty, as_bytes}
use rfo_protocol.SiteId.{
  replay_window_timestamp, message, signed, generate_site_id, verify_site_id, age, at_most_300,
  verify_handshake_nonce,
}

abbrev identifier : Outcome Text Text → Text
identifier (ok t) = t
identifier (err e) = []
identifier panicked = []

-- An identifier is verified at every time of the hour in which it was generated, by whoever has the
-- secret.
pub verify_site_id-generate_site_id :
    (hmac_sha256 : Bytes → Bytes → Bytes) (hex_encode : Bytes → Text)
    (secret domain_url site_id : Text) (now later : ℕ)
    → now / 3600 ≡ later / 3600
    → generate_site_id hmac_sha256 hex_encode (some secret) (pos now) domain_url ≡ ok site_id
    → verify_site_id hmac_sha256 hex_encode (some secret) site_id domain_url (pos later) ≡ true
unfolding verify_site_id generate_site_id signed replay_window_timestamp
verify_site_id-generate_site_id hmac_sha256 hex_encode secret domain_url site_id now later same e =
    let hour : replay_window_timestamp (pos later) ≡ replay_window_timestamp (pos now) =
      ap (λ (h : ℕ). pos (h * 3600)) (sym same) in
    (text_beq_iff _ site_id).1 (
      ap (λ (t : ℤ). hex_encode (hmac_sha256 (as_bytes secret) (as_bytes (message domain_url t))))
        hour
      ∙ ap identifier e)

-- The times that count as fresh.
abbrev pub Near : ℕ → ℤ → Type 0
Near now (pos t) = (now ≤ t + 300) × (t ≤ now + 300)
Near now (negsuc n) = now + n + 1 ≤ 300

abbrev pub IsOpposite : ℕ → ℤ → Type 0
IsOpposite now (pos t) = ⊥
IsOpposite now (negsuc n) = now + n + 1 ≡ 2 ^ 63

abbrev pub IsI64 : ℤ → Type 0
IsI64 (pos t) = t < 2 ^ 63
IsI64 (negsuc n) = n < 2 ^ 63

fresh_iff :
    (now : ℕ) (timestamp : ℤ)
    → now < 2 ^ 62
    → IsI64 timestamp
    → (at_most_300 (age now timestamp) ≡ true) ↔ (Near now timestamp ⊎ IsOpposite now timestamp)
unfolding age
fresh_iff now (pos t) small range = ground arith
fresh_iff now (negsuc n) small range = ground arith

and_left : (a b : Bool) → (a && b) ≡ true → a ≡ true
and_left a b e = ground (arith, e)

and_right : (a b : Bool) → (a && b) ≡ true → b ≡ true
and_right a b e = ground (arith, e)

and_true : (a b : Bool) → a ≡ true → b ≡ true → (a && b) ≡ true
and_true a b e f = rw (e, f)

long_nonce :
    (nonce : Text)
    → ((not (is_empty nonce) && leb 16 (length (as_bytes nonce))) ≡ true)
      ↔ (16 ≤ length (as_bytes nonce))
unfolding as_bytes
long_nonce [] = ground arith
long_nonce (c ∷ cs) = ground arith

-- With the server's time below 2^62 and an i64 as the handshake's, a handshake is fresh exactly if its nonce has sixteen bytes or more and its time is at most five
-- minutes from the server's, before or after, or is the one time that lies 2^63 seconds before it,
-- where the absolute value wraps.
pub verify_handshake_nonce_iff :
    (now : ℕ) (nonce : Text) (timestamp : ℤ)
    → now < 2 ^ 62
    → IsI64 timestamp
    → (verify_handshake_nonce now nonce timestamp ≡ true)
      ↔ ((16 ≤ length (as_bytes nonce)) × (Near now timestamp ⊎ IsOpposite now timestamp))
unfolding verify_handshake_nonce
verify_handshake_nonce_iff now nonce timestamp small range =
    let f = fresh_iff now timestamp small range in
    let l = long_nonce nonce in
    ((λ e. (l.0 (and_right _ _ e), f.0 (and_left _ _ e))), (λ h. and_true _ _ (f.1 h.1) (l.1 h.0)))
