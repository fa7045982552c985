-- ===== src/Compiler/Payload.antt =====
-- The documents that `compile_doc` of src/compiler.rs makes.
use rfo_protocol.Base.{ℕ, ◌/◌, ◌≡◌, true, Option, none, some, Bytes, Text, ok}
use rfo_protocol.Base.Int.{pos}
use rfo_protocol.Payloads.{FullDocPayload}
use rfo_protocol.Parser.{ParsedContent}
use rfo_protocol.SiteId.{generate_site_id, verify_site_id}
use rfo_protocol.SiteId.Windows.{verify_site_id-generate_site_id}
use rfo_protocol.Compiler.{or_unverified, with_signature, compile_doc}

-- Whatever document the compiler returns, its signature is an identifier that is verified at every
-- time of the hour of the compilation, with the secret that the compiler had.
pub verify_site_id-compile_doc :
    (hmac_sha256 : Bytes → Bytes → Bytes) (hex_encode : Bytes → Text) (secret : Option Text)
    (domain_url : Text) (parsed : ParsedContent) (doc : FullDocPayload) (now later : ℕ)
    → now / 3600 ≡ later / 3600
    → compile_doc hmac_sha256 hex_encode secret (pos now) parsed domain_url ≡ ok doc
    → verify_site_id hmac_sha256 hex_encode secret doc.verification_signature domain_url (pos later)
      ≡ true
unfolding compile_doc with_signature or_unverified generate_site_id
verify_site_id-compile_doc hmac_sha256 hex_encode none domain_url parsed doc now later same e = cc
verify_site_id-compile_doc hmac_sha256 hex_encode (some secret) domain_url parsed doc now later same
      e =
    verify_site_id-generate_site_id hmac_sha256 hex_encode secret domain_url
      doc.verification_signature now later same (cc)
