-- ===== src/Tests/Names.antt =====
-- Domains and protocol versions on small inputs.
use rfo_protocol.Base.{
  List, ◌^◌, ◌-◌, length, ℕ, ◌≡◌, ◌≤◌, ◌↔◌, ◌⊎◌, refl, true, some, Text, codes, ok, arith,
}
use rfo_protocol.Base.Strings.{trim, to_lowercase, split, ends_with, as_bytes}
use rfo_protocol.Base.Int.{pos, negsuc}
use rfo_protocol.Base.Print.{decimal}
use rfo_protocol.SiteId.{
  generate_site_id, verify_site_id, verify_handshake_nonce, signed, message,
  replay_window_timestamp, decimal_i64, age,
}
use rfo_protocol.SiteId.Windows.{
  Near, IsOpposite, verify_site_id-generate_site_id, verify_handshake_nonce_iff,
}
use rfo_protocol.Domain
use rfo_protocol.Domain.{RfoDomain, opt}
use rfo_protocol.Domain.Parsing.{IsParsed, parse-Settles}
use rfo_protocol.Protocol
use rfo_protocol.Protocol.{ProtocolVersion, is_compatible, display}
use rfo_protocol.Protocol.Versions.{parse-display}

abbrev blog : RfoDomain
blog = record {
  full = codes "blog.my.site.opt";
  name = codes "site";
  tld = opt;
  is_subdomain = true;
  subdomain = some (codes "blog.my");
}

parse_run : Domain.parse (codes " Blog.My.site.OPT") ≡ ok blog
unfolding Domain.parse trim to_lowercase split ends_with Domain.parse_opt Domain.join Domain.last
    Domain.but_last
parse_run = refl

parse-Settles_example : IsParsed (to_lowercase (trim (codes " Blog.My.site.OPT"))) blog
unfolding Domain.parse trim to_lowercase split ends_with Domain.parse_opt Domain.join Domain.last
    Domain.but_last
parse-Settles_example = parse-Settles (codes " Blog.My.site.OPT")

abbrev version : ProtocolVersion
version = record { major = 1; minor = 20; patch = 65535 }

abbrev oldest : ProtocolVersion
oldest = record { major = 1; minor = 2; patch = 3 }

parse-display_example : Protocol.parse (display version) ≡ some version
parse-display_example = parse-display version (omega arith) (omega arith) (omega arith)

-- A keyed code that is the message, and bytes that are their own text.
abbrev plain_code : List ℕ → List ℕ → List ℕ
plain_code key text = text

abbrev plain_hex : List ℕ → Text
plain_hex bytes = bytes

abbrev site_id : Text
site_id = codes "a.opt|3600"

generated :
    generate_site_id plain_code plain_hex (some (codes "k")) (pos 3700) (codes "a.opt") ≡ ok site_id
unfolding generate_site_id signed message replay_window_timestamp decimal_i64 decimal as_bytes
generated = refl

verify_site_id-generate_site_id_example :
    verify_site_id plain_code plain_hex (some (codes "k")) site_id (codes "a.opt") (pos 7199) ≡ true
verify_site_id-generate_site_id_example =
    verify_site_id-generate_site_id plain_code plain_hex (codes "k") (codes "a.opt") site_id 3700
      7199 refl generated

abbrev nonce : Text
nonce = codes "0123456789abcdef"

verify_handshake_nonce_iff_example :
    (verify_handshake_nonce 1000 nonce (pos 1300) ≡ true)
    ↔ ((16 ≤ length (as_bytes nonce)) × (Near 1000 (pos 1300) ⊎ IsOpposite 1000 (pos 1300)))
verify_handshake_nonce_iff_example =
    verify_handshake_nonce_iff 1000 nonce (pos 1300) (omega arith) (omega arith)

-- The time that is 2^63 seconds before the server's is taken as fresh.
opposite_run : verify_handshake_nonce 1000 nonce (negsuc (2 ^ 63 - 1001)) ≡ true
unfolding verify_handshake_nonce age as_bytes
opposite_run = refl
