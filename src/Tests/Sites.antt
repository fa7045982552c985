-- ===== src/Tests/Sites.antt =====
-- Sites and core files on small inputs.
use rfo_protocol.Base.{◌≡◌, refl, true, false, none, some, List, [], ◌∷◌, Text, codes, ok}
use rfo_protocol.Base.Int.{pos}
use rfo_protocol.Base.Strings.{as_bytes, ends_with, join, trim, to_lowercase, split}
use rfo_protocol.Payloads.{FullDocPayload}
use rfo_protocol.Domain.{RfoDomain, opt}
use rfo_protocol.Domain
use rfo_protocol.Domain.Metadata.{new_metadata}
use rfo_protocol.Parser.{ParsedContent, default_content}
use rfo_protocol.Parser.Html.{Markup, parse_html, sanitized_texts, not_empty}
use rfo_protocol.SiteId.{generate_site_id, signed}
use rfo_protocol.Compiler.{compile_doc, with_signature, or_unverified, raw_markdown_of}
use rfo_protocol.Handlers.Handshake.{Env, parse_page}
use rfo_protocol.Pipeline.{
  PageReadings, CompiledSite, default_config, page_with, doc_of, compile_page, compile_pages,
  site_of, compile_site,
}
use rfo_protocol.Pipeline.Stats.{IsMeasured, compile_site-IsMeasured}
use rfo_protocol.CoreFile.{CoreFile, core_page, core_pages}
use rfo_protocol.CoreFile.Site.{
  SiteReadings, assemble, summarize, first_paragraphs, or_empty, compile_from_pages,
}
use rfo_protocol.CoreFile.Whole.{IsWhole, compile_from_pages-IsWhole}

abbrev markup : Markup
markup = record {
  Node = Text;
  parse_document = λ html. html;
  root_element = λ node. node;
  select = λ selector node. [];
  text = λ node. node;
  attr = λ name node. none;
  html = λ node. node;
  replace_all = λ pattern s replacement. s;
}

abbrev env : Env
env = record {
  markup = markup;
  hmac_sha256 = λ key message. message;
  hex_encode = λ b. codes "id";
  secret = some (codes "s");
  client = ok tt;
  send = λ url. ok (ok []);
}

abbrev readings : PageReadings
readings = record { signed_at = pos 0; compiled_at = codes "now"; elapsed_ms = 1 }

abbrev pages : List (Text × Text)
pages = (codes "https://a.opt/b", codes "<p>") ∷ []

abbrev parsed : ParsedContent
parsed = parse_html markup (codes "<p>")

abbrev document : FullDocPayload
document = record {
  raw_markdown = raw_markdown_of parsed;
  data_tables = parsed.tables;
  verification_signature = codes "id";
}

abbrev site : CompiledSite
site = site_of default_config (codes "a.opt") (codes "now") 2 (
    page_with default_config (codes "a.opt") (codes "https://a.opt/b") parsed readings
      (some document)
    ∷ [])

site-compiled :
    compile_site default_config env (codes "a.opt") (λ i. readings) (codes "now") 2 pages ≡ ok site
unfolding compile_site compile_pages compile_page doc_of default_config compile_doc with_signature
    or_unverified generate_site_id signed
site-compiled = refl

compile_site-IsMeasured_example : IsMeasured default_config env pages site
compile_site-IsMeasured_example =
    compile_site-IsMeasured default_config env (codes "a.opt") (λ i. readings) (codes "now") 2 pages
      site site-compiled

abbrev domain_obj : RfoDomain
domain_obj = record {
  full = codes "a.opt";
  name = codes "a";
  tld = opt;
  is_subdomain = false;
  subdomain = none;
}

abbrev site_readings : SiteReadings
site_readings = record {
  identified_at = pos 0;
  signed_at = pos 0;
  registered_at = codes "now";
  compiled_at = codes "now";
  pages = λ i. readings;
}

abbrev file : CoreFile
file =
    assemble (codes "a.opt") env (λ b. b) domain_obj (new_metadata (codes "a") (codes "now"))
      site_readings (codes "id") (codes "id") []
      ((
        core_page default_config (codes "a.opt") true (new_metadata (codes "a") (codes "now"))
            (codes "https://a.opt/b") parsed readings document,
        parsed,
      )
        ∷ [])

file-compiled :
    compile_from_pages default_config env (λ b. b) site_readings (codes "a.opt") pages ≡ ok file
unfolding compile_from_pages core_pages parse_page ends_with parse_html sanitized_texts not_empty
    default_content summarize first_paragraphs join as_bytes or_empty compile_doc with_signature
    or_unverified generate_site_id signed Domain.parse Domain.parse_opt Domain.is_opt Domain.join
    Domain.last trim to_lowercase split
file-compiled = refl

compile_from_pages-IsWhole_example : IsWhole env pages file
compile_from_pages-IsWhole_example =
    compile_from_pages-IsWhole default_config env (λ b. b) site_readings (codes "a.opt") pages file
      file-compiled
