-- ===== src/CoreFile.antt =====
-- The records of src/core_file.rs, and what its compiler makes of one page. `OptMetadata` has JSON
-- values. The clock's values are `PageReadings` for each page; numbers that an f64 would round stand
-- as fractions.
pub mod Order
pub mod Site
pub mod Whole
use rfo_protocol.Base.{
  ℕ, zero, suc, ◌+◌, ◌-◌, Bool, true, false, not, Option, none, some, List, [], ◌∷◌, ◌++◌, map,
  Text, codes, Outcome, ok, err, panicked, ◌>>=◌, ltb, if◌then◌else◌, length,
}
use rfo_protocol.Base.JsonValue.{JsonValue}
use rfo_protocol.Base.Keys.{Assoc, text_eq, lookup, insert}
use rfo_protocol.Base.Strings.{contains, ends_with, strip_prefix, trim_start_matches, match_count}
use rfo_protocol.Domain.Metadata.{OptMetadata, SeoMetadata, GeoMetadata, AeoMetadata, new_metadata}
use rfo_protocol.Domain.Schemas.{to_json_ld, faq_schema}
use rfo_protocol.Payloads.{QaPair, MiniDocPayload, FullDocPayload}
use rfo_protocol.Parser.{ParsedContent, extract_coordinates}
use rfo_protocol.Compiler.{compile_mdoc, compile_doc, calculate_quality_score}
use rfo_protocol.Handlers.Handshake.{Env, parse_page}
use rfo_protocol.Pipeline.{PipelineConfig, PageReadings, pair_of}

pub record CoreSiteIdentity : Type 0 where
  pub site_id : Text
  pub domain : Text
  pub is_opt : Bool
  pub title : Text
  pub description : Text
  pub coordinates : Assoc Text Text
  pub total_pages : ℕ
  pub site_url : Text

pub record CoreTopic : Type 0 where
  pub name : Text
  pub confidence : ℕ × ℕ
  pub page_urls : List Text

pub record CoreIntelligence : Type 0 where
  pub site_summary : Text
  pub site_token_count : ℕ
  pub all_qa_pairs : List QaPair
  pub topics : List CoreTopic

pub record CorePage : Type 0 where
  pub url : Text
  pub path : Text
  pub title : Text
  pub depth : ℕ
  pub quality_score : ℕ
  pub token_count : ℕ
  pub qa_pair_count : ℕ
  pub doc : FullDocPayload
  pub mdoc : MiniDocPayload
  pub coordinates : Assoc Text Text
  pub structured_data : Option JsonValue
  pub faq_schema : Option JsonValue
  pub compiled_at : Text
  pub links_internal : List Text
  pub links_external : List Text

pub record CoreQualityAggregate : Type 0 where
  pub overall : ℕ
  pub avg_page : ℕ × ℕ
  pub best_page : Text
  pub best_score : ℕ
  pub worst_page : Text
  pub worst_score : ℕ
  pub total_tokens : ℕ
  pub total_qa_pairs : ℕ
  pub pages_with_code : ℕ
  pub pages_with_tables : ℕ
  pub aeo_readiness : ℕ

pub record CoreOptimization : Type 0 where
  pub seo : SeoMetadata JsonValue
  pub geo : GeoMetadata
  pub aeo : AeoMetadata
  pub json_ld : Option JsonValue
  pub faq_schema : Option JsonValue

pub record CorePageHash : Type 0 where
  pub url : Text
  pub sha256 : Text

pub record CoreCrypto : Type 0 where
  pub site_id_signature : Text
  pub content_root_hash : Text
  pub page_hashes : List CorePageHash
  pub verified : Bool

pub record CoreFile : Type 0 where
  pub schema : Text
  pub version : Text
  pub compiled_at : Text
  pub site : CoreSiteIdentity
  pub intelligence : CoreIntelligence
  pub pages : List CorePage
  pub quality : CoreQualityAggregate
  pub optimization : CoreOptimization
  pub crypto : CoreCrypto

-- `s.trim_start_matches(part)`, for a part that is not empty: the length bounds the rounds.
unfoldable pub trim_start_parts : ℕ → Text → Text → Text
trim_start_parts zero part s = s
trim_start_parts (suc fuel) part s = elim (strip_prefix s part) [
  | some rest ↦ trim_start_parts fuel part rest
  | none ↦ s
]

unfoldable pub path_of : Text → Text → Text
path_of domain url =
    let secure = trim_start_parts (length url) (codes "https://") url in
    let s = trim_start_parts (length secure) (codes "http://") secure in
    elim (strip_prefix s domain) [ some stripped ↦ trim_start_matches 47 stripped | none ↦ s ]

-- `.filter(|l| test(l))`
unfoldable pub filter_texts : (Text → Bool) → List Text → List Text
filter_texts test [] = []
filter_texts test (l ∷ more) =
    let rest = filter_texts test more in if test l then l ∷ rest else rest

abbrev no_pairs : List QaPair → Bool
no_pairs [] = true
no_pairs (qa ∷ more) = false

unfoldable pub page_faq : PipelineConfig → OptMetadata JsonValue → List QaPair → Option JsonValue
page_faq config opt qa_pairs =
    if config.generate_faq_schema
    then (if no_pairs qa_pairs then none else some (faq_schema (map pair_of qa_pairs)))
    else none

-- What the loop keeps of a page: the page itself and its parsed content.
unfoldable pub core_page :
    PipelineConfig
    → Text
    → Bool
    → OptMetadata JsonValue
    → Text
    → ParsedContent
    → PageReadings
    → FullDocPayload
    → CorePage
unfolding page_faq
core_page config domain is_opt opt url parsed r doc =
    let mdoc = compile_mdoc parsed in
    let path = path_of domain url in
    record {
      url = url;
      path = path;
      title = parsed.title;
      depth = match_count path (codes "/") - 1;
      quality_score = calculate_quality_score mdoc doc;
      token_count = mdoc.token_count;
      qa_pair_count = length mdoc.qa_pairs;
      doc = doc;
      mdoc = mdoc;
      coordinates = extract_coordinates parsed;
      structured_data = if is_opt then some (to_json_ld opt) else none;
      faq_schema = page_faq config opt mdoc.qa_pairs;
      compiled_at = r.compiled_at;
      links_internal = filter_texts (λ l. contains l domain) parsed.links;
      links_external = filter_texts (λ l. not (contains l domain)) parsed.links;
    }

-- `for (url, html) in pages`; the `i`-th page on, with what is parsed of each.
unfoldable pub core_pages :
    PipelineConfig
    → Env
    → Text
    → Bool
    → OptMetadata JsonValue
    → (ℕ → PageReadings)
    → ℕ
    → List (Text × Text)
    → Outcome Text (List (CorePage × ParsedContent))
core_pages config env domain is_opt opt clock i [] = ok []
core_pages config env domain is_opt opt clock i ((url, html) ∷ more) =
    let parsed = parse_page env.markup url html in
    compile_doc env.hmac_sha256 env.hex_encode env.secret (clock i).signed_at parsed domain
    >>= λ doc. core_pages config env domain is_opt opt clock (suc i) more >>= λ rest.
        ok ((core_page config domain is_opt opt url parsed (clock i) doc, parsed) ∷ rest)
