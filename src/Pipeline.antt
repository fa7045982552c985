-- ===== src/Pipeline.antt =====
-- src/pipeline.rs: pages and sites compiled by a configuration, and their statistics. The calls out
-- of the program are those of `Env`; `PageReadings` are the clock's values for one page. An average is
-- a sum and a count, which an f64 divides. A page panics where its document does.
pub mod Pages
pub mod Stats
use rfo_protocol.Base.{
  ℕ, zero, suc, ◌+◌, ◌-◌, Bool, true, false, ◌&&◌, Option, none, some, List, [], ◌∷◌, ◌++◌, map,
  Text, codes, Outcome, ok, err, panicked, ◌>>=◌, ltb, if◌then◌else◌, take, length, min, max,
}
use rfo_protocol.Base.Int.{ℤ}
use rfo_protocol.Base.JsonValue.{
  JsonValue, truth, number, string, object, Items, Fields, no_fields, field,
}
use rfo_protocol.Domain.{RfoDomain, DomainError}
use rfo_protocol.Domain
use rfo_protocol.Domain.Schemas.{text_field, question_items, faq_page}
use rfo_protocol.Payloads.{QaPair, MiniDocPayload, FullDocPayload}
use rfo_protocol.Parser.{ParsedContent}
use rfo_protocol.Parser.Html.{parse_html}
use rfo_protocol.Compiler.{compile_mdoc, compile_doc, calculate_quality_score}
use rfo_protocol.Handlers.Handshake.{Env}

pub record PipelineConfig : Type 0 where
  pub max_batch_size : ℕ
  pub generate_mdoc : Bool
  pub generate_doc : Bool
  pub generate_structured_data : Bool
  pub generate_faq_schema : Bool
  pub max_qa_pairs : ℕ
  pub calculate_quality : Bool

unfoldable pub default_config : PipelineConfig
default_config = record {
  max_batch_size = 100;
  generate_mdoc = true;
  generate_doc = true;
  generate_structured_data = true;
  generate_faq_schema = true;
  max_qa_pairs = 20;
  calculate_quality = true;
}

pub record CompiledPage : Type 0 where
  pub domain : Text
  pub url : Text
  pub title : Text
  pub mdoc : Option MiniDocPayload
  pub doc : Option FullDocPayload
  pub quality_score : ℕ
  pub token_count : ℕ
  pub qa_pair_count : ℕ
  pub structured_data : Option JsonValue
  pub faq_schema : Option JsonValue
  pub compiled_at : Text
  pub processing_time_ms : ℕ

pub record CompiledSite : Type 0 where
  pub domain : Text
  pub is_opt : Bool
  pub pages : List CompiledPage
  pub total_pages : ℕ
  pub avg_quality_score : ℕ × ℕ
  pub total_tokens : ℕ
  pub total_qa_pairs : ℕ
  pub site_structured_data : Option JsonValue
  pub compiled_at : Text
  pub total_processing_time_ms : ℕ

pub record SiteStats : Type 0 where
  pub total_pages : ℕ
  pub pages_with_mdoc : ℕ
  pub pages_with_doc : ℕ
  pub avg_quality_score : ℕ × ℕ
  pub min_quality_score : ℕ
  pub max_quality_score : ℕ
  pub total_tokens : ℕ
  pub total_qa_pairs : ℕ
  pub pages_with_structured_data : ℕ
  pub pages_with_faq_schema : ℕ

pub record PageReadings : Type 0 where
  pub signed_at : ℤ
  pub compiled_at : Text
  pub elapsed_ms : ℕ

unfoldable pub generate_structured_data : Text → Text → Text → JsonValue
generate_structured_data domain title url =
    let name = domain ++ codes ".opt" in
    let part_of = text_field (codes "@type") (codes "WebSite") (
      text_field (codes "name") name
        (text_field (codes "url") (codes "https://" ++ name) no_fields)) in
    let publisher =
      text_field (codes "@type") (codes "Organization")
        (text_field (codes "name") name no_fields) in
    object (
      text_field (codes "@context") (codes "https://schema.org") (
        text_field (codes "@type") (codes "WebPage") (
          text_field (codes "name") title (
            text_field (codes "url") url (
              field (codes "isPartOf") (object part_of)
                (field (codes "publisher") (object publisher) no_fields))))))

unfoldable pub generate_faq_schema : PipelineConfig → List (Text × Text) → JsonValue
generate_faq_schema config qa_pairs = faq_page (question_items (take config.max_qa_pairs qa_pairs))

unfoldable pub generate_site_structured_data : Text → ℕ → JsonValue
generate_site_structured_data domain total_pages =
    let name = domain ++ codes ".opt" in
    let action = text_field (codes "@type") (codes "SearchAction") (
      text_field (codes "target")
        (codes "https://" ++ (name ++ codes "/search?q={search_term_string}"))
        (text_field (codes "query-input") (codes "required name=search_term_string") no_fields)) in
    object (
      text_field (codes "@context") (codes "https://schema.org") (
        text_field (codes "@type") (codes "WebSite") (
          text_field (codes "name") name (
            text_field (codes "url") (codes "https://" ++ name) (
              text_field (codes "description") (codes "AI-optimized documentation for " ++ domain) (
                field (codes "potentialAction") (object action) (
                  field (codes "numberOfPages") (number total_pages) (
                    text_field (codes "inLanguage") (codes "en")
                      (field (codes "isAccessibleForFree") (truth true) no_fields)))))))))

-- `if test { Some(…) } else { None }`
abbrev pub only_if {ℓ} : {A : Type ℓ} → Bool → A → Option A
only_if test a = if test then some a else none

abbrev pub pair_of : QaPair → Text × Text
pair_of qa = (qa.question, qa.answer)

unfoldable pub score_of : Option MiniDocPayload → Option FullDocPayload → ℕ
score_of (some m) (some d) = calculate_quality_score m d
score_of none d = 0
score_of (some m) none = 0

unfoldable pub tokens_of : Option MiniDocPayload → ℕ
tokens_of none = 0
tokens_of (some m) = m.token_count

unfoldable pub qa_count_of : Option MiniDocPayload → ℕ
qa_count_of none = 0
qa_count_of (some m) = length m.qa_pairs

-- `mdoc.as_ref().map(…)`
unfoldable pub faq_of : PipelineConfig → Option MiniDocPayload → Option JsonValue
faq_of config none = none
faq_of config (some m) = some (generate_faq_schema config (map pair_of m.qa_pairs))

-- The page, once its document is there.
unfoldable pub page_with :
    PipelineConfig
    → Text
    → Text
    → ParsedContent
    → PageReadings
    → Option FullDocPayload
    → CompiledPage
unfolding score_of tokens_of qa_count_of faq_of
page_with config domain url parsed r doc =
    let mdoc = only_if config.generate_mdoc (compile_mdoc parsed) in
    record {
      domain = domain;
      url = url;
      title = parsed.title;
      mdoc = mdoc;
      doc = doc;
      quality_score = if config.calculate_quality then score_of mdoc doc else 0;
      token_count = tokens_of mdoc;
      qa_pair_count = qa_count_of mdoc;
      structured_data =
          only_if config.generate_structured_data
            (generate_structured_data domain parsed.title url);
      faq_schema = if config.generate_faq_schema then faq_of config mdoc else none;
      compiled_at = r.compiled_at;
      processing_time_ms = r.elapsed_ms;
    }

unfoldable pub doc_of :
    PipelineConfig
    → Env
    → Text
    → ParsedContent
    → PageReadings
    → Outcome Text (Option FullDocPayload)
doc_of config env domain parsed r =
    if config.generate_doc
    then (compile_doc env.hmac_sha256 env.hex_encode env.secret r.signed_at parsed domain >>= λ doc.
        ok (some doc))
    else ok none

unfoldable pub compile_page :
    PipelineConfig → Env → Text → Text → Text → PageReadings → Outcome Text CompiledPage
compile_page config env domain url html r =
    let parsed = parse_html env.markup html in
    doc_of config env domain parsed r >>= λ doc. ok (page_with config domain url parsed r doc)

-- The `i`-th page on; `clock` gives each page its readings.
unfoldable pub compile_pages :
    PipelineConfig
    → Env
    → Text
    → (ℕ → PageReadings)
    → ℕ
    → List (Text × Text)
    → Outcome Text (List CompiledPage)
compile_pages config env domain clock i [] = ok []
compile_pages config env domain clock i ((url, html) ∷ more) =
    compile_page config env domain url html (clock i) >>= λ page.
    compile_pages config env domain clock (suc i) more >>= λ pages. ok (page ∷ pages)

unfoldable pub sum_of {ℓ} : {A : Type ℓ} → (A → ℕ) → List A → ℕ
sum_of f [] = 0
sum_of f (x ∷ xs) = f x + sum_of f xs

-- `RfoDomain::parse(domain).map(|d| d.is_opt()).unwrap_or(false)`
unfoldable pub opt_of : Outcome DomainError RfoDomain → Bool
opt_of (ok d) = Domain.is_opt d
opt_of (err e) = false
opt_of panicked = false

unfoldable pub average : ℕ → ℕ → ℕ × ℕ
average sum count = if ltb 0 count then (sum, count) else (0, 1)

unfoldable pub site_of : PipelineConfig → Text → Text → ℕ → List CompiledPage → CompiledSite
site_of config domain compiled_at elapsed_ms pages =
    let is_opt = opt_of (Domain.parse domain) in
    record {
      domain = domain;
      is_opt = is_opt;
      pages = pages;
      total_pages = length pages;
      avg_quality_score = average (sum_of (λ p. p.quality_score) pages) (length pages);
      total_tokens = sum_of (λ p. p.token_count) pages;
      total_qa_pairs = sum_of (λ p. p.qa_pair_count) pages;
      site_structured_data =
          only_if (is_opt && config.generate_structured_data)
            (generate_site_structured_data domain (length pages));
      compiled_at = compiled_at;
      total_processing_time_ms = elapsed_ms;
    }

unfoldable pub compile_site :
    PipelineConfig
    → Env
    → Text
    → (ℕ → PageReadings)
    → Text
    → ℕ
    → List (Text × Text)
    → Outcome Text CompiledSite
compile_site config env domain clock compiled_at elapsed_ms pages =
    compile_pages config env domain clock 0 (take config.max_batch_size pages) >>= λ compiled.
    ok (site_of config domain compiled_at elapsed_ms compiled)

abbrev pub is_some {ℓ} : {A : Type ℓ} → Option A → Bool
is_some none = false
is_some (some a) = true

-- `.filter(…).count()`
unfoldable pub count_if {ℓ} : {A : Type ℓ} → (A → Bool) → List A → ℕ
count_if test [] = 0
count_if test (x ∷ xs) = (if test x then 1 else 0) + count_if test xs

-- `min()` and `max()` of the scores, from the first one on.
unfoldable pub least : ℕ → List CompiledPage → ℕ
least n [] = n
least n (p ∷ ps) = least (min n p.quality_score) ps

unfoldable pub greatest : ℕ → List CompiledPage → ℕ
greatest n [] = n
greatest n (p ∷ ps) = greatest (max n p.quality_score) ps

unfoldable pub min_score : List CompiledPage → ℕ
min_score [] = 0
min_score (p ∷ ps) = least p.quality_score ps

unfoldable pub max_score : List CompiledPage → ℕ
max_score [] = 100
max_score (p ∷ ps) = greatest p.quality_score ps

unfoldable pub calculate_stats : CompiledSite → SiteStats
calculate_stats site = record {
  total_pages = length site.pages;
  pages_with_mdoc = count_if (λ p. is_some p.mdoc) site.pages;
  pages_with_doc = count_if (λ p. is_some p.doc) site.pages;
  avg_quality_score = average (sum_of (λ p. p.quality_score) site.pages) (length site.pages);
  min_quality_score = min_score site.pages;
  max_quality_score = max_score site.pages;
  total_tokens = sum_of (λ p. p.token_count) site.pages;
  total_qa_pairs = sum_of (λ p. p.qa_pair_count) site.pages;
  pages_with_structured_data = count_if (λ p. is_some p.structured_data) site.pages;
  pages_with_faq_schema = count_if (λ p. is_some p.faq_schema) site.pages;
}
