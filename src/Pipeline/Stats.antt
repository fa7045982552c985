-- ===== src/Pipeline/Stats.antt =====
-- The sites that src/pipeline.rs compiles, and their statistics.
use rfo_protocol.Base.{
  ok-bind, ok_inj, map, ℕ, ◌≤◌, ◌≡◌, refl, subst, ◌∙◌, Bool, true, false, ◌&&◌, List, [], ◌∷◌, Text,
  ok, if◌then◌else◌, take, length, length-take, min, max, All, arith,
}
use rfo_protocol.Handlers.Handshake.{Env}
use rfo_protocol.Pipeline.{
  PipelineConfig, CompiledPage, CompiledSite, PageReadings, compile_pages, site_of, compile_site,
  count_if, least, greatest, min_score, max_score, calculate_stats,
}
use rfo_protocol.Pipeline.Pages.{
  IsMade, content_of, content_given, compile_pages-IsMade, compile_pages-content,
}

count_if-IsMade :
    (config : PipelineConfig) (part : CompiledPage → Bool) (asked : Bool)
    (pages : List CompiledPage)
    → ((page : CompiledPage) → IsMade config page → part page ≡ asked)
    → All (IsMade config) pages
    → count_if part pages ≡ (if asked then length pages else 0)
unfolding count_if
count_if-IsMade config part true [] h made = refl
count_if-IsMade config part false [] h made = refl
count_if-IsMade config part true (p ∷ ps) h made =
    rw (h p made.0) (omega (arith, count_if-IsMade config part true ps h made.1))
count_if-IsMade config part false (p ∷ ps) h made =
    rw (h p made.0) (omega (arith, count_if-IsMade config part false ps h made.1))

-- The score of every page is in the range.
abbrev pub Within : ℕ → ℕ → List CompiledPage → Type 0
Within low high = All (λ p. (low ≤ p.quality_score) × (p.quality_score ≤ high))

least-le : (n : ℕ) (pages : List CompiledPage) → least n pages ≤ n
unfolding least
least-le n [] = omega arith
least-le n (p ∷ ps) = omega (arith, least-le (min n p.quality_score) ps)

le-greatest : (n : ℕ) (pages : List CompiledPage) → n ≤ greatest n pages
unfolding greatest
le-greatest n [] = omega arith
le-greatest n (p ∷ ps) = omega (arith, le-greatest (max n p.quality_score) ps)

Within-least-greatest :
    (m n : ℕ) (pages : List CompiledPage) → Within (least m pages) (greatest n pages) pages
unfolding least greatest
Within-least-greatest m n [] = tt
Within-least-greatest m n (p ∷ ps) = (
  (
    omega (arith, least-le (min m p.quality_score) ps),
    omega (arith, le-greatest (max n p.quality_score) ps),
  ),
  Within-least-greatest (min m p.quality_score) (max n p.quality_score) ps,
)

Within-scores : (pages : List CompiledPage) → Within (min_score pages) (max_score pages) pages
unfolding min_score max_score
Within-scores [] = tt
Within-scores (p ∷ ps) = (
  (least-le p.quality_score ps, le-greatest p.quality_score ps),
  Within-least-greatest p.quality_score p.quality_score ps,
)

-- What the statistics of a site say.
pub record IsMeasured (config : PipelineConfig) (env : Env) (given : List (Text × Text))
    (site : CompiledSite) : Type 0 where
  pub contents :
      map content_of site.pages ≡ map (content_given config env) (take config.max_batch_size given)
  pub total : (calculate_stats site).total_pages ≡ min config.max_batch_size (length given)
  pub same_total : site.total_pages ≡ (calculate_stats site).total_pages
  pub mdocs :
      (calculate_stats site).pages_with_mdoc
      ≡ (if config.generate_mdoc then site.total_pages else 0)
  pub docs :
      (calculate_stats site).pages_with_doc ≡ (if config.generate_doc then site.total_pages else 0)
  pub structured :
      (calculate_stats site).pages_with_structured_data
      ≡ (if config.generate_structured_data then site.total_pages else 0)
  pub faqs :
      (calculate_stats site).pages_with_faq_schema
      ≡ (if config.generate_faq_schema && config.generate_mdoc then site.total_pages else 0)
  pub scores :
      Within
        (calculate_stats site).min_quality_score
        (calculate_stats site).max_quality_score
        site.pages

-- A site that is compiled has the pages given, in order and up to the batch size of the configuration, each
-- with its address, the title of its HTML and, if asked for, its mini document. Its statistics count them, and with each part either all of them or none, as the configuration asks for it (a FAQ
-- schema takes the mini document too); the scores of its pages lie between the least and the greatest.
pub compile_site-IsMeasured :
    (config : PipelineConfig) (env : Env) (domain : Text) (clock : ℕ → PageReadings)
    (compiled_at : Text) (elapsed_ms : ℕ) (pages : List (Text × Text)) (site : CompiledSite)
    → compile_site config env domain clock compiled_at elapsed_ms pages ≡ ok site
    → IsMeasured config env pages site
unfolding compile_site site_of calculate_stats
compile_site-IsMeasured config env domain clock compiled_at elapsed_ms pages site h =
    let (compiled, made, e) =
      ok-bind (compile_pages config env domain clock 0 (take config.max_batch_size pages)) _ site
        h in
    let (same, all) =
      compile_pages-IsMade config env domain clock 0 (take config.max_batch_size pages) compiled
        made in
    subst (IsMeasured config env pages) (ok_inj e) (record {
      contents =
          compile_pages-content config env domain clock 0 (take config.max_batch_size pages)
            compiled made;
      total = same ∙ length-take config.max_batch_size pages;
      same_total = refl;
      mdocs = count_if-IsMade config _ config.generate_mdoc compiled (λ p m. m.mdoc) all;
      docs = count_if-IsMade config _ config.generate_doc compiled (λ p m. m.doc) all;
      structured =
          count_if-IsMade config _ config.generate_structured_data compiled (λ p m. m.structured)
            all;
      faqs =
          count_if-IsMade config _ (config.generate_faq_schema && config.generate_mdoc) compiled
            (λ p m. m.faq) all;
      scores = Within-scores compiled;
    })
