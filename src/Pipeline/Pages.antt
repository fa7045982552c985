-- ===== src/Pipeline/Pages.antt =====
-- The pages that src/pipeline.rs compiles: what they take from the HTML given, and their parts.
use rfo_protocol.Base.{
  ok-bind, ok_inj, map, sym, ap₂, ℕ, suc, ◌≡◌, refl, ap, subst, ◌∙◌, Bool, true, false, ◌&&◌,
  Option, none, some, List, [], ◌∷◌, Text, Outcome, ok, err, panicked, ◌>>=◌, if◌then◌else◌, length,
  All,
}
use rfo_protocol.Payloads.{MiniDocPayload, FullDocPayload}
use rfo_protocol.Parser.{ParsedContent}
use rfo_protocol.Parser.Html.{parse_html}
use rfo_protocol.Compiler.{compile_mdoc}
use rfo_protocol.Handlers.Handshake.{Env}
use rfo_protocol.Pipeline.{
  PipelineConfig, CompiledPage, PageReadings, only_if, faq_of, page_with, doc_of, compile_page,
  compile_pages, is_some,
}

-- A page has the parts that the configuration asks for, and no others.
pub record IsMade (config : PipelineConfig) (page : CompiledPage) : Type 0 where
  pub mdoc : is_some page.mdoc ≡ config.generate_mdoc
  pub doc : is_some page.doc ≡ config.generate_doc
  pub structured : is_some page.structured_data ≡ config.generate_structured_data
  pub faq : is_some page.faq_schema ≡ config.generate_faq_schema && config.generate_mdoc

is_some-only_if {ℓ} : {A : Type ℓ} (b : Bool) (a : A) → is_some (only_if b a) ≡ b
is_some-only_if true a = refl
is_some-only_if false a = refl

is_some-faq_of :
    (config : PipelineConfig) (asked made : Bool) (m : MiniDocPayload)
    → is_some (if asked then faq_of config (only_if made m) else none) ≡ asked && made
unfolding faq_of
is_some-faq_of config true true m = refl
is_some-faq_of config true false m = refl
is_some-faq_of config false made m = refl

is_some-doc_of :
    (config : PipelineConfig) (env : Env) (domain : Text) (parsed : ParsedContent)
    (r : PageReadings) (doc : Option FullDocPayload)
    → doc_of config env domain parsed r ≡ ok doc
    → is_some doc ≡ config.generate_doc
unfolding doc_of
is_some-doc_of config env domain parsed r doc e = by_choice config.generate_doc _ doc e
  where
    by_choice :
        (asked : Bool) (made : Outcome Text FullDocPayload) (doc : Option FullDocPayload)
        → (if asked then (made >>= λ d. ok (some d)) else ok none) ≡ ok doc
        → is_some doc ≡ asked
    by_choice true (ok d) doc h = cc
    by_choice true (err x) doc h = cc
    by_choice true panicked doc h = cc
    by_choice false made doc h = cc

page_with-IsMade :
    (config : PipelineConfig) (env : Env) (domain url : Text) (parsed : ParsedContent)
    (r : PageReadings) (doc : Option FullDocPayload)
    → is_some doc ≡ config.generate_doc
    → IsMade config (page_with config domain url parsed r doc)
unfolding page_with
page_with-IsMade config env domain url parsed r doc e = record {
  mdoc = is_some-only_if config.generate_mdoc (compile_mdoc parsed);
  doc = e;
  structured = is_some-only_if config.generate_structured_data _;
  faq = is_some-faq_of config config.generate_faq_schema config.generate_mdoc (compile_mdoc parsed);
}

compile_page-IsMade :
    (config : PipelineConfig) (env : Env) (domain url html : Text) (r : PageReadings)
    (page : CompiledPage)
    → compile_page config env domain url html r ≡ ok page
    → IsMade config page
unfolding compile_page
compile_page-IsMade config env domain url html r page h =
    let parsed = parse_html env.markup html in
    let (doc, made, e) = ok-bind (doc_of config env domain parsed r) _ page h in
    subst (IsMade config) (ok_inj e) (
      page_with-IsMade config env domain url parsed r doc
        (is_some-doc_of config env domain parsed r doc made))

-- What a page takes from the HTML given for it, by the configuration.
pub record PageContent : Type 0 where
  pub url : Text
  pub title : Text
  pub mdoc : Option MiniDocPayload

abbrev pub content_of : CompiledPage → PageContent
content_of p = record { url = p.url; title = p.title; mdoc = p.mdoc }

abbrev pub content_given : PipelineConfig → Env → Text × Text → PageContent
content_given config env (url, html) =
    let parsed = parse_html env.markup html in
    record {
      url = url;
      title = parsed.title;
      mdoc = if config.generate_mdoc then some (compile_mdoc parsed) else none;
    }

compile_page-content :
    (config : PipelineConfig) (env : Env) (domain url html : Text) (r : PageReadings)
    (page : CompiledPage)
    → compile_page config env domain url html r ≡ ok page
    → content_of page ≡ content_given config env (url, html)
unfolding compile_page page_with
compile_page-content config env domain url html r page h =
    let parsed = parse_html env.markup html in
    let (doc, made, e) = ok-bind (doc_of config env domain parsed r) _ page h in
    ap content_of (sym (ok_inj e))

pub compile_pages-content :
    (config : PipelineConfig) (env : Env) (domain : Text) (clock : ℕ → PageReadings) (i : ℕ)
    (pages : List (Text × Text)) (compiled : List CompiledPage)
    → compile_pages config env domain clock i pages ≡ ok compiled
    → map content_of compiled ≡ map (content_given config env) pages
unfolding compile_pages
compile_pages-content config env domain clock i [] compiled h = ap (map content_of) (sym (ok_inj h))
compile_pages-content config env domain clock i ((url, html) ∷ more) compiled h =
    let (page, first, rest) =
      ok-bind (compile_page config env domain url html (clock i)) _ compiled h in
    let (others, later, whole) =
      ok-bind (compile_pages config env domain clock (suc i) more) _ compiled rest in
    ap (map content_of) (sym (ok_inj whole))
    ∙ ap₂ (λ p ps. p ∷ ps) (compile_page-content config env domain url html (clock i) page first)
        (compile_pages-content config env domain clock (suc i) more others later)

pub compile_pages-IsMade :
    (config : PipelineConfig) (env : Env) (domain : Text) (clock : ℕ → PageReadings) (i : ℕ)
    (pages : List (Text × Text)) (compiled : List CompiledPage)
    → compile_pages config env domain clock i pages ≡ ok compiled
    → (length compiled ≡ length pages) × All (IsMade config) compiled
unfolding compile_pages
compile_pages-IsMade config env domain clock i [] compiled h =
    subst (λ ps. (length ps ≡ 0) × All (IsMade config) ps) (ok_inj h) (refl, tt)
compile_pages-IsMade config env domain clock i ((url, html) ∷ more) compiled h =
    let (page, first, rest) =
      ok-bind (compile_page config env domain url html (clock i)) _ compiled h in
    let (others, later, whole) =
      ok-bind (compile_pages config env domain clock (suc i) more) _ compiled rest in
    let (same, made) = compile_pages-IsMade config env domain clock (suc i) more others later in
    subst (λ ps. (length ps ≡ suc (length more)) × All (IsMade config) ps) (ok_inj whole)
      (ap suc same, (compile_page-IsMade config env domain url html (clock i) page first, made))
