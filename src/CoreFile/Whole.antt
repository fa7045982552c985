-- ===== src/CoreFile/Whole.antt =====
-- What a core file of src/core_file.rs says of its pages.
use mathlib.Core.List.{Perm}
use mathlib.Core.List.Perm
use rfo_protocol.Base.{
  ap₂, Outcome, err, panicked, codes, ok-bind, ok_inj, ℕ, suc, ◌+◌, ◌≡◌, refl, sym, ap, subst, ◌∙◌,
  Bool, List, [], ◌∷◌, ◌++◌, map, Bytes, Text, ok, map_err, length, length-append,
}
use rfo_protocol.Base.Int.{ℤ}
use rfo_protocol.Base.Keys.{Assoc}
use rfo_protocol.Payloads.{MiniDocPayload, FullDocPayload}
use rfo_protocol.Parser.{ParsedContent, extract_coordinates}
use rfo_protocol.Pipeline.{PipelineConfig, PageReadings, sum_of}
use rfo_protocol.Handlers.Handshake.{Env, parse_page}
use rfo_protocol.Domain.{RfoDomain}
use rfo_protocol.Domain
use rfo_protocol.Domain.Metadata.{OptMetadata, new_metadata}
use rfo_protocol.Base.JsonValue.{JsonValue}
use rfo_protocol.Compiler.{compile_doc, compile_mdoc, raw_markdown_of, with_signature}
use rfo_protocol.SiteId.{generate_site_id}
use rfo_protocol.Base.Strings.{join}
use rfo_protocol.CoreFile.{CoreFile, CorePage, core_page, core_pages}
use rfo_protocol.CoreFile.Site.{
  sort_pages, all_pairs, SiteReadings, assemble, compile_from_pages, page_hash, summarize, or_empty,
  first_paragraphs,
}
use rfo_protocol.CoreFile.Order.{
  Ordered, Within, sort_pages-Ordered, sort_pages-Perm, sum_of-sort_pages, length-sort_pages,
  Within-pages,
}

abbrev page_part : CorePage × ParsedContent → CorePage
page_part (page, parsed) = page

-- What a page takes from the HTML given for it: its address, title, mini document, coordinates and
-- links, as the parser and the compiler give them.
pub record PageContent : Type 0 where
  pub url : Text
  pub title : Text
  pub mdoc : MiniDocPayload
  pub coordinates : Assoc Text Text
  pub raw_markdown : Text

abbrev pub content_of : CorePage → PageContent
content_of p = record {
  url = p.url;
  title = p.title;
  mdoc = p.mdoc;
  coordinates = p.coordinates;
  raw_markdown = p.doc.raw_markdown;
}

abbrev pub content_given : Env → Text × Text → PageContent
content_given env (url, html) =
    let parsed = parse_page env.markup url html in
    record {
      url = url;
      title = parsed.title;
      mdoc = compile_mdoc parsed;
      coordinates = extract_coordinates parsed;
      raw_markdown = raw_markdown_of parsed;
    }

raw_markdown-with_signature :
    (parsed : ParsedContent) (signature : Outcome Text Text) (doc : FullDocPayload)
    → with_signature parsed signature ≡ ok doc
    → doc.raw_markdown ≡ raw_markdown_of parsed
unfolding with_signature
raw_markdown-with_signature parsed (ok t) doc h = ap (λ d. d.raw_markdown) (sym (ok_inj h))
raw_markdown-with_signature parsed (err e) doc h = cc
raw_markdown-with_signature parsed panicked doc h = cc

raw_markdown-compile_doc :
    (env : Env) (now : ℤ) (parsed : ParsedContent) (domain : Text) (doc : FullDocPayload)
    → compile_doc env.hmac_sha256 env.hex_encode env.secret now parsed domain ≡ ok doc
    → doc.raw_markdown ≡ raw_markdown_of parsed
unfolding compile_doc
raw_markdown-compile_doc env now parsed domain doc h = raw_markdown-with_signature parsed _ doc h

length-map {ℓ κ} :
    {A : Type ℓ} {B : Type κ} (f : A → B) (xs : List A) → length (map f xs) ≡ length xs
length-map f [] = refl
length-map f (x ∷ xs) = ap suc (length-map f xs)

-- The pages have what is given for them, in order, and the number of their pairs.
abbrev Compiled : Env → List (Text × Text) → List (CorePage × ParsedContent) → Type 0
Compiled env given compiled =
    (map content_of (map page_part compiled) ≡ map (content_given env) given)
    × (length (all_pairs (map page_part compiled))
        ≡ sum_of (λ p. p.qa_pair_count) (map page_part compiled))

core_pages-Compiled :
    (config : PipelineConfig) (env : Env) (domain : Text) (is_opt : Bool)
    (opt : OptMetadata JsonValue) (clock : ℕ → PageReadings) (i : ℕ) (pages : List (Text × Text))
    (compiled : List (CorePage × ParsedContent))
    → core_pages config env domain is_opt opt clock i pages ≡ ok compiled
    → Compiled env pages compiled
unfolding core_pages core_page all_pairs sum_of
core_pages-Compiled config env domain is_opt opt clock i [] compiled h =
    subst (Compiled env []) (ok_inj h) (refl, refl)
core_pages-Compiled config env domain is_opt opt clock i ((url, html) ∷ more) compiled h =
    let parsed = parse_page env.markup url html in
    let (doc, made, rest) =
      ok-bind
        (compile_doc env.hmac_sha256 env.hex_encode env.secret (clock i).signed_at parsed domain) _
        compiled h in
    let (others, later, whole) =
      ok-bind (core_pages config env domain is_opt opt clock (suc i) more) _ compiled rest in
    let (same, pairs) =
      core_pages-Compiled config env domain is_opt opt clock (suc i) more others later in
    let own = (core_page config domain is_opt opt url parsed (clock i) doc).mdoc.qa_pairs in
    let markdown : doc.raw_markdown ≡ raw_markdown_of parsed =
      raw_markdown-compile_doc env (clock i).signed_at parsed domain doc made in
    subst (Compiled env ((url, html) ∷ more)) (ok_inj whole) (
      ap₂
          (λ (m : Text) (r : List PageContent).
            record (content_given env (url, html)) { raw_markdown = m } ∷ r)
          markdown same,
      length-append own (all_pairs (map page_part others)) ∙ ap (λ (n : ℕ). length own + n) pairs,
    )

-- What a core file says of its pages.
pub record IsWhole (env : Env) (given : List (Text × Text)) (file : CoreFile) : Type 0 where
  pub total : file.site.total_pages ≡ length given
  pub listed : Perm (map content_of file.pages) (map (content_given env) given)
  pub ordered : Ordered file.pages
  pub scores : Within file.quality.worst_score file.quality.best_score file.pages
  pub pairs : file.quality.total_qa_pairs ≡ sum_of (λ p. p.qa_pair_count) file.pages
  pub hashes : map (λ h. h.url) file.crypto.page_hashes ≡ map (λ p. p.url) file.pages

map-map {ℓ κ μ} :
    {A : Type ℓ} {B : Type κ} {C : Type μ} (g : B → C) (f : A → B) (xs : List A)
    → map g (map f xs) ≡ map (λ x. g (f x)) xs
map-map g f [] = refl
map-map g f (x ∷ xs) = ap (λ r. g (f x) ∷ r) (map-map g f xs)

-- A core file that is compiled lists the pages given, each once and with the content of its HTML, in the
-- order of the paths, and a hash for each of them; the scores of its pages lie between the worst and the
-- best, and it counts the pages and the pairs of them all.
pub compile_from_pages-IsWhole :
    (config : PipelineConfig) (env : Env) (sha256 : Bytes → Bytes) (r : SiteReadings)
    (domain : Text) (pages : List (Text × Text)) (file : CoreFile)
    → compile_from_pages config env sha256 r domain pages ≡ ok file
    → IsWhole env pages file
unfolding compile_from_pages assemble page_hash
compile_from_pages-IsWhole config env sha256 r domain pages file h =
    let named = map_err (λ e. codes "Domain error: " ++ Domain.display e) (Domain.parse domain) in
    let identity =
      map_err (λ e. codes "Site ID error: " ++ e)
        (generate_site_id env.hmac_sha256 env.hex_encode env.secret r.identified_at domain) in
    let again = generate_site_id env.hmac_sha256 env.hex_encode env.secret r.signed_at domain in
    let (domain_obj, parsed, h1) = ok-bind named _ file h in
    let (site_id, identified, h2) = ok-bind identity _ file h1 in
    let opt : OptMetadata JsonValue = new_metadata domain_obj.name r.registered_at in
    let is_opt = Domain.is_opt domain_obj in
    let (compiled, made, h3) =
      ok-bind (core_pages config env domain is_opt opt r.pages 0 pages) _ file h2 in
    let contents = map (λ (p : CorePage × ParsedContent). p.1) compiled in
    let (summary, summed, h4) =
      ok-bind (summarize (join (codes " ") (first_paragraphs contents))) _ file h3 in
    let (signature, signed, h5) = ok-bind (or_empty again) _ file h4 in
    let (same, pairs) =
      core_pages-Compiled config env domain is_opt opt r.pages 0 pages compiled made in
    let in_order = map page_part compiled in
    subst (IsWhole env pages) (ok_inj h5) (record {
      total =
          length-sort_pages in_order
          ∙ sym (length-map content_of in_order)
          ∙ ap length same
          ∙ length-map (content_given env) pages;
      listed =
          subst (Perm (map content_of (sort_pages in_order))) same
            (Perm.map content_of (sort_pages-Perm in_order));
      ordered = sort_pages-Ordered in_order;
      scores = Within-pages (sort_pages in_order);
      pairs = pairs ∙ sym (sum_of-sort_pages (λ p. p.qa_pair_count) in_order);
      hashes = map-map (λ h. h.url) (page_hash sha256 env.hex_encode) (sort_pages in_order);
    })
