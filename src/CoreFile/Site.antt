-- ===== src/CoreFile/Site.antt =====
-- `compile_from_pages` of src/core_file.rs: what the compiled pages of a site come to together.
use rfo_protocol.Base.{
  ℕ, suc, ◌+◌, ◌-◌, ◌/◌, ◌^◌, Bool, true, false, ◌&&◌, ◌||◌, Option, none, some, List, [], ◌∷◌,
  ◌++◌, map, Bytes, Text, codes, Outcome, ok, err, panicked, ◌>>=◌, map_err, unwrap, ltb, leb, ◌==◌,
  if◌then◌else◌, length, take, min, max,
}
use rfo_protocol.Base.Int.{ℤ}
use rfo_protocol.Base.JsonValue.{JsonValue}
use rfo_protocol.Base.Keys.{Assoc, text_eq, lookup, insert}
use rfo_protocol.Base.Print.{decimal}
use rfo_protocol.Base.Strings.{as_bytes, join}
use rfo_protocol.Domain.{RfoDomain}
use rfo_protocol.Domain
use rfo_protocol.Domain.Metadata.{OptMetadata, new_metadata}
use rfo_protocol.Domain.Schemas.{to_json_ld}
use rfo_protocol.Payloads.{QaPair}
use rfo_protocol.Parser.{ParsedContent}
use rfo_protocol.SiteId.{generate_site_id}
use rfo_protocol.Handlers.Handshake.{Env}
use rfo_protocol.Pipeline.{PipelineConfig, PageReadings, sum_of, count_if, average}
use rfo_protocol.CoreFile.{CoreFile, CorePage, CorePageHash, CoreTopic, core_pages}

-- `a <= b` of the bytes of two texts, which is that of their code points.
unfoldable pub text_le : Text → Text → Bool
text_le [] b = true
text_le (x ∷ xs) [] = false
text_le (x ∷ xs) (y ∷ ys) = ltb x y || ((x == y) && text_le xs ys)

-- `sort_by(|a, b| a.path.cmp(&b.path))`, which is stable.
unfoldable pub insert_page : CorePage → List CorePage → List CorePage
insert_page p [] = p ∷ []
insert_page p (q ∷ qs) = if text_le p.path q.path then p ∷ q ∷ qs else q ∷ insert_page p qs

unfoldable pub sort_pages : List CorePage → List CorePage
sort_pages [] = []
sort_pages (p ∷ ps) = insert_page p (sort_pages ps)

-- `max_by_key`, the last of the greatest, and `min_by_key`, the first of the least.
unfoldable pub best_of : CorePage → List CorePage → CorePage
best_of p [] = p
best_of p (q ∷ qs) = best_of (if leb p.quality_score q.quality_score then q else p) qs

unfoldable pub worst_of : CorePage → List CorePage → CorePage
worst_of p [] = p
worst_of p (q ∷ qs) = worst_of (if ltb q.quality_score p.quality_score then q else p) qs

unfoldable pub best_page : List CorePage → Option CorePage
best_page [] = none
best_page (p ∷ ps) = some (best_of p ps)

unfoldable pub worst_page : List CorePage → Option CorePage
worst_page [] = none
worst_page (p ∷ ps) = some (worst_of p ps)

abbrev pub url_of : Option CorePage → Text
url_of none = []
url_of (some p) = p.url

abbrev pub score_of : Option CorePage → ℕ
score_of none = 0
score_of (some p) = p.quality_score

abbrev pub title_of : List CorePage → Text
title_of [] = []
title_of (p ∷ ps) = p.title

-- `or_default()` and `push`
abbrev pub texts_of : Option (List Text) → List Text
texts_of none = []
texts_of (some ts) = ts

unfoldable pub push_to : Text → Text → Assoc Text (List Text) → Assoc Text (List Text)
push_to key value m = insert key (texts_of (lookup key m) ++ (value ∷ [])) m

abbrev pub topic_or_general : Option Text → Text
topic_or_general none = codes "General"
topic_or_general (some t) = t

-- `all_topics`, after the loop.
unfoldable pub collect_topics : List CorePage → Assoc Text (List Text) → Assoc Text (List Text)
unfolding push_to
collect_topics [] topics = topics
collect_topics (p ∷ ps) topics = collect_topics ps (
    if ltb 3 (length p.mdoc.qa_pairs)
    then push_to (topic_or_general (lookup (codes "topic") p.coordinates)) p.url topics
    else topics)

unfoldable pub core_topic : ℕ → Text × List Text → CoreTopic
core_topic page_count (name, page_urls) = record {
  name = name;
  confidence = (length page_urls, max page_count 1);
  page_urls = page_urls;
}

unfoldable pub all_pairs : List CorePage → List QaPair
all_pairs [] = []
all_pairs (p ∷ ps) = p.mdoc.qa_pairs ++ all_pairs ps

-- `parsed.paragraphs.first()` of the pages that have one.
unfoldable pub first_paragraphs : List ParsedContent → List Text
first_paragraphs [] = []
first_paragraphs (parsed ∷ more) = elim parsed.paragraphs [
  | [] ↦ first_paragraphs more
  | first ∷ others ↦ first ∷ first_paragraphs more
]

abbrev pub not_empty : List Text → Bool
not_empty [] = false
not_empty (t ∷ ts) = true

abbrev in_front : ℕ → Option Text → Option Text
in_front c none = none
in_front c (some cs) = some (c ∷ cs)

-- `&s[..n]`; none, where it panics, in the middle of a code point or past the end.
unfoldable pub take_bytes : ℕ → Text → Option Text
take_bytes n [] = if n == 0 then some [] else none
take_bytes n (c ∷ cs) =
    let width = length (as_bytes (c ∷ [])) in
    let rest = take_bytes (n - width) cs in
    if n == 0 then some [] else if ltb n width then none else in_front c rest

unfoldable pub summarize : Text → Outcome Text Text
summarize all_text =
    let total = length (as_bytes all_text) in
    if ltb 1000 total
    then (unwrap (take_bytes 1000 all_text) >>= λ start.
        ok (start ++ (codes "... (" ++ (decimal total ++ codes " total chars)"))))
    else ok all_text

-- `counts` of a list of values, and its greatest.
unfoldable pub count_values : List Text → Assoc Text ℕ → Assoc Text ℕ
count_values [] counts = counts
count_values (v ∷ vs) counts =
    count_values vs (insert v (suc (elim (lookup v counts) [ none ↦ 0 | some n ↦ n ])) counts)

unfoldable pub commonest : Text × ℕ → Assoc Text ℕ → Text
commonest (v, n) [] = v
commonest (v, n) ((w, m) ∷ more) = commonest (if leb n m then (w, m) else (v, n)) more

unfoldable pub group_coordinates : Assoc Text Text → Assoc Text (List Text) → Assoc Text (List Text)
unfolding push_to
group_coordinates [] all = all
group_coordinates ((k, v) ∷ more) all = group_coordinates more (push_to k v all)

unfoldable pub group_pages : List CorePage → Assoc Text (List Text) → Assoc Text (List Text)
group_pages [] all = all
group_pages (p ∷ ps) all = group_pages ps (group_coordinates p.coordinates all)

unfoldable pub choose_values : Assoc Text (List Text) → Assoc Text Text → Assoc Text Text
choose_values [] result = result
choose_values ((k, vals) ∷ more) result = elim (count_values vals []) [
  | [] ↦ choose_values more result
  | first ∷ others ↦ choose_values more (insert k (commonest first others) result)
]

unfoldable pub extract_coordinates_from_pages : List CorePage → Assoc Text Text
extract_coordinates_from_pages pages = choose_values (group_pages pages []) []

unfoldable pub aeo_readiness_of : ℕ → ℕ
aeo_readiness_of total_qas =
    if ltb 20 total_qas
    then 95
    else if ltb 10 total_qas
    then 80
    else if ltb 5 total_qas
    then 65
    else if ltb 0 total_qas
    then 40
    else 10

-- `avg_quality as u32`, and five points more, up to the greatest u32.
unfoldable pub overall_of : ℕ → ℕ → ℕ → ℕ
overall_of sum page_count total_qas =
    if ltb 0 page_count
    then (if ltb 0 total_qas && ltb 50 (aeo_readiness_of total_qas)
        then min (sum / max page_count 1 + 5) (2 ^ 32 - 1)
        else sum / max page_count 1)
    else 0

module _ (sha256 : Bytes → Bytes) where
  unfoldable pub sha256_hex : (Bytes → Text) → Text → Text
  sha256_hex hex_encode s = hex_encode (sha256 (as_bytes s))

  unfoldable pub page_hash : (Bytes → Text) → CorePage → CorePageHash
  page_hash hex_encode p = record { url = p.url; sha256 = sha256_hex hex_encode p.doc.raw_markdown }

-- `.unwrap_or_default()`
unfoldable pub or_empty : Outcome Text Text → Outcome Text Text
or_empty (ok t) = ok t
or_empty (err e) = ok []
or_empty panicked = panicked

-- The clock's values but for those of the pages.
pub record SiteReadings : Type 0 where
  pub identified_at : ℤ
  pub signed_at : ℤ
  pub registered_at : Text
  pub compiled_at : Text
  pub pages : ℕ → PageReadings

-- What follows the loop, once nothing can fail any more.
unfoldable pub assemble :
    Text
    → Env
    → (Bytes → Bytes)
    → RfoDomain
    → OptMetadata JsonValue
    → SiteReadings
    → Text
    → Text
    → Text
    → List (CorePage × ParsedContent)
    → CoreFile
assemble domain env sha256 domain_obj opt r site_id site_id_sig site_summary compiled =
    let is_opt = Domain.is_opt domain_obj in
    let in_order = map (λ (p : CorePage × ParsedContent). p.0) compiled in
    let contents = map (λ (p : CorePage × ParsedContent). p.1) compiled in
    let pages = sort_pages in_order in
    let page_count = length pages in
    let sum = sum_of (λ p. p.quality_score) pages in
    let all_qa = all_pairs in_order in
    let total_tokens = sum_of (λ p. p.token_count) in_order in
    record {
      schema = codes "rfo-core-v1";
      version = codes "1.0.0";
      compiled_at = r.compiled_at;
      site = record {
        site_id = site_id;
        domain = domain;
        is_opt = is_opt;
        title = title_of pages;
        description = take 500 site_summary;
        coordinates = extract_coordinates_from_pages pages;
        total_pages = page_count;
        site_url = codes "https://" ++ domain_obj.full;
      };
      intelligence = record {
        site_summary = site_summary;
        site_token_count = total_tokens;
        all_qa_pairs = all_qa;
        topics = map (core_topic page_count) (collect_topics in_order []);
      };
      pages = pages;
      quality = record {
        overall = overall_of sum page_count (length all_qa);
        avg_page = average sum page_count;
        best_page = url_of (best_page pages);
        best_score = score_of (best_page pages);
        worst_page = url_of (worst_page pages);
        worst_score = score_of (worst_page pages);
        total_tokens = total_tokens;
        total_qa_pairs = length all_qa;
        pages_with_code = count_if (λ (c : ParsedContent). not_empty c.code_blocks) contents;
        pages_with_tables = count_if (λ (c : ParsedContent). not_empty c.tables) contents;
        aeo_readiness = aeo_readiness_of (length all_qa);
      };
      optimization = record {
        seo = opt.seo;
        geo = opt.geo;
        aeo = opt.aeo;
        json_ld = if is_opt then some (to_json_ld opt) else none;
        faq_schema = none;
      };
      crypto = record {
        site_id_signature = site_id_sig;
        content_root_hash =
            sha256_hex sha256 env.hex_encode (join (codes " ") (first_paragraphs contents));
        page_hashes = map (page_hash sha256 env.hex_encode) pages;
        verified = true;
      };
    }

unfoldable pub compile_from_pages :
    PipelineConfig
    → Env
    → (Bytes → Bytes)
    → SiteReadings
    → Text
    → List (Text × Text)
    → Outcome Text CoreFile
compile_from_pages config env sha256 r domain pages = do
  domain_obj ← map_err (λ e. codes "Domain error: " ++ Domain.display e) (Domain.parse domain)
  site_id ←
      map_err (λ e. codes "Site ID error: " ++ e)
        (generate_site_id env.hmac_sha256 env.hex_encode env.secret r.identified_at domain)
  let opt = new_metadata domain_obj.name r.registered_at
  compiled ← core_pages config env domain (Domain.is_opt domain_obj) opt r.pages 0 pages
  site_summary ←
      summarize
        (join (codes " ") (first_paragraphs (map (λ (p : CorePage × ParsedContent). p.1) compiled)))
  site_id_sig ←
      or_empty (generate_site_id env.hmac_sha256 env.hex_encode env.secret r.signed_at domain)
  ok (assemble domain env sha256 domain_obj opt r site_id site_id_sig site_summary compiled)
