-- ===== src/Compiler.antt =====
-- src/compiler.rs: the payloads of a parsed page and their quality score. The identifier of a site
-- is made by `SiteId`, whose HMAC and secret are arguments. `as_bytes` gives the lengths of text.
-- The arithmetic of the score is that of a release build, which wraps.
pub mod Markdown
pub mod Payload
pub mod Score
use rfo_protocol.Base.{
  ℕ, zero, suc, ◌+◌, ◌*◌, ◌/◌, ◌%◌, ◌-◌, ◌^◌, Bool, true, false, not, ◌&&◌, Option, none, some,
  List, [], ◌∷◌, ◌++◌, map, Bytes, Text, codes, Outcome, ok, err, panicked, ltb, if◌then◌else◌,
  take, length, min, max, as_u32,
}
use rfo_protocol.Base.Int.{ℤ}
use rfo_protocol.Base.Keys.{text_beq}
use rfo_protocol.Base.Strings.{is_empty, as_bytes, join, match_count}
use rfo_protocol.Payloads.{QaPair, MiniDocPayload, FullDocPayload}
use rfo_protocol.Parser.{ParsedContent, generate_qa_pairs}
use rfo_protocol.SiteId.{generate_site_id}

-- `s.len()`
abbrev pub byte_len : Text → ℕ
byte_len s = length (as_bytes s)

unfoldable pub estimate_tokens : Text → ℕ
estimate_tokens s = byte_len s / 4

-- `qa_pairs.iter().map(…).sum()`
unfoldable pub qa_tokens : List QaPair → ℕ
qa_tokens [] = 0
qa_tokens (qa ∷ more) = (estimate_tokens qa.question + estimate_tokens qa.answer) + qa_tokens more

unfoldable pub compile_mdoc : ParsedContent → MiniDocPayload
compile_mdoc parsed =
    let summary = join (codes " ") (take 3 parsed.paragraphs) in
    let qa_pairs = generate_qa_pairs parsed in
    record {
      summary = summary;
      token_count = estimate_tokens summary + qa_tokens qa_pairs;
      qa_pairs = qa_pairs;
    }

-- A loop that pushes `before`, the text and `after` for every text.
unfoldable pub pushed : Text → Text → List Text → Text
pushed before after [] = []
pushed before after (t ∷ more) = before ++ (t ++ (after ++ pushed before after more))

unfoldable pub raw_markdown_of : ParsedContent → Text
raw_markdown_of parsed =
    (if is_empty parsed.title then [] else codes "# " ++ (parsed.title ++ codes "\n\n"))
    ++ (pushed (codes "## ") (codes "\n\n") parsed.headings
        ++ (pushed [] (codes "\n\n") parsed.paragraphs
            ++ pushed (codes "```\n") (codes "\n```\n\n") parsed.code_blocks))

-- `.unwrap_or_else(|_| "unverified".to_string())`
unfoldable pub or_unverified : Outcome Text Text → Outcome Text Text
or_unverified (ok site_id) = ok site_id
or_unverified (err e) = ok (codes "unverified")
or_unverified panicked = panicked

unfoldable pub with_signature : ParsedContent → Outcome Text Text → Outcome Text FullDocPayload
with_signature parsed (ok signature) = ok (record {
  raw_markdown = raw_markdown_of parsed;
  data_tables = parsed.tables;
  verification_signature = signature;
})
with_signature parsed (err e) = err e
with_signature parsed panicked = panicked

module _ (hmac_sha256 : Bytes → Bytes → Bytes) (hex_encode : Bytes → Text) where
  -- `now` is the clock that `generate_site_id` reads; it panics where the secret is not set.
  unfoldable pub compile_doc : Option Text → ℤ → ParsedContent → Text → Outcome Text FullDocPayload
  compile_doc secret now parsed domain_url =
      with_signature parsed
        (or_unverified (generate_site_id hmac_sha256 hex_encode secret now domain_url))

-- The multipliers 3.0, 2.0, 1.5, 1.2 and 1.0 as fractions. The product of a u32 and such an f64, cut
-- to an integer, is the fraction rounded down.
unfoldable pub qa_multiplier : ℕ → ℕ × ℕ
qa_multiplier qa_count =
    if ltb 20 qa_count
    then (3, 1)
    else if ltb 10 qa_count
    then (2, 1)
    else if ltb 5 qa_count
    then (3, 2)
    else if ltb 0 qa_count
    then (6, 5)
    else (1, 1)

unfoldable pub base_score : FullDocPayload → ℕ
base_score doc =
    let lengths = min (as_u32 (byte_len doc.raw_markdown)) 5000 / 10 in
    let heading_count = as_u32 (match_count doc.raw_markdown (codes "# ")) in
    let tables = as_u32 (as_u32 (length doc.data_tables) * 15) in
    let code_count = as_u32 (match_count doc.raw_markdown (codes "```")) / 2 in
    as_u32
      (as_u32 (as_u32 (lengths + as_u32 (heading_count * 5)) + tables) + as_u32 (code_count * 10))

unfoldable pub trust_of : FullDocPayload → ℕ
trust_of doc =
    if not (text_beq doc.verification_signature (codes "unverified"))
      && not (is_empty doc.verification_signature)
    then 50
    else 0

unfoldable pub summary_bonus : MiniDocPayload → ℕ
summary_bonus mdoc =
    if ltb 50 (byte_len mdoc.summary) then min (as_u32 (byte_len mdoc.summary)) 500 / 5 else 0

-- `(x as f64 * multiplier) as u32`, which stops at the greatest u32.
unfoldable pub scaled : ℕ → ℕ × ℕ → ℕ
scaled x (numerator, denominator) = min (x * numerator / denominator) (2 ^ 32 - 1)

unfoldable pub calculate_quality_score : MiniDocPayload → FullDocPayload → ℕ
calculate_quality_score mdoc doc =
    let sum = as_u32 (as_u32 (base_score doc + trust_of doc) + summary_bonus mdoc) in
    max (scaled sum (qa_multiplier (as_u32 (length mdoc.qa_pairs)))) 1
