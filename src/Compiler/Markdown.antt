-- ===== src/Compiler/Markdown.antt =====
-- The markdown that `compile_doc` of src/compiler.rs writes, read by `parse_markdown` of
-- src/parser.rs.
use rfo_protocol.Base.{
  ◌≡◌, refl, sym, ap, ◌∙◌, true, Option, List, [], ◌∷◌, ◌++◌, append_assoc, append-nil, Bytes, Text,
  codes, Outcome, ok, err, panicked, All, if◌then◌else◌,
}
use rfo_protocol.Base.Int.{ℤ}
use rfo_protocol.Base.Strings.{lines}
use rfo_protocol.Payloads.{FullDocPayload}
use rfo_protocol.SiteId.{generate_site_id}
use rfo_protocol.Parser.{ParsedContent, default_content, add_lines, parse_markdown}
use rfo_protocol.Parser.Plain.{
  IsLine, is_plain, add_lines-line, trim-line, trim-title, trim-heading, add_line-title,
  add_line-heading, add_line-plain,
}
use rfo_protocol.Compiler.{pushed, raw_markdown_of, or_unverified, with_signature, compile_doc}

-- A paragraph that is one line without markup.
pub record IsParagraph (t : Text) : Type 0 where
  pub line : IsLine t
  pub plain : is_plain t ≡ true

-- Content whose markdown can be read back.
pub record IsReadable (parsed : ParsedContent) : Type 0 where
  pub title : IsLine parsed.title
  pub headings : All IsLine parsed.headings
  pub paragraphs : All IsParagraph parsed.paragraphs
  pub no_code : parsed.code_blocks ≡ []

add_lines-headings :
    (headings : List Text) (rest : Text) (content : ParsedContent)
    → All IsLine headings
    → add_lines (lines (pushed (codes "## ") (codes "\n\n") headings ++ rest)) content
      ≡ add_lines (lines rest) (record content { headings = content.headings ++ headings })
unfolding pushed
add_lines-headings [] rest content h =
    ap (λ hs. add_lines (lines rest) (record content { headings = hs }))
      (sym (append-nil content.headings))
add_lines-headings (t ∷ more) rest content h =
    let later = pushed (codes "## ") (codes "\n\n") more ++ rest in
    ap (λ r. add_lines (lines (codes "## " ++ r)) content)
      (append_assoc t (codes "\n\n" ++ pushed (codes "## ") (codes "\n\n") more) rest)
    ∙ add_lines-line (codes "## " ++ t) later content
        ((refl, refl), ((refl, refl), ((refl, refl), h.0.inside))) (trim-heading t h.0)
    ∙ ap (add_lines (lines later)) (add_line-heading t content h.0)
    ∙ add_lines-headings more rest _ h.1
    ∙ ap (λ hs. add_lines (lines rest) (record content { headings = hs }))
        (append_assoc content.headings (t ∷ []) more)

add_lines-paragraphs :
    (paragraphs : List Text) (rest : Text) (content : ParsedContent)
    → All IsParagraph paragraphs
    → add_lines (lines (pushed [] (codes "\n\n") paragraphs ++ rest)) content
      ≡ add_lines (lines rest) (record content { paragraphs = content.paragraphs ++ paragraphs })
unfolding pushed
add_lines-paragraphs [] rest content h =
    ap (λ ps. add_lines (lines rest) (record content { paragraphs = ps }))
      (sym (append-nil content.paragraphs))
add_lines-paragraphs (t ∷ more) rest content h =
    let later = pushed [] (codes "\n\n") more ++ rest in
    ap (λ r. add_lines (lines r) content)
      (append_assoc t (codes "\n\n" ++ pushed [] (codes "\n\n") more) rest)
    ∙ add_lines-line t later content h.0.line.inside (trim-line t h.0.line)
    ∙ ap (add_lines (lines later)) (add_line-plain t content h.0.line.some_text h.0.plain)
    ∙ add_lines-paragraphs more rest _ h.1
    ∙ ap (λ ps. add_lines (lines rest) (record content { paragraphs = ps }))
        (append_assoc content.paragraphs (t ∷ []) more)

-- What is read from the markdown of readable content.
read_back : ParsedContent → ParsedContent
read_back parsed = record default_content {
  title = parsed.title;
  headings = parsed.headings;
  paragraphs = parsed.paragraphs;
}

add_lines-raw_markdown_of :
    (parsed : ParsedContent)
    → IsReadable parsed
    → add_lines (lines (raw_markdown_of parsed)) default_content ≡ read_back parsed
unfolding raw_markdown_of read_back default_content pushed add_lines lines
add_lines-raw_markdown_of parsed r =
    let headings = pushed (codes "## ") (codes "\n\n") parsed.headings in
    let paragraphs = pushed [] (codes "\n\n") parsed.paragraphs in
    let fences = λ (blocks : List Text). pushed (codes "```\n") (codes "\n```\n\n") blocks in
    let blocks = fences parsed.code_blocks in
    let rest = headings ++ (paragraphs ++ blocks) in
    ap
      (λ b.
        add_lines (lines ((if b then [] else codes "# " ++ (parsed.title ++ codes "\n\n")) ++ rest))
          default_content)
      r.title.some_text
    ∙ ap (λ m. add_lines (lines (codes "# " ++ m)) default_content)
        (append_assoc parsed.title (codes "\n\n") rest)
    ∙ add_lines-line (codes "# " ++ parsed.title) rest default_content
        ((refl, refl), ((refl, refl), r.title.inside)) (trim-title parsed.title r.title)
    ∙ ap (add_lines (lines rest)) (add_line-title parsed.title default_content)
    ∙ add_lines-headings parsed.headings (paragraphs ++ blocks) _ r.headings
    ∙ add_lines-paragraphs parsed.paragraphs blocks _ r.paragraphs
    ∙ ap (λ cs. add_lines (lines (fences cs)) (read_back parsed)) r.no_code

doc-raw_markdown :
    (signature : Outcome Text Text) (parsed : ParsedContent) (doc : FullDocPayload)
    → with_signature parsed signature ≡ ok doc
    → doc.raw_markdown ≡ raw_markdown_of parsed
unfolding with_signature
doc-raw_markdown (ok signature) parsed doc e = cc
doc-raw_markdown (err x) parsed doc e = cc
doc-raw_markdown panicked parsed doc e = cc

-- A title, headings and paragraphs that are lines, the paragraphs without markup, and no block of
-- code: the markdown of the document that is compiled from them, if the sanitizer leaves it alone, is
-- read back to the same title, headings and paragraphs.
pub parse_markdown-compile_doc :
    (hmac_sha256 : Bytes → Bytes → Bytes) (hex_encode : Bytes → Text) (sanitize : Text → Text)
    (secret : Option Text) (now : ℤ) (domain_url : Text) (parsed : ParsedContent)
    (doc : FullDocPayload)
    → IsReadable parsed
    → compile_doc hmac_sha256 hex_encode secret now parsed domain_url ≡ ok doc
    → sanitize doc.raw_markdown ≡ doc.raw_markdown
    → ((parse_markdown sanitize doc.raw_markdown).title ≡ parsed.title)
      × ((parse_markdown sanitize doc.raw_markdown).headings ≡ parsed.headings)
      × ((parse_markdown sanitize doc.raw_markdown).paragraphs ≡ parsed.paragraphs)
unfolding parse_markdown read_back compile_doc
parse_markdown-compile_doc hmac_sha256 hex_encode sanitize secret now domain_url parsed doc r e s =
    let markdown =
      doc-raw_markdown
        (or_unverified (generate_site_id hmac_sha256 hex_encode secret now domain_url)) parsed doc
        e in
    let read : add_lines (lines (sanitize doc.raw_markdown)) default_content ≡ read_back parsed =
      ap (λ m. add_lines (lines m) default_content) (s ∙ markdown)
      ∙ add_lines-raw_markdown_of parsed r in
    (ap (λ c. c.title) read, ap (λ c. c.headings) read, ap (λ c. c.paragraphs) read)
