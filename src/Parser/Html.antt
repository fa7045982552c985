-- ===== src/Parser/Html.antt =====
-- `parse_html` and the sanitizer of src/parser.rs over the crates that they call.
use rfo_protocol.Base.{
  ℕ, zero, suc, Option, none, some, List, [], ◌∷◌, ◌++◌, map, Text, codes, if◌then◌else◌,
}
use rfo_protocol.Base.Strings.{is_empty, join}
use rfo_protocol.Parser.{ParsedContent, default_content}

-- What the program calls of `scraper` and `regex`. A selector that does not parse selects nothing.
pub record Markup : Type 1 where
  pub Node : Type 0
  pub parse_document : Text → Node
  pub root_element : Node → Node
  pub select : Text → Node → List Node
  pub text : Node → Text
  pub attr : Text → Node → Option Text
  pub html : Node → Text
  pub replace_all : Text → Text → Text → Text

abbrev pub injection_patterns : List Text
injection_patterns =
    codes "(?i)ignore\\s+(all\\s+)?previous\\s+instructions"
    ∷ codes "(?i)ignore\\s+(all\\s+)?prior\\s+instructions"
    ∷ codes "(?i)disregard\\s+(all\\s+)?previous\\s+(instructions|prompts|rules)"
    ∷ codes "(?i)override\\s+(the\\s+)?assistant\\s+system\\s+role"
    ∷ codes "(?i)you\\s+are\\s+now\\s+(a|an)\\s+"
    ∷ codes "(?i)act\\s+as\\s+if\\s+you\\s+(have\\s+)?no\\s+restrictions"
    ∷ codes "(?i)forget\\s+(all\\s+)?(your|previous)\\s+instructions"
    ∷ codes "(?i)new\\s+instructions?\\s*:"
    ∷ codes "(?i)system\\s*prompt\\s*:"
    ∷ codes "(?i)IMPORTANT:\\s*you\\s+must\\s+"
    ∷ codes "(?i)from\\s+now\\s+on\\s+you\\s+will"
    ∷ codes "(?i)do\\s+not\\s+(follow|obey)\\s+(your|any)\\s+(previous|prior|existing)\\s+"
    ∷ codes "(?i)jailbreak"
    ∷ codes "(?i)DAN\\s+mode"
    ∷ codes "(?i)developer\\s+mode\\s+(enabled|activated|on)"
    ∷ codes "(?i)角色扮演"
    ∷ codes "(?i)忽略之前的所有指令"
    ∷ []

module _ (k : Markup) where
  unfoldable pub sanitize_for_injection : Text → Text
  sanitize_for_injection s =
      k.replace_all (join (codes "|") injection_patterns) s (codes "[REDACTED]")

  -- The texts that are not empty, in order.
  unfoldable pub not_empty : List Text → List Text
  not_empty [] = []
  not_empty (t ∷ more) = let rest = not_empty more in if is_empty t then rest else t ∷ rest

  unfoldable pub sanitized_texts : Text → k.Node → List Text
  sanitized_texts selector document =
      not_empty (map (λ el. sanitize_for_injection (k.text el)) (k.select selector document))

  -- A row in the form of markdown, the first one with the line below a head.
  unfoldable pub table_row : ℕ → List Text → Text
  table_row i [] = []
  table_row i (cell ∷ cells) =
      let row = 124 ∷ (join (codes " | ") (cell ∷ cells) ++ codes "|\n") in
      let below : Text =
        124 ∷ (join (codes " | ") (map (λ other. codes "---") (cell ∷ cells)) ++ codes "|\n") in
      elim i [ zero ↦ row ++ below | suc before ↦ row ]

  -- `for (i, row) in doc.select(&sel).enumerate()`
  unfoldable pub table_rows : ℕ → List k.Node → Text
  unfolding table_row
  table_rows i [] = []
  table_rows i (row ∷ rows) =
      table_row i (map k.text (k.select (codes "td, th") row)) ++ table_rows (suc i) rows

  unfoldable pub html_table_to_markdown : Text → Text
  html_table_to_markdown html = table_rows 0 (k.select (codes "tr") (k.parse_document html))

  unfoldable pub hrefs : List k.Node → List Text
  hrefs [] = []
  hrefs (el ∷ more) = elim (k.attr (codes "href") el) [
    | some href ↦ href ∷ hrefs more
    | none ↦ hrefs more
  ]

  -- The first element of `select`, if there is one.
  unfoldable pub first_title : List k.Node → Text
  first_title [] = []
  first_title (el ∷ more) = sanitize_for_injection (k.text el)

  -- `for tag in &["h1", …, "h6"]`
  unfoldable pub heading_texts : List Text → k.Node → List Text
  heading_texts [] document = []
  heading_texts (tag ∷ tags) document = sanitized_texts tag document ++ heading_texts tags document

  unfoldable pub parse_html : Text → ParsedContent
  parse_html html =
      let document = k.parse_document html in
      record default_content {
        title = first_title (k.select (codes "title") document);
        headings =
            heading_texts
              (codes "h1" ∷ codes "h2" ∷ codes "h3" ∷ codes "h4" ∷ codes "h5" ∷ codes "h6" ∷ [])
              document;
        paragraphs = sanitized_texts (codes "p") document;
        links = hrefs (k.select (codes "a[href]") document);
        code_blocks = not_empty (map k.text (k.select (codes "pre > code, pre") document));
        tables =
            not_empty
              (map (λ el. html_table_to_markdown (k.html el)) (k.select (codes "table") document));
        raw_text = sanitize_for_injection (k.text (k.root_element document));
      }
