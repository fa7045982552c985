-- ===== src/Parser.antt =====
-- src/parser.rs: from a page to its structured content. The `scraper` and `regex` crates are
-- parameters; a `HashMap` is an association list, an insert a write to it.
pub mod Html
pub mod Plain
pub mod Questions
pub mod Topics
use rfo_protocol.Base.{
  ℕ, zero, suc, ◌+◌, Bool, true, false, not, ◌&&◌, ◌||◌, Option, none, some, List, [], ◌∷◌, ◌++◌,
  map, Text, codes, if◌then◌else◌, take, drop, get_or,
}
use rfo_protocol.Base.Keys.{Assoc, text_eq, insert}
use rfo_protocol.Base.Strings.{
  is_empty, trim, starts_with, contains, to_lowercase, join, strip_prefix, trim_start_matches,
  lines,
}
use rfo_protocol.Payloads.{QaPair}

pub record ParsedContent : Type 0 where
  pub title : Text
  pub headings : List Text
  pub paragraphs : List Text
  pub links : List Text
  pub code_blocks : List Text
  pub tables : List Text
  pub raw_text : Text

-- `ParsedContent::default()`
unfoldable pub default_content : ParsedContent
default_content = record {
  title = [];
  headings = [];
  paragraphs = [];
  links = [];
  code_blocks = [];
  tables = [];
  raw_text = [];
}

-- The effect of the line on the content that `parse_markdown` collects.
unfoldable pub add_line : Text → ParsedContent → ParsedContent
add_line trimmed content =
    if is_empty trimmed then content else elim (strip_prefix trimmed (codes "# ")) [
      | some stripped ↦ record content { title = stripped }
      | none ↦
          if starts_with trimmed (codes "## ") || starts_with trimmed (codes "### ")
          then record content {
            headings = content.headings ++ (trim (trim_start_matches 35 trimmed) ∷ []);
          }
          else if starts_with trimmed (codes "```")
          then content
          else if starts_with trimmed (codes "|") && contains trimmed (codes "|")
          then record content { tables = content.tables ++ (trimmed ∷ []) }
          else if starts_with trimmed (codes "- ") || starts_with trimmed (codes "* ")
          then record content { paragraphs = content.paragraphs ++ (drop 2 trimmed ∷ []) }
          else record content { paragraphs = content.paragraphs ++ (trimmed ∷ []) }
    ]

-- `for line in sanitized.lines()`
unfoldable pub add_lines : List Text → ParsedContent → ParsedContent
add_lines [] content = content
add_lines (line ∷ more) content = add_lines more (add_line (trim line) content)

unfoldable pub parse_markdown : (Text → Text) → Text → ParsedContent
parse_markdown sanitize_for_injection md =
    let sanitized = sanitize_for_injection md in
    record (add_lines (lines sanitized) default_content) { raw_text = sanitized }

-- Whether one of the words stands in the text: a chain of `||` of `contains`.
unfoldable pub mentions : Text → List Text → Bool
mentions lower [] = false
mentions lower (word ∷ words) = contains lower word || mentions lower words

unfoldable pub language_of : Text → Option Text
language_of lower =
    if mentions lower (codes "rust" ∷ codes "cargo" ∷ codes "fn " ∷ [])
    then some (codes "Rust")
    else if mentions lower (codes "python" ∷ codes "def " ∷ codes "import " ∷ [])
    then some (codes "Python")
    else if mentions lower (codes "javascript" ∷ codes "const " ∷ codes "async " ∷ [])
    then some (codes "JavaScript")
    else none

unfoldable pub topic_of : Text → Option Text
topic_of h_lower =
    if mentions h_lower (codes "install" ∷ codes "setup" ∷ codes "getting started" ∷ [])
    then some (codes "Installation")
    else if mentions h_lower (codes "api" ∷ codes "endpoint" ∷ [])
    then some (codes "API Reference")
    else if mentions h_lower (codes "tutorial" ∷ codes "guide" ∷ [])
    then some (codes "Tutorial")
    else if mentions h_lower (codes "config" ∷ codes "setting" ∷ [])
    then some (codes "Configuration")
    else none

unfoldable pub category_of : Text → Text
category_of lower =
    if mentions lower (codes "database" ∷ codes "sql" ∷ codes "postgres" ∷ [])
    then codes "Database"
    else if mentions lower (codes "web" ∷ codes "http" ∷ codes "server" ∷ [])
    then codes "Web"
    else if mentions lower (codes "cli" ∷ codes "terminal" ∷ codes "command" ∷ [])
    then codes "CLI"
    else codes "General"

-- An insert that is made only where a test holds.
unfoldable pub insert_some : Text → Option Text → Assoc Text Text → Assoc Text Text
insert_some key none coords = coords
insert_some key (some value) coords = insert key value coords

-- `for heading in &parsed.headings`
unfoldable pub insert_topics : List Text → Assoc Text Text → Assoc Text Text
insert_topics [] coords = coords
insert_topics (heading ∷ more) coords =
    insert_topics more (insert_some (codes "topic") (topic_of (to_lowercase heading)) coords)

unfoldable pub extract_coordinates : ParsedContent → Assoc Text Text
extract_coordinates parsed =
    let titled =
      insert_some (codes "title") (if is_empty parsed.title then none else some parsed.title) [] in
    let lower = to_lowercase (parsed.title ++ (32 ∷ join (codes " ") parsed.paragraphs)) in
    let with_language = insert_some (codes "language") (language_of lower) titled in
    let with_topic = insert_topics parsed.headings with_language in
    insert (codes "category") (category_of lower) with_topic

-- `para_iter.next().cloned().unwrap_or_else(…)`, and the iterator after that.
unfoldable pub next_answer : List Text → Text × List Text
next_answer [] = (codes "No detailed information available.", [])
next_answer (paragraph ∷ more) = (paragraph, more)

unfoldable pub question_for : Text → Text
question_for heading = codes "What is " ++ (heading ++ codes "?")

-- `for heading in &parsed.headings`, on the iterator over the paragraphs.
unfoldable pub pair_up : List Text → List Text → List QaPair
unfolding next_answer question_for
pair_up [] paragraphs = []
pair_up (heading ∷ more) paragraphs =
    let pair : QaPair = record {
      question = question_for heading;
      answer = (next_answer paragraphs).0;
    } in
    pair ∷ pair_up more (next_answer paragraphs).1

unfoldable pub generate_qa_pairs : ParsedContent → List QaPair
unfolding pair_up
generate_qa_pairs parsed = take 20 (pair_up parsed.headings parsed.paragraphs)
