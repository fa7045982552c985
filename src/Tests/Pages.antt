-- ===== src/Tests/Pages.antt =====
-- Pages, documents and keys on small inputs.
use rfo_protocol.Base.{
  ℕ, ◌+◌, ◌*◌, ◌^◌, ◌≤◌, ◌<◌, ◌≡◌, refl, some, [], ◌∷◌, Bytes, Text, codes, ok, arith, length,
  get_elem?, take, replicate, max,
}
use rfo_protocol.Base.Int.{pos}
use rfo_protocol.Base.Keys.{text_eq}
use rfo_protocol.Base.Strings.{is_whitespace, trim_start, trim_end, as_bytes, match_count, join}
use rfo_protocol.Payloads.{FullDocPayload}
use rfo_protocol.Crypto.{Primitives, derive_key}
use rfo_protocol.Crypto.Derivation.{hkdf_blocks, derive_key-hkdf_blocks}
use rfo_protocol.Parser.{ParsedContent, generate_qa_pairs, parse_markdown}
use rfo_protocol.Parser.Questions.{pair_at, generate_qa_pairs-pair_at}
use rfo_protocol.Parser.Plain.{IsLine, is_plain}
use rfo_protocol.SiteId.{generate_site_id, signed}
use rfo_protocol.Compiler.{
  compile_mdoc, compile_doc, with_signature, or_unverified, raw_markdown_of, pushed, base_score,
  trust_of, summary_bonus, calculate_quality_score,
}
use rfo_protocol.Compiler.Score.{calculate_quality_score-compile_mdoc}
use rfo_protocol.Compiler.Markdown.{IsReadable, IsParagraph, parse_markdown-compile_doc}

abbrev hash : Bytes → Bytes → Bytes
hash key text = replicate 32 (length key + length text)

abbrev primitives : Primitives
primitives = record {
  sha256 = λ b. b;
  sha512 = λ b. b;
  hmac_sha256 = hash;
  hmac_sha512 = hash;
  hex_encode = λ b. b;
}

derive_key-hkdf_blocks_example :
    derive_key primitives (1 ∷ []) (2 ∷ []) (3 ∷ []) 40
    ≡ take 40 (hkdf_blocks primitives (hash (2 ∷ []) (1 ∷ [])) (3 ∷ []) [] 1 255)
derive_key-hkdf_blocks_example =
    derive_key-hkdf_blocks primitives (λ key text. refl) (1 ∷ []) (2 ∷ []) (3 ∷ []) 40 (omega arith)

abbrev page : ParsedContent
page = record {
  title = codes "Cargo";
  headings = codes "Setup" ∷ codes "Guide" ∷ [];
  paragraphs = codes "Use it." ∷ [];
  links = [];
  code_blocks = [];
  tables = [];
  raw_text = [];
}

generate_qa_pairs-pair_at_example :
    (length (generate_qa_pairs page) ≡ 2)
    × ((i : ℕ)
        → i < 20
        → get_elem? (generate_qa_pairs page) i
          ≡ pair_at page.paragraphs i (get_elem? page.headings i))
generate_qa_pairs-pair_at_example = generate_qa_pairs-pair_at page

abbrev document : FullDocPayload
document = record {
  raw_markdown = codes "# Cargo\n\n## Setup\n\n## Guide\n\nUse it.\n\n";
  data_tables = [];
  verification_signature = codes "id";
}

calculate_quality_score-compile_mdoc_example :
    (max 68 1 ≤ calculate_quality_score (compile_mdoc page) document)
    × (calculate_quality_score (compile_mdoc page) document ≤ max (2 * 68) 1)
    × (calculate_quality_score (compile_mdoc page) document < 2 ^ 32)
unfolding base_score trust_of summary_bonus compile_mdoc as_bytes match_count join
calculate_quality_score-compile_mdoc_example =
    calculate_quality_score-compile_mdoc page document 68 refl (omega arith)

abbrev hex : Bytes → Text
hex b = codes "id"

Cargo-IsLine : IsLine (codes "Cargo")
unfolding trim_start trim_end is_whitespace
Cargo-IsLine = record { inside = ground arith; from_start = refl; to_end = refl; some_text = refl }

Setup-IsLine : IsLine (codes "Setup")
unfolding trim_start trim_end is_whitespace
Setup-IsLine = record { inside = ground arith; from_start = refl; to_end = refl; some_text = refl }

Guide-IsLine : IsLine (codes "Guide")
unfolding trim_start trim_end is_whitespace
Guide-IsLine = record { inside = ground arith; from_start = refl; to_end = refl; some_text = refl }

use_it-IsLine : IsLine (codes "Use it.")
unfolding trim_start trim_end is_whitespace
use_it-IsLine = record { inside = ground arith; from_start = refl; to_end = refl; some_text = refl }

use_it-IsParagraph : IsParagraph (codes "Use it.")
unfolding is_plain
use_it-IsParagraph = record { line = use_it-IsLine; plain = refl }

page-IsReadable : IsReadable page
page-IsReadable = record {
  title = Cargo-IsLine;
  headings = (Setup-IsLine, (Guide-IsLine, tt));
  paragraphs = (use_it-IsParagraph, tt);
  no_code = refl;
}

page-compiled : compile_doc hash hex (some (codes "s")) (pos 7200) page (codes "a.md") ≡ ok document
unfolding compile_doc with_signature or_unverified generate_site_id signed raw_markdown_of pushed
page-compiled = refl

parse_markdown-compile_doc_example :
    ((parse_markdown (λ s. s) document.raw_markdown).title ≡ codes "Cargo")
    × ((parse_markdown (λ s. s) document.raw_markdown).headings
        ≡ codes "Setup" ∷ codes "Guide" ∷ [])
    × ((parse_markdown (λ s. s) document.raw_markdown).paragraphs ≡ codes "Use it." ∷ [])
parse_markdown-compile_doc_example =
    parse_markdown-compile_doc hash hex (λ s. s) (some (codes "s")) (pos 7200) (codes "a.md") page
      document page-IsReadable page-compiled refl
