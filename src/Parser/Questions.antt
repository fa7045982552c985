-- ===== src/Parser/Questions.antt =====
-- The question-answer pairs of `generate_qa_pairs` of src/parser.rs.
use rfo_protocol.Base.{
  ℕ, zero, suc, ◌<◌, ◌≡◌, refl, ap, ◌∙◌, Option, none, some, List, [], ◌∷◌, ◌++◌, Text, codes,
  arith, length, get_elem?, get_or, take, min, length-take,
}
use rfo_protocol.Payloads.{QaPair}
use rfo_protocol.Parser.{ParsedContent, next_answer, question_for, pair_up, generate_qa_pairs}

-- The pair of the `i`-th heading: the answer is the paragraph of the same number, if there is one.
unfoldable pub pair_at : List Text → ℕ → Option Text → Option QaPair
pair_at paragraphs i none = none
pair_at paragraphs i (some heading) = some (record {
  question = codes "What is " ++ (heading ++ codes "?");
  answer = get_or paragraphs i (codes "No detailed information available.");
})

length-pair_up :
    (headings paragraphs : List Text) → length (pair_up headings paragraphs) ≡ length headings
unfolding pair_up
length-pair_up [] paragraphs = refl
length-pair_up (h ∷ hs) paragraphs = ap suc (length-pair_up hs (next_answer paragraphs).1)

get_elem?-pair_up :
    (headings paragraphs : List Text) (i : ℕ)
    → get_elem? (pair_up headings paragraphs) i ≡ pair_at paragraphs i (get_elem? headings i)
unfolding pair_up pair_at next_answer question_for
get_elem?-pair_up [] paragraphs i = refl
get_elem?-pair_up (h ∷ hs) [] zero = refl
get_elem?-pair_up (h ∷ hs) (p ∷ ps) zero = refl
get_elem?-pair_up (h ∷ hs) [] (suc i) = get_elem?-pair_up hs [] i
get_elem?-pair_up (h ∷ hs) (p ∷ ps) (suc i) = get_elem?-pair_up hs ps i

get_elem?-take {ℓ} :
    {A : Type ℓ} (n i : ℕ) (xs : List A) → i < n → get_elem? (take n xs) i ≡ get_elem? xs i
get_elem?-take zero i xs h = absurd (omega arith)
get_elem?-take (suc n) i [] h = refl
get_elem?-take (suc n) zero (x ∷ xs) h = refl
get_elem?-take (suc n) (suc i) (x ∷ xs) h = get_elem?-take n i xs (omega arith)

-- There is a pair for each of the first twenty headings and no other. The question of the i-th pair is
-- "What is", the i-th heading and a question mark, and its answer the i-th paragraph, or the text for a
-- missing one.
pub generate_qa_pairs-pair_at :
    (parsed : ParsedContent)
    → (length (generate_qa_pairs parsed) ≡ min 20 (length parsed.headings))
      × ((i : ℕ)
          → i < 20
          → get_elem? (generate_qa_pairs parsed) i
            ≡ pair_at parsed.paragraphs i (get_elem? parsed.headings i))
unfolding generate_qa_pairs
generate_qa_pairs-pair_at parsed =
    let headings = parsed.headings in
    let paragraphs = parsed.paragraphs in
    (
      length-take 20 (pair_up headings paragraphs)
          ∙ ap (λ (n : ℕ). min 20 n) (length-pair_up headings paragraphs),
      λ i h.
          get_elem?-take 20 i (pair_up headings paragraphs) h
          ∙ get_elem?-pair_up headings paragraphs i,
    )
