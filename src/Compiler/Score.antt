-- ===== src/Compiler/Score.antt =====
-- Bounds of `calculate_quality_score` of src/compiler.rs.
use rfo_protocol.Base.{ℕ, ◌+◌, ◌*◌, ◌^◌, ◌≤◌, ◌<◌, ◌≡◌, arith, length, max, as_u32}
use rfo_protocol.Payloads.{FullDocPayload}
use rfo_protocol.Parser.{ParsedContent, generate_qa_pairs}
use rfo_protocol.Parser.Questions.{generate_qa_pairs-pair_at}
use rfo_protocol.Compiler.{
  compile_mdoc, qa_multiplier, base_score, trust_of, summary_bonus, scaled, calculate_quality_score,
}

scaled_bounds :
    (x n : ℕ)
    → x < 2 ^ 32
    → n ≤ 20
    → (x ≤ scaled x (qa_multiplier n))
      × (scaled x (qa_multiplier n) ≤ 2 * x)
      × (scaled x (qa_multiplier n) < 2 ^ 32)
unfolding scaled qa_multiplier
scaled_bounds x n h few = ground arith

-- Where the points of a compiled page do not overflow a u32, its score is at least these points, at
-- most twice them (the factor of three is out of reach), never zero, and a u32.
pub calculate_quality_score-compile_mdoc :
    (parsed : ParsedContent) (doc : FullDocPayload) (points : ℕ)
    → points ≡ base_score doc + trust_of doc + summary_bonus (compile_mdoc parsed)
    → points < 2 ^ 32
    → (max points 1 ≤ calculate_quality_score (compile_mdoc parsed) doc)
      × (calculate_quality_score (compile_mdoc parsed) doc ≤ max (2 * points) 1)
      × (calculate_quality_score (compile_mdoc parsed) doc < 2 ^ 32)
unfolding calculate_quality_score compile_mdoc
calculate_quality_score-compile_mdoc parsed doc points e h =
    let pairs : length (generate_qa_pairs parsed) ≤ 20 =
      omega (arith, (generate_qa_pairs-pair_at parsed).0) in
    let n = as_u32 (length (generate_qa_pairs parsed)) in
    let sum =
      as_u32 (as_u32 (base_score doc + trust_of doc) + summary_bonus (compile_mdoc parsed)) in
    omega (arith, scaled_bounds sum n (omega arith) (omega arith))
