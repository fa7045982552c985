-- ===== src/Telemetry/History.antt =====
-- The quality histories of src/telemetry.rs: the last fifty scores of each site.
use rfo_protocol.Base.{
  ℕ, ◌+◌, ◌-◌, ◌≡◌, refl, sym, ap, ◌∙◌, Bool, true, false, List, [], ◌∷◌, ◌++◌, append_assoc, Text,
  arith, length, drop, drop-drop, append-nil, drop-append_left, length-append, length-drop,
  if◌then◌else◌, ltb, ltb→le, Bool-cases, inl, inr,
}
use rfo_protocol.Base.Keys.{text_eq, text_beq, text_beq_iff, lookup, lookup-insert}
use rfo_protocol.Telemetry.{
  TelemetryTracker, ScoreSnapshot, history_of, capped, record_quality_score, new_tracker,
  new_tracker,
}

pub record Score : Type 0 where
  pub site_id : Text
  pub domain : Text
  pub score : ℕ
  pub now : ℕ

unfoldable pub record_scores : TelemetryTracker → List Score → TelemetryTracker
record_scores t [] = t
record_scores t (s ∷ scores) =
    record_scores (record_quality_score t s.site_id s.domain s.score s.now) scores

-- All the snapshots that the calls make for a site, the first one first.
unfoldable pub snapshots : Text → List Score → List ScoreSnapshot
snapshots site [] = []
snapshots site (s ∷ scores) =
    let rest = snapshots site scores in
    if text_beq s.site_id site then record { score = s.score; recorded_at = s.now } ∷ rest else rest

-- The last fifty.
abbrev pub last_fifty : List ScoreSnapshot → List ScoreSnapshot
last_fifty history = drop (length history - 50) history

capped-last_fifty : (history : List ScoreSnapshot) → capped history ≡ last_fifty history
unfolding capped
capped-last_fifty history = elim (Bool-cases (ltb 50 (length history))) [
  | inl long ↦ rw long
  | inr short ↦
      (let enough = ltb→le 50 (length history) short in
        let none_dropped : length history - 50 ≡ 0 = omega arith in rw (short, none_dropped))
]

last_fifty-append :
    (xs ys : List ScoreSnapshot) → last_fifty (last_fifty xs ++ ys) ≡ last_fifty (xs ++ ys)
last_fifty-append xs ys =
    let n = length xs - 50 in
    let both = length-append xs ys in
    let rest = length-append (drop n xs) ys in
    let left = length-drop n xs in
    let total : n + (length (drop n xs ++ ys) - 50) ≡ length (xs ++ ys) - 50 = omega arith in
    ap (drop (length (drop n xs ++ ys) - 50)) (sym (drop-append_left n xs ys (omega arith)))
    ∙ drop-drop (length (drop n xs ++ ys) - 50) n (xs ++ ys)
    ∙ ap (λ (k : ℕ). drop k (xs ++ ys)) total

-- The snapshots of a site after one more call.
abbrev after_score : Text → Score → List ScoreSnapshot → List ScoreSnapshot
after_score site s history =
    if text_beq s.site_id site
    then history ++ (record { score = s.score; recorded_at = s.now } ∷ [])
    else history

record_quality_score-history :
    (t : TelemetryTracker) (site : Text) (s : Score) (all : List ScoreSnapshot)
    → history_of (lookup site t.quality_history) ≡ last_fifty all
    → history_of
        (lookup site (record_quality_score t s.site_id s.domain s.score s.now).quality_history)
      ≡ last_fifty (after_score site s all)
unfolding record_quality_score
record_quality_score-history t site s all e =
    rw (lookup-insert s.site_id site) (elim (Bool-cases (text_beq s.site_id site)) [
      | inl same ↦
          (let id : s.site_id ≡ site = (text_beq_iff s.site_id site).0 same in
            rw (same, id, e) (capped-last_fifty _ ∙ last_fifty-append all _))
      | inr other ↦ rw other e
    ])

append_if :
    (b : Bool) (all : List ScoreSnapshot) (one : ScoreSnapshot) (rest : List ScoreSnapshot)
    → (if b then all ++ (one ∷ []) else all) ++ rest ≡ all ++ (if b then one ∷ rest else rest)
append_if true all one rest = append_assoc all (one ∷ []) rest
append_if false all one rest = refl

record_scores-append :
    (scores : List Score) (t : TelemetryTracker) (site : Text) (all : List ScoreSnapshot)
    → history_of (lookup site t.quality_history) ≡ last_fifty all
    → history_of (lookup site (record_scores t scores).quality_history)
      ≡ last_fifty (all ++ snapshots site scores)
unfolding record_scores snapshots
record_scores-append [] t site all e = rw (append-nil all) e
record_scores-append (s ∷ scores) t site all e =
    record_scores-append scores (record_quality_score t s.site_id s.domain s.score s.now) site
      (after_score site s all) (record_quality_score-history t site s all e)
    ∙ ap last_fifty (append_if (text_beq s.site_id site) all _ (snapshots site scores))

-- A site's history is the last fifty of all the scores recorded for it, in order, whichever other
-- sites were recorded in between.
pub record_scores-last_fifty :
    (scores : List Score) (now : ℕ) (site : Text)
    → history_of (lookup site (record_scores (new_tracker now) scores).quality_history)
      ≡ last_fifty (snapshots site scores)
unfolding new_tracker lookup
record_scores-last_fifty scores now site =
    record_scores-append scores (new_tracker now) site [] refl
