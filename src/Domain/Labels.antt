-- ===== src/Domain/Labels.antt =====
-- The labels into which `RfoDomain::parse` of src/domain.rs splits a domain.
use rfo_protocol.Base.{
  ℕ, All, ◌≡◌, ◌≢◌, refl, sym, ap, subst, ◌∙◌, List, [], ◌∷◌, ◌++◌, append_assoc, Text, ◌==◌,
  ==_iff, arith, Bool-cases, inl, inr,
}
use rfo_protocol.Base.Strings.{split}
use rfo_protocol.Domain.{join, last, but_last}

-- A label: it has no dot.
abbrev pub IsLabel : Text → Type 0
IsLabel = All (λ c. c ≢ 46)

pub split-first : (s : Text) → (part : Text) × (parts : List Text) × (split 46 s ≡ part ∷ parts)
unfolding split
split-first [] = ([], [], refl)
split-first (c ∷ cs) = elim (Bool-cases (c == 46)) [
  | inl dot ↦ ([], split 46 cs, rw dot)
  | inr other ↦ let (part, parts, e) = split-first cs in (c ∷ part, parts, rw (other, e))
]

pub split-IsLabel : (s : Text) → All IsLabel (split 46 s)
unfolding split
split-IsLabel [] = (tt, tt)
split-IsLabel (c ∷ cs) =
    let rest = split-IsLabel cs in
    let (part, parts, e) = split-first cs in
    elim (Bool-cases (c == 46)) [
      | inl dot ↦ rw dot (tt, rest)
      | inr other ↦
          let labels = subst (All IsLabel) e rest in
          rw (other, e) (((λ same. ground (arith, same, other)), labels.0), labels.1)
    ]

pub last-All :
    (P : Text → Type 0) (part : Text) (parts : List Text)
    → All P (part ∷ parts)
    → P (last part parts)
unfolding last
last-All P part [] h = h.0
last-All P part (next ∷ parts) h = last-All P next parts h.1

pub but_last-All :
    (P : Text → Type 0) (part : Text) (parts : List Text)
    → All P (part ∷ parts)
    → All P (but_last part parts)
unfolding but_last
but_last-All P part [] h = tt
but_last-All P part (next ∷ parts) h = (h.0, but_last-All P next parts h.1)

join-extend :
    (c : ℕ) (part : Text) (parts : List Text) → join ((c ∷ part) ∷ parts) ≡ c ∷ join (part ∷ parts)
unfolding join
join-extend c part [] = refl
join-extend c part (next ∷ parts) = refl

pub join-split : (s : Text) → join (split 46 s) ≡ s
unfolding join split
join-split [] = refl
join-split (c ∷ cs) =
    let (part, parts, e) = split-first cs in
    let rest = sym (ap join e) ∙ join-split cs in
    elim (Bool-cases (c == 46)) [
      | inl dot ↦
          let is_dot : c ≡ 46 = (==_iff c 46).0 dot in
          rw (dot, e) (ap (λ r. 46 ∷ r) rest ∙ rw is_dot)
      | inr other ↦ rw (other, e) (join-extend c part parts ∙ ap (λ r. c ∷ r) rest)
    ]

pub join-last :
    (part next : Text) (parts : List Text)
    → join (part ∷ next ∷ parts)
      ≡ join (but_last part (next ∷ parts)) ++ (46 ∷ last part (next ∷ parts))
unfolding join but_last last
join-last part next [] = refl
join-last part next (third ∷ parts) =
    ap (λ r. part ++ (46 ∷ r)) (join-last next third parts)
    ∙ sym (
        append_assoc part (46 ∷ join (but_last next (third ∷ parts)))
          (46 ∷ last next (third ∷ parts)))
