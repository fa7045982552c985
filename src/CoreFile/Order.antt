-- ===== src/CoreFile/Order.antt =====
-- The order and the scores of the pages of a core file of src/core_file.rs.
use mathlib.Core.List.{Perm}
use mathlib.Core.List.Perm
use rfo_protocol.Base.{
  ℕ, ◌+◌, ◌≤◌, ◌≡◌, refl, sym, ap, subst, ◌∙◌, true, false, List, [], ◌∷◌, Text, if◌then◌else◌, leb,
  ltb, length, All, Bool-cases, inl, inr, arith,
}
use rfo_protocol.Pipeline.{sum_of}
use rfo_protocol.CoreFile.{CorePage}
use rfo_protocol.CoreFile.Site.{
  text_le, insert_page, sort_pages, best_of, worst_of, best_page, worst_page, score_of,
}

-- Each path is not above the next ones.
abbrev pub Ordered : List CorePage → Type 0
Ordered [] = Unit
Ordered (p ∷ ps) = All (λ q. text_le p.path q.path ≡ true) ps × Ordered ps

-- The score of every page is in the range.
abbrev pub Within : ℕ → ℕ → List CorePage → Type 0
Within low high = All (λ p. (low ≤ p.quality_score) × (p.quality_score ≤ high))

text_le_trans : (a b c : Text) → text_le a b ≡ true → text_le b c ≡ true → text_le a c ≡ true
unfolding text_le
text_le_trans [] b c h k = refl
text_le_trans (x ∷ xs) [] c h k = cc
text_le_trans (x ∷ xs) (y ∷ ys) [] h k = cc
text_le_trans (x ∷ xs) (y ∷ ys) (z ∷ zs) h k = ground (arith, text_le_trans xs ys zs)

text_le_total : (a b : Text) → text_le a b ≡ false → text_le b a ≡ true
unfolding text_le
text_le_total [] b h = cc
text_le_total (x ∷ xs) [] h = refl
text_le_total (x ∷ xs) (y ∷ ys) h = ground (arith, text_le_total xs ys)

All-insert_page :
    (P : CorePage → Type 0) (p : CorePage) (qs : List CorePage)
    → P p
    → All P qs
    → All P (insert_page p qs)
unfolding insert_page
All-insert_page P p [] hp h = (hp, tt)
All-insert_page P p (q ∷ qs) hp h = elim (Bool-cases (text_le p.path q.path)) [
  | inl before ↦ rw before (hp, h)
  | inr behind ↦ rw behind (h.0, All-insert_page P p qs hp h.1)
]

All-below :
    (a b : Text) (qs : List CorePage)
    → text_le a b ≡ true
    → All (λ q. text_le b q.path ≡ true) qs
    → All (λ q. text_le a q.path ≡ true) qs
All-below a b [] h below = tt
All-below a b (q ∷ qs) h below = (text_le_trans a b q.path h below.0, All-below a b qs h below.1)

insert_page-Ordered : (p : CorePage) (qs : List CorePage) → Ordered qs → Ordered (insert_page p qs)
unfolding insert_page
insert_page-Ordered p [] h = (tt, tt)
insert_page-Ordered p (q ∷ qs) h = elim (Bool-cases (text_le p.path q.path)) [
  | inl before ↦ rw before ((before, All-below p.path q.path qs before h.0), h)
  | inr behind ↦ rw behind (
    All-insert_page (λ r. text_le q.path r.path ≡ true) p qs (text_le_total p.path q.path behind)
        h.0,
    insert_page-Ordered p qs h.1,
  )
]

pub sort_pages-Ordered : (ps : List CorePage) → Ordered (sort_pages ps)
unfolding sort_pages
sort_pages-Ordered [] = tt
sort_pages-Ordered (p ∷ ps) = insert_page-Ordered p (sort_pages ps) (sort_pages-Ordered ps)

insert_page-Perm : (p : CorePage) (qs : List CorePage) → Perm (insert_page p qs) (p ∷ qs)
unfolding insert_page
insert_page-Perm p [] = Perm.rfl
insert_page-Perm p (q ∷ qs) = elim (Bool-cases (text_le p.path q.path)) [
  | inl before ↦ rw before Perm.rfl
  | inr behind ↦ rw behind (Perm.trans (Perm.cons q (insert_page-Perm p qs)) (Perm.swap p q qs))
]

pub sort_pages-Perm : (ps : List CorePage) → Perm (sort_pages ps) ps
unfolding sort_pages
sort_pages-Perm [] = Perm.rfl
sort_pages-Perm (p ∷ ps) =
    Perm.trans (insert_page-Perm p (sort_pages ps)) (Perm.cons p (sort_pages-Perm ps))

sum_of-insert_page :
    (f : CorePage → ℕ) (p : CorePage) (qs : List CorePage)
    → sum_of f (insert_page p qs) ≡ f p + sum_of f qs
unfolding insert_page sum_of
sum_of-insert_page f p [] = refl
sum_of-insert_page f p (q ∷ qs) = elim (Bool-cases (text_le p.path q.path)) [
  | inl before ↦ rw before
  | inr behind ↦ rw behind (omega (arith, sum_of-insert_page f p qs))
]

pub sum_of-sort_pages :
    (f : CorePage → ℕ) (ps : List CorePage) → sum_of f (sort_pages ps) ≡ sum_of f ps
unfolding sort_pages sum_of
sum_of-sort_pages f [] = refl
sum_of-sort_pages f (p ∷ ps) =
    sum_of-insert_page f p (sort_pages ps) ∙ ap (λ (n : ℕ). f p + n) (sum_of-sort_pages f ps)

length-sum_of : (ps : List CorePage) → length ps ≡ sum_of (λ p. 1) ps
unfolding sum_of
length-sum_of [] = refl
length-sum_of (p ∷ ps) = omega (arith, length-sum_of ps)

pub length-sort_pages : (ps : List CorePage) → length (sort_pages ps) ≡ length ps
length-sort_pages ps =
    length-sum_of (sort_pages ps) ∙ sum_of-sort_pages (λ p. 1) ps ∙ sym (length-sum_of ps)

best_of-Within :
    (p : CorePage) (qs : List CorePage)
    → (p.quality_score ≤ (best_of p qs).quality_score)
      × All (λ q. q.quality_score ≤ (best_of p qs).quality_score) qs
unfolding best_of
best_of-Within p [] = (omega arith, tt)
best_of-Within p (q ∷ qs) =
    let over = λ (b : CorePage).
      (p.quality_score ≤ b.quality_score) × All (λ r. r.quality_score ≤ b.quality_score) (q ∷ qs) in
    elim (Bool-cases (leb p.quality_score q.quality_score)) [
      | inl above ↦
          let (first, rest) = best_of-Within q qs in
          let le : p.quality_score ≤ q.quality_score = ground arith in
          subst over (sym (ap (λ b. best_of (if b then q else p) qs) above))
            (omega (arith, le, first), (first, rest))
      | inr below ↦
          let (first, rest) = best_of-Within p qs in
          let le : q.quality_score ≤ p.quality_score = ground arith in
          subst over (sym (ap (λ b. best_of (if b then q else p) qs) below))
            (first, (omega (arith, le, first), rest))
    ]

worst_of-Within :
    (p : CorePage) (qs : List CorePage)
    → ((worst_of p qs).quality_score ≤ p.quality_score)
      × All (λ q. (worst_of p qs).quality_score ≤ q.quality_score) qs
unfolding worst_of
worst_of-Within p [] = (omega arith, tt)
worst_of-Within p (q ∷ qs) =
    let under = λ (w : CorePage).
      (w.quality_score ≤ p.quality_score) × All (λ r. w.quality_score ≤ r.quality_score) (q ∷ qs) in
    elim (Bool-cases (ltb q.quality_score p.quality_score)) [
      | inl below ↦
          let (first, rest) = worst_of-Within q qs in
          let le : q.quality_score ≤ p.quality_score = ground arith in
          subst under (sym (ap (λ b. worst_of (if b then q else p) qs) below))
            (omega (arith, le, first), (first, rest))
      | inr above ↦
          let (first, rest) = worst_of-Within p qs in
          let le : p.quality_score ≤ q.quality_score = ground arith in
          subst under (sym (ap (λ b. worst_of (if b then q else p) qs) above))
            (first, (omega (arith, le, first), rest))
    ]

All-both :
    (low high : ℕ) (ps : List CorePage)
    → All (λ p. low ≤ p.quality_score) ps
    → All (λ p. p.quality_score ≤ high) ps
    → Within low high ps
All-both low high [] h k = tt
All-both low high (p ∷ ps) h k = ((h.0, k.0), All-both low high ps h.1 k.1)

pub Within-pages :
    (ps : List CorePage) → Within (score_of (worst_page ps)) (score_of (best_page ps)) ps
unfolding worst_page best_page
Within-pages [] = tt
Within-pages (p ∷ ps) =
    All-both (worst_of p ps).quality_score (best_of p ps).quality_score (p ∷ ps)
      (worst_of-Within p ps) (best_of-Within p ps)
