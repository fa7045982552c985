-- ===== src/Telemetry/Ranking.antt =====
-- The sites and the requests that `report` of src/telemetry.rs lists.
use rfo_protocol.Base.{
  ℕ, suc, ◌-◌, ◌≤◌, Text, Option, none, some, get_elem?, ap₂, ◌≡◌, refl, sym, ap, ◌∙◌, subst, List,
  [], ◌∷◌, ◌++◌, map, leb, All, arith, length, min, take, drop, length-take, take-append-drop,
  Bool-cases, inl, inr,
}
use mathlib.Core.List.{Perm}
use mathlib.Core.List.Perm
use rfo_protocol.Base.Keys.{text_eq, lookup}
use rfo_protocol.Telemetry.{TelemetryTracker, ScoreSnapshot, RequestTelemetry, history_of}
use rfo_protocol.Telemetry.Report.{
  TopSite, last_score, text_of, domain_of, top_site_of, insert_desc, sort_desc, entry_of, report,
}

-- The greatest key first.
abbrev pub Descending {ℓ} : {A : Type ℓ} → (A → ℕ) → List A → Type 0
Descending key [] = Unit
Descending key (x ∷ xs) = All (λ y. key y ≤ key x) xs × Descending key xs

-- The list has the greatest of the others' elements, as many as the number says if there are so many,
-- in descending order: together with those left out it is a descending order of them all.
pub record IsTop {ℓ} {A : Type ℓ} (n : ℕ) (key : A → ℕ) (top others : List A) : Type ℓ where
  pub left_out : List A
  pub count : length top ≡ min n (length others)
  pub descending : Descending key (top ++ left_out)
  pub same : Perm (top ++ left_out) others

module _ {ℓ} {A : Type ℓ} (key : A → ℕ) where
  All-insert_desc :
      (P : A → Type 0) (x : A) (ys : List A) → P x → All P ys → All P (insert_desc key x ys)
  unfolding insert_desc
  All-insert_desc P x [] px h = (px, tt)
  All-insert_desc P x (y ∷ ys) px h = elim (Bool-cases (leb (key y) (key x))) [
    | inl before ↦ rw before (px, h)
    | inr behind ↦ rw behind (h.0, All-insert_desc P x ys px h.1)
  ]

  All-le : (m n : ℕ) (ys : List A) → m ≤ n → All (λ y. key y ≤ m) ys → All (λ y. key y ≤ n) ys
  All-le m n [] le h = tt
  All-le m n (y ∷ ys) le h = (omega (arith, h.0), All-le m n ys le h.1)

  insert_desc-Descending :
      (x : A) (ys : List A) → Descending key ys → Descending key (insert_desc key x ys)
  unfolding insert_desc
  insert_desc-Descending x [] h = (tt, tt)
  insert_desc-Descending x (y ∷ ys) h = elim (Bool-cases (leb (key y) (key x))) [
    | inl before ↦
        let le : key y ≤ key x = ground arith in
        rw before ((le, All-le (key y) (key x) ys le h.0), h)
    | inr behind ↦
        let le : key x ≤ key y = ground arith in
        rw behind
          (All-insert_desc (λ z. key z ≤ key y) x ys le h.0, insert_desc-Descending x ys h.1)
  ]

  insert_desc-Perm : (x : A) (ys : List A) → Perm (insert_desc key x ys) (x ∷ ys)
  unfolding insert_desc
  insert_desc-Perm x [] = Perm.rfl
  insert_desc-Perm x (y ∷ ys) = elim (Bool-cases (leb (key y) (key x))) [
    | inl before ↦ rw before Perm.rfl
    | inr behind ↦ rw behind (Perm.trans (Perm.cons y (insert_desc-Perm x ys)) (Perm.swap x y ys))
  ]

  sort_desc-Descending : (xs : List A) → Descending key (sort_desc key xs)
  unfolding sort_desc
  sort_desc-Descending [] = tt
  sort_desc-Descending (x ∷ xs) =
      insert_desc-Descending x (sort_desc key xs) (sort_desc-Descending xs)

  sort_desc-Perm : (xs : List A) → Perm (sort_desc key xs) xs
  unfolding sort_desc
  sort_desc-Perm [] = Perm.rfl
  sort_desc-Perm (x ∷ xs) =
      Perm.trans (insert_desc-Perm x (sort_desc key xs)) (Perm.cons x (sort_desc-Perm xs))

  length-insert_desc : (x : A) (ys : List A) → length (insert_desc key x ys) ≡ suc (length ys)
  unfolding insert_desc
  length-insert_desc x [] = refl
  length-insert_desc x (y ∷ ys) = elim (Bool-cases (leb (key y) (key x))) [
    | inl before ↦ rw before
    | inr behind ↦ rw behind (ap suc (length-insert_desc x ys))
  ]

  length-sort_desc : (xs : List A) → length (sort_desc key xs) ≡ length xs
  unfolding sort_desc
  length-sort_desc [] = refl
  length-sort_desc (x ∷ xs) = length-insert_desc x (sort_desc key xs) ∙ ap suc (length-sort_desc xs)

  take-sort_desc-IsTop : (n : ℕ) (xs : List A) → IsTop n key (take n (sort_desc key xs)) xs
  take-sort_desc-IsTop n xs =
      let sorted = sort_desc key xs in
      let whole = take-append-drop n sorted in
      record {
        left_out = drop n sorted;
        count = length-take n sorted ∙ ap (min n) (length-sort_desc xs);
        descending = subst (Descending key) (sym whole) (sort_desc-Descending xs);
        same = subst (λ l. Perm l xs) (sym whole) (sort_desc-Perm xs);
      }

-- The score of the snapshot of that number, or zero.
abbrev pub score_at : List ScoreSnapshot → ℕ → ℕ
score_at history i = elim (get_elem? history i) [ none ↦ 0 | some snapshot ↦ snapshot.score ]

abbrev pub latest_score : List ScoreSnapshot → ℕ
latest_score history = score_at history (length history - 1)

-- What the tracker knows of a site and its number of handshakes: the domain recorded for it, or none,
-- and the score recorded last, or zero.
abbrev pub site_known : TelemetryTracker → Text × ℕ → TopSite
site_known t (site_id, handshakes) = record {
  site_id = site_id;
  domain = elim (lookup site_id t.site_domains) [ none ↦ [] | some domain ↦ domain ];
  quality_score = elim (lookup site_id t.quality_history) [
    | none ↦ 0
    | some history ↦ latest_score history
  ];
  total_handshakes = handshakes;
}

last_score-latest : (history : List ScoreSnapshot) → last_score history ≡ latest_score history
unfolding last_score
last_score-latest [] = refl
last_score-latest (s ∷ []) = refl
last_score-latest (s ∷ t ∷ more) =
    let shorter : length more ≡ suc (length more) - 1 = omega arith in
    let longer : suc (length more) ≡ suc (suc (length more)) - 1 = omega arith in
    last_score-latest (t ∷ more)
    ∙ sym (ap (score_at (t ∷ more)) shorter)
    ∙ ap (score_at (s ∷ t ∷ more)) longer

known_domain :
    (d : Option Text) → text_of d ≡ elim d as (λ o. Text) [ none ↦ [] | some domain ↦ domain ]
known_domain none = refl
known_domain (some domain) = refl

known_score :
    (h : Option (List ScoreSnapshot))
    → last_score (history_of h)
      ≡ elim h as (λ o. ℕ) [ none ↦ 0 | some history ↦ latest_score history ]
unfolding last_score
known_score none = refl
known_score (some history) = last_score-latest history

top_site_of-site_known : (t : TelemetryTracker) (s : Text × ℕ) → top_site_of t s ≡ site_known t s
unfolding top_site_of domain_of
top_site_of-site_known t (site_id, handshakes) =
    ap₂
      (λ (d : Text) (q : ℕ). record {
        site_id = site_id;
        domain = d;
        quality_score = q;
        total_handshakes = handshakes;
      })
      (known_domain (lookup site_id t.site_domains))
      (known_score (lookup site_id t.quality_history))

map-site_known :
    (t : TelemetryTracker) (sites : List (Text × ℕ))
    → map (top_site_of t) sites ≡ map (site_known t) sites
map-site_known t [] = refl
map-site_known t (s ∷ more) =
    ap₂ (λ x xs. x ∷ xs) (top_site_of-site_known t s) (map-site_known t more)

-- The report lists the ten sites with the most handshakes, each with its number of them, its domain and
-- its last score, and the twenty last requests of those that the tracker holds; both in descending
-- order, and fewer where there are fewer.
pub report-IsTop :
    (t : TelemetryTracker) (total_entries now : ℕ)
    → IsTop 10
        (λ s. s.total_handshakes)
        (report t total_entries now).top_sites
        (map (site_known t) t.handshake_counts)
      × IsTop 20
          (λ r. r.timestamp)
          (report t total_entries now).recent_requests
          (map (λ (s : ℕ × RequestTelemetry). s.1) t.recent_requests.slots)
unfolding report
report-IsTop t total_entries now = (
  rw (sym (map-site_known t t.handshake_counts))
      (take-sort_desc-IsTop _ 10 (map (top_site_of t) t.handshake_counts)),
  take-sort_desc-IsTop _ 20 (map entry_of t.recent_requests.slots),
)
