-- ===== src/Handlers/Reads.antt =====
-- The requests for what is compiled, of src/server/handlers.rs.
use rfo_protocol.Base.{
  ℕ, suc, ◌≡◌, refl, Bool, true, false, ◌&&◌, Option, none, some, [], ◌∷◌, Text, codes, Outcome, ok,
  err, panicked, get_elem?, All, Bool-cases, inl, inr,
}
use rfo_protocol.Base.Keys.{Assoc}
use rfo_protocol.Base.Strings.{contains}
use rfo_protocol.Payloads.{CacheEntry, FullDocPayload}
use rfo_protocol.Cache.{RfoCache, is_fresh, first_match, get_by_domain}
use rfo_protocol.Handlers.{
  AppState, Failure, hit_state, miss_state, not_compiled, get_part, get_doc,
}

-- The key of the entry contains the text, and the entry is not expired.
abbrev pub matches : RfoCache → Text → ℕ → Text × CacheEntry → Bool
matches c domain now (key, entry) = contains key domain && is_fresh c.ttl_seconds now entry

-- What a search says of the entries.
abbrev Found : RfoCache → Text → ℕ → Assoc Text CacheEntry → Option CacheEntry → Type 0
Found c domain now entries none = All (λ e. matches c domain now e ≡ false) entries
Found c domain now entries (some entry) =
    (i : ℕ) × (key : Text) × (get_elem? entries i ≡ some (key, entry))
    × (matches c domain now (key, entry) ≡ true)

Found-later :
    (c : RfoCache) (domain : Text) (now : ℕ) (first : Text × CacheEntry)
    (rest : Assoc Text CacheEntry) (o : Option CacheEntry)
    → matches c domain now first ≡ false
    → Found c domain now rest o
    → Found c domain now (first ∷ rest) o
Found-later c domain now first rest none miss h = (miss, h)
Found-later c domain now first rest (some entry) miss (i, key, there, good) =
    (suc i, key, there, good)

first_match-Found :
    (c : RfoCache) (domain : Text) (now : ℕ) (entries : Assoc Text CacheEntry)
    → Found c domain now entries (first_match c domain now entries)
unfolding first_match
first_match-Found c domain now [] = tt
first_match-Found c domain now ((key, entry) ∷ rest) =
    let later = first_match-Found c domain now rest in
    elim (Bool-cases (contains key domain)) [
      | inl named ↦ elim (Bool-cases (is_fresh c.ttl_seconds now entry)) [
        | inl fresh ↦ rw (named, fresh) (0, key, refl, rw (named, fresh))
        | inr stale ↦
            rw (named, stale)
              (Found-later c domain now (key, entry) rest _ (rw (named, stale)) later)
      ]
      | inr unnamed ↦ rw unnamed (Found-later c domain now (key, entry) rest _ (rw unnamed) later)
    ]

-- The answer of `get_doc`, and the cache and the database behind it.
abbrev pub Answered :
    {V : Type 0} → AppState V → Text → ℕ → Outcome Failure FullDocPayload × AppState V → Type 0
Answered s domain now (ok document, s') =
    (i : ℕ) × (key : Text) × (entry : CacheEntry) × (get_elem? s.cache.inner i ≡ some (key, entry))
    × (matches s.cache domain now (key, entry) ≡ true)
    × (document ≡ entry.doc)
    × (s'.cache ≡ s.cache)
Answered s domain now (err e, s') =
    All (λ e. matches s.cache domain now e ≡ false) s.cache.inner
    × (e.0 ≡ 404)
    × (s'.cache ≡ s.cache)
Answered s domain now (panicked, s') = ⊥

get_part-Answered :
    {V : Type 0} (s : AppState V) (domain : Text) (now : ℕ) (found : Option CacheEntry)
    → Found s.cache domain now s.cache.inner found
    → Answered s domain now (get_part (λ entry. entry.doc) (codes "doc") s domain found)
unfolding get_part hit_state miss_state not_compiled
get_part-Answered s domain now none h = (h, refl, refl)
get_part-Answered s domain now (some entry) (i, key, there, good) =
    (i, key, entry, there, good, refl, refl)

-- `get_doc` answers with the document of an entry whose key contains the text and which is not
-- expired; it answers 404 only where no entry is such. The cache stays as it is.
pub get_doc-Answered :
    {V : Type 0} (s : AppState V) (domain : Text) (now : ℕ)
    → Answered s domain now (get_doc s domain now)
unfolding get_by_domain get_doc
get_doc-Answered s domain now =
    get_part-Answered s domain now (get_by_domain s.cache domain now)
      (first_match-Found s.cache domain now s.cache.inner)
