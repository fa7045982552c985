-- ===== src/Handlers/Replay.antt =====
-- What a handshake of src/server/handlers.rs leaves for the later ones.
use rfo_protocol.Base.{
  ℕ, ◌≡◌, inl, inr, refl, sym, ap, ◌∙◌, true, Option, none, some, Text, Outcome, ok, err, panicked,
  Bool-cases, Option-cases,
}
use rfo_protocol.Base.Keys.{text_eq, lookup, lookup-insert_self}
use rfo_protocol.Payloads.{CacheEntry, HandshakeRequest, HandshakeResponse}
use rfo_protocol.SiteId.{verify_handshake_nonce}
use rfo_protocol.Cache.{is_fresh}
use rfo_protocol.Cache
use rfo_protocol.Handlers.{AppState, Failure, hit_state, miss_state, upsert_site, log_handshake}
use rfo_protocol.Handlers.Handshake.{
  Env, Readings, response_for, note_request, note_handshake, store_entry, log_answered, look_up,
  handshake_hit, handshake_miss, handshake_from, handshake,
}

-- The cache holds the entry that answers the domain.
abbrev pub Holds : {V : Type 0} → AppState V → Text → CacheEntry → Type 0
Holds s domain_url entry = lookup domain_url s.cache.inner ≡ some entry

-- What an answer says of the state that goes with it.
abbrev Served :
    {V : Type 0}
    → HandshakeRequest
    → Readings
    → Outcome Failure HandshakeResponse × AppState V
    → Type 0
Served request r (ok response, s) =
    (entry : CacheEntry) × (response ≡ response_for entry request r)
    × Holds s request.domain_url entry
Served request r (err e, s) = Unit
Served request r (panicked, s) = Unit

get-fresh :
    (c : Cache.RfoCache) (key : Text) (now : ℕ) (entry : CacheEntry)
    → lookup key c.inner ≡ some entry
    → is_fresh c.ttl_seconds now entry ≡ true
    → Cache.get c key now ≡ (some entry, c)
unfolding Cache.get
get-fresh c key now entry there fresh = rw (there, Cache.get, fresh)

get-hit :
    (c : Cache.RfoCache) (key : Text) (now : ℕ) (entry : CacheEntry)
    → (Cache.get c key now).0 ≡ some entry
    → lookup key (Cache.get c key now).1.inner ≡ some entry
unfolding Cache.get
get-hit c key now entry e = elim (Option-cases (lookup key c.inner)) [
  | inl missing ↦ cc (rw (missing, Cache.get) at e)
  | inr (found, there) ↦ elim (Bool-cases (is_fresh c.ttl_seconds now found)) [
    | inl fresh ↦
        let kept = get-fresh c key now found there fresh in
        ap (λ (p : Option CacheEntry × Cache.RfoCache). lookup key p.1.inner) kept
        ∙ there
        ∙ sym (ap (λ (p : Option CacheEntry × Cache.RfoCache). p.0) kept)
        ∙ e
    | inr stale ↦ cc (rw (there, Cache.get, stale) at e)
  ]
]

module _ {V : Type 0} where
  -- A hit is the entry of the cache.
  look_up-hit :
      (s : AppState V) (domain_url : Text) (now : ℕ) (entry : CacheEntry)
      → (look_up s domain_url now).0 ≡ some entry
      → Holds (look_up s domain_url now).1 domain_url entry
  unfolding look_up
  look_up-hit s domain_url now entry e = get-hit s.cache domain_url now entry e

  handshake_miss-Served :
      (s : AppState V) (entry : Outcome Failure CacheEntry) (request : HandshakeRequest)
      (r : Readings)
      → Served request r (handshake_miss s entry request r)
  unfolding handshake_miss store_entry note_request note_handshake log_answered log_handshake
      upsert_site Cache.insert
  handshake_miss-Served s (ok entry) request r =
      (entry, refl, lookup-insert_self request.domain_url entry s.cache.inner)
  handshake_miss-Served s (err e) request r = tt
  handshake_miss-Served s panicked request r = tt

  handshake_from-Served :
      (env : Env) (found : Option CacheEntry) (s : AppState V) (request : HandshakeRequest)
      (r : Readings)
      → ((entry : CacheEntry) → found ≡ some entry → Holds s request.domain_url entry)
      → Served request r (handshake_from env (found, s) request r)
  unfolding handshake_from handshake_hit note_request note_handshake log_answered log_handshake
      hit_state
  handshake_from-Served env (some entry) s request r there = (entry, refl, there entry refl)
  handshake_from-Served env none s request r there =
      handshake_miss-Served (miss_state s) _ request r

  handshake-Served :
      (env : Env) (s : AppState V) (request : HandshakeRequest) (r : Readings)
      → Served request r (handshake env s request r)
  unfolding handshake
  handshake-Served env s request r =
      elim (Bool-cases (verify_handshake_nonce r.checked_at request.nonce request.timestamp)) [
        | inl accepted ↦ rw accepted (
            handshake_from-Served env (look_up s request.domain_url r.looked_up_at).0
              (look_up s request.domain_url r.looked_up_at).1 request r
              (look_up-hit s request.domain_url r.looked_up_at))
        | inr refused ↦ rw refused tt
      ]

  handshake-cached :
      (env : Env) (s : AppState V) (request : HandshakeRequest) (r : Readings) (entry : CacheEntry)
      → verify_handshake_nonce r.checked_at request.nonce request.timestamp ≡ true
      → Holds s request.domain_url entry
      → is_fresh s.cache.ttl_seconds r.looked_up_at entry ≡ true
      → (handshake env s request r).0 ≡ ok (response_for entry request r)
  unfolding handshake handshake_from handshake_hit look_up
  handshake-cached env s request r entry accepted there fresh = rw accepted (
      ap
        (λ (p : Option CacheEntry × Cache.RfoCache).
          (handshake_from env (p.0, record s { cache = p.1 }) request r).0)
        (get-fresh s.cache request.domain_url r.looked_up_at entry there fresh))

  Served-entry :
      (request : HandshakeRequest) (r : Readings)
      (answer : Outcome Failure HandshakeResponse × AppState V) (response : HandshakeResponse)
      → Served request r answer
      → answer.0 ≡ ok response
      → (entry : CacheEntry) × (response ≡ response_for entry request r)
        × Holds answer.1 request.domain_url entry
  Served-entry request r (ok given, s) response (entry, same, there) e = (entry, cc, there)
  Served-entry request r (err x, s) response h e = cc
  Served-entry request r (panicked, s) response h e = cc

  -- Whatever answered a handshake is cached: as long as the entry is fresh and nothing else has touched
  -- the state, every accepted handshake for the domain is answered with its header and its
  -- payload of the kind asked for, whatever the web would say by then.
  pub handshake-replayed :
      (env : Env) (s : AppState V) (request : HandshakeRequest) (r : Readings)
      (response : HandshakeResponse)
      → (handshake env s request r).0 ≡ ok response
      → (entry : CacheEntry) × (response ≡ response_for entry request r)
        × ((env' : Env) (later : HandshakeRequest) (r' : Readings)
            → later.domain_url ≡ request.domain_url
            → verify_handshake_nonce r'.checked_at later.nonce later.timestamp ≡ true
            → is_fresh (handshake env s request r).1.cache.ttl_seconds r'.looked_up_at entry ≡ true
            → (handshake env' (handshake env s request r).1 later r').0
              ≡ ok (response_for entry later r'))
  handshake-replayed env s request r response e =
      let (entry, same, there) =
        Served-entry request r (handshake env s request r) response
          (handshake-Served env s request r) e in
      (
        entry,
        same,
        λ env' later r' domain accepted fresh.
            handshake-cached env' (handshake env s request r).1 later r' entry accepted
              (ap (λ d. lookup d (handshake env s request r).1.cache.inner) domain ∙ there) fresh,
      )
