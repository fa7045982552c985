-- ===== src/Handlers/Serving.antt =====
-- The answers and failures of the handshake of src/server/handlers.rs.
use rfo_protocol.Base.{
  ℕ, ◌≡◌, inl, inr, refl, ◌∙◌, false, Option, none, some, Text, Outcome, ok, err, panicked, ◌>>=◌,
  map_err, Bool-cases, Option-cases,
}
use rfo_protocol.Base.Keys.{text_eq, text_beq, lookup, lookup-remove}
use rfo_protocol.Parser.{ParsedContent, extract_coordinates}
use rfo_protocol.Compiler.{compile_mdoc, compile_doc, calculate_quality_score}
use rfo_protocol.Payloads.{FullDocPayload, new_rfo_header, CacheEntry, HandshakeRequest}
use rfo_protocol.SiteId.{verify_handshake_nonce, generate_site_id}
use rfo_protocol.Cache.{is_fresh}
use rfo_protocol.Cache
use rfo_protocol.Handlers.{AppState, Failure, miss_state}
use rfo_protocol.Handlers.Handshake.{
  Env, Readings, extend, parse_page, compiled, fetch_and_compile, note_request, look_up,
  handshake_hit, handshake_miss, handshake_from, handshake,
}

-- The statuses with which a handshake fails.
pub data IsFailure : ℕ → Type 0 where
  unauthorized : {n : ℕ} → n ≡ 401 → IsFailure n
  internal : {n : ℕ} → n ≡ 500 → IsFailure n
  bad_gateway : {n : ℕ} → n ≡ 502 → IsFailure n

-- The status of an error is one of these.
abbrev Fails {ℓ} : {A : Type ℓ} → Outcome Failure A → Type 0
Fails (ok a) = Unit
Fails (err e) = IsFailure e.0
Fails panicked = Unit

bind-Fails {ℓ κ} :
    {A : Type ℓ} {B : Type κ} (m : Outcome Failure A) (f : A → Outcome Failure B)
    → Fails m
    → ((a : A) → Fails (f a))
    → Fails (m >>= f)
bind-Fails (ok a) f h k = k a
bind-Fails (err e) f h k = h
bind-Fails panicked f h k = tt

map_err-Fails {ℓ} :
    {A : Type ℓ} (g : Text → Failure) (m : Outcome Text A)
    → ((e : Text) → IsFailure (g e).0)
    → Fails (map_err g m)
map_err-Fails g (ok a) h = tt
map_err-Fails g (err e) h = h e
map_err-Fails g panicked h = tt

two-Fails {ℓ κ μ} :
    {A : Type ℓ} {B : Type κ} {C : Type μ} (a : Outcome Text A) (b : Outcome Text B) (f : A → B → C)
    → Fails (
        map_err {F = Failure} (λ e. (500, e)) a >>= λ x.
        map_err {F = Failure} (λ e. (500, e)) b >>= λ y. ok (f x y))
two-Fails (ok x) (ok y) f = tt
two-Fails (ok x) (err e) f = internal refl
two-Fails (ok x) panicked f = tt
two-Fails (err e) b f = internal refl
two-Fails panicked b f = tt

compiled-Fails :
    (env : Env) (parsed : ParsedContent) (request : HandshakeRequest) (r : Readings)
    → Fails (compiled env parsed request r)
unfolding compiled
compiled-Fails env parsed request r =
    let mini_document = compile_mdoc parsed in
    let coordinates = extend (extract_coordinates parsed) request.coordinates in
    let entry_of : Text → FullDocPayload → CacheEntry = λ site_id document. record {
      header = new_rfo_header site_id coordinates (calculate_quality_score mini_document document);
      doc = document;
      mdoc = mini_document;
      cached_at = r.compiled_at;
    } in
    two-Fails
      (generate_site_id env.hmac_sha256 env.hex_encode env.secret r.identified_at
        request.domain_url)
      (compile_doc env.hmac_sha256 env.hex_encode env.secret r.signed_at parsed request.domain_url)
      entry_of

fetch_and_compile-Fails :
    (fetch_failed read_failed : Text) (env : Env) (request : HandshakeRequest) (r : Readings)
    → Fails (fetch_and_compile fetch_failed read_failed env request r)
unfolding fetch_and_compile
fetch_and_compile-Fails fetch_failed read_failed env request r =
    bind-Fails _ _ (map_err-Fails _ env.client (λ e. internal refl)) (λ built.
      bind-Fails _ _ (map_err-Fails _ (env.send request.domain_url) (λ e. bad_gateway refl))
        (λ response.
          bind-Fails _ _ (map_err-Fails _ response (λ e. bad_gateway refl))
            (λ html. compiled-Fails env (parse_page env.markup request.domain_url html) request r)))

module _ {V : Type 0} where
  -- The state after a failure: what the database was handed is as before, and so is the cached entry
  -- of every other domain.
  pub record Unharmed (s s' : AppState V) (domain_url : Text) : Type 0 where
    pub same_db : s'.db ≡ s.db
    pub others :
        (other : Text)
        → text_beq domain_url other ≡ false
        → lookup other s'.cache.inner ≡ lookup other s.cache.inner

  abbrev pub Safe {ℓ} : {A : Type ℓ} → AppState V → Text → Outcome Failure A × AppState V → Type 0
  Safe s domain_url (ok a, s') = Unit
  Safe s domain_url (err e, s') = IsFailure e.0 × Unharmed s s' domain_url
  Safe s domain_url (panicked, s') = Unharmed s s' domain_url

dropped-others :
    (c : Cache.RfoCache) (key other : Text)
    → text_beq key other ≡ false
    → lookup other (Cache.remove c key).1.inner ≡ lookup other c.inner
unfolding Cache.remove
dropped-others c key other apart = lookup-remove key other c.inner ∙ rw apart

get-others :
    (c : Cache.RfoCache) (key other : Text) (now : ℕ)
    → text_beq key other ≡ false
    → lookup other (Cache.get c key now).1.inner ≡ lookup other c.inner
unfolding Cache.get
get-others c key other now apart = elim (Option-cases (lookup key c.inner)) [
  | inl missing ↦ rw (missing, Cache.get)
  | inr (found, there) ↦ elim (Bool-cases (is_fresh c.ttl_seconds now found)) [
    | inl fresh ↦ rw (there, Cache.get, fresh)
    | inr stale ↦ rw (there, Cache.get, stale) (dropped-others c key other apart)
  ]
]

module _ {V : Type 0} where
  look_up-Unharmed :
      (s : AppState V) (domain_url : Text) (now : ℕ)
      → Unharmed s (miss_state (look_up s domain_url now).1) domain_url
  unfolding look_up miss_state
  look_up-Unharmed s domain_url now = record {
    same_db = refl;
    others = λ other apart. get-others s.cache domain_url other now apart;
  }

  handshake_miss-Safe :
      (before s : AppState V) (entry : Outcome Failure CacheEntry) (request : HandshakeRequest)
      (r : Readings)
      → Unharmed before s request.domain_url
      → Fails entry
      → Safe before request.domain_url (handshake_miss s entry request r)
  unfolding handshake_miss
  handshake_miss-Safe before s (ok entry) request r same h = tt
  handshake_miss-Safe before s (err e) request r same h = (h, same)
  handshake_miss-Safe before s panicked request r same h = same

  handshake_from-Safe :
      (env : Env) (before : AppState V) (found : Option CacheEntry) (s : AppState V)
      (request : HandshakeRequest) (r : Readings)
      → Unharmed before (miss_state s) request.domain_url
      → Safe before request.domain_url (handshake_from env (found, s) request r)
  unfolding handshake_from handshake_hit
  handshake_from-Safe env before (some entry) s request r same = tt
  handshake_from-Safe env before none s request r same =
      handshake_miss-Safe before (miss_state s) _ request r same
        (fetch_and_compile-Fails _ _ env request r)

  -- A handshake that fails has the status 401, 500 or 502. Neither a failure nor a panic hands a
  -- statement to the database, or changes what is cached for another domain.
  pub handshake-Safe :
      (env : Env) (s : AppState V) (request : HandshakeRequest) (r : Readings)
      → Safe s request.domain_url (handshake env s request r)
  unfolding handshake note_request miss_state
  handshake-Safe env s request r =
      elim (Bool-cases (verify_handshake_nonce r.checked_at request.nonce request.timestamp)) [
        | inl accepted ↦ rw accepted (
            handshake_from-Safe env s (look_up s request.domain_url r.looked_up_at).0
              (look_up s request.domain_url r.looked_up_at).1 request r
              (look_up-Unharmed s request.domain_url r.looked_up_at))
        | inr refused ↦
            rw refused (unauthorized refl, record { same_db = refl; others = λ other apart. refl })
      ]
