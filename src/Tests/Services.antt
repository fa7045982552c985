-- ===== src/Tests/Services.antt =====
-- The resolver, the cache and the native transport on small inputs.
use rfo_protocol.Base.{
  ℕ, ◌≡◌, refl, none, some, List, [], ◌∷◌, ◌++◌, Bytes, AreBytes, Text, codes, ok, arith, Outcome,
}
use rfo_protocol.Base.Int.{pos}
use rfo_protocol.Base.Keys.{Assoc, text_eq, lookup, insert}
use rfo_protocol.Base.Strings.{trim, to_lowercase}
use rfo_protocol.Payloads.{CacheEntry, Json}
use rfo_protocol.Binary.Header.{
  BinaryError, known_type, max_payload_size, type_resolve_opt, type_mdoc,
}
use rfo_protocol.Binary.Codec.{frame_bytes}
use rfo_protocol.Binary.Codec.RoundTrip.{Written}
use rfo_protocol.Resolver.{OptResolver, ResolvedOpt, new_resolver, touch, normalize}
use rfo_protocol.Resolver.Files.{OptRegistrySnapshot, save_to_file, load_from_file}
use rfo_protocol.Resolver.Refinement.{
  Call, registers, resolves, unregisters, replies, spec_replies, replies-spec,
}
use rfo_protocol.Base.Keys
use rfo_protocol.Cache
use rfo_protocol.Cache.{with_ttl, look, is_fresh, cleanup_expired}
use rfo_protocol.Cache.Expiry.{fresh_only}
use rfo_protocol.Cache.Steps.{
  Op, puts, looks, drops, cleans, Running, drop_waiting, apply, answers, spec_answers, InOrder,
}
use rfo_protocol.Cache.Races.{AllAtMost, answers-AllAtMost}
use rfo_protocol.Cache.Refinement.{Calm, answers-spec}
use rfo_protocol.Transport.Frames.{Stream, read_frame}
use rfo_protocol.Transport.Frames.Reading.{read_frame-frame_bytes}
use rfo_protocol.Transport.Server.{Env, continues, serve_frame, handle_connection}
use rfo_protocol.Transport.Server.Termination.{handle_connection-returns}
use rfo_protocol.Transport.Client.{resolve_opt}
use rfo_protocol.Transport.Client.Session.{Requested, resolve_opt-served}

abbrev history : List (ℕ × Call Text)
history =
    (1, registers (codes " A.opt") (codes "a"))
    ∷ (2, resolves (codes "a.OPT"))
    ∷ (3, unregisters (codes "a.opt"))
    ∷ []

replies-spec_example : replies new_resolver history ≡ spec_replies (λ d. none) history
replies-spec_example = replies-spec history

abbrev entry : CacheEntry
entry = record {
  header = record { site_id = codes "s"; coordinates = []; quality_score = 7 };
  doc = record { raw_markdown = []; data_tables = []; verification_signature = [] };
  mdoc = record { summary = []; token_count = 0; qa_pairs = [] };
  cached_at = 1_000_000_000;
}

abbrev later_entry : CacheEntry
later_entry = record entry { cached_at = 9_000_000_000 }

abbrev empty_cache : Running
empty_cache = record { cache = with_ttl (pos 5); waiting = [] }

-- The entry is dropped after the cleanup that could not see it, and written again.
abbrev cache_calls : List (ℕ × Op)
cache_calls =
    (1_000_000_000, puts (codes "a") entry)
    ∷ (2_000_000_000, looks (codes "a"))
    ∷ (9_000_000_000, looks (codes "a"))
    ∷ (9_000_000_000, drops 0)
    ∷ (9_000_000_000, cleans)
    ∷ (9_000_000_000, puts (codes "a") later_entry)
    ∷ (9_000_000_000, looks (codes "a"))
    ∷ []

cache_calls-InOrder : InOrder 0 cache_calls
cache_calls-InOrder = (
  omega arith,
  (omega arith, (omega arith, (omega arith, (omega arith, (omega arith, (omega arith, tt)))))),
)

cache_calls-Calm : Calm empty_cache cache_calls
unfolding apply look drop_waiting Cache.insert lookup is_fresh with_ttl Cache.remove cleanup_expired
    insert
cache_calls-Calm = (tt, (tt, (tt, (tt, (tt, (tt, (tt, tt)))))))

answers-spec_example :
    answers empty_cache cache_calls ≡ spec_answers (pos 5) (λ key. none) cache_calls
answers-spec_example = answers-spec (pos 5) cache_calls cache_calls-InOrder cache_calls-Calm

-- The write comes between the read that finds the entry expired and its removal, which takes the new one.
abbrev racing : List (ℕ × Op)
racing =
    (1_000_000_000, puts (codes "a") entry)
    ∷ (9_000_000_000, looks (codes "a"))
    ∷ (9_000_000_000, puts (codes "a") later_entry)
    ∷ (9_000_000_000, drops 0)
    ∷ (9_000_000_000, looks (codes "a"))
    ∷ []

racing-InOrder : InOrder 0 racing
racing-InOrder = (omega arith, (omega arith, (omega arith, (omega arith, (omega arith, tt)))))

answers-AllAtMost_example :
    AllAtMost (answers empty_cache racing) (spec_answers (pos 5) (λ key. none) racing)
answers-AllAtMost_example = answers-AllAtMost (pos 5) racing racing-InOrder

racing-lost : answers empty_cache racing ≡ none ∷ none ∷ none ∷ none ∷ none ∷ []
unfolding answers apply look drop_waiting Cache.insert lookup is_fresh with_ttl Cache.remove insert
    Keys.remove
racing-lost = refl

racing_spec :
    spec_answers (pos 5) (λ key. none) racing ≡ none ∷ none ∷ none ∷ none ∷ some later_entry ∷ []
unfolding spec_answers fresh_only is_fresh
racing_spec = refl

-- A JSON library whose values are the text of the first field.
abbrev as_is : Json Text
as_is = record { to_vec = λ t. ok t; from_slice = λ b. ok b }

abbrev first_field : Assoc Text Text → Text
first_field [] = []
first_field ((k, v) ∷ fields) = v

abbrev env : Env Text Text
env = record {
  request = as_is;
  core_file = as_is;
  value = as_is;
  object = first_field;
  to_rfc3339 = λ n. [];
  from_utf8_lossy = λ b. b;
}

abbrev quiet : Stream
quiet = record { incoming = []; outgoing = []; read_error = codes "eof"; write_error = none }

abbrev name : Text
name = codes "a.opt"

abbrev file : Bytes
file = 104 ∷ 105 ∷ []

abbrev resolved : ResolvedOpt Text
resolved = record {
  domain = name;
  core_file = file;
  registered_at = 1;
  last_resolved = 1;
  resolve_count = 0;
}

abbrev resolver : OptResolver Text
resolver = record { registry = (name, resolved) ∷ []; poisoned = none }

name-normal : normalize name ≡ name
unfolding trim to_lowercase
name-normal = refl

name-AreBytes : AreBytes name
name-AreBytes = (omega arith, (omega arith, (omega arith, (omega arith, (omega arith, tt)))))

name-Requested : Requested env name name
name-Requested = record { wrote = refl; reads = refl; bytes = name-AreBytes; fits = omega arith }

file-Written : Written env.core_file resolved.core_file file
file-Written = record {
  wrote = refl;
  reads = refl;
  bytes = (omega arith, (omega arith, tt));
  fits = omega arith;
}

found : lookup (normalize name) resolver.registry ≡ some resolved
unfolding lookup
found = rw name-normal

resolve_opt-served_example :
    let request = frame_bytes type_resolve_opt name in
    let heard = record quiet { incoming = request; outgoing = [] } in
    let (turn, served, registry) = serve_frame env max_payload_size 9 heard resolver in
    (turn ≡ continues)
    × (registry ≡ record resolver {
      registry = insert (normalize name) (touch resolved 9) resolver.registry;
    })
    × (resolve_opt env name (record quiet { incoming = served.outgoing })
        ≡ (ok file, record quiet { incoming = []; outgoing = [] ++ request }))
resolve_opt-served_example =
    resolve_opt-served env name name file resolved resolver 9 quiet quiet refl found name-Requested
      file-Written refl refl

abbrev garbage : Stream
garbage = record quiet { incoming = codes "GET / HTTP/1.1" }

handle_connection-returns_example :
    (out : Outcome BinaryError (Unit {0}) × Stream × OptResolver Text) × (handle_connection env 15
        max_payload_size
        (λ n. n)
        garbage
        resolver
      ≡ some out)
handle_connection-returns_example =
    handle_connection-returns env 15 max_payload_size (λ n. n) garbage resolver (omega arith)

read_frame-frame_bytes_example :
    read_frame 100 (record quiet { incoming = frame_bytes type_mdoc file ++ (1 ∷ []) })
    ≡ (ok (record { payload_type = type_mdoc; payload = file }), record quiet { incoming = 1 ∷ [] })
read_frame-frame_bytes_example =
    read_frame-frame_bytes type_mdoc 100 file (1 ∷ []) quiet (unfold known_type in refl)
      (omega arith) (omega arith) (omega arith, (omega arith, tt))

-- A JSON library that knows one registry.
abbrev snapshot_json : Json (OptRegistrySnapshot Text)
snapshot_json = record {
  to_vec = λ s. ok (codes "{}");
  from_slice = λ b. ok (record { entries = resolver.registry; created_at = 4 });
}

snapshot-saved : save_to_file snapshot_json none 4 resolver ≡ ok (codes "{}")
unfolding save_to_file
snapshot-saved = refl

snapshot-loaded : load_from_file snapshot_json (ok (codes "{}")) ≡ ok resolver
unfolding load_from_file
snapshot-loaded = refl
