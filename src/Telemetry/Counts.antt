-- ===== src/Telemetry/Counts.antt =====
-- The handshake counts and recent requests of src/telemetry.rs after a run of calls.
use rfo_protocol.Base.{
  ℕ, ◌+◌, ◌%◌, ◌^◌, ◌≤◌, ◌<◌, ◌≡◌, refl, sym, ap, ◌∙◌, Bool, true, false, List, [], ◌∷◌, Text,
  arith, length, get_elem?, if◌then◌else◌,
}
use rfo_protocol.Base.Keys.{text_eq, nat_eq, text_beq, text_beq_iff, lookup, lookup-insert}
use rfo_protocol.Ring.{new_ring, store_all}
use rfo_protocol.Ring.Latest.{requests-Spaced, store_all-latest}
use rfo_protocol.Telemetry.{
  TelemetryTracker, RequestTelemetry, new_tracker, fetch_add, count_of, record_handshake,
  record_request,
}

unfoldable pub record_handshakes : TelemetryTracker → List Text → TelemetryTracker
record_handshakes t [] = t
record_handshakes t (site ∷ sites) = record_handshakes (record_handshake t site) sites

unfoldable pub occurrences : Text → List Text → ℕ
occurrences site [] = 0
occurrences site (s ∷ sites) =
    let rest = occurrences site sites in if text_beq s site then 1 + rest else rest

record_handshake-count :
    (t : TelemetryTracker) (s site : Text)
    → count_of (lookup site (record_handshake t s).handshake_counts) ≡ (
        if text_beq s site
        then fetch_add (count_of (lookup site t.handshake_counts)) 1
        else count_of (lookup site t.handshake_counts))
unfolding record_handshake
record_handshake-count t s site = rw (lookup-insert s site) (ground (arith, text_beq_iff s site))

one_more :
    (b : Bool) (n k : ℕ)
    → ((if b then fetch_add n 1 else n) + k) % 2 ^ 64 ≡ (n + (if b then 1 + k else k)) % 2 ^ 64
one_more true n k = omega arith
one_more false n k = refl

-- After any run of handshakes a site's count has grown by its share of them, modulo 2^64.
pub record_handshakes-count :
    (sites : List Text) (t : TelemetryTracker) (site : Text)
    → count_of (lookup site (record_handshakes t sites).handshake_counts) % 2 ^ 64
      ≡ (count_of (lookup site t.handshake_counts) + occurrences site sites) % 2 ^ 64
unfolding record_handshakes occurrences
record_handshakes-count [] t site = ap (λ (n : ℕ). n % 2 ^ 64) (omega arith)
record_handshakes-count (s ∷ sites) t site =
    record_handshakes-count sites (record_handshake t s) site
    ∙ rw (record_handshake-count t s site) (
        one_more (text_beq s site) (count_of (lookup site t.handshake_counts))
          (occurrences site sites))

unfoldable pub record_requests : TelemetryTracker → List RequestTelemetry → TelemetryTracker
record_requests t [] = t
record_requests t (r ∷ rs) = record_requests (record_request t r) rs

record_requests-store_all :
    (rs : List RequestTelemetry) (t : TelemetryTracker)
    → (record_requests t rs).recent_requests ≡ store_all 100 t.recent_requests rs
unfolding record_requests store_all record_request
record_requests-store_all [] t = refl
record_requests-store_all (r ∷ rs) t = record_requests-store_all rs (record_request t r)

-- Each of the last hundred requests of fewer than 2^64 is in the ring buffer, in the slot of its
-- number modulo 100.
pub record_requests-latest :
    (rs : List RequestTelemetry) (now i : ℕ)
    → i < length rs
    → length rs ≤ i + 100
    → length rs < 2 ^ 64
    → lookup (i % 100) (record_requests (new_tracker now) rs).recent_requests.slots ≡ get_elem? rs i
unfolding new_tracker new_ring
record_requests-latest rs now i inside near small =
    let slot : 0 + i ≡ i = omega arith in
    rw (record_requests-store_all rs (new_tracker now)) (
      ap (λ (k : ℕ). lookup (k % 100) (store_all 100 new_ring rs).slots) (sym slot)
      ∙ store_all-latest 100 requests-Spaced i new_ring rs inside near (omega arith))
