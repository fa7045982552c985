-- ===== src/Tests/Retries.antt =====
-- Runs of src/client.rs: two attempts that fail and one that is answered.
use rfo_protocol.Base.{
  ℕ, ◌≡◌, refl, ◌*◌, ◌==◌, true, false, [], ◌∷◌, some, Text, codes, ok, err, if◌then◌else◌, arith,
}
use rfo_protocol.Client.{
  WebResponse, WebError, Answer, responded, failed, default_config, execute_with_retry,
  retry_exhausted, attempts_from, transient, returned,
}
use rfo_protocol.Client.Retries.{IsRetried, execute_with_retry-IsRetried}

abbrev doubled : ℕ → ℕ → ℕ
doubled d factor = d * factor

abbrev busy : ℕ → WebResponse
busy status = record { status = status; body = some (codes "busy") }

abbrev refused : WebError
refused = record {
  is_timeout = false;
  is_connect = true;
  is_request = false;
  text = codes "refused";
}

abbrev web : ℕ → Answer
web attempt =
    if attempt == 1
    then failed refused
    else if attempt == 2
    then responded (busy 503)
    else responded (busy 200)

abbrev no_status : ℕ → Text
no_status n = []

execute_with_retry-IsRetried_example :
    IsRetried 5000000000 3 1 web (execute_with_retry doubled no_status (default_config 2) web)
execute_with_retry-IsRetried_example =
    execute_with_retry-IsRetried doubled no_status (default_config 2) web (omega arith)

retried_run :
    execute_with_retry doubled no_status (default_config 2) web
    ≡ record { outcome = ok (busy 200); sleeps = 200000000 ∷ 400000000 ∷ [] }
unfolding execute_with_retry attempts_from transient returned
retried_run = refl

-- The last answer is returned as it is, also where it is an error of the server.
last_answer :
    execute_with_retry doubled no_status (default_config 2) (λ n. responded (busy 503))
    ≡ record { outcome = ok (busy 503); sleeps = 200000000 ∷ 400000000 ∷ [] }
unfolding execute_with_retry attempts_from transient returned
last_answer = refl

no_attempts :
    execute_with_retry doubled no_status (record (default_config 2) { max_attempts = 0 }) web
    ≡ record { outcome = err (retry_exhausted 0 []); sleeps = [] }
unfolding execute_with_retry attempts_from
no_attempts = refl
