-- ===== src/Tests/Access.antt =====
-- The keys and their middleware on small inputs.
use rfo_protocol.Base.{◌≡◌, refl, false, none, some, [], ◌∷◌, Text, codes}
use rfo_protocol.Base.Keys.{text_eq, lookup}
use rfo_protocol.Base.Strings.{trim, split, split_once}
use rfo_protocol.Auth.{
  ApiKeyStore, Request, passes, is_public, api_key_middleware, from_env, validate,
}
use rfo_protocol.Auth.Keys.{last_name, info_of, from_env-validate}

abbrev variable : Text
variable = codes "app:k1, ops:k:2,app2:k1"

from_env-validate_example :
    validate (from_env (some variable) 5) (codes "k1")
    ≡ info_of 5 none (last_name (codes "k1") (split 44 variable))
from_env-validate_example = from_env-validate variable (codes "k1") 5

last_name_run : last_name (codes "k1") (split 44 variable) ≡ some (codes "app2")
unfolding last_name split trim split_once
last_name_run = refl

abbrev store : ApiKeyStore
store = (codes "k1", record { name = codes "app"; permissions = []; created_at = 1 }) ∷ []

abbrev keyed : Request
keyed = record {
  path = codes "/rfo/handshake";
  is_safe = false;
  x_api_key = some (codes "k1");
  x_signature = none;
}

api_key_middleware_run : api_key_middleware store keyed ≡ passes
unfolding api_key_middleware is_public validate lookup
api_key_middleware_run = refl
