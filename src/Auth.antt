-- ===== src/Auth.antt =====
-- src/auth.rs: the API keys and the middleware that asks for them. `next.run(request)` is the
-- response of the rest of the program, so a middleware says whether the request passes on to it or
-- which status it gets. `RFO_API_KEYS` and `RFO_SECRET_KEY` are arguments, `none` where not set.
pub mod Keys
pub mod Access
use rfo_protocol.Base.{
  ℕ, Bool, true, false, not, ◌||◌, Option, none, some, List, [], ◌∷◌, Bytes, Text, codes, ◌==◌,
  if◌then◌else◌, length,
}
use rfo_protocol.Base.Keys.{Assoc, text_beq, text_eq, lookup, insert}
use rfo_protocol.Base.Strings.{as_bytes, is_empty, trim, split, split_once}

pub record ApiKeyInfo : Type 0 where
  pub name : Text
  pub permissions : List Text
  pub created_at : ℕ

-- `ApiKeyStore`: keys to what is known of them.
abbrev pub ApiKeyStore : Type 0
ApiKeyStore = Assoc Text ApiKeyInfo

unfoldable pub new_store : ApiKeyStore
new_store = []

unfoldable pub add_key : ApiKeyStore → Text → Text → List Text → ℕ → ApiKeyStore
add_key store name key permissions now =
    insert key (record { name = name; permissions = permissions; created_at = now }) store

abbrev pub env_permissions : List Text
env_permissions = codes "read" ∷ codes "write" ∷ []

-- The body of the loop of `from_env`; `,` is 44 and `:` is 58.
unfoldable pub load_entry : ApiKeyStore → Text → ℕ → ApiKeyStore
unfolding add_key
load_entry store entry now = elim (split_once 58 (trim entry)) [
  | some parts ↦ add_key store parts.0 parts.1 env_permissions now
  | none ↦ store
]

unfoldable pub load_entries : ApiKeyStore → List Text → ℕ → ApiKeyStore
load_entries store [] now = store
load_entries store (entry ∷ entries) now = load_entries (load_entry store entry now) entries now

unfoldable pub from_env : Option Text → ℕ → ApiKeyStore
from_env none now = new_store
from_env (some keys) now = load_entries new_store (split 44 keys) now

unfoldable pub validate : ApiKeyStore → Text → Option ApiKeyInfo
validate store key = lookup key store

-- `permissions.contains(permission)`
unfoldable pub holds : List Text → Text → Bool
holds [] permission = false
holds (p ∷ ps) permission = text_beq p permission || holds ps permission

unfoldable pub has_permission : ApiKeyStore → Text → Text → Bool
has_permission store key permission = elim (validate store key) [
  | some info ↦ holds info.permissions permission
  | none ↦ false
]

pub record Request : Type 0 where
  pub path : Text
  -- `method().is_safe()` of the http crate
  pub is_safe : Bool
  -- the headers as text, where they are there and are text
  pub x_api_key : Option Text
  pub x_signature : Option Text

pub data Gate : Type 0 where
  passes : Gate
  refused : ℕ → Gate

unfoldable pub is_public : Text → Bool
is_public path =
    text_beq path (codes "/rfo/health")
    || text_beq path (codes "/rfo/capabilities")
    || text_beq path (codes "/rfo/negotiate")
    || text_beq path (codes "/rfo/ws")

-- `.unwrap_or("")`
abbrev pub unwrap_or_empty : Option Text → Text
unwrap_or_empty none = []
unwrap_or_empty (some t) = t

unfoldable pub api_key_middleware : ApiKeyStore → Request → Gate
api_key_middleware store request =
    let api_key = unwrap_or_empty request.x_api_key in
    if is_public request.path
    then passes
    else if is_empty api_key
    then refused 401
    else elim (validate store api_key) [ none ↦ refused 401 | some info ↦ passes ]

unfoldable pub require_write_permission : ApiKeyStore → Request → Gate
require_write_permission store request =
    let api_key = unwrap_or_empty request.x_api_key in
    if request.is_safe
    then passes
    else if not (has_permission store api_key (codes "write"))
    then refused 403
    else passes

-- `sig.len()` counts bytes, which are the code points of a header that is text.
abbrev pub check_format : Option Text → Gate
check_format none = passes
check_format (some sig) = if not (length sig == 64) then refused 401 else passes

unfoldable pub request_signature_middleware : Option Text → Request → Gate
request_signature_middleware none request = passes
request_signature_middleware (some secret) request =
    if is_empty secret
    then passes
    else if request.is_safe
    then passes
    else check_format request.x_signature

-- The signature of a body; HMAC-SHA256 and `hex::encode` are parameters.
module _ (hmac_sha256 : Bytes → Bytes → Bytes) (hex_encode : Bytes → Text) where
  unfoldable pub sign_request : Bytes → Text → Text
  sign_request body secret = hex_encode (hmac_sha256 (as_bytes secret) body)

  unfoldable pub verify_request_signature : Bytes → Text → Text → Bool
  verify_request_signature body signature secret =
      text_beq (hex_encode (hmac_sha256 (as_bytes secret) body)) signature
