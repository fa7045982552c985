-- ===== src/Auth/Access.antt =====
-- Which requests the middleware of src/auth.rs lets pass.
use rfo_protocol.Base.{codes, ◌≡◌, ◌≢◌, ◌⊎◌, none, some, [], Text, if◌then◌else◌}
use rfo_protocol.Base.Strings.{is_empty, split}
use rfo_protocol.Auth.{ApiKeyInfo, ApiKeyStore, Request, Gate, passes, refused, validate}
use rfo_protocol.Auth.Keys.{last_name}

-- A request that carries a key of the store which is not empty.
pub record HasKey (store : ApiKeyStore) (request : Request) : Type 0 where
  pub key : Text
  pub sent : request.x_api_key ≡ some key
  pub filled : key ≢ []
  pub info : ApiKeyInfo
  pub known : validate store key ≡ some info

-- What the middleware does with a path that is not public.
private_gate : (store : ApiKeyStore) (key : Text) → Gate
private_gate store key =
    if is_empty key
    then refused 401
    else elim (validate store key) [ none ↦ refused 401 | some info ↦ passes ]

-- The four paths that need no key.
abbrev pub IsPublic : Text → Type 0
IsPublic path =
    (path ≡ codes "/rfo/health")
    ⊎ ((path ≡ codes "/rfo/capabilities")
        ⊎ ((path ≡ codes "/rfo/negotiate") ⊎ (path ≡ codes "/rfo/ws")))

-- A request that carries a key which is not empty and which an entry of the variable names.
pub record HasListedKey (variable : Text) (request : Request) : Type 0 where
  pub key : Text
  pub sent : request.x_api_key ≡ some key
  pub filled : key ≢ []
  pub name : Text
  pub listed : last_name key (split 44 variable) ≡ some name
