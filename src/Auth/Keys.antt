-- ===== src/Auth/Keys.antt =====
-- The keys that `ApiKeyStore::from_env` of src/auth.rs loads.
use rfo_protocol.Base.{
  ℕ, ◌≡◌, refl, ap, ◌∙◌, Bool, true, false, Option, none, some, List, [], ◌∷◌, Text, codes,
  if◌then◌else◌, arith, Option-cases, inl, inr,
}
use rfo_protocol.Base.Keys.{text_eq, text_beq, lookup, lookup-insert}
use rfo_protocol.Base.Strings.{trim, split, split_once}
use rfo_protocol.Auth.{
  ApiKeyInfo, ApiKeyStore, new_store, add_key, env_permissions, load_entry, load_entries, from_env,
  validate, has_permission, holds,
}

-- What `name:key` says of a key: the name, where the key is this one.
abbrev pub names_key : Text → Option (Text × Text) → Option Text
names_key key none = none
names_key key (some (name, k)) = if text_beq k key then some name else none

-- The name that the last entry for the key gives it.
unfoldable pub last_name : Text → List Text → Option Text
last_name key [] = none
last_name key (entry ∷ entries) = elim (last_name key entries) [
  | some name ↦ some name
  | none ↦ names_key key (split_once 58 (trim entry))
]

abbrev pub info_of : ℕ → Option ApiKeyInfo → Option Text → Option ApiKeyInfo
info_of now old none = old
info_of now old (some name) =
    some (record { name = name; permissions = env_permissions; created_at = now })

add_parts :
    (store : ApiKeyStore) (now : ℕ) (key : Text) (parts : Option (Text × Text))
    → lookup key (elim parts as (λ p. ApiKeyStore) [
      | some p ↦ add_key store p.0 p.1 env_permissions now
      | none ↦ store
    ])
      ≡ info_of now (lookup key store) (names_key key parts)
unfolding add_key
add_parts store now key none = refl
add_parts store now key (some (name, k)) = rw (lookup-insert k key) (ground arith)

load_entries-lookup :
    (entries : List Text) (store : ApiKeyStore) (now : ℕ) (key : Text)
    → lookup key (load_entries store entries now)
      ≡ info_of now (lookup key store) (last_name key entries)
unfolding load_entries last_name load_entry
load_entries-lookup [] store now key = refl
load_entries-lookup (entry ∷ entries) store now key =
    load_entries-lookup entries (load_entry store entry now) now key
    ∙ elim (Option-cases (last_name key entries)) [
      | inl e ↦ rw e (add_parts store now key (split_once 58 (trim entry)))
      | inr (name, e) ↦ rw e
    ]

-- The keys in force are those of the variable's `name:key` entries: a key is known by the name that
-- its last entry gives, and no other key is.
pub from_env-validate :
    (variable key : Text) (now : ℕ)
    → validate (from_env (some variable) now) key
      ≡ info_of now none (last_name key (split 44 variable))
unfolding validate from_env new_store lookup
from_env-validate variable key now = load_entries-lookup (split 44 variable) new_store now key

from_info :
    (now : ℕ) (name : Option Text)
    → (elim (info_of now none name) as (λ i. Bool) [
      | some info ↦ holds info.permissions (codes "write")
      | none ↦ false
    ])
      ≡ (elim name as (λ n. Bool) [ some n ↦ true | none ↦ false ])
unfolding holds
from_info now none = refl
from_info now (some n) = refl

has_permission-known :
    (store : ApiKeyStore) (key permission : Text) (known : Option ApiKeyInfo)
    → validate store key ≡ known
    → has_permission store key permission
      ≡ (elim known as (λ i. Bool) [ some info ↦ holds info.permissions permission | none ↦ false ])
unfolding has_permission
has_permission-known store key permission known e =
    ap
      (λ (v : Option ApiKeyInfo). elim v as (λ i. Bool) [
        | some info ↦ holds info.permissions permission
        | none ↦ false
      ])
      e

-- Every key of the environment may write.
pub from_env-has_permission :
    (variable key : Text) (now : ℕ)
    → has_permission (from_env (some variable) now) key (codes "write")
      ≡ (elim (last_name key (split 44 variable)) as (λ n. Bool) [ some n ↦ true | none ↦ false ])
from_env-has_permission variable key now =
    has_permission-known (from_env (some variable) now) key (codes "write") _
      (from_env-validate variable key now)
    ∙ from_info now (last_name key (split 44 variable))
