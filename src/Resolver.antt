-- ===== src/Resolver.antt =====
-- src/opt_resolver.rs: the registry of .opt domains. The resolver stores and clones a `CoreFile` and
-- does not look into it, so its type is a parameter. The clock, `Utc::now()`, is an argument.
-- A method takes the lock once and fails before its first write, so an error leaves the registry as
-- it was, and a result comes with the new resolver.
pub mod Refinement
pub mod Files
use rfo_protocol.Base.{
  ℕ, ◌+◌, ◌%◌, ◌^◌, Bool, not, true, false, Option, none, some, Text, codes, Outcome, ok, err,
  panicked, ◌>>=◌, ok_or, if◌then◌else◌, length, [], ◌++◌,
}
use rfo_protocol.Base.Keys.{Assoc, text_eq, lookup, insert, remove}
use rfo_protocol.Base.Strings.{trim, to_lowercase, ends_with}

pub data ResolverError : Type 0 where
  not_found already_registered invalid_domain persist_error load_error : Text → ResolverError

pub record ResolvedOpt (C : Type 0) : Type 0 where
  pub domain : Text
  pub core_file : C
  pub registered_at : ℕ
  pub last_resolved : ℕ
  pub resolve_count : ℕ

-- `poisoned` holds the message of a lock whose holder panicked.
pub record OptResolver (C : Type 0) : Type 0 where
  pub registry : Assoc Text (ResolvedOpt C)
  pub poisoned : Option Text

abbrev pub normalize : Text → Text
normalize domain = to_lowercase (trim domain)

abbrev pub is_opt_name : Text → Bool
is_opt_name domain = ends_with domain (codes ".opt")

module _ {C : Type 0} where
  -- `OptResolver::new`, `with_capacity`
  unfoldable pub new_resolver : OptResolver C
  new_resolver = record { registry = []; poisoned = none }

  -- `self.registry.write().map_err(…)`
  abbrev pub locked : OptResolver C → Outcome ResolverError (Assoc Text (ResolvedOpt C))
  locked r = elim r.poisoned [ none ↦ ok r.registry | some e ↦ err (persist_error e) ]

  fresh_entry : Text → C → ℕ → ResolvedOpt C
  fresh_entry domain core_file now = record {
    domain = domain;
    core_file = core_file;
    registered_at = now;
    last_resolved = now;
    resolve_count = 0;
  }

  unfoldable pub register : OptResolver C → Text → C → ℕ → Outcome ResolverError (OptResolver C)
  unfolding fresh_entry
  register r name core_file now =
      let domain = normalize name in
      if not (is_opt_name domain) then err (invalid_domain domain) else do
        reg ← locked r
        elim (lookup domain reg) [
          | some existing ↦ err (already_registered domain)
          | none ↦ ok (record r { registry = insert domain (fresh_entry domain core_file now) reg })
        ]

  unfoldable pub register_or_update :
      OptResolver C → Text → C → ℕ → Outcome ResolverError (OptResolver C)
  unfolding fresh_entry
  register_or_update r name core_file now =
      let domain = normalize name in
      if not (is_opt_name domain) then err (invalid_domain domain) else do
        reg ← locked r
        elim (lookup domain reg) [
          | some existing ↦ ok (record r {
            registry =
                insert domain (record existing { core_file = core_file; last_resolved = now }) reg;
          })
          | none ↦ ok (record r { registry = insert domain (fresh_entry domain core_file now) reg })
        ]

  -- `entry.last_resolved = Utc::now(); entry.resolve_count += 1`, on a u64 that wraps.
  unfoldable pub touch : ResolvedOpt C → ℕ → ResolvedOpt C
  touch entry now = record entry {
    last_resolved = now;
    resolve_count = (entry.resolve_count + 1) % 2 ^ 64;
  }

  unfoldable pub resolve_metadata :
      OptResolver C → Text → ℕ → Outcome ResolverError (ResolvedOpt C × OptResolver C)
  unfolding touch
  resolve_metadata r name now = do
    let domain = normalize name
    reg ← locked r
    entry ← ok_or (lookup domain reg) (not_found domain)
    let touched = touch entry now
    ok (touched, record r { registry = insert domain touched reg })

  unfoldable pub resolve : OptResolver C → Text → ℕ → Outcome ResolverError (C × OptResolver C)
  unfolding touch
  resolve r name now = do
    let domain = normalize name
    reg ← locked r
    entry ← ok_or (lookup domain reg) (not_found domain)
    let touched = touch entry now
    ok (touched.core_file, record r { registry = insert domain touched reg })

  unfoldable pub unregister : OptResolver C → Text → Outcome ResolverError (OptResolver C)
  unregister r name = do
    let domain = normalize name
    reg ← locked r
    entry ← ok_or (lookup domain reg) (not_found domain)
    ok (record r { registry = remove domain reg })

  -- `self.registry.read().unwrap()`
  abbrev pub read_unwrap : OptResolver C → Outcome ResolverError (Assoc Text (ResolvedOpt C))
  read_unwrap r = elim r.poisoned [ none ↦ ok r.registry | some e ↦ panicked ]

  unfoldable pub contains : OptResolver C → Text → Outcome ResolverError Bool
  contains r name = do
    let domain = normalize name
    reg ← read_unwrap r
    ok (elim (lookup domain reg) [ some entry ↦ true | none ↦ false ])

  unfoldable pub count : OptResolver C → Outcome ResolverError ℕ
  count r = do reg ← read_unwrap r; ok (length reg)

  unfoldable pub clone_registry : OptResolver C → Outcome ResolverError (Assoc Text (ResolvedOpt C))
  clone_registry r = read_unwrap r

-- `Display for ResolverError`
unfoldable pub display : ResolverError → Text
display (not_found d) = codes ".opt domain not found: " ++ d
display (already_registered d) = codes ".opt domain already registered: " ++ d
display (invalid_domain d) = codes "invalid .opt domain: " ++ d
display (persist_error e) = codes "failed to persist registry: " ++ e
display (load_error e) = codes "failed to load registry: " ++ e
