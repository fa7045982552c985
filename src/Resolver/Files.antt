-- ===== src/Resolver/Files.antt =====
-- `save_to_file` and `load_from_file` of src/opt_resolver.rs. The JSON library is a parameter. A write
-- gives the text that the file then holds, or fails with the message of the file system; a read has the
-- text of the file, or a message.
use rfo_protocol.Base.{ℕ, Option, none, some, Text, Bytes, Outcome, ok, err, ◌>>=◌, map_err}
use rfo_protocol.Base.Keys.{Assoc}
use rfo_protocol.Payloads.{Json}
use rfo_protocol.Resolver.{
  ResolverError, persist_error, load_error, ResolvedOpt, OptResolver, locked,
}

pub record OptRegistrySnapshot (C : Type 0) : Type 0 where
  pub entries : Assoc Text (ResolvedOpt C)
  pub created_at : ℕ

module _ {C : Type 0} (json : Json (OptRegistrySnapshot C)) where
  -- `std::fs::write`
  abbrev pub written : Option Text → Bytes → Outcome Text Bytes
  written none text = ok text
  written (some e) text = err e

  unfoldable pub save_to_file : Option Text → ℕ → OptResolver C → Outcome ResolverError Bytes
  save_to_file write_error now r = do
    reg ← locked r
    let snapshot : OptRegistrySnapshot C = record { entries = reg; created_at = now }
    text ← map_err persist_error (json.to_vec snapshot)
    map_err persist_error (written write_error text)

  unfoldable pub load_from_file : Outcome Text Bytes → Outcome ResolverError (OptResolver C)
  load_from_file file = do
    text ← map_err load_error file
    snapshot ← map_err load_error (json.from_slice text)
    ok (record { registry = snapshot.entries; poisoned = none })
