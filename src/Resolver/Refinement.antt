-- ===== src/Resolver/Refinement.antt =====
-- The registry of src/opt_resolver.rs refines a partial function from names to core files.
use rfo_protocol.Base.{
  ℕ, ◌≡◌, refl, ap, ap₂, ◌∙◌, not, Option, none, some, List, [], ◌∷◌, Text, Outcome, ok, err,
  panicked, arith, if◌then◌else◌, Option-cases, Bool-cases, inl, inr,
}
use rfo_protocol.Base.Keys.{
  Assoc, text_eq, text_beq, text_beq_iff, lookup, insert, remove, lookup-insert, lookup-remove,
}
use rfo_protocol.Base.Strings.{to_lowercase}
use rfo_protocol.Resolver.{
  ResolverError, already_registered, invalid_domain, not_found, ResolvedOpt, OptResolver, normalize,
  is_opt_name, new_resolver, fresh_entry, touch, register, register_or_update, resolve, unregister,
}

pub data Call (C : Type 0) : Type 0 where
  registers updates : Text → C → Call C
  resolves unregisters : Text → Call C

abbrev pub Reply : Type 0 → Type 0
Reply C = Outcome ResolverError (Option C)

-- The specification's state: which file each normalized name has.
abbrev pub Names : Type 0 → Type 0
Names C = Text → Option C

module _ {C : Type 0} where
  -- A call that fails leaves the resolver as it was.
  abbrev pub settle :
      OptResolver C → Outcome ResolverError (OptResolver C) → Reply C × OptResolver C
  settle r (ok r') = (ok none, r')
  settle r (err e) = (err e, r)
  settle r panicked = (panicked, r)

  abbrev pub answer :
      OptResolver C → Outcome ResolverError (C × OptResolver C) → Reply C × OptResolver C
  answer r (ok (c, r')) = (ok (some c), r')
  answer r (err e) = (err e, r)
  answer r panicked = (panicked, r)

  pub call : OptResolver C → ℕ → Call C → Reply C × OptResolver C
  call r now (registers name file) = settle r (register r name file now)
  call r now (updates name file) = settle r (register_or_update r name file now)
  call r now (resolves name) = answer r (resolve r name now)
  call r now (unregisters name) = settle r (unregister r name)

  -- The replies to a history of calls, each with its time.
  pub replies : OptResolver C → List (ℕ × Call C) → List (Reply C)
  replies r [] = []
  replies r ((now, c) ∷ cs) = let (reply, r') = call r now c in reply ∷ replies r' cs

  abbrev pub update : Names C → Text → Option C → Names C
  update m name v j = if text_beq name j then v else m j

  abbrev pub spec_call : Names C → Call C → Reply C × Names C
  spec_call m (registers name file) =
      let d = normalize name in
      if not (is_opt_name d) then (err (invalid_domain d), m) else elim (m d) [
        | some old ↦ (err (already_registered d), m)
        | none ↦ (ok none, update m d (some file))
      ]
  spec_call m (updates name file) =
      let d = normalize name in
      if not (is_opt_name d) then (err (invalid_domain d), m) else (ok none, update m d (some file))
  spec_call m (resolves name) =
      let d = normalize name in
      elim (m d) [ some file ↦ (ok (some file), m) | none ↦ (err (not_found d), m) ]
  spec_call m (unregisters name) =
      let d = normalize name in
      elim (m d) [ some file ↦ (ok none, update m d none) | none ↦ (err (not_found d), m) ]

  pub spec_replies : Names C → List (ℕ × Call C) → List (Reply C)
  spec_replies m [] = []
  spec_replies m ((now, c) ∷ cs) = let (reply, m') = spec_call m c in reply ∷ spec_replies m' cs

  abbrev file_of : Option (ResolvedOpt C) → Option C
  file_of none = none
  file_of (some entry) = some entry.core_file

  -- A resolver whose lock no panic has poisoned.
  abbrev pub live : Assoc Text (ResolvedOpt C) → OptResolver C
  live reg = record { registry = reg; poisoned = none }

  record Agrees (reg : Assoc Text (ResolvedOpt C)) (m : Names C) : Type 0 where
    files : (d : Text) → file_of (lookup d reg) ≡ m d

  abbrev Stays : Reply C × OptResolver C → Reply C × Names C → Type 0
  Stays s t = (s.0 ≡ t.0) × (reg : Assoc Text (ResolvedOpt C)) × (s.1 ≡ live reg) × Agrees reg t.1

  module _ (reg : Assoc Text (ResolvedOpt C)) (m : Names C) (d : Text) (a : Agrees reg m) where
    -- What a write of one name does to the agreement.
    Agrees-insert :
        (entry : ResolvedOpt C) → Agrees (insert d entry reg) (update m d (some entry.core_file))
    Agrees-insert entry = record {
      files = λ j. ground (arith, lookup-insert d j entry reg, a.files j);
    }

    Agrees-remove : Agrees (remove d reg) (update m d none)
    Agrees-remove = record { files = λ j. ground (arith, lookup-remove d j reg, a.files j) }

    -- A write that leaves the file as it is.
    Agrees-touch :
        (entry : ResolvedOpt C) → m d ≡ some entry.core_file → Agrees (insert d entry reg) m
    Agrees-touch entry e = record {
      files = λ j.
          ground
            (arith, lookup-insert d j entry reg, a.files j, text_beq_iff d j, ap m {x = d} {y = j});
    }

    absent : lookup d reg ≡ none → m d ≡ none
    absent e = ground (arith, a.files d)

    present : (entry : ResolvedOpt C) → lookup d reg ≡ some entry → m d ≡ some entry.core_file
    present entry e = ground (arith, a.files d)

  module _ (reg : Assoc Text (ResolvedOpt C)) (m : Names C) (now : ℕ) (name : Text)
      (a : Agrees reg m) where
    resolves_refines : Stays (call (live reg) now (resolves name)) (spec_call m (resolves name))
    unfolding call resolve touch
    resolves_refines = elim (Option-cases (lookup (normalize name) reg)) [
      | inl e ↦ rw (e, absent reg m _ a e, spec_call) (refl, reg, refl, a)
      | inr (entry, e) ↦
          let md = present reg m _ a entry e in
          rw (e, md, spec_call)
            (
              refl,
              insert (normalize name) (touch entry now) reg,
              refl,
              Agrees-touch reg m _ a (touch entry now) md,
            )
    ]

    unregisters_refines :
        Stays (call (live reg) now (unregisters name)) (spec_call m (unregisters name))
    unfolding call unregister
    unregisters_refines = elim (Option-cases (lookup (normalize name) reg)) [
      | inl e ↦ rw (e, absent reg m _ a e, spec_call) (refl, reg, refl, a)
      | inr (entry, e) ↦
          rw (e, present reg m _ a entry e, spec_call)
            (refl, remove (normalize name) reg, refl, Agrees-remove reg m _ a)
    ]

    registers_refines :
        (file : C)
        → Stays (call (live reg) now (registers name file)) (spec_call m (registers name file))
    unfolding call register lookup to_lowercase
    registers_refines file = elim (Bool-cases (is_opt_name (normalize name))) [
      | inr bad ↦ rw (bad, spec_call) (refl, reg, refl, a)
      | inl good ↦ elim (Option-cases (lookup (normalize name) reg)) [
        | inl e ↦
            let entry = fresh_entry (normalize name) file now in
            rw (good, e, absent reg m _ a e, spec_call)
              (refl, insert (normalize name) entry reg, refl, Agrees-insert reg m _ a entry)
        | inr (entry, e) ↦ rw (good, e, present reg m _ a entry e, spec_call) (refl, reg, refl, a)
      ]
    ]

    updates_refines :
        (file : C)
        → Stays (call (live reg) now (updates name file)) (spec_call m (updates name file))
    unfolding call register_or_update lookup to_lowercase
    updates_refines file = elim (Bool-cases (is_opt_name (normalize name))) [
      | inr bad ↦ rw (bad, spec_call) (refl, reg, refl, a)
      | inl good ↦ elim (Option-cases (lookup (normalize name) reg)) [
        | inl e ↦
            let entry = fresh_entry (normalize name) file now in
            rw (good, e, spec_call)
              (refl, insert (normalize name) entry reg, refl, Agrees-insert reg m _ a entry)
        | inr (entry, e) ↦
            let entry' = record entry { core_file = file; last_resolved = now } in
            rw (good, e, spec_call)
              (refl, insert (normalize name) entry' reg, refl, Agrees-insert reg m _ a entry')
      ]
    ]

  call_refines :
      (reg : Assoc Text (ResolvedOpt C)) (m : Names C) (now : ℕ) (c : Call C)
      → Agrees reg m
      → Stays (call (live reg) now c) (spec_call m c)
  call_refines reg m now (registers name file) a = registers_refines reg m now name a file
  call_refines reg m now (updates name file) a = updates_refines reg m now name a file
  call_refines reg m now (resolves name) a = resolves_refines reg m now name a
  call_refines reg m now (unregisters name) a = unregisters_refines reg m now name a

  replies_refine :
      (reg : Assoc Text (ResolvedOpt C)) (m : Names C) (cs : List (ℕ × Call C))
      → Agrees reg m
      → replies (live reg) cs ≡ spec_replies m cs
  unfolding replies spec_replies
  replies_refine reg m [] a = refl
  replies_refine reg m ((now, c) ∷ cs) a =
      let (same, reg', e, a') = call_refines reg m now c a in
      ap₂ (λ x xs. x ∷ xs) same
        (ap (λ r. replies r cs) e ∙ replies_refine reg' (spec_call m c).1 cs a')

-- Over any history of calls, from an empty registry, the resolver gives the replies of the partial
-- function: a name can be registered once, and resolves to the file written last under any
-- spelling with the same normal form, until it is unregistered.
pub replies-spec :
    {C : Type 0} (history : List (ℕ × Call C))
    → replies new_resolver history ≡ spec_replies (λ d. none) history
unfolding new_resolver
replies-spec history =
    replies_refine [] (λ d. none) history (record { files = λ d. unfold lookup in refl })
