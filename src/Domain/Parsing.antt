-- ===== src/Domain/Parsing.antt =====
-- What `RfoDomain::parse` of src/domain.rs makes of a domain.
use rfo_protocol.Base.{
  Bool, false, All, ◌-◌, ◌≡◌, ◌⊎◌, if◌then◌else◌, refl, sym, ap, subst, ◌∙◌, true, Option, none,
  some, List, [], ◌∷◌, ◌++◌, append_assoc, Text, codes, Outcome, ok, err, panicked, length, take,
  drop, arith, Bool-cases, inl, inr, take-append-drop,
}
use rfo_protocol.Base.Keys.{text_beq_iff}
use rfo_protocol.Base.Strings.{is_empty, trim, to_lowercase, ends_with, split}
use rfo_protocol.Domain.{
  Tld, opt, standard, DomainError, empty, invalid_format, RfoDomain, join, last, but_last,
  parse_opt, parse_standard, parse,
}
use rfo_protocol.Domain.Labels.{
  IsLabel, split-first, split-IsLabel, last-All, but_last-All, join-split, join-last,
}

-- What holds of the error where parsing refuses, and of the domain where it accepts; it never panics.
abbrev pub Settles :
    Outcome DomainError RfoDomain → (DomainError → Type 0) → (RfoDomain → Type 0) → Type 0
Settles (ok d) E P = P d
Settles (err e) E P = E e
Settles panicked E P = ⊥

-- The subdomain and its dot.
abbrev pub prefix : Option Text → Text
prefix none = []
prefix (some subdomain) = subdomain ++ (46 ∷ [])

abbrev pub is_there : Option Text → Bool
is_there none = false
is_there (some t) = true

-- The parts of a domain put together again; a standard domain's suffix is a label.
abbrev pub Assembled : RfoDomain → Tld → Type 0
Assembled d opt = d.full ≡ prefix d.subdomain ++ (d.name ++ codes ".opt")
Assembled d standard =
    (suffix : Text) × IsLabel suffix × (d.full ≡ prefix d.subdomain ++ (d.name ++ (46 ∷ suffix)))

-- The parts of the two branches of `parse`.
abbrev OptParts : Text → List Text → RfoDomain → Type 0
OptParts full parts d =
    (d.tld ≡ opt)
    × (d.full ≡ full)
    × IsLabel d.name
    × (d.is_subdomain ≡ is_there d.subdomain)
    × (prefix d.subdomain ++ d.name ≡ join parts)

parse_opt-parts :
    (full part : Text) (parts : List Text)
    → All IsLabel (part ∷ parts)
    → Settles (parse_opt full (part ∷ parts)) (λ e. ⊥) (OptParts full (part ∷ parts))
unfolding parse_opt join
parse_opt-parts full part [] h = (refl, refl, h.0, refl, refl)
parse_opt-parts full part (next ∷ parts) h = (
  refl,
  refl,
  last-All IsLabel part (next ∷ parts) h,
  refl,
  append_assoc (join (but_last part (next ∷ parts))) (46 ∷ []) (last part (next ∷ parts))
      ∙ sym (join-last part next parts),
)

abbrev StandardParts : Text → List Text → RfoDomain → Type 0
StandardParts full parts d =
    (d.tld ≡ standard)
    × (d.full ≡ full)
    × IsLabel d.name
    × (d.is_subdomain ≡ is_there d.subdomain)
    × ((suffix : Text) × IsLabel suffix
        × (prefix d.subdomain ++ (d.name ++ (46 ∷ suffix)) ≡ join parts))

parse_standard-parts :
    (full : Text) (parts : List Text)
    → All IsLabel parts
    → Settles
        (parse_standard full parts)
        (λ e. (e ≡ invalid_format) × IsLabel (join parts))
        (StandardParts full parts)
unfolding parse_standard join but_last last
parse_standard-parts full [] h = (refl, tt)
parse_standard-parts full (part ∷ []) h = (refl, h.0)
parse_standard-parts full (name ∷ suffix ∷ []) h = (refl, refl, h.0, refl, (suffix, h.1.0, refl))
parse_standard-parts full (first ∷ second ∷ third ∷ parts) h =
    let rest = but_last third parts in
    let before = join (but_last first (second ∷ rest)) in
    let name = last second rest in
    let suffix = last third parts in
    (
      refl,
      refl,
      last-All IsLabel second rest (h.1.0, but_last-All IsLabel third parts h.1.1),
      refl,
      (
        suffix,
        last-All IsLabel third parts h.1.1,
        append_assoc before (46 ∷ []) (name ++ (46 ∷ suffix))
            ∙ sym (append_assoc before (46 ∷ name) (46 ∷ suffix))
            ∙ ap (λ r. r ++ (46 ∷ suffix)) (sym (join-last first second rest))
            ∙ sym (join-last first second (third ∷ parts)),
      ),
    )

ends_with-append :
    (s suffix : Text) → ends_with s suffix ≡ true → take (length s - length suffix) s ++ suffix ≡ s
unfolding ends_with
ends_with-append s suffix e =
    let n = length s - length suffix in
    let same : drop n s ≡ suffix = (text_beq_iff (drop n s) suffix).0 (ground (arith, e)) in
    ap (λ r. take n s ++ r) (sym same) ∙ take-append-drop n s

-- What a domain says that is parsed of a normal form.
pub record IsParsed (full : Text) (d : RfoDomain) : Type 0 where
  pub normal : d.full ≡ full
  pub kind : d.tld ≡ (if ends_with full (codes ".opt") then opt else standard)
  pub label : IsLabel d.name
  pub flagged : d.is_subdomain ≡ is_there d.subdomain
  pub assembled : Assembled d d.tld

-- Why a normal form is refused: it is empty, or it is one label that does not end in `.opt`.
abbrev pub IsRefused : Text → DomainError → Type 0
IsRefused full e =
    ((e ≡ empty) × (full ≡ []))
    ⊎ ((e ≡ invalid_format) × (ends_with full (codes ".opt") ≡ false) × IsLabel full)

is_empty-nil : (s : Text) → is_empty s ≡ true → s ≡ []
is_empty-nil [] h = refl
is_empty-nil (c ∷ cs) h = cc

from_opt :
    (full : Text) (o : Outcome DomainError RfoDomain)
    → ends_with full (codes ".opt") ≡ true
    → Settles o (λ e. ⊥) (OptParts full (split 46 (take (length full - 4) full)))
    → Settles o (IsRefused full) (IsParsed full)
from_opt full (ok d) suffix (tld, same, label, flagged, parts) =
    let whole = parts ∙ join-split (take (length full - 4) full) in
    let e =
      same
      ∙ sym (ends_with-append full (codes ".opt") suffix)
      ∙ ap (λ r. r ++ codes ".opt") (sym whole)
      ∙ append_assoc (prefix d.subdomain) d.name (codes ".opt") in
    record {
      normal = same;
      kind = rw suffix tld;
      label = label;
      flagged = flagged;
      assembled = subst (Assembled d) (sym tld) e;
    }
from_opt full (err e) suffix h = absurd h
from_opt full panicked suffix h = absurd h

from_standard :
    (full : Text) (o : Outcome DomainError RfoDomain)
    → ends_with full (codes ".opt") ≡ false
    → Settles o
        (λ e. (e ≡ invalid_format) × IsLabel (join (split 46 full)))
        (StandardParts full (split 46 full))
    → Settles o (IsRefused full) (IsParsed full)
from_standard full (ok d) other (tld, same, label, flagged, (suffix, whole_suffix, parts)) =
    record {
      normal = same;
      kind = rw other tld;
      label = label;
      flagged = flagged;
      assembled =
          subst (Assembled d) (sym tld)
            (suffix, whole_suffix, same ∙ sym (join-split full) ∙ sym parts);
    }
from_standard full (err e) other h = inr (h.0, other, subst IsLabel (join-split full) h.1)
from_standard full panicked other h = absurd h

opt_branch :
    (full s : Text) → Settles (parse_opt full (split 46 s)) (λ e. ⊥) (OptParts full (split 46 s))
opt_branch full s =
    let (part, parts, e) = split-first s in
    subst (λ ps. Settles (parse_opt full ps) (λ x. ⊥) (OptParts full ps)) (sym e)
      (parse_opt-parts full part parts (subst (All IsLabel) e (split-IsLabel s)))

-- A domain that is refused has a normal form that is empty, or that is one label and does not end in
-- `.opt`, and the error says which; parsing never panics. A domain that is parsed is its normal form, and
-- its parts make it up in order: the subdomain with its dot if there is one, the name, and `.opt` where
-- the normal form ends so, or else a dot and a suffix. Neither the name nor the suffix has a dot in it.
pub parse-Settles :
    (domain : Text)
    → Settles
        (parse domain)
        (IsRefused (to_lowercase (trim domain)))
        (IsParsed (to_lowercase (trim domain)))
unfolding parse
parse-Settles domain =
    let full = to_lowercase (trim domain) in
    elim (Bool-cases (is_empty full)) [
      | inl nothing ↦ rw nothing (inl (refl, is_empty-nil full nothing))
      | inr something ↦ elim (Bool-cases (ends_with full (codes ".opt"))) [
        | inl is_opt ↦ rw (something, is_opt) (from_opt full _ is_opt (opt_branch full _))
        | inr other ↦
            rw (something, other)
              (from_standard full _ other (parse_standard-parts full _ (split-IsLabel full)))
      ]
    ]
