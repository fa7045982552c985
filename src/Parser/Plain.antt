-- ===== src/Parser/Plain.antt =====
-- How `parse_markdown` of src/parser.rs reads lines without markup of their own.
use rfo_protocol.Base.{
  ℕ, ◌==◌, ◌≡◌, refl, sym, ap, ap₂, ◌∙◌, Bool, true, false, ◌||◌, ◌&&◌, List, [], ◌∷◌, ◌++◌, Text,
  codes, All, arith, if◌then◌else◌, Bool-cases, inl, inr,
}
use rfo_protocol.Base.Strings.{
  is_empty, trim, trim_start, trim_end, split, strip_return, ended, lines, strip_prefix,
  starts_with, trim_start_matches, contains,
}
use rfo_protocol.Parser.{ParsedContent, add_line, add_lines}

-- Not the end of a line.
abbrev pub Inside : ℕ → Type 0
Inside c = ((c == 10) ≡ false) × ((c == 13) ≡ false)

-- A text of one line, not empty and with no space at its ends.
pub record IsLine (t : Text) : Type 0 where
  pub inside : All Inside t
  pub from_start : trim_start t ≡ t
  pub to_end : trim_end t ≡ t
  pub some_text : is_empty t ≡ false

-- The first letter is not one with which markup starts.
unfoldable pub is_plain : Text → Bool
is_plain [] = true
is_plain (c ∷ cs) =
    if c == 35 || (c == 96 || (c == 124 || (c == 45 || c == 42))) then false else true

split-first : (s : Text) → (first : Text) × (more : List Text) × (split 10 s ≡ first ∷ more)
unfolding split
split-first [] = ([], [], refl)
split-first (c ∷ cs) = elim (Bool-cases (c == 10)) [
  | inl line_end ↦ ([], split 10 cs, rw line_end)
  | inr other ↦ let (first, more, e) = split-first cs in (c ∷ first, more, rw (other, e))
]

split-line : (t rest : Text) → All Inside t → split 10 (t ++ (10 ∷ rest)) ≡ t ∷ split 10 rest
unfolding split
split-line [] rest h = refl
split-line (c ∷ cs) rest h = rw (h.0.0, split-line cs rest h.1)

strip_return-line : (t : Text) → All Inside t → strip_return t ≡ t
unfolding strip_return
strip_return-line [] h = refl
strip_return-line (c ∷ []) h = rw h.0.1
strip_return-line (c ∷ d ∷ cs) h = ap (λ r. c ∷ r) (strip_return-line (d ∷ cs) h.1)

-- A line and the empty one behind it.
lines-line :
    (t rest : Text) → All Inside t → lines (t ++ (codes "\n\n" ++ rest)) ≡ t ∷ [] ∷ lines rest
unfolding lines ended strip_return
lines-line t rest h =
    let (first, more, e) = split-first rest in
    let parts : split 10 (t ++ (codes "\n\n" ++ rest)) ≡ t ∷ [] ∷ first ∷ more =
      split-line t (10 ∷ rest) h ∙ ap (λ r. t ∷ r) (split-line [] rest tt ∙ ap (λ r. [] ∷ r) e) in
    ap ended parts ∙ ap₂ (λ l r. l ∷ [] ∷ ended r) (strip_return-line t h) (sym e)

pub add_lines-line :
    (t rest : Text) (content : ParsedContent)
    → All Inside t
    → trim t ≡ t
    → add_lines (lines (t ++ (codes "\n\n" ++ rest))) content
      ≡ add_lines (lines rest) (add_line t content)
unfolding add_lines add_line trim
add_lines-line t rest content h e =
    ap (λ l. add_lines l content) (lines-line t rest h)
    ∙ ap (λ l. add_lines (lines rest) (add_line l content)) e

pub trim-line : (t : Text) → IsLine t → trim t ≡ t
unfolding trim
trim-line t l = ap trim_end l.from_start ∙ l.to_end

trim_end-indented : (t : Text) → IsLine t → trim_end (32 ∷ t) ≡ 32 ∷ t
unfolding trim_end
trim_end-indented t l =
    ap (λ r. if is_empty r then [] else 32 ∷ r) l.to_end
    ∙ ap (λ b. if b then [] else 32 ∷ t) l.some_text

pub trim-title : (t : Text) → IsLine t → trim (codes "# " ++ t) ≡ codes "# " ++ t
unfolding trim trim_start trim_end
trim-title t l = ap (λ r. 35 ∷ r) (trim_end-indented t l)

pub trim-heading : (t : Text) → IsLine t → trim (codes "## " ++ t) ≡ codes "## " ++ t
unfolding trim trim_start trim_end
trim-heading t l = ap (λ r. 35 ∷ 35 ∷ r) (trim_end-indented t l)

-- What the three kinds of lines add.
pub add_line-title :
    (t : Text) (content : ParsedContent)
    → add_line (codes "# " ++ t) content ≡ record content { title = t }
unfolding add_line strip_prefix
add_line-title t content = refl

pub add_line-heading :
    (t : Text) (content : ParsedContent)
    → IsLine t
    → add_line (codes "## " ++ t) content
      ≡ record content { headings = content.headings ++ (t ∷ []) }
unfolding add_line strip_prefix starts_with trim_start_matches trim trim_start
add_line-heading t content l =
    ap (λ h. record content { headings = content.headings ++ (h ∷ []) }) (trim-line t l)

is_plain-first :
    (c : ℕ) (cs : Text)
    → is_plain (c ∷ cs) ≡ true
    → ((c == 35) ≡ false)
      × ((c == 96) ≡ false)
      × ((c == 124) ≡ false)
      × ((c == 45) ≡ false)
      × ((c == 42) ≡ false)
unfolding is_plain
is_plain-first c cs h = ground arith

starts_with-other :
    (c : ℕ) (cs : Text) (d : ℕ) (ds : Text)
    → (c == d) ≡ false
    → starts_with (c ∷ cs) (d ∷ ds) ≡ false
unfolding starts_with
starts_with-other c cs d ds h = rw h

last_branch {ℓ} :
    {A : Type ℓ} {h2 h3 fence bar dash star : Bool} (part : Bool) (u v x y z : A)
    → h2 ≡ false
    → h3 ≡ false
    → fence ≡ false
    → bar ≡ false
    → dash ≡ false
    → star ≡ false
    → (if h2 || h3
        then u
        else if fence
        then v
        else if bar && part
        then x
        else if dash || star
        then y
        else z)
      ≡ z
last_branch part u v x y z a b c d e f = rw (a, b, c, d, e, f)

pub add_line-plain :
    (t : Text) (content : ParsedContent)
    → is_empty t ≡ false
    → is_plain t ≡ true
    → add_line t content ≡ record content { paragraphs = content.paragraphs ++ (t ∷ []) }
unfolding add_line strip_prefix
add_line-plain [] content l h = cc
add_line-plain (c ∷ cs) content l h =
    let (hash, fence, bar, dash, star) = is_plain-first c cs h in
    rw hash (
      last_branch (contains (c ∷ cs) (codes "|")) _ _ _ _ _
        (starts_with-other c cs 35 (codes "# ") hash) (starts_with-other c cs 35 (codes "## ") hash)
        (starts_with-other c cs 96 (codes "``") fence) (starts_with-other c cs 124 [] bar)
        (starts_with-other c cs 45 (codes " ") dash) (starts_with-other c cs 42 (codes " ") star))
