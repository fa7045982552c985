-- ===== src/Parser/Topics.antt =====
-- The coordinates that `extract_coordinates` of src/parser.rs finds.
use rfo_protocol.Base.{
  ◌≡◌, refl, ◌∙◌, ap, Option, none, some, List, [], ◌∷◌, ◌++◌, Text, codes, if◌then◌else◌, false,
}
use rfo_protocol.Base.Keys.{Assoc, text_eq, text_beq, lookup, lookup-insert, lookup-insert_self}
use rfo_protocol.Base.Strings.{is_empty, to_lowercase, join}
use rfo_protocol.Parser.{
  ParsedContent, language_of, topic_of, category_of, insert_some, insert_topics,
  extract_coordinates,
}

abbrev or_else : Option Text → Option Text → Option Text
or_else none other = other
or_else (some t) other = some t

-- The topic of the last heading that has one.
unfoldable pub last_topic : List Text → Option Text
last_topic [] = none
last_topic (heading ∷ more) = or_else (last_topic more) (topic_of (to_lowercase heading))

lookup-insert_some_self :
    (key : Text) (value : Option Text) (coords : Assoc Text Text)
    → lookup key (insert_some key value coords) ≡ or_else value (lookup key coords)
unfolding insert_some
lookup-insert_some_self key none coords = refl
lookup-insert_some_self key (some v) coords = lookup-insert_self key v coords

lookup-insert_some_other :
    (key other : Text) (value : Option Text) (coords : Assoc Text Text)
    → text_beq key other ≡ false
    → lookup other (insert_some key value coords) ≡ lookup other coords
unfolding insert_some
lookup-insert_some_other key other none coords h = refl
lookup-insert_some_other key other (some v) coords h = lookup-insert key other v coords ∙ rw h

lookup-insert_topics_other :
    (other : Text) (headings : List Text) (coords : Assoc Text Text)
    → text_beq (codes "topic") other ≡ false
    → lookup other (insert_topics headings coords) ≡ lookup other coords
unfolding insert_topics
lookup-insert_topics_other other [] coords h = refl
lookup-insert_topics_other other (heading ∷ more) coords h =
    lookup-insert_topics_other other more _ h
    ∙ lookup-insert_some_other (codes "topic") other (topic_of (to_lowercase heading)) coords h

or_else_assoc : (a b c : Option Text) → or_else a (or_else b c) ≡ or_else (or_else a b) c
or_else_assoc none b c = refl
or_else_assoc (some t) b c = refl

lookup-insert_topics :
    (headings : List Text) (coords : Assoc Text Text)
    → lookup (codes "topic") (insert_topics headings coords)
      ≡ or_else (last_topic headings) (lookup (codes "topic") coords)
unfolding insert_topics last_topic
lookup-insert_topics [] coords = refl
lookup-insert_topics (heading ∷ more) coords =
    lookup-insert_topics more _
    ∙ ap (or_else (last_topic more))
        (lookup-insert_some_self (codes "topic") (topic_of (to_lowercase heading)) coords)
    ∙ or_else_assoc (last_topic more) (topic_of (to_lowercase heading)) _

or_else-none : (a : Option Text) → or_else a none ≡ a
or_else-none none = refl
or_else-none (some t) = refl

-- What `extract_coordinates` reads for the language and the category: the title and the paragraphs.
unfoldable pub searched : ParsedContent → Text
searched parsed = to_lowercase (parsed.title ++ (32 ∷ join (codes " ") parsed.paragraphs))

-- The coordinates of a page: its title unless that is empty, the language and the category that the
-- words of the title and the paragraphs show (a category is always given), and the topic of the last
-- heading that has one.
pub extract_coordinates-lookup :
    (parsed : ParsedContent)
    → (lookup (codes "title") (extract_coordinates parsed)
        ≡ (if is_empty parsed.title then none else some parsed.title))
      × (lookup (codes "language") (extract_coordinates parsed) ≡ language_of (searched parsed))
      × (lookup (codes "topic") (extract_coordinates parsed) ≡ last_topic parsed.headings)
      × (lookup (codes "category") (extract_coordinates parsed)
          ≡ some (category_of (searched parsed)))
unfolding extract_coordinates searched lookup
extract_coordinates-lookup parsed =
    let lower = searched parsed in
    let title = if is_empty parsed.title then none else some parsed.title in
    let titled = insert_some (codes "title") title [] in
    let with_language = insert_some (codes "language") (language_of lower) titled in
    let with_topic = insert_topics parsed.headings with_language in
    let past_category = λ (other : Text) (h : text_beq (codes "category") other ≡ false).
      lookup-insert (codes "category") other (category_of lower) with_topic
      ∙ ap (λ b. if b then some (category_of lower) else lookup other with_topic) h in
    (
      past_category (codes "title") refl
          ∙ lookup-insert_topics_other (codes "title") parsed.headings with_language refl
          ∙ lookup-insert_some_other (codes "language") (codes "title") (language_of lower) titled
              refl
          ∙ lookup-insert_some_self (codes "title") title []
          ∙ or_else-none title,
      past_category (codes "language") refl
          ∙ lookup-insert_topics_other (codes "language") parsed.headings with_language refl
          ∙ lookup-insert_some_self (codes "language") (language_of lower) titled
          ∙ ap (or_else (language_of lower))
              (lookup-insert_some_other (codes "title") (codes "language") title [] refl)
          ∙ or_else-none (language_of lower),
      past_category (codes "topic") refl
          ∙ lookup-insert_topics parsed.headings with_language
          ∙ ap (or_else (last_topic parsed.headings)) (
              lookup-insert_some_other (codes "language") (codes "topic") (language_of lower) titled
                refl
              ∙ lookup-insert_some_other (codes "title") (codes "topic") title [] refl)
          ∙ or_else-none (last_topic parsed.headings),
      lookup-insert_self (codes "category") (category_of lower) with_topic,
    )
