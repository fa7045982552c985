-- ===== src/Domain/Schemas.antt =====
-- The JSON-LD of src/domain.rs: `OptMetadata::to_json_ld` and `faq_schema`.
use rfo_protocol.Base.{List, [], ◌∷◌, ◌++◌, Text, codes}
use rfo_protocol.Base.JsonValue.{
  JsonValue, string, array, object, Items, no_items, item, Fields, no_fields, field,
}
use rfo_protocol.Domain.Metadata.{OptMetadata}

-- A field whose value is text.
abbrev pub text_field : Text → Text → Fields → Fields
text_field name value more = field name (string value) more

unfoldable pub to_json_ld : {V : Type 0} → OptMetadata V → JsonValue
to_json_ld m =
    let action = text_field (codes "@type") (codes "SearchAction") (
      text_field (codes "target") (m.seo.canonical_url ++ codes "?q={search_term_string}")
        (text_field (codes "query-input") (codes "required name=search_term_string") no_fields)) in
    let publisher = text_field (codes "@type") (codes "Organization") (
      text_field (codes "name") (m.domain ++ codes ".opt")
        (text_field (codes "url") m.seo.canonical_url no_fields)) in
    object (
      text_field (codes "@context") (codes "https://schema.org") (
        text_field (codes "@type") (codes "WebSite") (
          text_field (codes "name") m.seo.title (
            text_field (codes "description") m.seo.description (
              text_field (codes "url") m.seo.canonical_url (
                field (codes "potentialAction") (object action)
                  (field (codes "publisher") (object publisher) no_fields)))))))

unfoldable pub question_item : Text × Text → JsonValue
question_item (q, a) =
    let answer =
      text_field (codes "@type") (codes "Answer") (text_field (codes "text") a no_fields) in
    object (
      text_field (codes "@type") (codes "Question")
        (text_field (codes "name") q (field (codes "acceptedAnswer") (object answer) no_fields)))

unfoldable pub question_items : List (Text × Text) → Items
question_items [] = no_items
question_items (qa ∷ more) = item (question_item qa) (question_items more)

unfoldable pub faq_page : Items → JsonValue
faq_page items = object (
    text_field (codes "@context") (codes "https://schema.org") (
      text_field (codes "@type") (codes "FAQPage")
        (field (codes "mainEntity") (array items) no_fields)))

unfoldable pub faq_schema : List (Text × Text) → JsonValue
faq_schema qa_pairs = faq_page (question_items qa_pairs)
