-- ===== src/Domain/Metadata.antt =====
-- The metadata records of src/domain.rs. `structured_data` is a value of serde_json, whose type is a
-- parameter; the registration time is the text that chrono prints.
use rfo_protocol.Base.{ℕ, Bool, true, false, Option, none, List, [], ◌∷◌, ◌++◌, Text, codes}

pub record SeoMetadata (V : Type 0) : Type 0 where
  pub title : Text
  pub description : Text
  pub keywords : List Text
  pub canonical_url : Text
  pub og_title : Option Text
  pub og_description : Option Text
  pub og_image : Option Text
  pub structured_data : Option V

pub record GeoMetadata : Type 0 where
  pub llm_friendly : Bool
  pub content_type : Text
  pub language : Text
  pub categories : List Text
  pub direct_answers : Bool
  pub structured_data : Bool

pub record AeoMetadata : Type 0 where
  pub has_qa_pairs : Bool
  pub qa_pair_count : ℕ
  pub featured_snippets : Bool
  pub faq_schema : Bool
  pub direct_answers : Bool
  pub answer_confidence : ℕ

pub record OptMetadata (V : Type 0) : Type 0 where
  pub domain : Text
  pub seo : SeoMetadata V
  pub geo : GeoMetadata
  pub aeo : AeoMetadata
  pub registered_at : Text
  pub expires_at : Option Text
  pub verified : Bool

-- `OptMetadata::new`
unfoldable pub new_metadata : {V : Type 0} → Text → Text → OptMetadata V
new_metadata domain registered_at = record {
  domain = domain;
  seo = record {
    title = domain ++ codes " - AI Optimized Domain";
    description = domain ++ codes " is an AI-optimized domain powered by the RFO Protocol";
    keywords = codes "AI" ∷ codes "RFO" ∷ codes "optimized" ∷ domain ∷ [];
    canonical_url = codes "https://" ++ (domain ++ codes ".opt");
    og_title = none;
    og_description = none;
    og_image = none;
    structured_data = none;
  };
  geo = record {
    llm_friendly = true;
    content_type = codes "documentation";
    language = codes "en";
    categories = codes "technology" ∷ [];
    direct_answers = true;
    structured_data = true;
  };
  aeo = record {
    has_qa_pairs = true;
    qa_pair_count = 0;
    featured_snippets = true;
    faq_schema = true;
    direct_answers = true;
    answer_confidence = 80;
  };
  registered_at = registered_at;
  expires_at = none;
  verified = false;
}
