-- ===== src/Release/Manifest/PublisherTests.antt =====
-- Publications of two specifications, and the witness of the theorem on them.
use opcua_drafts.Text.Strip.{strip}
use opcua_drafts.Prelude.{some, none, [], ◌∷◌, NoDup, ◌≡◌, refl}
use opcua_drafts.Release.Manifest.Publishers.{
  Publication, id_clash, norm, id_key, markdown_key, number_key, located, validate_publisher_specs,
}
use opcua_drafts.Release.Manifest.PublisherIds.{keys_of, validate_publisher_specs-NoDup}

abbrev arrow : Publication
arrow = record {
  published_id = some "arrow";
  markdown = some "source/arrow/spec.md";
  document_number = some "OPC 30455";
}

abbrev avro : Publication
avro = record {
  published_id = some "avro";
  markdown = some "source\\avro\\spec.md";
  document_number = none;
}

abbrev twin : Publication
twin = record { published_id = some " arrow "; markdown = none; document_number = none }

twin_reported :
    validate_publisher_specs (("a", arrow ∷ []) ∷ ("b", avro ∷ twin ∷ []) ∷ [])
    ≡ id_clash "arrow" (record { spec_id = "a"; index = 0 }) (record { spec_id = "b"; index = 1 })
      ∷ []
unfolding validate_publisher_specs strip norm
twin_reported = refl

validate_publisher_specs-NoDup_example :
    NoDup (keys_of id_key (located (("a", arrow ∷ []) ∷ ("b", avro ∷ []) ∷ [])))
    × NoDup (keys_of markdown_key (located (("a", arrow ∷ []) ∷ ("b", avro ∷ []) ∷ [])))
    × NoDup (keys_of number_key (located (("a", arrow ∷ []) ∷ ("b", avro ∷ []) ∷ [])))
unfolding validate_publisher_specs strip norm
validate_publisher_specs-NoDup_example =
    validate_publisher_specs-NoDup (("a", arrow ∷ []) ∷ ("b", avro ∷ []) ∷ []) refl
