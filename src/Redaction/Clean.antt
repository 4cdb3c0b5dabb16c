-- ===== src/Redaction/Clean.antt =====
-- pkg/types/redaction.go: what is left of metadata once they are redacted.
use change_control_plane.Prelude.{
  String, ◌≡◌, refl, ap, Bool, true, false, not, ◌&&◌, ◌||◌, List, map, [], ◌∷◌, ◌==◌,
  if◌then◌else◌, arith,
}
use change_control_plane.Types.{
  Any, text, texts, float, int, object, metadata, list, strings, objects, metadatas, bool, Object,
  end, entry, Items, nil, cons, Metadata,
}
use change_control_plane.Redaction.{
  redacted_metadata_value, sensitive_metadata_key, safe_metadata_reference_key,
  metadata_string_looks_sensitive, is_withheld, redact_texts, redact_strings, redact_parts,
  redact_object, redact_items, redact_metadata_value_for_key, redact_metadata,
}

-- A text is the replacement, or looks like no secret under its key.
pub is_clean_text : (key raw : String) → Bool
is_clean_text key raw = raw == "[redacted]" || not (metadata_string_looks_sensitive key (text raw))

pub is_clean_texts : List String → Bool
is_clean_texts [] = true
is_clean_texts (raw ∷ items) = is_clean_text "" raw && is_clean_texts items

pub are_clean_strings : List (String × String) → Bool
are_clean_strings [] = true
are_clean_strings (item ∷ items) = is_clean_text item.0 item.1 && are_clean_strings items

abbrev is_replacement : Any → Bool
is_replacement (text raw) = raw == "[redacted]"
is_replacement _ = false

-- Lists of maps count as clean, since they are not looked into. The name of a secret has the replacement for a value; of other names the parts are asked.
pub names_no_secret : (key : String) → Any → (parts : Bool) → Bool
names_no_secret key value parts =
    if sensitive_metadata_key key && not (safe_metadata_reference_key key)
    then is_replacement value
    else parts

mutual
  pub are_clean_parts : (key : String) → Any → Bool
  are_clean_parts key (text raw) = is_clean_text key raw
  are_clean_parts key (texts items) = is_clean_texts items
  are_clean_parts key (float value) = true
  are_clean_parts key (int value) = true
  are_clean_parts key (object values) = is_clean_object values
  are_clean_parts key (metadata values) = is_clean_object values
  are_clean_parts key (list items) = are_clean_items items
  are_clean_parts key (strings values) = are_clean_strings values
  are_clean_parts key (objects items) = true
  are_clean_parts key (metadatas items) = true
  are_clean_parts key (bool value) = true

  pub is_clean_object : Object → Bool
  is_clean_object end = true
  is_clean_object (entry key value rest) =
      names_no_secret key value (are_clean_parts key value) && is_clean_object rest

  pub are_clean_items : Items → Bool
  are_clean_items nil = true
  are_clean_items (cons item rest) =
      names_no_secret "" item (are_clean_parts "" item) && are_clean_items rest

pub is_clean : Metadata → Bool
is_clean [] = true
is_clean (item ∷ items) =
    names_no_secret item.0 item.1 (are_clean_parts item.0 item.1) && is_clean items

clean_case :
    (secret looks : Bool) (key : String) (value : Any)
    → (looks ≡ false → are_clean_parts key value ≡ true)
    → let v = if secret || looks then redacted_metadata_value else value in
      (if secret then is_replacement v else are_clean_parts key v) ≡ true
unfolding are_clean_parts is_clean_text
clean_case true looks key value h = refl
clean_case false true key value h = refl
clean_case false false key value h = h refl

-- One entry, once its parts are clean.
clean_entry :
    (key : String) (value : Any)
    → (metadata_string_looks_sensitive key value ≡ false
        → are_clean_parts key (redact_parts value) ≡ true)
    → let v = redact_metadata_value_for_key key value in
      names_no_secret key v (are_clean_parts key v) ≡ true
unfolding redact_metadata_value_for_key names_no_secret is_withheld
clean_entry key value h =
    clean_case (sensitive_metadata_key key && not (safe_metadata_reference_key key))
      (metadata_string_looks_sensitive key value) key (redact_parts value) h

and_true : {a b : Bool} → a ≡ true → b ≡ true → (a && b) ≡ true
and_true h k = ground arith

clean_text :
    (key raw : String)
    → metadata_string_looks_sensitive key (text raw) ≡ false
    → is_clean_text key raw ≡ true
unfolding is_clean_text
clean_text key raw h = ground (arith, h)

clean_texts : (items : List String) → are_clean_items (redact_texts items) ≡ true
unfolding redact_texts are_clean_items redact_metadata_value_for_key redact_parts
clean_texts [] = refl
clean_texts (item ∷ items) =
    and_true (clean_entry "" (text item) (clean_text "" item)) (clean_texts items)

clean_strings : (values : List (String × String)) → is_clean_object (redact_strings values) ≡ true
unfolding redact_strings are_clean_parts is_clean_object redact_metadata_value_for_key redact_parts
clean_strings [] = refl
clean_strings (item ∷ items) =
    and_true (clean_entry item.0 (text item.1) (clean_text item.0 item.1)) (clean_strings items)

mutual
  unfolding redact_parts redact_object redact_items are_clean_parts redact_metadata_value_for_key

  are_clean_parts-redact_parts :
      (key : String) (value : Any)
      → metadata_string_looks_sensitive key value ≡ false
      → are_clean_parts key (redact_parts value) ≡ true
  are_clean_parts-redact_parts key (text raw) h = clean_text key raw h
  are_clean_parts-redact_parts key (texts items) h = clean_texts items
  are_clean_parts-redact_parts key (float value) h = refl
  are_clean_parts-redact_parts key (int value) h = refl
  are_clean_parts-redact_parts key (object values) h = is_clean_object-redact_object values
  are_clean_parts-redact_parts key (metadata values) h = is_clean_object-redact_object values
  are_clean_parts-redact_parts key (list items) h = are_clean_items-redact_items items
  are_clean_parts-redact_parts key (strings values) h = clean_strings values
  are_clean_parts-redact_parts key (objects items) h = refl
  are_clean_parts-redact_parts key (metadatas items) h = refl
  are_clean_parts-redact_parts key (bool value) h = refl

  is_clean_object-redact_object : (values : Object) → is_clean_object (redact_object values) ≡ true
  is_clean_object-redact_object end = refl
  is_clean_object-redact_object (entry key value rest) =
      and_true (clean_entry key value (are_clean_parts-redact_parts key value))
        (is_clean_object-redact_object rest)

  are_clean_items-redact_items : (items : Items) → are_clean_items (redact_items items) ≡ true
  are_clean_items-redact_items nil = refl
  are_clean_items-redact_items (cons item rest) =
      and_true (clean_entry "" item (are_clean_parts-redact_parts "" item))
        (are_clean_items-redact_items rest)

is_clean-redact_metadata : (items : Metadata) → is_clean (redact_metadata items) ≡ true
unfolding is_clean redact_metadata
is_clean-redact_metadata [] = refl
is_clean-redact_metadata (item ∷ items) =
    and_true (clean_entry item.0 item.1 (are_clean_parts-redact_parts item.0 item.1))
      (is_clean-redact_metadata items)

keys-redact_metadata :
    (items : Metadata)
    → map (λ (item : String × Any). item.0) (redact_metadata items)
      ≡ map (λ (item : String × Any). item.0) items
unfolding redact_metadata
keys-redact_metadata [] = refl
keys-redact_metadata (item ∷ items) = ap (λ keys. item.0 ∷ keys) (keys-redact_metadata items)

-- In redacted metadata, and in the maps and lists of theirs that the redaction enters, the value of an
-- entry whose key names a secret, and is no reference to one, is the replacement, and every text is
-- the replacement or does not look like a secret. Lists of maps (`[]map[string]any`,
-- `[]types.Metadata`) are not entered, and nothing is said of what they hold. The keys stay as they
-- are.
pub redact_metadata_lem :
    (items : Metadata)
    → (is_clean (redact_metadata items) ≡ true)
      × (map (λ (item : String × Any). item.0) (redact_metadata items)
          ≡ map (λ (item : String × Any). item.0) items)
redact_metadata_lem items = (is_clean-redact_metadata items, keys-redact_metadata items)
