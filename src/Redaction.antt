-- ===== src/Redaction.antt =====
-- pkg/types/redaction.go: how metadata are cleared of secrets before they leave the application.
-- What is not of one of the types that the `switch` names is returned as it is: numbers and booleans,
-- and lists of maps as well (`[]map[string]any`, `[]types.Metadata`), whatever these hold.
pub mod Clean
use Prim.Native.Char.{code}
use Prim.Native.String
use change_control_plane.Prelude.{
  String, ◌≡◌, refl, Bool, true, false, not, ◌&&◌, ◌||◌, List, [], ◌∷◌, ◌==◌, if◌then◌else◌, eqb,
  any,
}
use change_control_plane.Prelude.Text.{trim, normalized, lower, is_blank}
use change_control_plane.Prelude.Text.Search.{has_prefix, contains_text}
use change_control_plane.Types.{
  Any, text, texts, float, int, object, metadata, list, strings, objects, metadatas, bool, Object,
  end, entry, Items, nil, cons, Metadata, RolloutExecution, VerificationResult,
}

abbrev pub redacted_metadata_value : Any
redacted_metadata_value = text "[redacted]"

-- `strings.HasSuffix`
unfoldable pub has_suffix : (s suffix : String) → Bool
has_suffix String.[] suffix = String.[] == suffix
has_suffix (String.◌∷◌ c s) suffix = String.◌∷◌ c s == suffix || has_suffix s suffix

unfoldable pub compact_metadata_key : String → String
compact_metadata_key String.[] = String.[]
compact_metadata_key (String.◌∷◌ c s) =
    let rest = compact_metadata_key s in
    if eqb (code c) b'_' || eqb (code c) b'-' || eqb (code c) b'.' then rest else String.◌∷◌ c rest

abbrev pub sensitive_suffixes : List String
sensitive_suffixes =
    "token" ∷ "secret" ∷ "password" ∷ "privatekey" ∷ "apikey" ∷ "authorization" ∷ "bearer" ∷ "dsn"
    ∷ []

abbrev pub sensitive_names : List String
sensitive_names =
    "token" ∷ "accesstoken" ∷ "apikey" ∷ "authorization" ∷ "bearer" ∷ "bearertoken" ∷ "clientsecret"
    ∷ "dsn" ∷ "password" ∷ "privatekey" ∷ "secret" ∷ "webhooksecret" ∷ "xapikey" ∷ []

unfoldable pub sensitive_metadata_key : String → Bool
unfolding normalized compact_metadata_key has_suffix
sensitive_metadata_key key =
    let compact = compact_metadata_key (normalized key) in
    not (normalized key == "")
    && (any (◌==◌ compact) sensitive_names || any (has_suffix compact) sensitive_suffixes)

unfoldable pub safe_metadata_reference_key : String → Bool
unfolding normalized compact_metadata_key has_suffix
safe_metadata_reference_key key =
    let name = normalized key in
    let compact = compact_metadata_key name in
    not (name == "")
    && (any (has_suffix name) ("_env" ∷ "_env_var" ∷ "_secret_ref" ∷ [])
        || any (◌==◌ name) ("secret_ref" ∷ "secret_ref_env" ∷ "dsn_env" ∷ [])
        || any (has_suffix compact) ("env" ∷ "envvar" ∷ "secretref" ∷ [])
        || any (◌==◌ compact) ("secretref" ∷ "secretrefenv" ∷ "dsnenv" ∷ []))

unfoldable pub looks_like_dsn : String → Bool
looks_like_dsn lowered = any (has_prefix lowered) (
    "postgres://" ∷ "postgresql://" ∷ "mysql://" ∷ "mariadb://" ∷ "sqlserver://" ∷ "mongodb://"
    ∷ "redis://" ∷ [])

unfoldable pub looks_like_provider_token : String → Bool
looks_like_provider_token value =
    any (has_prefix value) (
      "ccpt_" ∷ "ghp_" ∷ "github_pat_" ∷ "glpat-" ∷ "sk-" ∷ "xoxb-" ∷ "xoxp-" ∷ "ya29." ∷ "eyJ"
      ∷ [])

-- The tests of `MetadataStringLooksSensitive` that do not look at the key.
unfoldable pub text_looks_sensitive : String → Bool
unfolding trim lower contains_text looks_like_dsn looks_like_provider_token
text_looks_sensitive raw =
    let trimmed = trim raw in
    let lowered = lower trimmed in
    (contains_text lowered "-----begin " && contains_text lowered "private key")
    || has_prefix lowered "bearer "
    || has_prefix lowered "basic "
    || contains_text lowered "password="
    || looks_like_dsn lowered
    || looks_like_provider_token trimmed

unfoldable pub metadata_string_looks_sensitive : (key : String) → Any → Bool
unfolding is_blank text_looks_sensitive safe_metadata_reference_key sensitive_metadata_key
metadata_string_looks_sensitive key (text raw) =
    if is_blank raw
    then false
    else if text_looks_sensitive raw
    then true
    else if safe_metadata_reference_key key
    then false
    else sensitive_metadata_key key
metadata_string_looks_sensitive key _ = false

-- The two tests of `redactMetadataValueForKey`.
unfoldable pub is_withheld : (key : String) → Any → Bool
is_withheld key value =
    (sensitive_metadata_key key && not (safe_metadata_reference_key key))
    || metadata_string_looks_sensitive key value

-- The items of a `[]string`, as those of a `[]any`.
unfoldable pub redact_texts : List String → Items
redact_texts [] = nil
redact_texts (item ∷ items) =
    let rest = redact_texts items in
    cons (if is_withheld "" (text item) then redacted_metadata_value else text item) rest

-- The entries of a `map[string]string`; the result is a `map[string]any`.
unfoldable pub redact_strings : List (String × String) → Object
redact_strings [] = end
redact_strings (item ∷ items) =
    let rest = redact_strings items in
    entry item.0 (if is_withheld item.0 (text item.1) then redacted_metadata_value else text item.1)
      rest

unfoldable mutual
  -- The `switch` on the type of the value.
  pub redact_parts : Any → Any
  redact_parts (text raw) = text raw
  redact_parts (texts items) = list (redact_texts items)
  redact_parts (float value) = float value
  redact_parts (int value) = int value
  redact_parts (object values) = metadata (redact_object values)
  redact_parts (metadata values) = metadata (redact_object values)
  redact_parts (list items) = list (redact_items items)
  redact_parts (strings values) = object (redact_strings values)
  redact_parts (objects items) = objects items
  redact_parts (metadatas items) = metadatas items
  redact_parts (bool value) = bool value

  pub redact_object : Object → Object
  redact_object end = end
  redact_object (entry key value rest) =
      entry key (if is_withheld key value then redacted_metadata_value else redact_parts value)
        (redact_object rest)

  pub redact_items : Items → Items
  redact_items nil = nil
  redact_items (cons item rest) =
      cons (if is_withheld "" item then redacted_metadata_value else redact_parts item)
        (redact_items rest)

unfoldable pub redact_metadata_value_for_key : (key : String) → Any → Any
redact_metadata_value_for_key key value =
    if is_withheld key value then redacted_metadata_value else redact_parts value

unfoldable pub redact_metadata : Metadata → Metadata
redact_metadata [] = []
redact_metadata (item ∷ items) =
    (item.0, redact_metadata_value_for_key item.0 item.1) ∷ redact_metadata items

-- internal/app/metadata_redaction.go
unfoldable pub safe_rollout_execution_for_response : RolloutExecution → RolloutExecution
unfolding redact_metadata
safe_rollout_execution_for_response item = record item {
  base = record item.base { metadata = redact_metadata item.metadata };
}

unfoldable pub safe_verification_result_for_response : VerificationResult → VerificationResult
unfolding redact_metadata
safe_verification_result_for_response item = record item {
  base = record item.base { metadata = redact_metadata item.metadata };
  technical_signal_summary = redact_metadata item.technical_signal_summary;
  business_signal_summary = redact_metadata item.business_signal_summary;
}

key_test : sensitive_metadata_key " API-Key" ≡ true
unfolding sensitive_metadata_key
key_test = refl

reference_test : safe_metadata_reference_key "access_token_env" ≡ true
unfolding safe_metadata_reference_key
reference_test = refl
