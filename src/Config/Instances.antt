-- ===== src/Config/Instances.antt =====
-- config/instances.go: the instances of the multi-instance mode, and their validation. An error is the
-- first one, with what its message is formatted from. A map that is read is an association list.
use neo4j_mcp_canary.Prelude.{
  ℕ, suc, Bool, true, false, ◌&&◌, ◌||◌, not, List, [], ◌∷◌, Option, none, some, if◌then◌else◌, leb,
  length, ◌==◌,
}
use neo4j_mcp_canary.Text.{Str, codes, ◌==s◌, contains, trim_space}
use neo4j_mcp_canary.Auth.{EmbeddingConfig}
use neo4j_mcp_canary.Config.Scan.{is_lower, is_digit, all}

-- InstanceAuth
pub record InstanceAuth : Type 0 where
  pub auth_type : Str
  pub username : Str
  pub password : Str
  pub api_keys : List Str
  pub issuer : Str
  pub jwks_uri : Str
  pub audience : Str

-- NeoInstance
pub record NeoInstance : Type 0 where
  pub name : Str
  pub uri : Str
  pub database : Str
  pub auth : InstanceAuth
  pub embedding : Option EmbeddingConfig

abbrev pub instance_auth_basic : Str
instance_auth_basic = codes "basic"

abbrev pub instance_auth_basic_passthrough : Str
instance_auth_basic_passthrough = codes "basic_passthrough"

abbrev pub instance_auth_bearer : Str
instance_auth_bearer = codes "bearer"

-- ValidInstanceAuthTypes
abbrev pub valid_instance_auth_types : List Str
valid_instance_auth_types =
    instance_auth_basic ∷ instance_auth_basic_passthrough ∷ instance_auth_bearer ∷ []

abbrev pub is_alnum : ℕ → Bool
is_alnum c = is_lower c || (leb 65 c && leb c 90) || is_digit c

-- instanceNamePattern: ^[a-zA-Z0-9][a-zA-Z0-9_-]{0,62}$
unfoldable pub matches_instance_name : Str → Bool
matches_instance_name [] = false
matches_instance_name (c ∷ s) =
    is_alnum c && leb (length s) 62 && all (λ d. is_alnum d || d == 95 || d == 45) s

-- reservedInstanceNames
abbrev pub reserved_instance_names : List Str
reserved_instance_names = codes "mcp" ∷ codes ".well-known" ∷ []

-- An error of the validation of one instance, or of the list.
pub data InstanceError : Type 0 where
  no_instances : InstanceError
  no_name : ℕ → InstanceError
  bad_instance_name : ℕ → Str → InstanceError
  reserved_name : ℕ → Str → InstanceError
  duplicate_name : ℕ → Str → InstanceError
  no_uri : ℕ → Str → InstanceError
  unknown_auth_type : Str → InstanceError
  missing_auth_fields : Str → InstanceError
  missing_api_keys : Str → InstanceError
  blank_api_key : InstanceError
  unused_auth_fields : Str → InstanceError
  unknown_provider : Str → InstanceError
  missing_configuration : Str → Str → InstanceError
  missing_vertexai_credential : InstanceError
  unused_base_url : InstanceError

abbrev pub is_set : Str → Bool
is_set s = not (s ==s [])

abbrev pub any_blank : List Str → Bool
any_blank [] = false
any_blank (k ∷ ks) = trim_space k ==s [] || any_blank ks

abbrev pub has_none : List Str → Bool
has_none [] = true
has_none (k ∷ ks) = false

abbrev pub validate_basic : InstanceAuth → Option InstanceError
validate_basic a =
    if a.username ==s [] || a.password ==s []
    then some (missing_auth_fields a.auth_type)
    else if has_none a.api_keys
    then some (missing_api_keys a.auth_type)
    else if any_blank a.api_keys
    then some blank_api_key
    else if is_set a.issuer || is_set a.jwks_uri || is_set a.audience
    then some (unused_auth_fields a.auth_type)
    else none

abbrev pub validate_basic_passthrough : InstanceAuth → Option InstanceError
validate_basic_passthrough a =
    if is_set a.username
      || is_set a.password
      || not (has_none a.api_keys)
      || is_set a.issuer
      || is_set a.jwks_uri
      || is_set a.audience
    then some (unused_auth_fields a.auth_type)
    else none

abbrev pub validate_bearer : InstanceAuth → Option InstanceError
validate_bearer a =
    if a.issuer ==s [] || a.jwks_uri ==s [] || a.audience ==s []
    then some (missing_auth_fields a.auth_type)
    else if is_set a.username || is_set a.password || not (has_none a.api_keys)
    then some (unused_auth_fields a.auth_type)
    else none

-- validateInstanceAuth
unfoldable pub validate_instance_auth : InstanceAuth → Option InstanceError
validate_instance_auth a =
    if not (contains valid_instance_auth_types a.auth_type)
    then some (unknown_auth_type a.auth_type)
    else if a.auth_type ==s instance_auth_basic
    then validate_basic a
    else if a.auth_type ==s instance_auth_basic_passthrough
    then validate_basic_passthrough a
    else if a.auth_type ==s instance_auth_bearer
    then validate_bearer a
    else none

-- The value of a key, "" when there is none.
abbrev pub setting : List (Str × Str) → Str → Str
setting [] key = []
setting ((k, v) ∷ m) key = let rest = setting m key in if k ==s key then v else rest

-- embeddingProviderRequiredKeys
abbrev pub required_keys : Str → List Str
required_keys provider =
    if provider ==s codes "openai"
    then codes "token" ∷ codes "model" ∷ []
    else if provider ==s codes "azure-openai"
    then codes "token" ∷ codes "resource" ∷ codes "model" ∷ []
    else if provider ==s codes "vertexai"
    then codes "model" ∷ codes "project" ∷ codes "region" ∷ []
    else if provider ==s codes "bedrock-titan"
    then codes "model" ∷ codes "region" ∷ codes "accessKeyId" ∷ codes "secretAccessKey" ∷ []
    else []

-- ValidEmbeddingProviders
abbrev pub valid_embedding_providers : List Str
valid_embedding_providers =
    codes "openai" ∷ codes "azure-openai" ∷ codes "vertexai" ∷ codes "bedrock-titan" ∷ []

abbrev pub first_missing : List (Str × Str) → List Str → Option Str
first_missing m [] = none
first_missing m (key ∷ keys) =
    let rest = first_missing m keys in if trim_space (setting m key) ==s [] then some key else rest

abbrev pub after_required : EmbeddingConfig → Option Str → Option InstanceError
after_required e (some key) = some (missing_configuration e.provider key)
after_required e none =
    if e.provider ==s codes "vertexai"
      && setting e.configuration (codes "apiKey") ==s []
      && setting e.configuration (codes "token") ==s []
    then some missing_vertexai_credential
    else if not (e.provider ==s codes "openai")
        && is_set (setting e.configuration (codes "baseUrl"))
    then some unused_base_url
    else none

-- validateEmbeddingConfig
unfoldable pub validate_embedding_config : EmbeddingConfig → Option InstanceError
validate_embedding_config e =
    if not (contains valid_embedding_providers e.provider)
    then some (unknown_provider e.provider)
    else after_required e (first_missing e.configuration (required_keys e.provider))

abbrev pub validate_optional_embedding : Option EmbeddingConfig → Option InstanceError
validate_optional_embedding none = none
validate_optional_embedding (some e) = validate_embedding_config e

abbrev pub or_else : Option InstanceError → Option InstanceError → Option InstanceError
or_else none o = o
or_else (some e) o = some e

-- The body of the loop of ValidateInstances, with the names seen before.
unfoldable pub validate_instance : ℕ → List Str → NeoInstance → Option InstanceError
unfolding validate_instance_auth validate_embedding_config matches_instance_name
validate_instance i seen inst =
    if inst.name ==s []
    then some (no_name i)
    else if not (matches_instance_name inst.name)
    then some (bad_instance_name i inst.name)
    else if contains reserved_instance_names inst.name
    then some (reserved_name i inst.name)
    else if contains seen inst.name
    then some (duplicate_name i inst.name)
    else if inst.uri ==s []
    then some (no_uri i inst.name)
    else or_else (validate_instance_auth inst.auth) (validate_optional_embedding inst.embedding)

unfoldable pub validate_from : ℕ → List Str → List NeoInstance → Option InstanceError
unfolding validate_instance
validate_from i seen [] = none
validate_from i seen (inst ∷ rest) =
    or_else (validate_instance i seen inst) (validate_from (suc i) (inst.name ∷ seen) rest)

-- ValidateInstances
unfoldable pub validate_instances : List NeoInstance → Option InstanceError
unfolding validate_from
validate_instances [] = some no_instances
validate_instances (inst ∷ rest) = validate_from 0 [] (inst ∷ rest)
