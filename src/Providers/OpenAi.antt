-- ===== src/Providers/OpenAi.antt =====
-- app/providers/openai_provider.py: what `extract` makes of the answer of the API. The client, the parser
-- `json.loads` and the clock are parameters. The request and its schema are left out.
pub mod Returns
use evidence_flow.Prelude.{
  ℕ, Bool, true, false, ◌||◌, Option, none, some, List, [], ◌∷◌, ◌++◌, Text, codes, ◌==◌, nat_eq,
  list_eq, option_eq, contains, if◌then◌else◌, Result, ok, err,
}
use evidence_flow.Domain.Failures.{
  Error, provider_timeout, provider_refusal, malformed_output, client_error,
}
use evidence_flow.Repositories.Models.{Metadata}
use evidence_flow.Services.Extraction.{Intake, Validated, ProviderResult}
use evidence_flow.Domain.Schema.{InvoiceDraft}

-- An exception of the client: whether it is a TimeoutError, the name of its type, and its message.
pub record Failure : Type 0 where
  pub is_timeout_error : Bool
  pub type_name : Text
  pub message : Text

-- An attribute that may be absent or None.
pub data Attribute : Type 0 where
  absent null : Attribute
  present : Text → Attribute

pub record Part : Type 0 where
  pub type : Option Text
  pub refusal : Attribute

pub record Item : Type 0 where
  pub content : Option (List Part)

pub record Usage : Type 0 where
  pub input_tokens : Option ℕ
  pub output_tokens : Option ℕ

-- The attributes of a response that `extract` reads.
pub record Response : Type 0 where
  pub output : Option (List Item)
  pub output_text : Option Text
  pub usage : Option Usage
  pub model : Option Text
  pub id : Option Text

-- A JSON value: an object, as its text, or any other.
pub data Loaded : Type 0 where
  object : Text → Loaded
  not_object : Loaded

-- An exception of `json.loads`: a JSONDecodeError with its message, or another one, such as the
-- ValueError of an integer with too many digits or a RecursionError, by its type and message.
pub data LoadFailure : Type 0 where
  not_json : Text → LoadFailure
  load_raised : Text → Text → LoadFailure

-- `create` is `client.responses.create` on a document, `loads` is `json.loads`, and `elapsed_ms` the time that the call takes.
pub record OpenAiProvider : Type 0 where
  pub create : Text → Result Failure Response
  pub loads : Text → Result LoadFailure Loaded
  pub elapsed_ms : Text → ℕ
  pub model : Text
  pub prompt_hash : Text

abbrev timeout_names : List Text
timeout_names = codes "APITimeoutError" ∷ codes "Timeout" ∷ codes "ReadTimeout" ∷ []

unfoldable pub is_timeout : Failure → Bool
is_timeout f = f.is_timeout_error || contains f.type_name timeout_names

abbrev pub or_nothing : {A : Type 0} → Option (List A) → List A
or_nothing none = []
or_nothing (some xs) = xs

-- `getattr(part, "refusal", "refused")`
abbrev pub refusal_of : Attribute → Option Text
refusal_of absent = some (codes "refused")
refusal_of null = none
refusal_of (present t) = some t

-- What the first part that is a refusal says.
unfoldable pub refusal_in_parts : List Part → Option (Option Text)
refusal_in_parts [] = none
refusal_in_parts (part ∷ parts) =
    let later = refusal_in_parts parts in
    if part.type == some (codes "refusal") then some (refusal_of part.refusal) else later

abbrev pub first_of : {A : Type 0} → Option A → Option A → Option A
first_of none later = later
first_of (some a) later = some a

unfoldable pub refusal_in_items : List Item → Option (Option Text)
unfolding refusal_in_parts
refusal_in_items [] = none
refusal_in_items (item ∷ items) =
    first_of (refusal_in_parts (or_nothing item.content)) (refusal_in_items items)

abbrev joined : {A : Type 0} → Option (Option A) → Option A
joined none = none
joined (some o) = o

-- `_refusal_text`
unfoldable pub refusal_text : Response → Option Text
unfolding refusal_in_items
refusal_text response = joined (refusal_in_items (or_nothing response.output))

abbrev input_tokens_of : Option Usage → Option ℕ
input_tokens_of none = none
input_tokens_of (some u) = u.input_tokens

abbrev output_tokens_of : Option Usage → Option ℕ
output_tokens_of none = none
output_tokens_of (some u) = u.output_tokens

abbrev text_or : Text → Option Text → Text
text_or default none = default
text_or default (some t) = t

abbrev pub result_of : OpenAiProvider → Text → Response → Text → ProviderResult
result_of provider document_text response raw = record {
  raw = raw;
  metadata = record {
    model = text_or provider.model response.model;
    prompt_hash = provider.prompt_hash;
    latency_ms = provider.elapsed_ms document_text;
    input_tokens = input_tokens_of response.usage;
    output_tokens = output_tokens_of response.usage;
    request_id = response.id;
  };
}

-- The result of `json.loads`.
abbrev pub after_loads :
    OpenAiProvider → Text → Response → Result LoadFailure Loaded → Result Error ProviderResult
after_loads provider document_text response (err (load_raised type_name message)) =
    err (client_error type_name message)
after_loads provider document_text response (err (not_json message)) =
    err (malformed_output (codes "output was not JSON: " ++ message))
after_loads provider document_text response (ok not_object) =
    err (malformed_output (codes "output JSON was not an object"))
after_loads provider document_text response (ok (object raw)) =
    ok (result_of provider document_text response raw)

-- `if not text`, and the parse.
abbrev pub read_output :
    OpenAiProvider → Text → Response → Option Text → Result Error ProviderResult
read_output provider document_text response none =
    err (malformed_output (codes "provider returned no output text"))
read_output provider document_text response (some []) =
    err (malformed_output (codes "provider returned no output text"))
read_output provider document_text response (some (c ∷ cs)) =
    after_loads provider document_text response (provider.loads (c ∷ cs))

-- `if refusal`: an empty one is none.
abbrev pub unless_refused :
    OpenAiProvider → Text → Response → Option Text → Result Error ProviderResult
unless_refused provider document_text response none =
    read_output provider document_text response response.output_text
unless_refused provider document_text response (some []) =
    read_output provider document_text response response.output_text
unless_refused provider document_text response (some (c ∷ cs)) = err (provider_refusal (c ∷ cs))

-- What the client returned or raised.
unfoldable pub after_create :
    OpenAiProvider → Text → Result Failure Response → Result Error ProviderResult
unfolding is_timeout refusal_text
after_create provider document_text (err f) =
    if is_timeout f
    then err (provider_timeout f.message)
    else err (client_error f.type_name f.message)
after_create provider document_text (ok response) =
    unless_refused provider document_text response (refusal_text response)

-- `OpenAIProvider.extract`
unfoldable pub extract : OpenAiProvider → Text → Result Error ProviderResult
unfolding after_create
extract provider document_text = after_create provider document_text (provider.create document_text)

-- The provider in the service, with pydantic's validation.
abbrev pub openai_intake : OpenAiProvider → (Text → Validated) → Intake
openai_intake provider model_validate = record {
  provide = extract provider;
  model_validate = model_validate;
}
