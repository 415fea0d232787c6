-- ===== src/Providers/Fake.antt =====
-- app/providers/fake.py: the provider that replays payloads. A payload is its text as JSON. Reading the
-- fixtures from their directories is left out.
use Prim.Native.Nat.{max}
use evidence_flow.Prelude.{
  ℕ, ◌/◌, Option, none, some, List, [], ◌∷◌, ◌++◌, Text, codes, ◌==◌, nat_eq, list_eq, length,
  str_of_int, if◌then◌else◌, Result, ok, err,
}
use evidence_flow.Domain.Failures.{Error, provider_error}
use evidence_flow.Services.Extraction.{ProviderResult}

abbrev fake_model : Text
fake_model = codes "fake-extractor-1"

-- `_estimate_tokens`
unfoldable pub estimate_tokens : Text → ℕ
estimate_tokens text = max (length text / 4) 1

-- `FakeProvider`, with the digest of the prompt as a parameter.
pub record FakeProvider : Type 0 where
  pub handler : Text → Result Error Text
  pub latency_ms : ℕ
  pub calls : List Text
  pub prompt_hash : Text

-- The handler's answer, after `n` calls.
abbrev pub answered : FakeProvider → Text → ℕ → Result Error Text → Result Error ProviderResult
answered provider document_text n (err e) = err e
answered provider document_text n (ok raw) = ok (record {
  raw = raw;
  metadata = record {
    model = fake_model;
    prompt_hash = provider.prompt_hash;
    latency_ms = provider.latency_ms;
    input_tokens = some (estimate_tokens document_text);
    output_tokens = some (estimate_tokens raw);
    request_id = some (codes "fake-" ++ str_of_int n);
  };
})

-- `FakeProvider.extract`
unfoldable pub extract : FakeProvider → Text → Result Error ProviderResult × FakeProvider
unfolding estimate_tokens
extract provider document_text =
    let calls = provider.calls ++ document_text ∷ [] in
    (
      answered provider document_text (length calls) (provider.handler document_text),
      record provider { calls = calls },
    )

abbrev pub returning : Text → ℕ → Text → FakeProvider
returning payload latency_ms prompt_hash = record {
  handler = λ text. ok payload;
  latency_ms = latency_ms;
  calls = [];
  prompt_hash = prompt_hash;
}

abbrev pub raising : Error → ℕ → Text → FakeProvider
raising error latency_ms prompt_hash = record {
  handler = λ text. err error;
  latency_ms = latency_ms;
  calls = [];
  prompt_hash = prompt_hash;
}

-- `payloads[text]`
unfoldable pub payload_of : Text → List (Text × Text) → Option Text
payload_of text [] = none
payload_of text ((key, payload) ∷ rest) =
    let later = payload_of text rest in if key == text then some payload else later

abbrev or_no_payload : Text → Option Text → Result Error Text
or_no_payload text none = err (
    provider_error
      (codes "no fake payload for document of " ++ str_of_int (length text) ++ codes " chars"))
or_no_payload text (some payload) = ok payload

-- `from_mapping`, on a dictionary, whose keys differ.
unfoldable pub from_mapping : List (Text × Text) → ℕ → Text → FakeProvider
unfolding payload_of
from_mapping payloads latency_ms prompt_hash = record {
  handler = λ text. or_no_payload text (payload_of text payloads);
  latency_ms = latency_ms;
  calls = [];
  prompt_hash = prompt_hash;
}
