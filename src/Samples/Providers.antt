-- ===== src/Samples/Providers.antt =====
-- A document that is extracted through the API.
use evidence_flow.Prelude.{none, some, [], ◌∷◌, codes, ok}
use evidence_flow.Providers.OpenAi.{OpenAiProvider, Response, Loaded, Attribute}

-- A response with a part that is no refusal, and a JSON object as its text.
abbrev response : Response
response = record {
  output = some (
      record {
        content =
            some (record { type = some (codes "output_text"); refusal = Attribute.absent } ∷ []);
      }
      ∷ []);
  output_text = some (codes "{}");
  usage = none;
  model = none;
  id = some (codes "r");
}

abbrev provider : OpenAiProvider
provider = record {
  create = λ text. ok response;
  loads = λ text. ok (Loaded.object text);
  elapsed_ms = λ text. 5;
  model = codes "m";
  prompt_hash = codes "p";
}
