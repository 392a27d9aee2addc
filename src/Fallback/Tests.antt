-- ===== src/Fallback/Tests.antt =====
-- A walk along a concrete chain, and the theorems applied to it.
use lebro.Common.{◌≡◌, refl, true, false, Option, none, some, List, [], ◌∷◌, str_eq, if◌then◌else◌}
use lebro.Fallback.{
  ProviderId, ProviderCapabilities, ProviderEntry, response, reader, model_failure, Routing,
  ModelAttempt, failed, routed, generate_with_attempts, stream_with_attempts, satisfies,
}
use lebro.Fallback.Attempts.{Tells, generate_with_attempts-Tells}

abbrev no_needs : ProviderCapabilities
no_needs = record {
  supports_tools = false;
  supports_structured_output = false;
  supports_streaming = false;
}

-- "b" fails in a retryable way, "c" answers.
abbrev registry : ProviderId → Option ProviderEntry
registry id = some (record {
  capabilities = no_needs;
  generate = λ n.
      if str_eq id "b"
      then model_failure (record { kind_retryable = true; number = 1 })
      else response 7;
  stream = if str_eq id "c" then some (λ n. reader 8) else none;
})

abbrev routing : Routing
routing = record {
  policy = record { chain = "a" ∷ "b" ∷ "c" ∷ []; retryable = none };
  skip = "a";
  eligible = [];
  requirements = no_needs;
  registry = registry;
  context_done = λ _. false;
}

routed_to_c : (generate_with_attempts routing []).0 ≡ routed (response 7)
unfolding generate_with_attempts satisfies
routed_to_c = refl

-- A router has tried "a" before.
abbrev prior : List ModelAttempt
prior = record { provider = "a"; status = failed } ∷ []

generate_with_attempts-Tells_example :
    Tells routing ("a" ∷ "b" ∷ "c" ∷ []) prior (generate_with_attempts routing prior)
generate_with_attempts-Tells_example = generate_with_attempts-Tells routing prior

-- A model that can stream is asked to.
streamed_by_c : (stream_with_attempts routing prior).0 ≡ routed (reader 8)
unfolding stream_with_attempts satisfies
streamed_by_c = refl
