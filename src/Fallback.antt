-- ===== src/Fallback.antt =====
-- internal/runtime/fallback.go: the walk along a chain of model providers, for plain and for
-- streaming requests, with the attempts that it records; ProviderCapabilities.Satisfies of
-- provider_registry.go. A response, a reader and an error are known by a number.
pub mod Attempts
mod Tests
use lebro.Common.{
  ℕ, zero, suc, ◌+◌, String, Bool, true, false, not, ◌&&◌, ◌||◌, Option, none, some, List, [], ◌∷◌,
  ◌++◌, str_eq, if◌then◌else◌,
}

abbrev pub ProviderId : Type 0
ProviderId = String

pub record ProviderCapabilities : Type 0 where
  pub supports_tools : Bool
  pub supports_structured_output : Bool
  pub supports_streaming : Bool

unfoldable pub satisfies : ProviderCapabilities → ProviderCapabilities → Bool
satisfies caps req =
    if req.supports_tools && not caps.supports_tools
    then false
    else if req.supports_structured_output && not caps.supports_structured_output
    then false
    else if req.supports_streaming && not caps.supports_streaming
    then false
    else true

-- A *ModelError: the verdict that its kind has in the table of model_error.go, and the rest of it.
pub record ModelError : Type 0 where
  pub kind_retryable : Bool
  pub number : ℕ

-- What a provider answers: a response, a reader of its own, a ModelError, another error.
pub data Answer : Type 0 where
  response : ℕ → Answer
  reader : ℕ → Answer
  model_failure : ModelError → Answer
  other_failure : ℕ → Answer

-- ProviderEntry. A model may answer each call differently, by the number of calls made before;
-- one that streams has a second way to be asked.
pub record ProviderEntry : Type 0 where
  pub capabilities : ProviderCapabilities
  pub generate : ℕ → Answer
  pub stream : Option (ℕ → Answer)

pub record FallbackPolicy : Type 0 where
  pub chain : List ProviderId
  pub retryable : Option (ModelError → Bool)

pub data ChainError : Type 0 where
  empty_chain empty_entry : ChainError
  duplicate_provider : ProviderId → ChainError

abbrev pub contains : ProviderId → List ProviderId → Bool
contains id [] = false
contains id (x ∷ xs) = str_eq id x || contains id xs

-- The loop over the entries; `seen` holds those behind it.
unfoldable pub validate_entries : List ProviderId → List ProviderId → Option ChainError
validate_entries seen [] = none
validate_entries seen (id ∷ rest) =
    let later = validate_entries (id ∷ seen) rest in
    if str_eq id ""
    then some empty_entry
    else if contains id seen
    then some (duplicate_provider id)
    else later

unfoldable pub validate : FallbackPolicy → Option ChainError
unfolding validate_entries
validate f = elim f.chain [ [] ↦ some empty_chain | id ∷ ids ↦ validate_entries [] (id ∷ ids) ]

unfoldable pub is_retryable : FallbackPolicy → ModelError → Bool
is_retryable f e = elim f.retryable [ none ↦ e.kind_retryable | some p ↦ p e ]

pub data AttemptStatus : Type 0 where
  success failed fallback : AttemptStatus

pub record ModelAttempt : Type 0 where
  pub provider : ProviderId
  pub status : AttemptStatus

pub data RouteError : Type 0 where
  context_finished : RouteError
  not_found : ProviderId → RouteError
  model_error : ModelError → RouteError
  other_error : ℕ → RouteError
  exhausted : RouteError

-- RouteResult and StreamRouteResult: how the walk ends. A response that serves a streaming request
-- is turned into a reader.
pub data Ending : Type 0 where
  routed : Answer → Ending
  unrouted : RouteError → Ending

-- What the observer is told.
pub data Observation : Type 0 where
  attempt_started : ProviderId → Observation
  attempt_finished : ModelAttempt → Observation

-- The variables of the walk; `polls` and `calls` count reads of the context and calls of models.
pub record Walk : Type 0 where
  pub attempts : List ModelAttempt
  pub observed : List Observation
  pub last_error : Option RouteError
  pub polls : ℕ
  pub calls : ℕ

-- What surrounds the walk.
pub record Routing : Type 0 where
  pub policy : FallbackPolicy
  pub skip : ProviderId
  pub eligible : List ProviderId
  pub requirements : ProviderCapabilities
  pub registry : ProviderId → Option ProviderEntry
  pub context_done : ℕ → Bool

-- The providers that the walk does not pass over.
unfoldable pub is_candidate : Routing → ProviderId → Bool
is_candidate g id =
    if str_eq id g.skip
    then false
    else elim g.eligible [ [] ↦ true | e ∷ es ↦ contains id (e ∷ es) ]

unfoldable pub note : AttemptStatus → ProviderId → Walk → Walk
note status id w =
    let a : ModelAttempt = record { provider = id; status = status } in
    record w { attempts = w.attempts ++ a ∷ []; observed = w.observed ++ attempt_finished a ∷ [] }

-- What follows an answer: an end, or `none` to go on.
unfoldable pub on_answer : FallbackPolicy → ProviderId → Answer → Walk → Option Ending × Walk
unfolding note is_retryable
on_answer f id (response r) w = (some (routed (response r)), note success id w)
on_answer f id (reader r) w = (some (routed (reader r)), note success id w)
on_answer f id (other_failure n) w = (some (unrouted (other_error n)), note failed id w)
on_answer f id (model_failure e) w =
    if not (is_retryable f e)
    then (some (unrouted (model_error e)), note failed id w)
    else (none, record (note fallback id w) { last_error = some (model_error e) })

-- One provider of the chain; `ask` is how its model is called.
unfoldable pub try_provider :
    Routing → (ProviderEntry → ℕ → Answer) → ProviderId → Walk → Option Ending × Walk
unfolding is_candidate on_answer
try_provider g ask id w =
    if not (is_candidate g id)
    then (none, w)
    else (let w₁ = record w { polls = w.polls + 1 } in
        if g.context_done w.polls
        then (some (unrouted context_finished), w₁)
        else elim (g.registry id) [
          | none ↦ (none, record w₁ { last_error = some (not_found id) })
          | some entry ↦
              if not (satisfies entry.capabilities g.requirements)
              then (none, w₁)
              else on_answer g.policy id (ask entry w.calls) (record w₁ {
                observed = w.observed ++ attempt_started id ∷ [];
                calls = w.calls + 1;
              })
        ])

unfoldable pub walk_chain :
    Routing → (ProviderEntry → ℕ → Answer) → List ProviderId → Walk → Ending × Walk
unfolding try_provider
walk_chain g ask [] w = (unrouted (elim w.last_error [ none ↦ exhausted | some e ↦ e ]), w)
walk_chain g ask (id ∷ rest) w =
    let (end, w') = try_provider g ask id w in
    let later = walk_chain g ask rest w' in elim end [ some e ↦ (e, w') | none ↦ later ]

abbrev pub start_walk : List ModelAttempt → Walk
start_walk prior = record {
  attempts = prior;
  observed = [];
  last_error = none;
  polls = 0;
  calls = 0;
}

unfoldable pub generate_with_attempts : Routing → List ModelAttempt → Ending × Walk
unfolding walk_chain
generate_with_attempts g prior = walk_chain g (λ e. e.generate) g.policy.chain (start_walk prior)

abbrev pub ask_stream : ProviderEntry → ℕ → Answer
ask_stream e = elim e.stream [ some s ↦ s | none ↦ e.generate ]

unfoldable pub stream_with_attempts : Routing → List ModelAttempt → Ending × Walk
unfolding walk_chain
stream_with_attempts g prior = walk_chain g ask_stream g.policy.chain (start_walk prior)
