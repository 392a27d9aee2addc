-- ===== src/Fallback/Attempts.antt =====
-- What the attempts of a walk say of its end, and which providers it attempts.
use lebro.Common.{
  ℕ, ◌≡◌, ◌≢◌, refl, sym, subst, ap, ◌∙◌, ◌⊎◌, inl, inr, Bool, true, false, not, ◌&&◌, Option, none,
  some, List, [], ◌∷◌, ◌++◌, In, arith, append-nil, append_assoc, eq_iff, str_eq, Bool-cases,
}
use lebro.Fallback.{
  ProviderId, ProviderCapabilities, ProviderEntry, Answer, AttemptStatus, success, failed, fallback,
  ModelAttempt, Ending, routed, unrouted, Walk, Routing, contains, satisfies, is_candidate,
  on_answer, try_provider, walk_chain, start_walk, generate_with_attempts, FallbackPolicy,
  is_retryable, response, reader, other_failure, model_failure, RouteError, exhausted,
}

abbrev is_fallback : AttemptStatus → Bool
is_fallback fallback = true
is_fallback _ = false

abbrev is_routed : Ending → Bool
is_routed (routed _) = true
is_routed (unrouted _) = false

-- Whether a last attempt of this status fits the end: a success exactly when it is routed.
abbrev fits : AttemptStatus → Ending → Bool
fits success e = is_routed e
fits failed e = not (is_routed e)
fits fallback e = not (is_routed e)

-- Every attempt but the last fell back, and the last one fits the end; without attempts there is
-- no response.
abbrev pub tells : List ModelAttempt → Ending → Bool
tells [] e = not (is_routed e)
tells (a ∷ []) e = fits a.status e
tells (a ∷ b ∷ rest) e = is_fallback a.status && tells (b ∷ rest) e

-- What is asked for is offered.
abbrev Offers : Bool → Bool → Type 0
Offers needed offered = (needed ≡ false) ⊎ (offered ≡ true)

-- A provider that a walk may attempt: not the one to skip, eligible if a list of eligible ones is
-- given, registered, and able to do what is required.
pub record MayAttempt (g : Routing) (id : ProviderId) : Type 0 where
  pub kept : id ≢ g.skip
  pub eligible : (g.eligible ≡ []) ⊎ In id g.eligible
  pub entry : ProviderEntry
  pub registered : g.registry id ≡ some entry
  pub tools : Offers g.requirements.supports_tools entry.capabilities.supports_tools
  pub structured :
      Offers g.requirements.supports_structured_output entry.capabilities.supports_structured_output
  pub streaming : Offers g.requirements.supports_streaming entry.capabilities.supports_streaming

-- The attempts go along the chain, at most one for each of its entries, at providers that may be
-- attempted.
abbrev pub Along : Routing → List ProviderId → List ModelAttempt → Type 0
Along g [] made = made ≡ []
Along g (id ∷ chain) made =
    Along g chain made
    ⊎ ((a : ModelAttempt) × (rest : List ModelAttempt) × (made ≡ a ∷ rest)
        × (a.provider ≡ id)
        × MayAttempt g id
        × Along g chain rest)

contains-In : (id : ProviderId) (xs : List ProviderId) → contains id xs ≡ true → In id xs
contains-In id [] h = absurd (ground (arith, h))
contains-In id (x ∷ xs) h = elim (Bool-cases (str_eq id x)) [
  | inl e ↦ inl (ground (arith, eq_iff id x, e))
  | inr e ↦ inr (contains-In id xs (ground (arith, e, h)))
]

candidate :
    (g : Routing) (id : ProviderId)
    → is_candidate g id ≡ true
    → (id ≢ g.skip) × ((g.eligible ≡ []) ⊎ In id g.eligible)
unfolding is_candidate
candidate g id h = (λ p. ground (arith, eq_iff id g.skip, p, h), go g.eligible refl)
  where
    go : (xs : List ProviderId) → g.eligible ≡ xs → (g.eligible ≡ []) ⊎ In id g.eligible
    go [] e = inl e
    go (x ∷ xs) e = inr (
        subst (λ (l : List ProviderId). In id l) (sym e)
          (contains-In id (x ∷ xs) (ground (arith, h, e))))

offers :
    (caps req : ProviderCapabilities)
    → satisfies caps req ≡ true
    → Offers req.supports_tools caps.supports_tools
      × Offers req.supports_structured_output caps.supports_structured_output
      × Offers req.supports_streaming caps.supports_streaming
unfolding satisfies
offers caps req h = (ground (arith, h), ground (arith, h), ground (arith, h))

abbrev attempt : ProviderId → AttemptStatus → ModelAttempt
attempt id status = record { provider = id; status = status }

-- One answer adds one attempt, which fits what the answer makes of the walk.
abbrev Answered : ProviderId → Walk → Option Ending × Walk → Type 0
Answered id w (none, w') = w'.attempts ≡ w.attempts ++ attempt id fallback ∷ []
Answered id w (some e, w') =
    (status : AttemptStatus) × (w'.attempts ≡ w.attempts ++ attempt id status ∷ [])
    × (fits status e ≡ true)

on_answer-Answered :
    (f : FallbackPolicy) (id : ProviderId) (a : Answer) (w : Walk)
    → Answered id w (on_answer f id a w)
unfolding on_answer
on_answer-Answered f id (response r) w = (success, refl, refl)
on_answer-Answered f id (reader r) w = (success, refl, refl)
on_answer-Answered f id (other_failure n) w = (failed, refl, refl)
on_answer-Answered f id (model_failure e) w = elim (Bool-cases (is_retryable f e)) [
  | inl q ↦ rw (q) refl
  | inr q ↦ rw (q) (failed, refl, refl)
]

-- One provider of the chain adds an attempt, or none.
abbrev Tried : Routing → ProviderId → Walk → Option Ending × Walk → Type 0
Tried g id w (none, w') =
    (w'.attempts ≡ w.attempts)
    ⊎ ((w'.attempts ≡ w.attempts ++ attempt id fallback ∷ []) × MayAttempt g id)
Tried g id w (some e, w') =
    ((w'.attempts ≡ w.attempts) × (is_routed e ≡ false))
    ⊎ ((status : AttemptStatus) × (w'.attempts ≡ w.attempts ++ attempt id status ∷ [])
        × (fits status e ≡ true)
        × MayAttempt g id)

tried :
    (g : Routing) (id : ProviderId) (w : Walk) (r : Option Ending × Walk)
    → MayAttempt g id
    → Answered id w r
    → Tried g id w r
tried g id w (none, w') may a = inr (a, may)
tried g id w (some e, w') may (status, a, f) = inr (status, a, f, may)

try_provider-Tried :
    (g : Routing) (ask : ProviderEntry → ℕ → Answer) (id : ProviderId) (w : Walk)
    → Tried g id w (try_provider g ask id w)
unfolding try_provider
try_provider-Tried g ask id w = elim (Bool-cases (is_candidate g id)) [
  | inr q ↦ rw (try_provider, q) (inl refl)
  | inl q ↦ elim (Bool-cases (g.context_done w.polls)) [
    | inl d ↦ rw (try_provider, q, d) (inl (refl, refl))
    | inr d ↦ entered q d (g.registry id) refl
  ]
]
  where
    entered :
        is_candidate g id ≡ true
        → g.context_done w.polls ≡ false
        → (o : Option ProviderEntry) → g.registry id ≡ o
        → Tried g id w (try_provider g ask id w)
    entered q d none e = rw (try_provider, q, d, e) (inl refl)
    entered q d (some entry) e = elim (Bool-cases (satisfies entry.capabilities g.requirements)) [
      | inr k ↦ rw (try_provider, q, d, e, k) (inl refl)
      | inl k ↦
          let (kept, eligible) = candidate g id q in
          let (tools, structured, streaming) = offers entry.capabilities g.requirements k in
          let may : MayAttempt g id = record {
            kept = kept;
            eligible = eligible;
            entry = entry;
            registered = e;
            tools = tools;
            structured = structured;
            streaming = streaming;
          } in
          rw (try_provider, q, d, e, k)
            (tried g id w _ may (on_answer-Answered g.policy id (ask entry w.calls) _))
    ]

-- The walk adds attempts along its chain, which tell how it ends.
abbrev pub Tells : Routing → List ProviderId → List ModelAttempt → Ending × Walk → Type 0
Tells g chain prior (e, w) =
    (made : List ModelAttempt) × (w.attempts ≡ prior ++ made)
    × (tells made e ≡ true)
    × Along g chain made

none_left :
    (o : Option RouteError)
    → is_routed (unrouted (elim o [ none ↦ exhausted | some e ↦ e ])) ≡ false
none_left o = refl

fell_back :
    (id : ProviderId) (made : List ModelAttempt) (e : Ending)
    → tells made e ≡ true
    → tells (attempt id fallback ∷ made) e ≡ true
fell_back id [] e h = h
fell_back id (a ∷ rest) e h = h

nothing-Along : (g : Routing) (chain : List ProviderId) → Along g chain []
nothing-Along g [] = refl
nothing-Along g (x ∷ xs) = inl (nothing-Along g xs)

walk_chain-Tells :
    (g : Routing) (ask : ProviderEntry → ℕ → Answer) (chain : List ProviderId) (w : Walk)
    → Tells g chain w.attempts (walk_chain g ask chain w)
unfolding walk_chain
walk_chain-Tells g ask [] w = ([], sym (append-nil w.attempts), refl, refl)
walk_chain-Tells g ask (id ∷ rest) w =
    go (walk_chain-Tells g ask rest) (try_provider g ask id w) (try_provider-Tried g ask id w)
  where
    go :
        ((x : Walk) → Tells g rest x.attempts (walk_chain g ask rest x))
        → (r : Option Ending × Walk) → Tried g id w r
        → Tells g
            (id ∷ rest)
            w.attempts
            (elim r.0 [ some e ↦ (e, r.1) | none ↦ walk_chain g ask rest r.1 ])
    go later (some e, w') (inl (same, u)) =
        ([], same ∙ sym (append-nil w.attempts), ground (arith, u), inl (nothing-Along g rest))
    go later (some e, w') (inr (status, more, f, may)) = (
      attempt id status ∷ [],
      more,
      f,
      inr (attempt id status, [], refl, refl, may, nothing-Along g rest),
    )
    go later (none, w') (inl same) =
        let (made, q, t, along) = later w' in
        (made, q ∙ ap (λ (xs : List ModelAttempt). xs ++ made) same, t, inl along)
    go later (none, w') (inr (more, may)) =
        let (made, q, t, along) = later w' in
        (
          attempt id fallback ∷ made,
          q
              ∙ ap (λ (xs : List ModelAttempt). xs ++ made) more
              ∙ append_assoc w.attempts (attempt id fallback ∷ []) made,
          fell_back id made (walk_chain g ask rest w').0 t,
          inr (attempt id fallback, made, refl, refl, may, along),
        )

-- A walk for a plain request keeps the attempts that it is given and adds its own behind them. Those
-- go along the chain, at most one for each of its entries: each at a provider that is not the one to
-- skip, is eligible if a list of eligible ones is given, is registered, and offers all that is
-- required. They tell how the walk ended: every one but the last fell back; if the walk has a
-- response, the last one is its success, and there is one; if it has an error, the last one, if
-- there is any, failed or fell back.
pub generate_with_attempts-Tells :
    (g : Routing) (prior : List ModelAttempt)
    → Tells g g.policy.chain prior (generate_with_attempts g prior)
unfolding generate_with_attempts
generate_with_attempts-Tells g prior =
    walk_chain-Tells g (λ e. e.generate) g.policy.chain (start_walk prior)
