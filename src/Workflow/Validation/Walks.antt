-- ===== src/Workflow/Validation/Walks.antt =====
-- How the walk of validateStepTree is put together from its steps, and what its checks say.
use lebro.Common.{
  ℕ, ◌+◌, ◌≤◌, ◌<◌, ◌≡◌, ◌≢◌, refl, subst, ap, ◌∙◌, String, Bool, true, false, not, ◌||◌,
  if◌then◌else◌, Option, none, some, List, [], ◌∷◌, ◌++◌, ℤ, pos, negsuc, Distinct, In, arith,
  append-nil, append_assoc, str_eq, ltb, is_fresh, is_fresh-Fresh, not_fresh-In,
  Distinct-append_new, eq_iff,
}
use lebro.Workflow.Model.{StepId}
use lebro.Workflow.Definition.{StepHead, MapForm, Step, is_set, head}
use lebro.Workflow.StepChecks.{
  Validation, note_id, count, control_count, is_loop_bound, max_loop_iterations, validate_map,
  validate_sleep, validate_task, close_branching,
}

-- A walk from `v` to `v'` saw the IDs `ids`, all new, and what it walked over is in order.
pub record Walked (ids : List StepId) (Ordered : Type 0) (v v' : Validation) : Type 0 where
  pub seen : v'.seen ≡ v.seen ++ ids
  pub new : Distinct v.seen → Distinct v'.seen
  pub ordered : Ordered

pub stayed :
    (Ordered : Type 0) (v v' : Validation) → Ordered → v'.seen ≡ v.seen → Walked [] Ordered v v'
stayed Ordered v v' o e = record {
  seen = grind (arith, e, append-nil v.seen);
  new = λ d. rw e d;
  ordered = o;
}

pub chained :
    (xs ys : List StepId) (P Q : Type 0) (v v₁ v' : Validation)
    → Walked xs P v v₁
    → Walked ys Q v₁ v'
    → Walked (xs ++ ys) (P × Q) v v'
chained xs ys P Q v v₁ v' a b = record {
  seen = b.seen ∙ ap (λ (l : List StepId). l ++ ys) a.seen ∙ append_assoc v.seen xs ys;
  new = λ d. b.new (a.new d);
  ordered = (a.ordered, b.ordered);
}

pub mapped :
    (xs : List StepId) (P Q : Type 0) (v u v' : Validation)
    → u.seen ≡ v.seen
    → (P → Q)
    → Walked xs P u v'
    → Walked xs Q v v'
mapped xs P Q v u v' e f a = record {
  seen = rw⁻¹ e a.seen;
  new = λ d. a.new (rw e d);
  ordered = f a.ordered;
}

pub noted :
    (id : StepId) (v : Validation)
    → is_fresh id v.seen ≡ true
    → Walked (id ∷ []) Unit v (note_id id v)
noted id v e = record {
  seen = refl;
  new = λ d. Distinct-append_new id v.seen (is_fresh-Fresh id v.seen e) d;
  ordered = tt;
}

-- The names of the branches that a walk adds to those before.
pub record Named (names added : List String) (names' : List String) : Type 0 where
  pub all : names' ≡ names ++ added
  pub apart : Distinct names → Distinct names'

pub unnegated : {b : Bool} → not b ≡ false → b ≡ true
unnegated {b} e = ground (arith, e)

pub ne_of : (a b : String) → str_eq a b ≡ false → a ≢ b
ne_of a b e p = ground (arith, e, eq_iff a b)

pub at_most_one : (n : ℕ) → ltb 1 n ≡ false → n ≤ 1
at_most_one n e = ground (arith, e)

pub bounded :
    (limit : ℤ)
    → is_loop_bound limit ≡ true
    → (n : ℕ) × (limit ≡ pos n) × (0 < n) × (n ≤ max_loop_iterations)
bounded (pos n) e = (n, refl, ground (arith, e), ground (arith, e))
bounded (negsuc n) e = ground (arith, e)

pub whole :
    (id : StepId) (ids : List StepId) (P Q : Type 0) (v v' : Validation)
    → is_fresh id v.seen ≡ true
    → (P → Q)
    → Walked ids P (note_id id v) v'
    → Walked (id ∷ ids) Q v v'
whole id ids P Q v v' e f a =
    let both = chained (id ∷ []) ids Unit P v (note_id id v) v' (noted id v e) a in
    record { seen = both.seen; new = both.new; ordered = f a.ordered }

pub padded :
    (ids : List StepId) (P : Type 0) (v v' : Validation)
    → Walked ids P v v'
    → Walked (ids ++ []) P v v'
padded ids P v v' a = rw (append-nil ids) a

pub unnamed : (names : List String) → Named names [] names
unnamed names = record { all = grind (arith, append-nil names); apart = λ d. d }

pub Named-Distinct : (added names' : List String) → Named [] added names' → Distinct added
Named-Distinct added names' n = rw⁻¹ n.all (n.apart tt)

pub Named-In :
    (name : String) (added names' : List String)
    → Named [] added names'
    → In name names'
    → In name added
Named-In name added names' n i = subst (λ (l : List String). In name l) n.all i

pub Named-cons :
    (name : String) (names added names' : List String)
    → is_fresh name names ≡ true
    → Named (names ++ name ∷ []) added names'
    → Named names (name ∷ added) names'
Named-cons name names added names' f n = record {
  all = n.all ∙ append_assoc names (name ∷ []) added;
  apart = λ d. n.apart (Distinct-append_new name names (is_fresh-Fresh name names f) d);
}

pub ended_walk :
    (a b : List String × Validation) → some a ≡ some b → (b.0 ≡ a.0) × (b.1.seen ≡ a.1.seen)
ended_walk a b e = (ground (arith, e), ground (arith, e))

pub by_map :
    (h : StepHead) (m : MapForm) (v v' : Validation)
    → validate_map h m v ≡ some v'
    → v'.seen ≡ v.seen
unfolding validate_map
by_map h m v v' e = ground (arith, e)

pub by_sleep :
    (h : StepHead) (s : Option ℤ) (su : Option (Option ℕ)) (v v' : Validation)
    → validate_sleep h s su v ≡ some v'
    → v'.seen ≡ v.seen
unfolding validate_sleep
by_sleep h s su v v' e = ground (arith, e)

pub by_task :
    (h : StepHead) (v v' : Validation)
    → validate_task h v ≡ some v'
    → (v'.seen ≡ v.seen) × (is_set h.handler ≡ true)
unfolding validate_task
by_task h v v' e = (ground (arith, e), ground (arith, e))

-- A step that sleeps or has a handler.
pub by_rest :
    (h : StepHead) (s : Option ℤ) (su : Option (Option ℕ)) (v v' : Validation)
    → (if is_set s || is_set su then validate_sleep h s su v else validate_task h v) ≡ some v'
    → (v'.seen ≡ v.seen) × ((count (is_set s) + count (is_set su) ≡ 0) → is_set h.handler ≡ true)
by_rest h none none v v' e = ((by_task h v v' e).0, λ z. (by_task h v v' e).1)
by_rest h none (some t) v v' e = (by_sleep h none (some t) v v' e, λ z. absurd (omega (arith, z)))
by_rest h (some d) su v v' e = (by_sleep h (some d) su v v' e, λ z. absurd (omega (arith, z)))

pub closed :
    (h : StepHead) (walked : Option (List String × Validation)) (v' : Validation)
    → close_branching h walked ≡ some v'
    → (names : List String) × (walked ≡ some (names, v')) × (h.default ≢ "" → In h.default names)
unfolding close_branching
closed h none v' e = ground (arith, e)
closed h (some (names, v)) v' e = (
  names,
  ground (arith, e),
  λ given. not_fresh-In h.default names (ground (arith, e, given, eq_iff h.default "")),
)

-- What a form has shown, to be made a statement on the step.
pub record Start (s : Step) (v : Validation) : Type 0 where
  pub named : (head s).id ≢ ""
  pub fresh : is_fresh (head s).id v.seen ≡ true
  pub single : control_count s ≤ 1
