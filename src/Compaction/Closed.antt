-- ===== src/Compaction/Closed.antt =====
-- A boundary is safe exactly if every tool call before it is answered before it.
use lebro.Common.{
  ◌≡◌, refl, ◌∙◌, String, Bool, true, false, ◌&&◌, ◌||◌, List, [], ◌∷◌, ◌++◌, arith, eq_iff, str_eq,
  if◌then◌else◌,
}
use lebro.Compaction.{Message, call_ids, is_tool, delete, open_calls, safe_compaction_boundary}

-- Some message is the result of the call.
abbrev pub has_result : List Message → String → Bool
has_result [] id = false
has_result (m ∷ ms) id = is_tool m.role && str_eq id m.tool_call_id || has_result ms id

abbrev pub have_results : List Message → List String → Bool
have_results ms [] = true
have_results ms (id ∷ ids) = has_result ms id && have_results ms ids

-- Every call has its result in its own message or behind it.
abbrev pub is_closed : List Message → Bool
is_closed [] = true
is_closed (m ∷ ms) = have_results (m ∷ ms) (call_ids m.tool_calls) && is_closed ms

have_results-append :
    (ms : List Message) (xs ys : List String)
    → have_results ms (xs ++ ys) ≡ (have_results ms xs && have_results ms ys)
have_results-append ms [] ys = refl
have_results-append ms (x ∷ xs) ys = ground (arith, have_results-append ms xs ys)

-- What a message leaves to be answered.
unfoldable left : Message → List String → List String
unfolding delete
left m ids = if is_tool m.role then delete m.tool_call_id ids else ids

left_results :
    (m : Message) (ms : List Message) (ids : List String)
    → have_results ms (left m ids) ≡ have_results (m ∷ ms) ids
unfolding left
left_results m ms [] = ground arith
left_results m ms (id ∷ ids) = ground (arith, eq_iff id m.tool_call_id, left_results m ms ids)

abbrev is_nil : List String → Bool
is_nil [] = true
is_nil (_ ∷ _) = false

open_calls_results :
    (pending : List String) (ms : List Message)
    → is_nil (open_calls pending ms) ≡ (have_results ms pending && is_closed ms)
unfolding open_calls left
open_calls_results [] [] = refl
open_calls_results (id ∷ ids) [] = refl
open_calls_results pending (m ∷ ms) =
    open_calls_results (left m (call_ids m.tool_calls ++ pending)) ms
    ∙ ground (
      arith,
      left_results m ms (call_ids m.tool_calls ++ pending),
      have_results-append (m ∷ ms) (call_ids m.tool_calls) pending,
    )

pub safe_compaction_boundary_lem : (ms : List Message) → safe_compaction_boundary ms ≡ is_closed ms
unfolding safe_compaction_boundary
safe_compaction_boundary_lem ms = none_left (open_calls [] ms) ∙ open_calls_results [] ms
  where
    none_left : (ids : List String) → elim ids [ [] ↦ true | id ∷ rest ↦ false ] ≡ is_nil ids
    none_left [] = refl
    none_left (id ∷ rest) = refl
