-- ===== src/Compaction.antt =====
-- internal/runtime/context_compaction.go: where a transcript may be cut, and how the messages of a
-- request are replaced by a summary. An encoded field of a message (its
-- content parts, structured output and the details of its reasoning) is the text that it is encoded
-- as, and its tool calls are the list that is encoded; an index is given by the part of the list from it on.
pub mod Closed
pub mod Boundary
pub mod Replace
mod Tests
use lebro.Common.{
  ℕ, zero, suc, ◌+◌, ◌-◌, String, Bool, true, false, not, ◌&&◌, Option, none, some, List, [], ◌∷◌,
  ◌++◌, ltb, str_eq, length, take, drop, if◌then◌else◌,
}

pub data Role : Type 0 where
  user assistant system tool : Role

-- ModelToolCall.
pub record ToolCall : Type 0 where
  pub id : String
  pub tool_id : String
  pub arguments : String

-- ModelReasoning.
pub record Reasoning : Type 0 where
  pub text : String
  pub details : String

pub record Message : Type 0 where
  pub role : Role
  pub content : String
  pub content_parts : String
  pub name : String
  pub tool_call_id : String
  pub tool_calls : List ToolCall
  pub structured_output : String
  pub reasoning : Reasoning

abbrev pub call_ids : List ToolCall → List String
call_ids [] = []
call_ids (c ∷ cs) = c.id ∷ call_ids cs

unfoldable pub delete : String → List String → List String
delete id [] = []
delete id (x ∷ xs) = let rest = delete id xs in if str_eq x id then rest else x ∷ rest

abbrev pub is_tool : Role → Bool
is_tool tool = true
is_tool _ = false

-- The loop of safeCompactionBoundary: the set of calls that have no result yet.
unfoldable pub open_calls : List String → List Message → List String
unfolding delete
open_calls pending [] = pending
open_calls pending (m ∷ ms) =
    let called = call_ids m.tool_calls ++ pending in
    open_calls (if is_tool m.role then delete m.tool_call_id called else called) ms

unfoldable pub safe_compaction_boundary : List Message → Bool
unfolding open_calls
safe_compaction_boundary records = elim (open_calls [] records) [ [] ↦ true | id ∷ ids ↦ false ]

-- `for end > covered && !safeCompactionBoundary(prior[:end]) { end-- }`
unfoldable pub shrink : List Message → ℕ → ℕ → ℕ
shrink prior covered zero = zero
shrink prior covered (suc end) =
    let shorter = shrink prior covered end in
    if ltb covered (suc end) && not (safe_compaction_boundary (take (suc end) prior))
    then shorter
    else suc end

unfoldable pub role_eq : Role → Role → Bool
role_eq user user = true
role_eq assistant assistant = true
role_eq system system = true
role_eq tool tool = true
role_eq _ _ = false

unfoldable pub call_eq : ToolCall → ToolCall → Bool
call_eq c d = str_eq c.id d.id && (str_eq c.tool_id d.tool_id && str_eq c.arguments d.arguments)

unfoldable pub calls_eq : List ToolCall → List ToolCall → Bool
unfolding call_eq
calls_eq [] [] = true
calls_eq [] (y ∷ ys) = false
calls_eq (x ∷ xs) [] = false
calls_eq (x ∷ xs) (y ∷ ys) = call_eq x y && calls_eq xs ys

unfoldable pub reasoning_eq : Reasoning → Reasoning → Bool
reasoning_eq r s = str_eq r.text s.text && str_eq r.details s.details

-- `==` on two Message values.
unfoldable pub message_eq : Message → Message → Bool
unfolding role_eq calls_eq reasoning_eq
message_eq m n =
    role_eq m.role n.role
    && (str_eq m.content n.content
        && (str_eq m.content_parts n.content_parts
            && (str_eq m.name n.name
                && (str_eq m.tool_call_id n.tool_call_id
                    && (calls_eq m.tool_calls n.tool_calls
                        && (str_eq m.structured_output n.structured_output
                            && reasoning_eq m.reasoning n.reasoning))))))

-- The messages before the first one that equals `m`, and those from it on.
unfoldable pub find_message : Message → List Message → Option (List Message × List Message)
unfolding message_eq
find_message m [] = none
find_message m (x ∷ xs) =
    let later = find_message m xs in
    if message_eq x m
    then some ([], x ∷ xs)
    else elim later [ none ↦ none | some (before, from) ↦ some (x ∷ before, from) ]

-- The loop that compares the messages with the transcript, and what is left behind them.
unfoldable pub strip : List Message → List Message → Option (List Message)
unfolding message_eq
strip [] ms = some ms
strip (p ∷ ps) [] = none
strip (p ∷ ps) (m ∷ ms) = let rest = strip ps ms in if message_eq m p then rest else none

-- The messages with `covered`, behind `keep`, replaced by one.
unfoldable pub splice : List Message → List Message → List Message → Message → Option (List Message)
unfolding strip
splice before from covered by = elim (strip covered from) [
  | none ↦ none
  | some rest ↦ some (before ++ by ∷ rest)
]

-- summaryMessage; `preamble` is its fixed text followed by the summary.
abbrev pub summary_message : (String → String) → String → Message
summary_message preamble summary = record {
  role = user;
  content = preamble summary;
  content_parts = "";
  name = "";
  tool_call_id = "";
  tool_calls = [];
  structured_output = "";
  reasoning = record { text = ""; details = "" };
}

unfoldable pub replace_prior_history :
    (String → String) → List Message → List Message → ℕ → String → Option (List Message)
unfolding find_message splice
replace_prior_history preamble messages [] end summary = none
replace_prior_history preamble messages (p ∷ prior) end summary = elim (find_message p messages) [
  | none ↦ none
  | some (before, from) ↦
      splice before from (take end (p ∷ prior)) (summary_message preamble summary)
]

unfoldable pub replace_compacted_history :
    (String → String)
    → List Message
    → List Message
    → (covered end : ℕ) → (previous summary : String) → Option (List Message)
unfolding replace_prior_history
replace_compacted_history preamble messages prior zero end previous summary =
    replace_prior_history preamble messages prior end summary
replace_compacted_history preamble messages prior (suc covered) end previous summary =
    elim (find_message (summary_message preamble previous) messages) [
      | none ↦ none
      | some (before, from) ↦
          splice before from
            (summary_message preamble previous
              ∷ take (end - suc covered) (drop (suc covered) prior))
            (summary_message preamble summary)
    ]
