-- ===== src/Compaction/Replace.antt =====
-- A replacement of history by a summary cuts out exactly the summarised messages.
use lebro.Common.{
  ℕ, zero, suc, ◌-◌, ◌≡◌, refl, ap, ◌∙◌, String, Bool, true, false, Option, none, some, List, [],
  ◌∷◌, ◌++◌, arith, eq_iff, take, drop, if◌then◌else◌,
}
use lebro.Compaction.{
  Role, ToolCall, Reasoning, Message, role_eq, call_eq, calls_eq, reasoning_eq, message_eq,
  find_message, strip, splice, summary_message, replace_prior_history, replace_compacted_history,
}

role_eq_sound : (a b : Role) → role_eq a b ≡ true → a ≡ b
unfolding role_eq
role_eq_sound a b h = ground arith

call_eq_sound : (c d : ToolCall) → call_eq c d ≡ true → c ≡ d
unfolding call_eq
call_eq_sound c d h =
    ground (arith, eq_iff c.id d.id, eq_iff c.tool_id d.tool_id, eq_iff c.arguments d.arguments)

calls_eq_sound : (xs ys : List ToolCall) → calls_eq xs ys ≡ true → xs ≡ ys
unfolding calls_eq
calls_eq_sound [] [] h = refl
calls_eq_sound [] (y ∷ ys) h = cc
calls_eq_sound (x ∷ xs) [] h = cc
calls_eq_sound (x ∷ xs) (y ∷ ys) h = ground (arith, call_eq_sound x y, calls_eq_sound xs ys)

reasoning_eq_sound : (r s : Reasoning) → reasoning_eq r s ≡ true → r ≡ s
unfolding reasoning_eq
reasoning_eq_sound r s h = ground (arith, eq_iff r.text s.text, eq_iff r.details s.details)

message_eq_sound : (m n : Message) → message_eq m n ≡ true → m ≡ n
unfolding message_eq
message_eq_sound m n h = ground (
  arith,
  role_eq_sound m.role n.role,
  eq_iff m.content n.content,
  eq_iff m.tool_call_id n.tool_call_id,
  eq_iff m.content_parts n.content_parts,
  eq_iff m.name n.name,
  calls_eq_sound m.tool_calls n.tool_calls,
  eq_iff m.structured_output n.structured_output,
  reasoning_eq_sound m.reasoning n.reasoning,
)

strip-append : (ps ms rest : List Message) → strip ps ms ≡ some rest → ms ≡ ps ++ rest
unfolding strip
strip-append [] ms rest h = cc
strip-append (p ∷ ps) [] rest h = cc
strip-append (p ∷ ps) (m ∷ ms) rest h =
    ground (arith, message_eq_sound m p, strip-append ps ms rest)

-- The two parts of a list that was divided make it up.
abbrev Joined : List Message → Option (List Message × List Message) → Type 0
Joined ms none = Unit
Joined ms (some (before, from)) = ms ≡ before ++ from

find-Joined : (m : Message) (ms : List Message) → Joined ms (find_message m ms)
unfolding find_message
find-Joined m [] = tt
find-Joined m (x ∷ xs) = go (message_eq x m) (find_message m xs) (find-Joined m xs)
  where
    go :
        (b : Bool) (later : Option (List Message × List Message))
        → Joined xs later
        → Joined (x ∷ xs) (
            if b
            then some ([], x ∷ xs)
            else elim later [ none ↦ none | some (before, from) ↦ some (x ∷ before, from) ])
    go true later j = refl
    go false none j = tt
    go false (some (before, from)) j = ap (λ (l : List Message). x ∷ l) j

-- `out` is `messages` with the stretch `covered` replaced by the message `by`.
abbrev pub IsCut : List Message → List Message → Message → List Message → Type 0
IsCut messages covered by out =
    (before : List Message) × (rest : List Message) × (messages ≡ before ++ (covered ++ rest))
    × (out ≡ before ++ by ∷ rest)

splice-IsCut :
    (messages before from covered : List Message) (by : Message) (out : List Message)
    → messages ≡ before ++ from
    → splice before from covered by ≡ some out
    → IsCut messages covered by out
unfolding splice
splice-IsCut messages before from covered by out m h = go (strip covered from) refl h
  where
    go :
        (r : Option (List Message))
        → strip covered from ≡ r
        → elim r [ none ↦ none | some rest ↦ some (before ++ by ∷ rest) ] ≡ some out
        → IsCut messages covered by out
    go none e h = cc
    go (some rest) e h = (
      before,
      rest,
      m ∙ ap (λ (l : List Message). before ++ l) (strip-append covered from rest e),
      cc,
    )

prior-IsCut :
    (preamble : String → String) (messages prior : List Message) (end : ℕ) (summary : String)
    (out : List Message)
    → replace_prior_history preamble messages prior end summary ≡ some out
    → IsCut messages (take end prior) (summary_message preamble summary) out
unfolding replace_prior_history
prior-IsCut preamble messages [] end summary out h = cc
prior-IsCut preamble messages (p ∷ prior) end summary out h =
    go (find_message p messages) (find-Joined p messages) h
  where
    go :
        (r : Option (List Message × List Message))
        → Joined messages r
        → elim r [
          | none ↦ none
          | some (before, from) ↦
              splice before from (take end (p ∷ prior)) (summary_message preamble summary)
        ]
          ≡ some out
        → IsCut messages (take end (p ∷ prior)) (summary_message preamble summary) out
    go none j h = cc
    go (some (before, from)) j h =
        splice-IsCut messages before from (take end (p ∷ prior)) (summary_message preamble summary)
          out j h

-- What a replacement takes out: the transcript's first `end` messages, or the earlier summary and
-- the messages after what it covers.
abbrev pub summarised : (String → String) → List Message → (covered end : ℕ) → String → List Message
summarised preamble prior zero end previous = take end prior
summarised preamble prior (suc covered) end previous =
    summary_message preamble previous ∷ take (end - suc covered) (drop (suc covered) prior)

-- When the history of a request is replaced, the new messages are the old ones with exactly one
-- stretch, which is the summarised part of the transcript (behind the earlier summary, if there is
-- one), replaced by the new summary; everything before and after it stays.
pub replace-IsCut :
    (preamble : String → String) (messages prior : List Message) (covered end : ℕ)
    (previous summary : String) (out : List Message)
    → replace_compacted_history preamble messages prior covered end previous summary ≡ some out
    → IsCut messages
        (summarised preamble prior covered end previous)
        (summary_message preamble summary)
        out
unfolding replace_compacted_history
replace-IsCut preamble messages prior zero end previous summary out h =
    prior-IsCut preamble messages prior end summary out h
replace-IsCut preamble messages prior (suc covered) end previous summary out h =
    go (find_message (summary_message preamble previous) messages)
      (find-Joined (summary_message preamble previous) messages) h
  where
    gone : List Message
    gone = summary_message preamble previous ∷ take (end - suc covered) (drop (suc covered) prior)

    go :
        (r : Option (List Message × List Message))
        → Joined messages r
        → elim r [
          | none ↦ none
          | some (before, from) ↦ splice before from gone (summary_message preamble summary)
        ]
          ≡ some out
        → IsCut messages gone (summary_message preamble summary) out
    go none j h = cc
    go (some (before, from)) j h =
        splice-IsCut messages before from gone (summary_message preamble summary) out j h
