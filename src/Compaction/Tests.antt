-- ===== src/Compaction/Tests.antt =====
-- A concrete transcript, and the theorems applied to it.
use lebro.Common.{ℕ, ◌≤◌, ◌<◌, ◌≡◌, refl, String, true, false, some, List, [], ◌∷◌, ◌⊎◌, take}
use lebro.Compaction.{Message, assistant, tool, shrink, summary_message, replace_compacted_history}
use lebro.Compaction.Closed.{is_closed}
use lebro.Compaction.Boundary.{shrink_finds}
use lebro.Compaction.Replace.{IsCut, summarised, replace-IsCut}

abbrev preamble : String → String
preamble s = s

abbrev said : String → Message
said text = summary_message preamble text

abbrev calling : Message
calling = record (said "") {
  role = assistant;
  tool_calls = record { id = "c1"; tool_id = "sum"; arguments = "{}" } ∷ [];
}

abbrev answered : Message
answered = record (said "42") { role = tool; tool_call_id = "c1" }

abbrev transcript : List Message
transcript = said "a" ∷ calling ∷ answered ∷ said "b" ∷ []

shrink_finds_example :
    let found = shrink transcript 0 2 in
    (found ≤ 2)
    × ((found ≤ 0) ⊎ (is_closed (take found transcript) ≡ true))
    × ((k : ℕ) → found < k → k ≤ 2 → 0 < k → is_closed (take k transcript) ≡ false)
shrink_finds_example = shrink_finds transcript 0 2

replaced :
    replace_compacted_history preamble transcript transcript 0 3 "" "sum"
    ≡ some (summary_message preamble "sum" ∷ said "b" ∷ [])
unfolding replace_compacted_history
replaced = refl

replace-IsCut_example :
    IsCut transcript
      (summarised preamble transcript 0 3 "")
      (summary_message preamble "sum")
      (summary_message preamble "sum" ∷ said "b" ∷ [])
replace-IsCut_example =
    replace-IsCut preamble transcript transcript 0 3 "" "sum"
      (summary_message preamble "sum" ∷ said "b" ∷ []) replaced
