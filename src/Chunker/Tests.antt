-- ===== src/Chunker/Tests.antt =====
-- A chunker on a concrete document, and its theorem applied to it.
use lebro.Common.{ℕ, ◌≡◌, refl, false, some, List, [], ◌∷◌, arith, pos}
use lebro.Chunker.{CharacterChunker, new_character_chunker, chunker, chunked, chunk}
use lebro.Chunker.Windows.{Covers, chunk-Covers}

abbrev three_by_two : CharacterChunker
three_by_two = record { size = 3; overlap = 1 }

abbrev text : List ℕ
text = 1 ∷ 2 ∷ 3 ∷ 4 ∷ 5 ∷ 6 ∷ []

constructed : new_character_chunker (pos 3) (pos 1) ≡ chunker three_by_two
unfolding new_character_chunker
constructed = refl

chunk-Covers_example :
    Covers three_by_two (omega arith) text (chunk 7 (λ _. false) three_by_two text)
chunk-Covers_example = chunk-Covers three_by_two (omega arith) text 7 (omega arith) (omega arith)

three_chunks :
    chunk 7 (λ _. false) three_by_two text
    ≡ some (
        chunked (
          record { index = 0; content = 1 ∷ 2 ∷ 3 ∷ [] }
          ∷ record { index = 1; content = 3 ∷ 4 ∷ 5 ∷ [] }
          ∷ record { index = 2; content = 5 ∷ 6 ∷ [] }
          ∷ []))
unfolding chunk
three_chunks = refl
