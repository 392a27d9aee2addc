-- ===== src/Chunker.antt =====
-- internal/runtime/rag_chunker.go: CharacterChunker; chunkerSize of rag_recursive_chunker.go. A
-- document's content is the list of its runes. The context is read once a window. A chunk keeps its
-- index and content; its ID, source and metadata are copies.
pub mod Windows
mod Tests
use lebro.Common.{
  ℕ, zero, suc, ◌+◌, ◌-◌, Bool, true, false, Option, none, some, List, [], ◌∷◌, ltb, leb, ◌==◌, ℤ,
  pos, negsuc, length, take, drop, if◌then◌else◌,
}

pub record CharacterChunker : Type 0 where
  pub size : ℕ
  pub overlap : ℕ

pub data ConfigError : Type 0 where
  negative_size negative_overlap overlap_too_large : ConfigError

pub data Constructed : Type 0 where
  chunker : CharacterChunker → Constructed
  rejected : ConfigError → Constructed

-- chunkerSize: zero stands for the default; `none` for a negative size.
unfoldable pub chunker_size : ℤ → Option ℕ
chunker_size (pos n) = some (if n == 0 then 1000 else n)
chunker_size (negsuc _) = none

unfoldable pub new_character_chunker : ℤ → ℤ → Constructed
unfolding chunker_size
new_character_chunker size overlap = elim (chunker_size size) [
  | none ↦ rejected negative_size
  | some s ↦ elim overlap [
    | negsuc _ ↦ rejected negative_overlap
    | pos o ↦
        if leb s o then rejected overlap_too_large else chunker (record { size = s; overlap = o })
  ]
]

pub record Chunk : Type 0 where
  pub index : ℕ
  pub content : List ℕ

-- The chunks, or a finished context.
pub data Chunked : Type 0 where
  chunked : List Chunk → Chunked
  cancelled : Chunked

abbrev pub with_chunk : Chunk → Option Chunked → Option Chunked
with_chunk c none = none
with_chunk c (some cancelled) = some cancelled
with_chunk c (some (chunked cs)) = some (chunked (c ∷ cs))

-- The loop on fuel, from a start on; `none` when the fuel runs out.
unfoldable pub chunk_from :
    ℕ → (ℕ → Bool) → CharacterChunker → List ℕ → (start index : ℕ) → Option Chunked
chunk_from zero done c runes start index = none
chunk_from (suc n) done c runes start index =
    let end : ℕ = if ltb (length runes) (start + c.size) then length runes else start + c.size in
    let window : Chunk = record {
      index = index;
      content = take (end - start) (drop start runes);
    } in
    let later = chunk_from n done c runes (start + (c.size - c.overlap)) (index + 1) in
    if ltb start (length runes)
    then (if done index
        then some cancelled
        else if end == length runes
        then some (chunked (window ∷ []))
        else with_chunk window later)
    else some (chunked [])

-- Chunk, of a document that validateChunkerInput accepts.
unfoldable pub chunk : ℕ → (ℕ → Bool) → CharacterChunker → List ℕ → Option Chunked
unfolding chunk_from
chunk fuel done c runes = chunk_from fuel done c runes 0 0
