-- ===== src/Dedup.antt =====
-- channels/dedup.go: MemoryDeduplicator and StoreDeduplicator. The list of keys in the order they
-- came stands for the linked list; the map from a key to its element is the list itself, since both
-- hold the same keys. A call holds the mutex to its end.
pub mod Memory
pub mod Store
mod Tests
use lebro.Common.{
  ℕ, zero, suc, ◌+◌, String, Bool, true, false, ◌||◌, Option, none, some, List, [], ◌∷◌, ◌++◌, ltb,
  ℤ, pos, negsuc, str_eq, length, if◌then◌else◌,
}

pub record MemoryDeduplicator : Type 0 where
  pub capacity : ℕ
  pub order : List String

unfoldable pub new_memory_deduplicator : ℤ → MemoryDeduplicator
new_memory_deduplicator (negsuc _) = record { capacity = 1; order = [] }
new_memory_deduplicator (pos n) = record { capacity = if ltb n 1 then 1 else n; order = [] }

unfoldable pub holds : String → List String → Bool
holds key [] = false
holds key (k ∷ ks) = str_eq key k || holds key ks

-- The loop that removes the oldest keys, over a list longer than the capacity.
unfoldable pub evict : ℕ → List String → List String
evict capacity [] = []
evict capacity (k ∷ ks) =
    let rest = evict capacity ks in if ltb capacity (length (k ∷ ks)) then rest else k ∷ ks

-- MemoryDeduplicator.Seen: whether the key was recorded, and the new state.
unfoldable pub seen : MemoryDeduplicator → String → Bool × MemoryDeduplicator
unfolding holds evict
seen d key =
    if holds key d.order
    then (true, d)
    else (false, record d { order = evict d.capacity (d.order ++ key ∷ []) })

-- What a store's GetThread and CreateThread answer.
pub data GetAnswer : Type 0 where
  found not_found get_failed : GetAnswer

-- The store as one call of StoreDeduplicator.Seen meets it: its markers, the markers that other
-- callers create between the first read and the create, and which of its three calls fail.
pub record Meeting : Type 0 where
  pub markers : List String
  pub between : List String
  pub get_fails : Bool
  pub create_fails : Bool
  pub reread_fails : Bool

unfoldable pub get_thread : Bool → String → List String → GetAnswer
unfolding holds
get_thread fails id markers =
    if fails then get_failed else if holds id markers then found else not_found

pub data SeenAnswer : Type 0 where
  is_seen : Bool → SeenAnswer
  seen_failed : SeenAnswer

-- CreateThread refuses a marker that is there.
unfoldable pub create_thread : Bool → String → List String → Bool × List String
unfolding holds
create_thread fails id markers =
    if fails
    then (false, markers)
    else if holds id markers
    then (false, markers)
    else (true, markers ++ id ∷ [])

-- StoreDeduplicator.Seen, by the marker's ID.
unfoldable pub store_seen : String → Meeting → SeenAnswer × List String
unfolding get_thread create_thread
store_seen id m = elim (get_thread m.get_fails id m.markers) [
  | found ↦ (is_seen true, m.markers ++ m.between)
  | get_failed ↦ (seen_failed, m.markers ++ m.between)
  | not_found ↦
      let (created, markers) = create_thread m.create_fails id (m.markers ++ m.between) in
      if created then (is_seen false, markers) else elim (get_thread m.reread_fails id markers) [
        | found ↦ (is_seen true, markers)
        | not_found ↦ (seen_failed, markers)
        | get_failed ↦ (seen_failed, markers)
      ]
]
