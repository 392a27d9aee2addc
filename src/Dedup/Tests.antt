-- ===== src/Dedup/Tests.antt =====
-- Deduplicators on concrete keys, and the theorems applied to them.
use lebro.Common.{◌≡◌, refl, true, false, [], ◌∷◌, arith, pos}
use lebro.Dedup.{MemoryDeduplicator, new_memory_deduplicator, seen, Meeting, store_seen}
use lebro.Dedup.Memory.{seen_all, seen_recognises}
use lebro.Dedup.Store.{Claims, store_seen-Claims}

abbrev three : MemoryDeduplicator
three = record { capacity = 3; order = "a" ∷ "b" ∷ "c" ∷ [] }

abbrev racing : Meeting
racing = record {
  markers = "a" ∷ [];
  between = "m" ∷ [];
  get_fails = false;
  create_fails = false;
  reread_fails = false;
}

new_three : new_memory_deduplicator (pos 3) ≡ record { capacity = 3; order = [] }
unfolding new_memory_deduplicator
new_three = refl

d_is_new : (seen three "d").0 ≡ false
unfolding seen
d_is_new = refl

seen_recognises_example : (seen (seen_all (seen three "d").1 ("e" ∷ "f" ∷ [])) "d").0 ≡ true
seen_recognises_example = seen_recognises three "d" ("e" ∷ "f" ∷ []) d_is_new (omega arith)

store_seen-Claims_example :
    Claims "m" ("a" ∷ "m" ∷ []) (store_seen "m" racing).0 (store_seen "m" racing).1
store_seen-Claims_example = store_seen-Claims "m" racing
