-- ===== src/Dedup/Memory.antt =====
-- What a MemoryDeduplicator remembers.
use lebro.Common.{
  ℕ, ◌+◌, ◌≤◌, ◌<◌, ◌≡◌, refl, String, true, false, List, [], ◌∷◌, ◌++◌, arith, ltb, ap, ◌∙◌,
  append_assoc, Bool-cases, inl, inr, eq_iff, length, length-append,
}
use lebro.Dedup.{MemoryDeduplicator, holds, evict, seen}

-- The keys of a stream of messages, seen one after another.
unfoldable pub seen_all : MemoryDeduplicator → List String → MemoryDeduplicator
seen_all d [] = d
seen_all d (k ∷ ks) = seen_all (seen d k).1 ks

evict-length : (capacity : ℕ) (ks : List String) → length (evict capacity ks) ≤ capacity
unfolding evict
evict-length capacity [] = omega arith
evict-length capacity (k ∷ ks) = ground (arith, evict-length capacity ks)

-- A key with at most `n` keys behind it.
pub record Recent (n : ℕ) (key : String) (ks : List String) : Type 0 where
  pub before : List String
  pub after : List String
  pub split : ks ≡ before ++ key ∷ after
  pub few : length after ≤ n

evict_fits : (capacity : ℕ) (ks : List String) → length ks ≤ capacity → evict capacity ks ≡ ks
unfolding evict
evict_fits capacity [] h = refl
evict_fits capacity (k ∷ ks) h = ground arith

evict_drops :
    (capacity : ℕ) (k : String) (ks : List String)
    → capacity < length (k ∷ ks)
    → evict capacity (k ∷ ks) ≡ evict capacity ks
unfolding evict
evict_drops capacity k ks h = ground arith

-- A key with fewer than `capacity` keys behind it survives an eviction.
evict-Recent :
    (capacity : ℕ) (key : String) (before after : List String)
    → length after < capacity
    → Recent (length after) key (evict capacity (before ++ key ∷ after))
evict-Recent capacity key [] after h = record {
  before = [];
  after = after;
  split = evict_fits capacity (key ∷ after) (omega arith);
  few = omega arith;
}
evict-Recent capacity key (k ∷ before) after h =
    elim (Bool-cases (ltb capacity (length (k ∷ before ++ key ∷ after)))) [
      | inl over ↦
          rw (evict_drops capacity k (before ++ key ∷ after) (ground arith))
            (evict-Recent capacity key before after h)
      | inr fits ↦ record {
        before = k ∷ before;
        after = after;
        split = evict_fits capacity (k ∷ before ++ key ∷ after) (ground arith);
        few = omega arith;
      }
    ]

holds-Recent :
    (key : String) (before after : List String) → holds key (before ++ key ∷ after) ≡ true
unfolding holds
holds-Recent key [] after = ground (arith, eq_iff key key)
holds-Recent key (k ∷ before) after = ground (arith, holds-Recent key before after)

-- One more message lets at most one more key in behind a recent one.
seen-Recent :
    (n : ℕ) (d : MemoryDeduplicator) (key k : String)
    → Recent n key d.order
    → n + 1 < d.capacity
    → Recent (n + 1) key (seen d k).1.order × ((seen d k).1.capacity ≡ d.capacity)
unfolding seen
seen-Recent n d key k r h = elim (Bool-cases (holds k d.order)) [
  | inl held ↦
      rw (seen, held)
        (
          record {
            before = r.before;
            after = r.after;
            split = r.split;
            few = omega (arith, r.few);
          },
          refl,
        )
  | inr new ↦ rw (seen, new) (pushed, refl)
]
  where
    one_more : length (r.after ++ k ∷ []) ≤ n + 1
    one_more = omega (arith, r.few, length-append r.after (k ∷ []))

    whole : d.order ++ k ∷ [] ≡ r.before ++ key ∷ (r.after ++ k ∷ [])
    whole =
        ap (λ (l : List String). l ++ k ∷ []) r.split
        ∙ append_assoc r.before (key ∷ r.after) (k ∷ [])

    pushed : Recent (n + 1) key (evict d.capacity (d.order ++ k ∷ []))
    pushed =
        let e =
          evict-Recent d.capacity key r.before (r.after ++ k ∷ []) (omega (arith, one_more)) in
        record {
          before = e.before;
          after = e.after;
          split = ap (evict d.capacity) whole ∙ e.split;
          few = omega (arith, e.few, one_more);
        }

seen_all-Recent :
    (n : ℕ) (d : MemoryDeduplicator) (key : String) (ks : List String)
    → Recent n key d.order
    → n + length ks < d.capacity
    → holds key (seen_all d ks).order ≡ true
unfolding seen_all
seen_all-Recent n d key [] r h = rw r.split (holds-Recent key r.before r.after)
seen_all-Recent n d key (k ∷ ks) r h =
    let next = seen-Recent n d key k r (omega arith) in
    seen_all-Recent (n + 1) (seen d k).1 key ks next.0 (omega (arith, next.1))

first-Recent :
    (d : MemoryDeduplicator) (key : String)
    → 0 < d.capacity
    → (seen d key).0 ≡ false
    → Recent 0 key (seen d key).1.order × ((seen d key).1.capacity ≡ d.capacity)
unfolding seen
first-Recent d key pos h =
    let new : holds key d.order ≡ false = ground arith in
    rw (seen, new) (evict-Recent d.capacity key d.order [] pos, refl)

-- A message that was not seen before is recognised as a duplicate when it comes again, as long as
-- fewer messages than the capacity came in between.
pub seen_recognises :
    (d : MemoryDeduplicator) (key : String) (ks : List String)
    → (seen d key).0 ≡ false
    → length ks < d.capacity
    → (seen (seen_all (seen d key).1 ks) key).0 ≡ true
unfolding seen
seen_recognises d key ks new few =
    let first = first-Recent d key (omega arith) new in
    rw (seen_all-Recent 0 (seen d key).1 key ks first.0 (omega (arith, first.1)))

-- The state never holds more keys than its capacity.
pub seen_bounded :
    (d : MemoryDeduplicator) (key : String)
    → length d.order ≤ d.capacity
    → length (seen d key).1.order ≤ (seen d key).1.capacity
unfolding seen
seen_bounded d key h = ground (arith, evict-length d.capacity (d.order ++ key ∷ []))
