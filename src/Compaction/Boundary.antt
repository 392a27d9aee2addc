-- ===== src/Compaction/Boundary.antt =====
-- Where the search for a boundary ends.
use lebro.Common.{
  sym, ◌∙◌, ℕ, zero, suc, ◌≤◌, ◌<◌, ◌≡◌, true, false, List, ◌⊎◌, inl, inr, arith, leb, Bool-cases,
  take,
}
use lebro.Compaction.Closed.{is_closed, safe_compaction_boundary_lem}
use lebro.Compaction.{Message, safe_compaction_boundary, shrink}

shrink_searches :
    (prior : List Message) (covered end : ℕ)
    → let found = shrink prior covered end in
      (found ≤ end)
      × ((found ≤ covered) ⊎ (safe_compaction_boundary (take found prior) ≡ true))
      × ((k : ℕ)
          → found < k
          → k ≤ end
          → covered < k
          → safe_compaction_boundary (take k prior) ≡ false)
unfolding shrink
shrink_searches prior covered zero =
    (omega arith, inl (omega arith), λ k a b c. absurd (omega arith))
shrink_searches prior covered (suc end) =
    let (low, at, none_between) = shrink_searches prior covered end in
    (
      ground (arith, low),
      ground (arith, at),
      λ k a b c. elim (Bool-cases (leb k end)) [
        | inl before ↦ ground (arith, a, before, none_between k)
        | inr last ↦
            let top : k ≡ suc end = ground (arith, last, b) in ground (arith, a, c, top, low)
      ],
    )

-- The search for a boundary ends at most at its start. Where it ends it has nothing left to cover, or
-- every tool call before it is answered before it; and it passes over no such place beyond the
-- covered part.
pub shrink_finds :
    (prior : List Message) (covered end : ℕ)
    → let found = shrink prior covered end in
      (found ≤ end)
      × ((found ≤ covered) ⊎ (is_closed (take found prior) ≡ true))
      × ((k : ℕ) → found < k → k ≤ end → covered < k → is_closed (take k prior) ≡ false)
shrink_finds prior covered end =
    let (low, at, none_between) = shrink_searches prior covered end in
    (
      low,
      elim at [
        | inl l ↦ inl l
        | inr e ↦
            inr (sym (safe_compaction_boundary_lem (take (shrink prior covered end) prior)) ∙ e)
      ],
      λ k a b c. sym (safe_compaction_boundary_lem (take k prior)) ∙ none_between k a b c,
    )
