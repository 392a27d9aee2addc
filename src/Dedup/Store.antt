-- ===== src/Dedup/Store.antt =====
-- What a StoreDeduplicator answers among concurrent deliveries.
use lebro.Common.{
  ◌≡◌, refl, subst, String, true, false, ◌||◌, List, [], ◌∷◌, ◌++◌, arith, eq_iff, Bool, Bool-cases,
  inl, inr, if◌then◌else◌,
}
use lebro.Dedup.{
  SeenAnswer, GetAnswer, seen_failed, found, not_found, get_failed, get_thread, create_thread,
  holds, Meeting, is_seen, store_seen,
}

holds-append :
    (key : String) (xs ys : List String) → holds key (xs ++ ys) ≡ (holds key xs || holds key ys)
unfolding holds
holds-append key [] ys = refl
holds-append key (x ∷ xs) ys = ground (arith, holds-append key xs ys)

holds_self : (key : String) → holds key (key ∷ []) ≡ true
unfolding holds
holds_self key = ground (arith, eq_iff key key)

-- What an answer says of the markers at the create and of those afterwards.
abbrev pub Claims : String → List String → SeenAnswer → List String → Type 0
Claims id before (is_seen true) after =
    (holds id before ≡ true) × (holds id after ≡ true) × (after ≡ before)
Claims id before (is_seen false) after =
    (holds id before ≡ false) × (holds id after ≡ true) × (after ≡ before ++ id ∷ [])
Claims id before seen_failed after = after ≡ before

created_holds : (id : String) (xs : List String) → holds id (xs ++ id ∷ []) ≡ true
created_holds id xs = ground (arith, holds-append id xs (id ∷ []), holds_self id)

module _ (id : String) (m : Meeting) where
  abbrev before : List String
  before = m.markers ++ m.between

  -- The create was refused, or failed; `reread` is what the second read answers.
  reread-Claims :
      (fails : Bool)
      → Claims id before
          (elim (get_thread fails id before) [
            | found ↦ is_seen true
            | not_found ↦ seen_failed
            | get_failed ↦ seen_failed
          ])
          before
  unfolding get_thread
  reread-Claims true = refl
  reread-Claims false = elim (Bool-cases (holds id before)) [
    | inl h ↦ rw (h) (h, h, refl)
    | inr h ↦ rw (h) refl
  ]

  -- What follows a read that found no marker.
  abbrev claim : Bool × List String → SeenAnswer × List String
  claim (created, markers) =
      if created then (is_seen false, markers) else elim (get_thread m.reread_fails id markers) [
        | found ↦ (is_seen true, markers)
        | not_found ↦ (seen_failed, markers)
        | get_failed ↦ (seen_failed, markers)
      ]

  answered :
      (g : GetAnswer)
      → Claims id before
          (elim g [ found ↦ is_seen true | not_found ↦ seen_failed | get_failed ↦ seen_failed ])
          before
      → (r : SeenAnswer × List String) × (r ≡ elim g [
        | found ↦ (is_seen true, before)
        | not_found ↦ (seen_failed, before)
        | get_failed ↦ (seen_failed, before)
      ])
        × Claims id before r.0 r.1
  answered found c = ((is_seen true, before), refl, c)
  answered not_found c = ((seen_failed, before), refl, c)
  answered get_failed c = ((seen_failed, before), refl, c)

  refused-Claims : Claims id before (claim (false, before)).0 (claim (false, before)).1
  refused-Claims =
      let (r, e, c) =
        answered (get_thread m.reread_fails id before) (reread-Claims m.reread_fails) in
      subst (λ (x : SeenAnswer × List String). Claims id before x.0 x.1) e c

  create-Claims :
      (fails : Bool)
      → Claims id before
          (claim (create_thread fails id before)).0
          (claim (create_thread fails id before)).1
  unfolding create_thread
  create-Claims true = refused-Claims
  create-Claims false = go (holds id before) refl
    where
      go :
          (b : Bool)
          → holds id before ≡ b
          → let made : Bool × List String =
              if b then (false, before) else (true, before ++ id ∷ []) in
            Claims id before (claim made).0 (claim made).1
      go true h = refused-Claims
      go false h = (h, created_holds id before, refl)

  -- What the first read makes of the call.
  first-Claims :
      (g : GetAnswer)
      → get_thread m.get_fails id m.markers ≡ g
      → Claims id before (store_seen id m).0 (store_seen id m).1
  unfolding store_seen get_thread
  first-Claims found e =
      let there : holds id before ≡ true = ground (arith, holds-append id m.markers m.between, e) in
      rw (store_seen, e) (there, there, refl)
  first-Claims not_found e = rw (store_seen, e) (create-Claims m.create_fails)
  first-Claims get_failed e = rw (store_seen, e) refl

-- Whatever other deliveries add between its first read and its create: a delivery that is told "not
-- seen" adds its own marker, which was not in the store, behind all that are there; one that is told
-- "seen" has its marker in the store and changes nothing; and one that fails changes nothing.
pub store_seen-Claims :
    (id : String) (m : Meeting)
    → Claims id (m.markers ++ m.between) (store_seen id m).0 (store_seen id m).1
store_seen-Claims id m = first-Claims id m (get_thread m.get_fails id m.markers) refl
