-- ===== src/Chunker/Windows.antt =====
-- The windows of a document: they are bounded, and together they are the document.
use lebro.Common.{
  ℕ, zero, suc, ◌+◌, ◌-◌, ◌≤◌, ◌<◌, ◌≡◌, refl, ap, ◌∙◌, sym, false, Option, none, some, List, [],
  ◌∷◌, ◌++◌, arith, ltb, length, take, drop, append-nil, All, inl, inr, Bool-cases,
}
use lebro.Chunker.{
  CharacterChunker, Chunk, Chunked, chunked, cancelled, with_chunk, chunk_from, chunk,
}

-- The contents with what each repeats of the one before it taken off.
abbrev pub later_contents : ℕ → List Chunk → List ℕ
later_contents overlap [] = []
later_contents overlap (c ∷ cs) = drop overlap c.content ++ later_contents overlap cs

abbrev pub contents : ℕ → List Chunk → List ℕ
contents overlap [] = []
contents overlap (c ∷ cs) = c.content ++ later_contents overlap cs

take-drop : (n : ℕ) (xs : List ℕ) → take n xs ++ drop n xs ≡ xs
take-drop zero xs = refl
take-drop (suc n) [] = refl
take-drop (suc n) (x ∷ xs) = ap (λ (l : List ℕ). x ∷ l) (take-drop n xs)

take_all : (n : ℕ) (xs : List ℕ) → length xs ≤ n → take n xs ≡ xs
take_all zero [] h = refl
take_all zero (x ∷ xs) h = absurd (omega arith)
take_all (suc n) [] h = refl
take_all (suc n) (x ∷ xs) h = ap (λ (l : List ℕ). x ∷ l) (take_all n xs (omega arith))

length-take : (n : ℕ) (xs : List ℕ) → n ≤ length xs → length (take n xs) ≡ n
length-take zero xs h = refl
length-take (suc n) [] h = absurd (omega arith)
length-take (suc n) (x ∷ xs) h = omega (arith, length-take n xs (omega arith))

length-drop : (n : ℕ) (xs : List ℕ) → length (drop n xs) ≡ length xs - n
length-drop zero xs = omega arith
length-drop (suc n) [] = omega arith
length-drop (suc n) (x ∷ xs) = omega (arith, length-drop n xs)

drop_nil : (n : ℕ) → drop {A = ℕ} n [] ≡ []
drop_nil zero = refl
drop_nil (suc n) = refl

drop-drop : (m n : ℕ) (xs : List ℕ) → drop m (drop n xs) ≡ drop (n + m) xs
drop-drop m zero xs = ap (λ k. drop k xs) (the_same m)
  where
    the_same : (k : ℕ) → k ≡ 0 + k
    the_same k = omega arith
drop-drop m (suc n) [] = drop_nil m ∙ sym (drop_nil (suc n + m))
drop-drop m (suc n) (x ∷ xs) = drop-drop m n xs ∙ ap (λ k. drop k (x ∷ xs)) (one_out n m)
  where
    one_out : (a b : ℕ) → suc (a + b) ≡ suc a + b
    one_out a b = omega arith

drop-append : (n : ℕ) (xs ys : List ℕ) → n ≤ length xs → drop n (xs ++ ys) ≡ drop n xs ++ ys
drop-append zero xs ys h = refl
drop-append (suc n) [] ys h = absurd (omega arith)
drop-append (suc n) (x ∷ xs) ys h = drop-append n xs ys (omega arith)

module _ (c : CharacterChunker) (narrow : c.overlap < c.size) (runes : List ℕ) where
  -- The chunks of the part from `start` on, which reaches beyond the overlap.
  abbrev Good : ℕ → Option Chunked → Type 0
  Good start none = ⊥
  Good start (some cancelled) = ⊥
  Good start (some (chunked [])) = ⊥
  Good start (some (chunked (w ∷ ws))) =
      (contents c.overlap (w ∷ ws) ≡ drop start runes)
      × (c.overlap ≤ length w.content)
      × All (λ x. length x.content ≤ c.size) (w ∷ ws)

  -- A full window before chunks that are good.
  full-Good :
      (start : ℕ) (w : Chunk) (r : Option Chunked)
      → start + c.size ≤ length runes
      → w.content ≡ take c.size (drop start runes)
      → Good (start + (c.size - c.overlap)) r
      → Good start (with_chunk w r)
  full-Good start w none fits eq good = good
  full-Good start w (some cancelled) fits eq good = good
  full-Good start w (some (chunked [])) fits eq good = absurd good
  full-Good start w (some (chunked (v ∷ vs))) fits eq good = (
    ap (λ (l : List ℕ). l ++ later_contents c.overlap (v ∷ vs)) eq
        ∙ ap (λ (l : List ℕ). take c.size (drop start runes) ++ l) tail_eq
        ∙ take-drop c.size (drop start runes),
    omega (arith, width, narrow),
    (omega (arith, width), good.2),
  )
    where
      width : length w.content ≡ c.size
      width =
          ap length eq
          ∙ length-take c.size (drop start runes) (omega (arith, length-drop start runes))

      arrived : (a s o : ℕ) → o < s → a + (s - o) + o ≡ a + s
      arrived a s o h = omega arith

      tail_eq : later_contents c.overlap (v ∷ vs) ≡ drop c.size (drop start runes)
      tail_eq =
          sym (drop-append c.overlap v.content (later_contents c.overlap vs) good.1)
          ∙ ap (λ (l : List ℕ). drop c.overlap l) good.0
          ∙ drop-drop c.overlap (start + (c.size - c.overlap)) runes
          ∙ ap (λ k. drop k runes) (arrived start c.size c.overlap narrow)
          ∙ sym (drop-drop c.size start runes)

  last_step :
      (n start index : ℕ)
      → start < length runes
      → length runes ≤ start + c.size
      → chunk_from (suc n) (λ _. false) c runes start index
        ≡ some (chunked (record { index = index; content = drop start runes } ∷ []))
  unfolding chunk_from
  last_step n start index inside fits =
      let whole =
        take_all (length runes - start) (drop start runes)
          (omega (arith, length-drop start runes)) in
      ground (arith, whole)

  full_step :
      (n start index : ℕ)
      → start + c.size < length runes
      → chunk_from (suc n) (λ _. false) c runes start index
        ≡ with_chunk
            (record { index = index; content = take c.size (drop start runes) })
            (chunk_from n (λ _. false) c runes (start + (c.size - c.overlap)) (index + 1))
  unfolding chunk_from
  full_step n start index more =
      let width : start + c.size - start ≡ c.size = omega arith in ground (arith, width)

  from-Good :
      (n : ℕ) (start index : ℕ)
      → start + c.overlap < length runes
      → length runes < start + n
      → Good start (chunk_from n (λ _. false) c runes start index)
  unfolding chunk_from
  from-Good zero start index beyond fuel = absurd (omega arith)
  from-Good (suc n) start index beyond fuel =
      elim (Bool-cases (ltb (start + c.size) (length runes))) [
        | inl more ↦ rw (full_step n start index (ground (arith, more))) (
            full-Good start (record { index = index; content = take c.size (drop start runes) })
              (chunk_from n (λ _. false) c runes (start + (c.size - c.overlap)) (index + 1))
              (ground (arith, more)) refl
              (from-Good n (start + (c.size - c.overlap)) (index + 1) (ground (arith, more, narrow))
                (omega (arith, narrow, fuel))))
        | inr last ↦ rw (last_step n start index (omega arith) (ground (arith, last))) (
          append-nil (drop start runes),
          omega (arith, length-drop start runes),
          (ground (arith, last, length-drop start runes), tt),
        )
      ]

  -- Chunks that are at most as long as the size and make up the document.
  abbrev pub Covers : Option Chunked → Type 0
  Covers none = ⊥
  Covers (some cancelled) = ⊥
  Covers (some (chunked ws)) =
      (contents c.overlap ws ≡ runes) × All (λ x. length x.content ≤ c.size) ws

  Good-Covers : (r : Option Chunked) → Good 0 r → Covers r
  Good-Covers none g = g
  Good-Covers (some cancelled) g = g
  Good-Covers (some (chunked [])) g = absurd g
  Good-Covers (some (chunked (w ∷ ws))) g = (g.0, g.2)

  -- Of a document with content, in a live context and with more fuel than runes: the chunks are
  -- there, each has at most the configured size, and put together, with what every later one repeats
  -- of its predecessor taken off, they are the document.
  pub chunk-Covers :
      (fuel : ℕ) → 0 < length runes → length runes < fuel → Covers (chunk fuel (λ _. false) c runes)
  unfolding chunk
  chunk-Covers zero some_text enough = absurd (omega arith)
  chunk-Covers (suc n) some_text enough = elim (Bool-cases (ltb c.overlap (length runes))) [
    | inl longer ↦
        Good-Covers (chunk_from (suc n) (λ _. false) c runes 0 0)
          (from-Good (suc n) 0 0 (ground (arith, longer)) (omega arith))
    | inr short ↦
        rw (last_step n 0 0 some_text (ground (arith, short, narrow)))
          (append-nil runes, (ground (arith, short, narrow), tt))
  ]
