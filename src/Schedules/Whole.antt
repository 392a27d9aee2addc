-- ===== src/Schedules/Whole.antt =====
-- The list of schedules that match a filter: its length, and how its parts make it up.
use lebro.Common.{
  ℕ, zero, suc, ◌+◌, ◌-◌, ◌≤◌, ◌≡◌, refl, sym, ap, ◌∙◌, Bool, true, false, List, [], ◌∷◌, ◌++◌,
  length, take, drop, arith, if◌then◌else◌,
}
use lebro.Schedules.{ScheduleRecord, ScheduleFilter, schedule_matches_filter}
use lebro.Schedules.Pages.{comes_before, insert_schedule, sort_schedules, matching}

pub take_all : {A : Type 0} (n : ℕ) (xs : List A) → length xs ≤ n → take n xs ≡ xs
take_all zero [] h = refl
take_all zero (x ∷ xs) h = absurd (omega arith)
take_all (suc n) [] h = refl
take_all (suc n) (x ∷ xs) h = ap (λ ys. x ∷ ys) (take_all n xs (omega arith))

take_none : {A : Type 0} (n : ℕ) → take {A = A} n [] ≡ []
take_none zero = refl
take_none (suc n) = refl

pub take-drop :
    {A : Type 0} (n k : ℕ) (xs : List A) → take n xs ++ take k (drop n xs) ≡ take (n + k) xs
take-drop zero k xs = ap (λ (m : ℕ). take m xs) (omega arith)
take-drop (suc n) k [] = take_none k ∙ sym (take_none (suc n + k))
take-drop (suc n) k (x ∷ xs) =
    let e : suc n + k ≡ suc (n + k) = omega arith in rw (e) (ap (λ ys. x ∷ ys) (take-drop n k xs))

pub take_part :
    {A : Type 0} (n m : ℕ) (xs : List A) → n ≤ m → take n xs ++ take (m - n) (drop n xs) ≡ take m xs
take_part n m xs h = take-drop n (m - n) xs ∙ ap (λ (k : ℕ). take k xs) (omega (arith, h))

-- How many schedules match.
unfoldable pub count_matching : ScheduleFilter → List ScheduleRecord → ℕ
count_matching filter [] = 0
count_matching filter (s ∷ rest) =
    let others = count_matching filter rest in
    if schedule_matches_filter s filter then suc others else others

either_counts :
    (filter : ScheduleFilter) (b : Bool) (xs ys : List ScheduleRecord) (n : ℕ)
    → count_matching filter xs ≡ n
    → count_matching filter ys ≡ n
    → count_matching filter (if b then xs else ys) ≡ n
either_counts filter true xs ys n e k = e
either_counts filter false xs ys n e k = k

insert_schedule_counts :
    (filter : ScheduleFilter) (v : ScheduleRecord) (ss : List ScheduleRecord)
    → count_matching filter (insert_schedule v ss) ≡ count_matching filter (v ∷ ss)
unfolding count_matching insert_schedule
insert_schedule_counts filter v [] = refl
insert_schedule_counts filter v (s ∷ rest) =
    either_counts filter (comes_before s v) (s ∷ insert_schedule v rest) (v ∷ s ∷ rest)
      (count_matching filter (v ∷ s ∷ rest)) (ground (arith, insert_schedule_counts filter v rest))
      refl

sort_schedules_counts :
    (filter : ScheduleFilter) (ss : List ScheduleRecord)
    → count_matching filter (sort_schedules ss) ≡ count_matching filter ss
unfolding count_matching sort_schedules
sort_schedules_counts filter [] = refl
sort_schedules_counts filter (s ∷ rest) =
    insert_schedule_counts filter s (sort_schedules rest)
    ∙ ap (λ (n : ℕ). if schedule_matches_filter s filter then suc n else n)
        (sort_schedules_counts filter rest)

length-matching :
    (filter : ScheduleFilter) (ss : List ScheduleRecord)
    → length (matching filter ss) ≡ count_matching filter ss
unfolding count_matching matching
length-matching filter [] = refl
length-matching filter (s ∷ rest) = ground (arith, length-matching filter rest)

pub matching_counts :
    (filter : ScheduleFilter) (ss : List ScheduleRecord)
    → length (matching filter (sort_schedules ss)) ≡ count_matching filter ss
matching_counts filter ss =
    length-matching filter (sort_schedules ss) ∙ sort_schedules_counts filter ss

pub count_matching-length :
    (filter : ScheduleFilter) (ss : List ScheduleRecord) → count_matching filter ss ≤ length ss
unfolding count_matching
count_matching-length filter [] = omega arith
count_matching-length filter (s ∷ rest) = ground (arith, count_matching-length filter rest)
