-- ===== src/Scheduling/Best.antt =====
-- `getBestProvider` of apps/cloudbroker/cloudbrokerlib/cloudbroker.py takes the least used stack.
use openvcloud.Prelude.{
  ℕ, ◌≤◌, ◌≡◌, Bool, true, false, not, Option, some, List, [], ◌∷◌, filter, mem, leb, arith,
  Bool-cases, inl, inr, ap, sym, ◌∙◌,
}
use openvcloud.Result.{Error, Result, ok, err, Result-cases}
use openvcloud.Models.{Stack, Models}
use openvcloud.Scheduling.{
  Load, insert, sort, used_memory, serves, loads, get_capacity_info, get_best_provider, first,
}

module _ {A : Type 0} where
  -- Every member of the list has the property.
  abbrev pub AllOf : (A → Type 0) → List A → Type 0
  AllOf P [] = Unit {0}
  AllOf P (x ∷ xs) = P x × AllOf P xs

  AllOf-map : (P Q : A → Type 0) (xs : List A) → ((x : A) → P x → Q x) → AllOf P xs → AllOf Q xs
  AllOf-map P Q [] f w = w
  AllOf-map P Q (x ∷ xs) f w = (f x w.0, AllOf-map P Q xs f w.1)

  AllOf-filter : (P : A → Type 0) (p : A → Bool) (xs : List A) → AllOf P xs → AllOf P (filter p xs)
  AllOf-filter P p [] w = w
  AllOf-filter P p (x ∷ xs) w = elim (Bool-cases (p x)) [
    | inl e ↦ rw e (w.0, AllOf-filter P p xs w.1)
    | inr e ↦ rw e (AllOf-filter P p xs w.1)
  ]

  filter-AllOf :
      (P : A → Type 0) (p : A → Bool) (xs : List A)
      → AllOf P (filter p xs)
      → AllOf (λ x. p x ≡ true → P x) xs
  filter-AllOf P p [] w = w
  filter-AllOf P p (x ∷ xs) w = elim (Bool-cases (p x)) [
    | inl e ↦ let v = rw e at w in ((λ _. v.0), filter-AllOf P p xs v.1)
    | inr e ↦ ((λ t. absurd (apart (sym t ∙ e))), filter-AllOf P p xs (rw e at w))
  ]
    where
      apart : ¬ ((let b : Bool = true in b) ≡ false)
      apart q = cc

AllOf-insert :
    (P : Load → Type 0) (x : Load) (xs : List Load) → P x → AllOf P xs → AllOf P (insert x xs)
unfolding insert
AllOf-insert P x [] p w = (p, w)
AllOf-insert P x (y ∷ ys) p w = elim (Bool-cases (leb x.1 y.1)) [
  | inl e ↦ rw e (p, w)
  | inr e ↦ rw e (w.0, AllOf-insert P x ys p w.1)
]

insert-AllOf :
    (P : Load → Type 0) (x : Load) (xs : List Load) → AllOf P (insert x xs) → P x × AllOf P xs
unfolding insert
insert-AllOf P x [] w = w
insert-AllOf P x (y ∷ ys) w = elim (Bool-cases (leb x.1 y.1)) [
  | inl e ↦ rw e at w
  | inr e ↦ let v = rw e at w in let (a, b) = insert-AllOf P x ys v.1 in (a, (v.0, b))
]

AllOf-sort : (P : Load → Type 0) (xs : List Load) → AllOf P xs → AllOf P (sort xs)
unfolding sort
AllOf-sort P [] w = w
AllOf-sort P (x ∷ xs) w = AllOf-insert P x (sort xs) w.0 (AllOf-sort P xs w.1)

sort-AllOf : (P : Load → Type 0) (xs : List Load) → AllOf P (sort xs) → AllOf P xs
unfolding sort
sort-AllOf P [] w = w
sort-AllOf P (x ∷ xs) w = let (a, b) = insert-AllOf P x (sort xs) w in (a, sort-AllOf P xs b)

abbrev Sorted : List Load → Type 0
Sorted [] = Unit {0}
Sorted (x ∷ xs) = AllOf (λ (y : Load). x.1 ≤ y.1) xs × Sorted xs

insert-Sorted : (x : Load) (xs : List Load) → Sorted xs → Sorted (insert x xs)
unfolding insert
insert-Sorted x [] w = (tt, tt)
insert-Sorted x (y ∷ ys) w = elim (Bool-cases (leb x.1 y.1)) [
  | inl e ↦
      let below : x.1 ≤ y.1 = ground arith in
      rw e (
        (
          below,
          AllOf-map (λ (z : Load). y.1 ≤ z.1) (λ (z : Load). x.1 ≤ z.1) ys (λ z h. omega arith) w.0,
        ),
        w,
      )
  | inr e ↦
      let below : y.1 ≤ x.1 = ground arith in
      rw e (AllOf-insert (λ (z : Load). y.1 ≤ z.1) x ys below w.0, insert-Sorted x ys w.1)
]

sort-Sorted : (xs : List Load) → Sorted (sort xs)
unfolding sort
sort-Sorted [] = tt
sort-Sorted (x ∷ xs) = insert-Sorted x (sort xs) (sort-Sorted xs)

filter-Sorted : (p : Load → Bool) (xs : List Load) → Sorted xs → Sorted (filter p xs)
filter-Sorted p [] w = w
filter-Sorted p (x ∷ xs) w = elim (Bool-cases (p x)) [
  | inl e ↦ rw e (AllOf-filter (λ (y : Load). x.1 ≤ y.1) p xs w.0, filter-Sorted p xs w.1)
  | inr e ↦ rw e (filter-Sorted p xs w.1)
]

filter_kept : {A : Type 0} (p : A → Bool) (xs : List A) → AllOf (λ x. p x ≡ true) (filter p xs)
filter_kept p [] = tt
filter_kept p (x ∷ xs) = elim (Bool-cases (p x)) [
  | inl e ↦ rw e (e, filter_kept p xs)
  | inr e ↦ rw e (filter_kept p xs)
]

module _ (active : ℕ → ℕ → Bool) (gid : ℕ) (image_id : Option ℕ) (models : Models) where
  abbrev Serves : Stack → Type 0
  Serves s = serves active gid image_id models s ≡ true

  abbrev Good : Load → Type 0
  Good x = Serves x.0 × (used_memory models x.0 ≡ ok x.1)

  abbrev allowed : List ℕ → Load → Bool
  allowed excludelist x = not (mem x.0.id excludelist)

  -- What the collected entries are, and that each stack that serves has one.
  loads-AllOf :
      (Q : Load → Type 0) (stacks : List Stack) (found : List Load)
      → loads active gid image_id models stacks ≡ ok found
      → AllOf (λ (x : Load). Serves x.0 × (used_memory models x.0 ≡ ok x.1)) found
        × (AllOf Q found
            → AllOf (λ s. Serves s → (n : ℕ) × (used_memory models s ≡ ok n) × Q (s, n)) stacks)
  unfolding loads
  loads-AllOf Q [] found h = rw (← nil h) (tt, λ w. tt)
    where
      nil : {xs : List Load} → (let r : Result (List Load) = ok xs in r) ≡ ok found → xs ≡ found
      nil q = cc
  loads-AllOf Q (s ∷ stacks) found h =
      elim (Result-cases (loads active gid image_id models stacks)) [
        | inr (x, e) ↦ absurd (refused (rw e at h))
        | inl (rest, e) ↦
            let (good, all_of) = loads-AllOf Q stacks rest e in
            elim (Bool-cases (serves active gid image_id models s)) [
              | inr v ↦
                  rw (← same (rw (e, v) at h))
                    (good, λ w. ((λ t. absurd (apart (sym t ∙ v))), all_of w))
              | inl v ↦ elim (Result-cases (used_memory models s)) [
                | inr (x, u) ↦ absurd (refused (rw (e, v, u) at h))
                | inl (n, u) ↦
                    rw (← same (rw (e, v, u) at h))
                      (((v, u), good), λ w. ((λ _. (n, u, w.0)), all_of w.1))
              ]
            ]
      ]
    where
      refused : {x : Error} → ¬ ((let r : Result (List Load) = err x in r) ≡ ok found)
      refused q = cc

      same : {xs : List Load} → (let r : Result (List Load) = ok xs in r) ≡ ok found → xs ≡ found
      same q = cc

      apart : ¬ ((let b : Bool = true in b) ≡ false)
      apart q = cc

  -- What stands first among the entries that are left, with the rest behind it.
  first_of : (xs : List Load) (x : Load) → first xs ≡ some x → (rest : List Load) × (xs ≡ x ∷ rest)
  first_of [] x h = absurd (ground arith)
  first_of (y ∷ ys) x h = (ys, ap (λ z. z ∷ ys) (inj h))
    where
      inj : {a b : Load} → (let o : Option Load = some a in o) ≡ some b → a ≡ b
      inj q = cc

  -- The stack that `getBestProvider` chooses serves the request and is not excluded, and no stack that
  -- serves the request and is not excluded has less memory in use.
  pub get_best_provider-least :
      (excludelist : List ℕ) (s : Stack) (n : ℕ)
      → get_best_provider active gid image_id models excludelist ≡ ok (some (s, n))
      → Serves s
        × (mem s.id excludelist ≡ false)
        × (used_memory models s ≡ ok n)
        × AllOf
            (λ r.
              Serves r
              → (m : ℕ) × (used_memory models r ≡ ok m)
                × (not (mem r.id excludelist) ≡ true → n ≤ m))
            models.stack
  unfolding get_best_provider get_capacity_info
  get_best_provider-least excludelist s n h =
      elim (Result-cases (loads active gid image_id models models.stack)) [
        | inr (x, e) ↦ absurd (refused (rw e at h))
        | inl (found, e) ↦
            let (rest, f) =
              first_of (filter (allowed excludelist) (sort found)) (s, n) (chosen (rw e at h)) in
            let (good, all_of) =
              loads-AllOf (λ x. allowed excludelist x ≡ true → n ≤ x.1) models.stack found e in
            let goods =
              AllOf-filter Good (allowed excludelist) (sort found) (AllOf-sort Good found good) in
            let kept = filter_kept (allowed excludelist) (sort found) in
            let ordered = filter-Sorted (allowed excludelist) (sort found) (sort-Sorted found) in
            let here = (rw f at goods).0 in
            let free = (rw f at kept).0 in
            let least : AllOf (λ (x : Load). n ≤ x.1) (filter (allowed excludelist) (sort found)) =
              rw f (omega arith, (rw f at ordered).0) in
            (
              here.0,
              ground arith,
              here.1,
              all_of (
                  sort-AllOf (λ x. allowed excludelist x ≡ true → n ≤ x.1) found
                    (filter-AllOf (λ (x : Load). n ≤ x.1) (allowed excludelist) (sort found)
                      least)),
            )
      ]
    where
      refused : {x : Error} → ¬ ((let r : Result (Option Load) = err x in r) ≡ ok (some (s, n)))
      refused q = cc

      chosen :
          {o : Option Load}
          → (let r : Result (Option Load) = ok o in r) ≡ ok (some (s, n))
          → o ≡ some (s, n)
      chosen q = cc
