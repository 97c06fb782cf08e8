-- ===== src/Machines/Candidates.antt =====
-- The stacks that the loop of `Machine.create` has left, and that the best of them is one.
use openvcloud.Prelude.{
  ℕ, ◌≤◌, ◌<◌, ◌≡◌, refl, Bool, true, false, not, ◌||◌, Option, some, List, [], ◌∷◌, ◌++◌, arith,
  ◌==◌, ==_iff, ==_refl, any, mem, mem-append, filter, length, Bool-cases, inl, inr, ◌∙◌, sym,
  subst,
}
use openvcloud.Result.{Error, Result, ok, err, Result-cases}
use openvcloud.Models.{Stack, Models}
use openvcloud.Models.Table.{set}
use openvcloud.Models.Unique.{some_eq}
use openvcloud.Scheduling.{
  Load, stack_id_of, first, sort, insert, serves, loads, get_capacity_info, get_best_provider,
  used_memory,
}

-- The stacks that are not ruled out.
abbrev pub left : List ℕ → List Stack → ℕ
left excludelist stacks = length (filter (λ s. not (mem s.id excludelist)) stacks)

abbrev pub known : ℕ → List Stack → Bool
known k = any (λ s. s.id == k)

abbrev loaded : ℕ → List Load → Bool
loaded k = any (λ l. l.0.id == k)

pub all_left : (stacks : List Stack) → left [] stacks ≤ length stacks
all_left [] = omega arith
all_left (s ∷ stacks) = omega (arith, all_left stacks)

left_le : (k : ℕ) (ex : List ℕ) (stacks : List Stack) → left (ex ++ k ∷ []) stacks ≤ left ex stacks
left_le k ex [] = omega arith
left_le k ex (s ∷ stacks) = ground (arith, mem-append s.id ex (k ∷ []), left_le k ex stacks)

pub left_less :
    (k : ℕ) (ex : List ℕ) (stacks : List Stack)
    → known k stacks ≡ true
    → mem k ex ≡ false
    → left (ex ++ k ∷ []) stacks < left ex stacks
left_less k ex [] h f = absurd (ground arith)
left_less k ex (s ∷ stacks) h f = elim (Bool-cases (s.id == k)) [
  | inl e ↦
      let out : mem s.id ex ≡ false = subst (λ j. mem j ex ≡ false) (sym ((==_iff s.id k).0 e)) f in
      let ruled : mem s.id (ex ++ k ∷ []) ≡ true = mem-append s.id ex (k ∷ []) ∙ ground arith in
      rw (out, ruled) (omega (arith, left_le k ex stacks))
  | inr e ↦ ground (arith, mem-append s.id ex (k ∷ []), left_less k ex stacks)
]

pub left-set :
    (ex : List ℕ) (a : Stack) (stacks : List Stack)
    → left ex (set stack_id_of a stacks) ≡ left ex stacks
left-set ex a [] = refl
left-set ex a (s ∷ stacks) = ground (arith, left-set ex a stacks)

loaded-insert :
    (k : ℕ) (x : Load) (xs : List Load) → loaded k (insert x xs) ≡ (x.0.id == k || loaded k xs)
unfolding insert
loaded-insert k x [] = refl
loaded-insert k x (y ∷ ys) = ground (arith, loaded-insert k x ys)

loaded-sort : (k : ℕ) (xs : List Load) → loaded k (sort xs) ≡ loaded k xs
unfolding sort
loaded-sort k [] = refl
loaded-sort k (x ∷ xs) = ground (arith, loaded-insert k x (sort xs), loaded-sort k xs)

first-loaded :
    (ex : List ℕ) (xs : List Load) (l : Load)
    → first (filter (λ x. not (mem x.0.id ex)) xs) ≡ some l
    → loaded l.0.id xs ≡ true
first-loaded ex [] l h = absurd cc
first-loaded ex (x ∷ xs) l h = elim (Bool-cases (mem x.0.id ex)) [
  | inl e ↦ (let rest = first-loaded ex xs l (rw e at h) in ground arith)
  | inr e ↦
      subst (λ (y : Load). loaded y.0.id (x ∷ xs) ≡ true) (some_eq (rw e at h))
        (ground (arith, ==_refl x.0.id))
]

module _ (active : ℕ → ℕ → Bool) (gid : ℕ) (image_id : Option ℕ) (models : Models) where
  loaded_known :
      (k : ℕ) (stacks : List Stack) (found : List Load)
      → loads active gid image_id models stacks ≡ ok found
      → loaded k found ≡ true
      → known k stacks ≡ true
  unfolding loads
  loaded_known k [] found h l = absurd (ground arith)
  loaded_known k (s ∷ stacks) found h l =
      elim (Result-cases (loads active gid image_id models stacks)) [
        | inr (x, e) ↦ absurd (err_ok (rw e at h))
        | inl (rest, e) ↦ elim (Bool-cases (serves active gid image_id models s)) [
          | inr f ↦
              let same : rest ≡ found = ok_eq (rw (e, f) at h) in
              let ih = loaded_known k stacks rest e (subst (λ x. loaded k x ≡ true) (sym same) l) in
              ground arith
          | inl f ↦ elim (Result-cases (used_memory models s)) [
            | inr (x, u) ↦ absurd (err_ok (rw (e, f, u) at h))
            | inl (n, u) ↦
                let same : (s, n) ∷ rest ≡ found = ok_eq (rw (e, f, u) at h) in
                let here : (s.id == k || loaded k rest) ≡ true =
                  subst (λ x. loaded k x ≡ true) (sym same) l in
                elim (Bool-cases (s.id == k)) [
                  | inl i ↦ rw i refl
                  | inr i ↦ rw i (loaded_known k stacks rest e (rw i at here))
                ]
          ]
        ]
      ]
    where
      ok_eq : {a b : List Load} → (let x : Result (List Load) = ok a in x) ≡ ok b → a ≡ b
      ok_eq q = cc

      err_ok : {a : Error} {b : List Load} → ¬ ((let x : Result (List Load) = err a in x) ≡ ok b)
      err_ok q = cc

  pub best_known :
      (ex : List ℕ) (l : Load)
      → get_best_provider active gid image_id models ex ≡ ok (some l)
      → known l.0.id models.stack ≡ true
  unfolding get_best_provider get_capacity_info
  best_known ex l h = elim (Result-cases (loads active gid image_id models models.stack)) [
    | inr (x, e) ↦ absurd (err_ok (rw e at h))
    | inl (found, e) ↦
        loaded_known l.0.id models.stack found e
          (sym (loaded-sort l.0.id found) ∙ first-loaded ex (sort found) l (ok_eq (rw e at h)))
  ]
    where
      ok_eq : {a b : Option Load} → (let x : Result (Option Load) = ok a in x) ≡ ok b → a ≡ b
      ok_eq q = cc

      err_ok :
          {a : Error} {b : Option Load} → ¬ ((let x : Result (Option Load) = err a in x) ≡ ok b)
      err_ok q = cc
