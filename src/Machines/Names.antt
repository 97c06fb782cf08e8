-- ===== src/Machines/Names.antt =====
-- The names of the machines of a cloudspace, and how many there are, through the writes of the store.
use openvcloud.Prelude.{
  ◌+◌, if◌then◌else◌, ℕ, ◌≤◌, ◌≡◌, refl, Bool, true, false, not, ◌&&◌, ◌||◌, some, List, [], ◌∷◌,
  ◌++◌, arith, length, any, filter, eq_iff, ◌==◌, ==_iff, Bool-cases, inl, inr, subst, ap,
}
use openvcloud.Prelude.Bools.{
  and_true, and_or_false, and_false_r, or_false, and_or, negated, narrow, both_true, keeps_apart,
  add_apart,
}
use openvcloud.Models.{VMachine}
use openvcloud.Models.Table.{get, set}
use openvcloud.Models.Unique.{Unique, some_eq}
use openvcloud.Limits.{is_live}
use openvcloud.Machines.{vm_id}
use openvcloud.Machines.Create.{has_name, lives_in}

-- No live machine has the cloudspace and the name of another one.
abbrev pub distinct : List VMachine → Bool
distinct [] = true
distinct (x ∷ xs) = not (is_live x && any (has_name x.cloudspace_id x.name) xs) && distinct xs

-- Another machine has the cloudspace and the name of this one.
abbrev pub clash : VMachine → List VMachine → Bool
clash a = any (λ y. not (y.id == a.id) && has_name a.cloudspace_id a.name y)

has_name_sym :
    (x y : VMachine)
    → is_live x ≡ true
    → has_name x.cloudspace_id x.name y ≡ true
    → (has_name y.cloudspace_id y.name x ≡ true) × (is_live y ≡ true)
has_name_sym x y l h = (ground (arith, eq_iff x.name y.name, eq_iff y.name x.name), ground (arith))

any-append :
    (p : VMachine → Bool) (a : VMachine) (xs : List VMachine)
    → any p (xs ++ a ∷ []) ≡ (any p xs || p a)
any-append p a [] = ground arith
any-append p a (x ∷ xs) = ground (arith, any-append p a xs)

-- Neither clashes with the other, if the one does not with the other.
apart :
    (x y : VMachine)
    → (is_live y && has_name y.cloudspace_id y.name x) ≡ false
    → (is_live x && has_name x.cloudspace_id x.name y) ≡ false
apart x y h = elim (Bool-cases (is_live x && has_name x.cloudspace_id x.name y)) [
  | inr e ↦ e
  | inl e ↦
      let (a, b) = and_true (is_live x) (has_name x.cloudspace_id x.name y) e in
      let (c, d) = has_name_sym x y a b in
      absurd
        (let q : (is_live y && has_name y.cloudspace_id y.name x) ≡ true = rw (c, d) refl in cc)
]

pub distinct-append :
    (a : VMachine) (xs : List VMachine)
    → distinct xs ≡ true
    → (is_live a && any (has_name a.cloudspace_id a.name) xs) ≡ false
    → distinct (xs ++ a ∷ []) ≡ true
distinct-append a [] d h = simp (and_false_r (is_live a)) refl
distinct-append a (x ∷ xs) d h =
    let (d1, d2) =
      and_true (not (is_live x && any (has_name x.cloudspace_id x.name) xs)) (distinct xs) d in
    let (h1, h2) =
      and_or_false (is_live a) (has_name a.cloudspace_id a.name x)
        (any (has_name a.cloudspace_id a.name) xs) h in
    rw
      (add_apart (is_live x) _ (has_name x.cloudspace_id x.name a) _ d1 (apart x a h1)
        (any-append (has_name x.cloudspace_id x.name) a xs))
      (distinct-append a xs d2 h2)

pub any-set :
    (p : VMachine → Bool) (a : VMachine) (xs : List VMachine)
    → p a ≡ false
    → any p xs ≡ false
    → any p (set vm_id a xs) ≡ false
any-set p a [] h e = refl
any-set p a (x ∷ xs) h e = ground (arith, any-set p a xs h)

any-set_absent :
    (a : VMachine) (xs : List VMachine) → any (λ y. y.id == a.id) xs ≡ false → set vm_id a xs ≡ xs
any-set_absent a [] h = refl
any-set_absent a (x ∷ xs) h = ground (arith, any-set_absent a xs)

clash_absent :
    (a : VMachine) (xs : List VMachine)
    → any (λ y. y.id == a.id) xs ≡ false
    → clash a xs ≡ any (has_name a.cloudspace_id a.name) xs
clash_absent a [] h = refl
clash_absent a (x ∷ xs) h = elim (Bool-cases (x.id == a.id)) [
  | inl e ↦ absurd (let q : true ≡ false = rw e at h in cc)
  | inr e ↦ rw e (ap (λ b. has_name a.cloudspace_id a.name x || b) (clash_absent a xs (rw e at h)))
]

absent_here :
    (x a : VMachine) (xs : List VMachine)
    → (x.id == a.id) ≡ true
    → any (λ y. y.id == x.id) xs ≡ false
    → any (λ y. y.id == a.id) xs ≡ false
absent_here x a xs e h = subst (λ k. any (λ y. y.id == k) xs ≡ false) ((==_iff x.id a.id).0 e) h

pub distinct-set :
    (a : VMachine) (xs : List VMachine)
    → Unique vm_id xs
    → distinct xs ≡ true
    → (is_live a && clash a xs) ≡ false
    → distinct (set vm_id a xs) ≡ true
distinct-set a [] u d h = refl
distinct-set a (x ∷ xs) u d h =
    let (d1, d2) =
      and_true (not (is_live x && any (has_name x.cloudspace_id x.name) xs)) (distinct xs) d in
    let (h1, h2) =
      and_or_false (is_live a) (not (x.id == a.id) && has_name a.cloudspace_id a.name x)
        (clash a xs) h in
    elim (Bool-cases (x.id == a.id)) [
      | inl e ↦
          let gone : any (λ y. y.id == a.id) xs ≡ false = absent_here x a xs e u.0 in
          rw (e, any-set_absent a xs gone)
            (let q : (is_live a && any (has_name a.cloudspace_id a.name) xs) ≡ false =
                rw (← clash_absent a xs gone) h2 in
              rw (q, d2) refl)
      | inr e ↦
          let q : (is_live a && has_name a.cloudspace_id a.name x) ≡ false = rw e at h1 in
          rw e (
            both_true _ _
              (keeps_apart (is_live x) (any (has_name x.cloudspace_id x.name) xs)
                (has_name x.cloudspace_id x.name a)
                (any (has_name x.cloudspace_id x.name) (set vm_id a xs)) d1 (apart x a q)
                λ r s. any-set (has_name x.cloudspace_id x.name) a xs s r)
              (distinct-set a xs u.1 d2 h2))
    ]

pub any-get :
    (p : VMachine → Bool) (k : ℕ) (b : VMachine) (xs : List VMachine)
    → get vm_id k xs ≡ some b
    → any p xs ≡ false
    → p b ≡ false
any-get p k b [] g h = absurd (ground arith)
any-get p k b (x ∷ xs) g h = elim (Bool-cases (x.id == k)) [
  | inl e ↦ subst (λ y. p y ≡ false) (some_eq (rw e at g)) (or_false (p x) (any p xs) h).0
  | inr e ↦ any-get p k b xs (rw e at g) (or_false (p x) (any p xs) h).1
]

-- A machine of the store clashes with none of the others.
pub clash-own :
    (a : VMachine) (xs : List VMachine)
    → Unique vm_id xs
    → distinct xs ≡ true
    → get vm_id a.id xs ≡ some a
    → (is_live a && clash a xs) ≡ false
clash-own a [] u d g = absurd (ground arith)
clash-own a (x ∷ xs) u d g =
    let (d1, d2) =
      and_true (not (is_live x && any (has_name x.cloudspace_id x.name) xs)) (distinct xs) d in
    elim (Bool-cases (x.id == a.id)) [
      | inl e ↦
          let same : x ≡ a = some_eq (rw e at g) in
          let gone : any (λ y. y.id == a.id) xs ≡ false = absent_here x a xs e u.0 in
          rw (e, clash_absent a xs gone)
            (subst
              (λ (y : VMachine). (is_live y && any (has_name y.cloudspace_id y.name) xs) ≡ false)
              same (negated _ d1))
      | inr e ↦ rw e (
          and_or (is_live a) (has_name a.cloudspace_id a.name x) (clash a xs)
            (apart a x (
              narrow (is_live x) (any (has_name x.cloudspace_id x.name) xs)
                (has_name x.cloudspace_id x.name a) d1
                λ q. any-get (has_name x.cloudspace_id x.name) a.id a xs (rw e at g) q))
            (clash-own a xs u.1 d2 (rw e at g)))
    ]

-- The machines of a cloudspace that are not DESTROYED.
abbrev pub living : ℕ → List VMachine → ℕ
living c xs = length (filter (lives_in c) xs)

pub living-append :
    (c : ℕ) (a : VMachine) (xs : List VMachine)
    → living c (xs ++ a ∷ []) ≡ living c xs + (if lives_in c a then 1 else 0)
living-append c a [] = elim (Bool-cases (lives_in c a)) [ inl e ↦ rw e refl | inr e ↦ rw e refl ]
living-append c a (x ∷ xs) = elim (Bool-cases (lives_in c x)) [
  | inl e ↦ rw e (omega (arith, living-append c a xs))
  | inr e ↦ rw e (living-append c a xs)
]

pub living-set :
    (c : ℕ) (a old : VMachine) (xs : List VMachine)
    → Unique vm_id xs
    → get vm_id a.id xs ≡ some old
    → (lives_in c a ≡ true → lives_in c old ≡ true)
    → living c (set vm_id a xs) ≤ living c xs
living-set c a old [] u g h = omega arith
living-set c a old (x ∷ xs) u g h = elim (Bool-cases (x.id == a.id)) [
  | inl e ↦
      let same : x ≡ old = some_eq (rw e at g) in
      let gone : any (λ y. y.id == a.id) xs ≡ false = absent_here x a xs e u.0 in
      rw (e, any-set_absent a xs gone, same)
        (elim (Bool-cases (lives_in c a)) [
          | inl l ↦ rw (l, h l) (omega arith)
          | inr l ↦ rw l (elim (Bool-cases (lives_in c old)) [
            | inl o ↦ rw o (omega arith)
            | inr o ↦ rw o (omega arith)
          ])
        ])
  | inr e ↦ rw e (elim (Bool-cases (lives_in c x)) [
    | inl l ↦ rw l (omega (arith, living-set c a old xs u.1 (rw e at g) h))
    | inr l ↦ rw l (living-set c a old xs u.1 (rw e at g) h)
  ])
]
