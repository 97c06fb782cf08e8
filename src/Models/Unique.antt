-- ===== src/Models/Unique.antt =====
-- Collections whose objects have different ids, through the writes of the store.
use openvcloud.Prelude.{
  if◌then◌else◌, all, filter, map, ap, ◌∙◌, ℕ, ◌+◌, ◌≡◌, refl, Bool, true, false, some, List, [],
  ◌∷◌, ◌++◌, arith, ◌==◌, ==_iff, ==_refl, any, sum, find?, Bool-cases, inl, inr, subst,
}
use openvcloud.Prelude.Bools.{or_false}
use openvcloud.Models.Table.{get, set, update, exists, each}

-- What two values that are there and the same hold.
pub some_eq : {A : Type 0} {a b : A} → some a ≡ some b → a ≡ b
some_eq q = cc

module _ {A : Type 0} (id : A → ℕ) where
  -- No two objects have the same id.
  abbrev pub Unique : List A → Type 0
  Unique [] = Unit {0}
  Unique (x ∷ xs) = (any (λ y. id y == id x) xs ≡ false) × Unique xs

  any-set :
      (k : ℕ) (a : A) (xs : List A) → any (λ y. id y == k) (set id a xs) ≡ any (λ y. id y == k) xs
  any-set k a [] = refl
  any-set k a (x ∷ xs) = ground (arith, any-set k a xs)

  pub set-Unique : (a : A) (xs : List A) → Unique xs → Unique (set id a xs)
  set-Unique a [] u = u
  set-Unique a (x ∷ xs) u =
      (ground (arith, any-set (id x) a xs, any-set (id a) a xs), set-Unique a xs u.1)

  pub get-set :
      (a old : A) (xs : List A) → get id (id a) xs ≡ some old → get id (id a) (set id a xs) ≡ some a
  get-set a old [] g = absurd (ground arith)
  get-set a old (x ∷ xs) g = ground (arith, ==_refl (id a), get-set a old xs)

  pub get-set_ne :
      (k : ℕ) (a : A) (xs : List A) → (id a == k) ≡ false → get id k (set id a xs) ≡ get id k xs
  get-set_ne k a [] h = refl
  get-set_ne k a (x ∷ xs) h = ground (arith, get-set_ne k a xs h)

  set_absent : (a : A) (xs : List A) → any (λ y. id y == id a) xs ≡ false → set id a xs ≡ xs
  set_absent a [] h = refl
  set_absent a (x ∷ xs) h = ground (arith, set_absent a xs)

  absent_as :
      (x a : A) (xs : List A)
      → (id x == id a) ≡ true
      → any (λ y. id y == id x) xs ≡ false
      → any (λ y. id y == id a) xs ≡ false
  absent_as x a xs e h = subst (λ k. any (λ y. id y == k) xs ≡ false) ((==_iff (id x) (id a)).0 e) h

  get_absent :
      (k : ℕ) (a : A) (xs : List A) → any (λ y. id y == k) xs ≡ false → ¬ (get id k xs ≡ some a)
  get_absent k a [] h g = ground arith
  get_absent k a (x ∷ xs) h g = ground (arith, get_absent k a xs)

  -- What is found has the id asked for and the property it is found by, and it is found by its id.
  pub get-find :
      (p : A → Bool) (xs : List A) (a : A)
      → Unique xs
      → find? p xs ≡ some a
      → (get id (id a) xs ≡ some a) × (p a ≡ true)
  get-find p [] a u f = absurd (ground arith)
  get-find p (x ∷ xs) a u f = elim (Bool-cases (p x)) [
    | inl e ↦ let same : x ≡ a = some_eq (rw e at f) in rw (← same, ==_refl (id x)) (refl, e)
    | inr e ↦
        let (g, q) = get-find p xs a u.1 (rw e at f) in
        elim (Bool-cases (id x == id a)) [
          | inl s ↦ absurd (get_absent (id a) a xs (absent_as x a xs s u.0) g)
          | inr s ↦ rw s (g, q)
        ]
  ]

  -- A sum over the collection, when an object is written.
  pub sum-set :
      (f : A → ℕ) (a old : A) (xs : List A)
      → Unique xs
      → get id (id a) xs ≡ some old
      → sum f (set id a xs) + f old ≡ sum f xs + f a
  sum-set f a old [] u g = absurd (ground arith)
  sum-set f a old (x ∷ xs) u g = elim (Bool-cases (id x == id a)) [
    | inl e ↦
        let same : x ≡ old = some_eq (rw e at g) in
        rw (e, set_absent a xs (absent_as x a xs e u.0), ← same) (omega arith)
    | inr e ↦ rw e (omega (arith, sum-set f a old xs u.1 (rw e at g)))
  ]

  update_absent :
      (k : ℕ) (f : A → A) (xs : List A) → any (λ y. id y == k) xs ≡ false → update id k f xs ≡ xs
  update_absent k f [] h = refl
  update_absent k f (x ∷ xs) h = ground (arith, update_absent k f xs)

  -- An update of an object is a write of what becomes of it.
  pub update-set :
      (k : ℕ) (f : A → A) (a : A) (xs : List A)
      → Unique xs
      → get id k xs ≡ some a
      → id (f a) ≡ k
      → update id k f xs ≡ set id (f a) xs
  update-set k f a [] u g e = refl
  update-set k f a (x ∷ xs) u g e = elim (Bool-cases (id x == k)) [
    | inl q ↦
        let same : x ≡ a = some_eq (rw q at g) in
        let gone : any (λ y. id y == k) xs ≡ false =
          subst (λ j. any (λ y. id y == j) xs ≡ false) ((==_iff (id x) k).0 q) u.0 in
        let gone' : any (λ y. id y == id (f a)) xs ≡ false = rw e gone in
        let hit : (id x == id (f a)) ≡ true = rw e q in
        rw (q, hit, same, update_absent k f xs gone, set_absent (f a) xs gone') refl
    | inr q ↦
        let miss : (id x == id (f a)) ≡ false = rw e q in
        rw (q, miss, update-set k f a xs u.1 (rw q at g) e) refl
  ]

  any-append :
      (x a : A) (xs : List A)
      → any (λ y. id y == id x) xs ≡ false
      → (id x == id a) ≡ false
      → any (λ y. id y == id x) (xs ++ a ∷ []) ≡ false
  any-append x a [] h e = ground arith
  any-append x a (y ∷ xs) h e = ground (arith, any-append x a xs)

  pub append-Unique :
      (a : A) (xs : List A) → Unique xs → exists id (id a) xs ≡ false → Unique (xs ++ a ∷ [])
  append-Unique a [] u h = (refl, tt)
  append-Unique a (x ∷ xs) u h = elim (Bool-cases (id x == id a)) [
    | inl e ↦ absurd (ground arith)
    | inr e ↦ (any-append x a xs u.0 e, append-Unique a xs u.1 (ground arith))
  ]

  -- A loop over the objects that a search finds changes each of them once.
  module _ (p : A → Bool) (f : A → A) (same_id : (a : A) → id (f a) ≡ id a) where
    each-cons :
        (x : A) (ys zs : List A)
        → any (λ y. id y == id x) ys ≡ false
        → each id f (filter p ys) (x ∷ zs) ≡ x ∷ each id f (filter p ys) zs
    each-cons x [] zs h = refl
    each-cons x (y ∷ ys) zs h =
        let (miss, rest) = or_false (id y == id x) (any (λ y. id y == id x) ys) h in
        elim (Bool-cases (p y)) [
          | inr e ↦ rw e (each-cons x ys zs rest)
          | inl e ↦
              let other : (id x == id y) ≡ false = ground arith in
              rw (e, each, other) (each-cons x ys (update id (id y) f zs) rest)
        ]

    pub each-if :
        (xs : List A)
        → Unique xs
        → each id f (filter p xs) xs ≡ map (λ a. if p a then f a else a) xs
    each-if [] u = refl
    each-if (x ∷ xs) u = elim (Bool-cases (p x)) [
      | inr e ↦ rw e (each-cons x xs xs u.0 ∙ ap (λ l. x ∷ l) (each-if xs u.1))
      | inl e ↦
          let gone : any (λ y. id y == id (f x)) xs ≡ false = rw same_id u.0 in
          rw (e, each, ==_refl (id x), update_absent (id x) f xs u.0)
            (each-cons (f x) xs xs gone ∙ ap (λ l. f x ∷ l) (each-if xs u.1))
    ]

    map_if :
        (xs : List A)
        → ((a : A) → p a ≡ false → f a ≡ a)
        → map (λ a. if p a then f a else a) xs ≡ map f xs
    map_if [] still = refl
    map_if (x ∷ xs) still = elim (Bool-cases (p x)) [
      | inl e ↦ rw e (ap (λ l. f x ∷ l) (map_if xs still))
      | inr e ↦ rw (e, still x e) (ap (λ l. x ∷ l) (map_if xs still))
    ]

    pub each-map :
        (xs : List A)
        → Unique xs
        → ((a : A) → p a ≡ false → f a ≡ a)
        → each id f (filter p xs) xs ≡ map f xs
    each-map xs u still = each-if xs u ∙ map_if xs still

  -- A write of an object as it is.
  pub set-own : (a : A) (xs : List A) → Unique xs → get id (id a) xs ≡ some a → set id a xs ≡ xs
  set-own a [] u g = refl
  set-own a (x ∷ xs) u g = elim (Bool-cases (id x == id a)) [
    | inl e ↦
        let same : x ≡ a = some_eq (rw e at g) in
        rw (e, same, set_absent a xs (absent_as x a xs e u.0)) refl
    | inr e ↦ rw e (ap (λ l. x ∷ l) (set-own a xs u.1 (rw e at g)))
  ]

  all_weaken :
      (x : A) (ys xs : List A)
      → all (λ y. exists id (id y) xs) ys ≡ true
      → all (λ y. exists id (id y) (x ∷ xs)) ys ≡ true
  all_weaken x [] xs h = refl
  all_weaken x (y ∷ ys) xs h = ground (arith, all_weaken x ys xs)

  all_exist : (xs : List A) → all (λ y. exists id (id y) xs) xs ≡ true
  all_exist [] = refl
  all_exist (x ∷ xs) = ground (arith, ==_refl (id x), all_weaken x xs xs (all_exist xs))

  all-filter : (q p : A → Bool) (xs : List A) → all q xs ≡ true → all q (filter p xs) ≡ true
  all-filter q p [] h = refl
  all-filter q p (x ∷ xs) h = ground (arith, all-filter q p xs)

  -- What a search finds is in the store.
  pub exist-filter :
      (p : A → Bool) (xs : List A) → all (λ y. exists id (id y) xs) (filter p xs) ≡ true
  exist-filter p xs = all-filter (λ y. exists id (id y) xs) p xs (all_exist xs)
