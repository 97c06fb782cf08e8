-- ===== src/Models/Table.antt =====
-- A collection of the object store: its objects in the order in which a search returns them.
use openvcloud.Prelude.{
  ◌++◌, refl, ==_refl, ℕ, ◌≡◌, Bool, true, false, Option, none, some, List, [], ◌∷◌, arith, ◌==◌,
  find?, if◌then◌else◌, Bool-cases, inl, inr, ==_iff, ◌∙◌,
}

module _ {ℓ} {A : Type ℓ} (id : A → ℕ) where
  -- `get(k)`; the store raises where this is `none`
  abbrev pub get : ℕ → List A → Option A
  get k = find? (λ a. id a == k)

  -- `exists(k)`
  abbrev pub exists : ℕ → List A → Bool
  exists k xs = elim (get k xs) [ none ↦ false | some _ ↦ true ]

  -- `updateSearch({'id': k}, …)`
  abbrev pub update : ℕ → (A → A) → List A → List A
  update k f [] = []
  update k f (a ∷ xs) = (if id a == k then f a else a) ∷ update k f xs

  -- `set(a)` on an object that is in the store
  abbrev pub set : A → List A → List A
  set a = update (id a) (λ _. a)

  -- `delete(k)`
  abbrev pub delete : ℕ → List A → List A
  delete k [] = []
  delete k (a ∷ xs) = let rest = delete k xs in if id a == k then rest else a ∷ rest

  -- `for a in search(…): b = get(a['guid']); …; set(b)`, where what is found is in the store.
  abbrev pub each : (A → A) → List A → List A → List A
  each f [] xs = xs
  each f (a ∷ found) xs = each f found (update (id a) f xs)

  -- What is found has the id that was asked for.
  pub id-get : (k : ℕ) (xs : List A) (a : A) → get k xs ≡ some a → id a ≡ k
  id-get k [] a h = ground arith
  id-get k (x ∷ xs) a h = ground (arith, id-get k xs a)

  pub get-update :
      (k : ℕ) (f : A → A) (xs : List A) (a : A)
      → ((b : A) → id (f b) ≡ id b)
      → get k xs ≡ some a
      → get k (update k f xs) ≡ some (f a)
  get-update k f [] a keep h = ground arith
  get-update k f (x ∷ xs) a keep h = ground (arith, keep x, get-update k f xs a keep)

  pub get-update_ne :
      (k j : ℕ) (f : A → A) (xs : List A)
      → ((b : A) → id (f b) ≡ id b)
      → (j == k) ≡ false
      → get k (update j f xs) ≡ get k xs
  get-update_ne k j f [] keep h = ground arith
  get-update_ne k j f (x ∷ xs) keep h = ground (arith, keep x, get-update_ne k j f xs keep)

  -- The object `k` is in the store and has the property.
  abbrev pub Holds : (A → Type 0) → ℕ → List A → Type ℓ
  Holds P k xs = (a : A) × (get k xs ≡ some a) × P a

  -- An update keeps a property of every object if it keeps it at the object that it changes.
  pub Holds-update :
      (P : A → Type 0) (k j : ℕ) (f : A → A) (xs : List A)
      → ((b : A) → id (f b) ≡ id b)
      → ((b : A) → get j xs ≡ some b → P b → P (f b))
      → Holds P k xs
      → Holds P k (update j f xs)
  Holds-update P k j f xs keep step (a, e, p) = elim (Bool-cases (j == k)) [
    | inl same ↦
        let q : j ≡ k = (==_iff j k).0 same in
        (f a, rw q (get-update k f xs a keep e), step a (rw q e) p)
    | inr other ↦ (a, get-update_ne k j f xs keep other ∙ e, p)
  ]

  -- An object that is appended under an id of its own.
  pub delete-append :
      (a : A) (xs : List A) → exists (id a) xs ≡ false → delete (id a) (xs ++ a ∷ []) ≡ xs
  delete-append a [] h = rw (==_refl (id a)) refl
  delete-append a (x ∷ xs) h = ground (arith, delete-append a xs)

  pub set-append :
      (a b : A) (xs : List A)
      → id a ≡ id b
      → exists (id b) xs ≡ false
      → set a (xs ++ b ∷ []) ≡ xs ++ a ∷ []
  set-append a b [] e h = rw (e, ==_refl (id b)) refl
  set-append a b (x ∷ xs) e h = ground (arith, set-append a b xs e)

  pub get-append : (a : A) (xs ys : List A) → (b : A) × (get (id a) (xs ++ a ∷ ys) ≡ some b)
  get-append a [] ys = (a, rw (==_refl (id a)) refl)
  get-append a (x ∷ xs) ys = elim (Bool-cases (id x == id a)) [
    | inl e ↦ (x, rw e refl)
    | inr e ↦ let (b, g) = get-append a xs ys in (b, rw e g)
  ]

  pub delete_comm : (j k : ℕ) (xs : List A) → delete j (delete k xs) ≡ delete k (delete j xs)
  delete_comm j k [] = refl
  delete_comm j k (x ∷ xs) = ground (arith, delete_comm j k xs)
