-- ===== src/Cloudspaces/Ids.antt =====
-- The ids of cloudspaces stay unique through the writes of the store.
use openvcloud.Prelude.{
  ℕ, ◌≡◌, refl, false, ◌||◌, some, List, [], ◌∷◌, ◌++◌, ◌==◌, ==_iff, any, arith, Bool-cases, inl,
  inr, ap, subst,
}
use openvcloud.Models.{Cloudspace}
use openvcloud.Models.Table.{get, update, set, delete as remove}
use openvcloud.Limits.Reserve.{UniqueIds, get_rest}
use openvcloud.Cloudspaces.{id_of}

any-update :
    (k j : ℕ) (f : Cloudspace → Cloudspace) (spaces : List Cloudspace)
    → ((c : Cloudspace) → (f c).id ≡ c.id)
    → any (λ x. x.id == k) (update id_of j f spaces) ≡ any (λ x. x.id == k) spaces
any-update k j f [] keep = refl
any-update k j f (x ∷ spaces) keep = ground (arith, keep x, any-update k j f spaces keep)

pub update-UniqueIds :
    (j : ℕ) (f : Cloudspace → Cloudspace) (spaces : List Cloudspace)
    → ((c : Cloudspace) → (f c).id ≡ c.id)
    → UniqueIds spaces
    → UniqueIds (update id_of j f spaces)
update-UniqueIds j f [] keep u = u
update-UniqueIds j f (x ∷ spaces) keep u = (
  ground (arith, keep x, any-update x.id j f spaces keep, any-update (f x).id j f spaces keep),
  update-UniqueIds j f spaces keep u.1,
)

any-remove :
    (k j : ℕ) (spaces : List Cloudspace)
    → any (λ x. x.id == k) spaces ≡ false
    → any (λ x. x.id == k) (remove id_of j spaces) ≡ false
any-remove k j [] h = h
any-remove k j (x ∷ spaces) h = ground (arith, any-remove k j spaces)

pub remove-UniqueIds :
    (j : ℕ) (spaces : List Cloudspace) → UniqueIds spaces → UniqueIds (remove id_of j spaces)
remove-UniqueIds j [] u = u
remove-UniqueIds j (x ∷ spaces) u = elim (Bool-cases (x.id == j)) [
  | inl e ↦ rw e (remove-UniqueIds j spaces u.1)
  | inr e ↦ rw e (any-remove x.id j spaces u.0, remove-UniqueIds j spaces u.1)
]

any-append :
    (k : ℕ) (c : Cloudspace) (spaces : List Cloudspace)
    → any (λ x. x.id == k) (spaces ++ c ∷ []) ≡ (any (λ x. x.id == k) spaces || c.id == k)
any-append k c [] = ground arith
any-append k c (x ∷ spaces) = ground (arith, any-append k c spaces)

==_comm : (a b : ℕ) → (a == b) ≡ (b == a)
==_comm a b = ground arith

pub append-UniqueIds :
    (c : Cloudspace) (spaces : List Cloudspace)
    → any (λ x. x.id == c.id) spaces ≡ false
    → UniqueIds spaces
    → UniqueIds (spaces ++ c ∷ [])
append-UniqueIds c [] h u = (refl, tt)
append-UniqueIds c (x ∷ spaces) h u = (
  ground (arith, any-append x.id c spaces, ==_comm c.id x.id, u.0),
  append-UniqueIds c spaces (ground arith) u.1,
)

any-set :
    (k : ℕ) (c : Cloudspace) (spaces : List Cloudspace)
    → any (λ x. x.id == k) (set id_of c spaces) ≡ any (λ x. x.id == k) spaces
any-set k c [] = refl
any-set k c (x ∷ spaces) = ground (arith, any-set k c spaces)

pub set-UniqueIds :
    (c : Cloudspace) (spaces : List Cloudspace) → UniqueIds spaces → UniqueIds (set id_of c spaces)
set-UniqueIds c [] u = u
set-UniqueIds c (x ∷ spaces) u =
    (ground (arith, any-set x.id c spaces, any-set c.id c spaces), set-UniqueIds c spaces u.1)

update_absent :
    (j : ℕ) (f : Cloudspace → Cloudspace) (spaces : List Cloudspace)
    → any (λ x. x.id == j) spaces ≡ false
    → update id_of j f spaces ≡ spaces
update_absent j f [] h = refl
update_absent j f (x ∷ spaces) h = ground (arith, update_absent j f spaces)

-- Where ids are unique, an update of one object writes the object that it makes.
pub update-eq-set :
    (f : Cloudspace → Cloudspace) (c old : Cloudspace) (spaces : List Cloudspace)
    → UniqueIds spaces
    → get id_of c.id spaces ≡ some old
    → c ≡ f old
    → update id_of c.id f spaces ≡ set id_of c spaces
update-eq-set f c old [] u g h = refl
update-eq-set f c old (x ∷ spaces) u g h = elim (Bool-cases (x.id == c.id)) [
  | inl e ↦
      let same : x ≡ old = some_eq (rw e at g) in
      let absent = subst (λ j. any (λ y. y.id == j) spaces ≡ false) ((==_iff x.id c.id).0 e) u.0 in
      rw
        (
          e,
          update_absent c.id f spaces absent,
          update_absent c.id (λ _. c) spaces absent,
          same,
          ← h,
        )
        refl
  | inr e ↦
      rw e (ap (λ l. x ∷ l) (update-eq-set f c old spaces u.1 (get_rest c x old spaces e g) h))
]
  where
    some_eq : {a b : Cloudspace} → some a ≡ some b → a ≡ b
    some_eq q = cc
