-- ===== src/Cloudspaces/Owners.antt =====
-- Who owns a public address: the pool where it is free, and the cloudspaces that hold it, counted.
use openvcloud.Prelude.{
  ℕ, ◌+◌, ◌≤◌, ◌≡◌, refl, Bool, true, false, ◌&&◌, none, some, List, [], ◌∷◌, ◌++◌, ◌==◌, ==_iff,
  any, sum, mem, arith, if◌then◌else◌, Bool-cases, inl, inr, ap, ◌∙◌, subst,
}
use openvcloud.Models.{Cloudspace, ExternalNetwork, Models}
use openvcloud.Models.Table.{get, update, set, delete as remove}
use openvcloud.Limits.Reserve.{UniqueIds, set-cons_own, set-cons_other, get_rest}
use openvcloud.Pools.{pool_id, pull, add_to_set}
use openvcloud.Pools.Balance.{UniquePools, mem-pull, mem-add_to_set}
use openvcloud.Cloudspaces.{id_of}

abbrev pub bit : Bool → ℕ
bit b = if b then 1 else 0

-- The cloudspace has the address `ip` of the pool `k`.
abbrev pub holds : ℕ → ℕ → Cloudspace → Bool
holds k ip cs =
    (elim cs.externalnetwork_id [ none ↦ false | some q ↦ q == k ])
    && (elim cs.externalnetworkip [ none ↦ false | some (a, prefixlen) ↦ a == ip ])

abbrev pub free_in : ℕ → ℕ → ExternalNetwork → Bool
free_in k ip p = p.id == k && mem ip p.ips

abbrev pub free_count : ℕ → ℕ → List ExternalNetwork → ℕ
free_count k ip = sum (λ p. bit (free_in k ip p))

abbrev pub held_count : ℕ → ℕ → List Cloudspace → ℕ
held_count k ip = sum (λ c. bit (holds k ip c))

abbrev pub owners : ℕ → ℕ → Models → ℕ
owners k ip models = free_count k ip models.externalnetwork + held_count k ip models.cloudspace

abbrev pub pulled : ℕ → ExternalNetwork → ExternalNetwork
pulled a p = record p { ips = pull a p.ips }

abbrev pub added : ℕ → ExternalNetwork → ExternalNetwork
added a p = record p { ips = add_to_set a p.ips }

-- Taking an address from a pool takes it from there and leaves the others.
pub free_count-pull :
    (k ip q a : ℕ) (pools : List ExternalNetwork)
    → free_count k ip (update pool_id q (pulled a) pools)
      ≡ (if k == q && ip == a then 0 else free_count k ip pools)
free_count-pull k ip q a [] = ground arith
free_count-pull k ip q a (p ∷ pools) =
    ground (arith, mem-pull ip a p.ips, free_count-pull k ip q a pools)

free_count_absent :
    (k ip : ℕ) (pools : List ExternalNetwork)
    → any (λ p. p.id == k) pools ≡ false
    → free_count k ip pools ≡ 0
free_count_absent k ip [] h = refl
free_count_absent k ip (p ∷ pools) h = ground (arith, free_count_absent k ip pools)

-- Where the pools have different ids, an address is free once at most.
pub free_count-le :
    (k ip : ℕ) (pools : List ExternalNetwork) → UniquePools pools → free_count k ip pools ≤ 1
free_count-le k ip [] u = omega arith
free_count-le k ip (p ∷ pools) u = elim (Bool-cases (p.id == k)) [
  | inr e ↦ rw e (omega (arith, free_count-le k ip pools u.1))
  | inl e ↦
      let same : p.id ≡ k = (==_iff p.id k).0 e in
      let absent : any (λ q. q.id == k) pools ≡ false =
        subst (λ j. any (λ q. q.id == j) pools ≡ false) same u.0 in
      let rest = free_count_absent k ip pools absent in ground arith
]

-- Giving an address back changes the count of no other address.
pub free_count-add :
    (k ip q a : ℕ) (pools : List ExternalNetwork)
    → (k == q && ip == a) ≡ false
    → free_count k ip (update pool_id q (added a) pools) ≡ free_count k ip pools
free_count-add k ip q a [] h = refl
free_count-add k ip q a (p ∷ pools) h =
    ground (arith, mem-add_to_set ip a p.ips, free_count-add k ip q a pools)

-- What is free in a pool that is found is counted.
pub free_count_found :
    (k ip : ℕ) (pools : List ExternalNetwork) (p : ExternalNetwork)
    → get pool_id k pools ≡ some p
    → mem ip p.ips ≡ true
    → 1 ≤ free_count k ip pools
free_count_found k ip [] p g m = absurd (ground arith)
free_count_found k ip (x ∷ pools) p g m = ground (arith, free_count_found k ip pools p)

pub update-UniquePools :
    (q : ℕ) (f : ExternalNetwork → ExternalNetwork) (pools : List ExternalNetwork)
    → ((p : ExternalNetwork) → (f p).id ≡ p.id)
    → UniquePools pools
    → UniquePools (update pool_id q f pools)
update-UniquePools q f [] keep u = u
update-UniquePools q f (p ∷ pools) keep u = (
  ground (arith, keep p, any-update p.id pools u.0, any-update (f p).id pools),
  update-UniquePools q f pools keep u.1,
)
  where
    any-update :
        (k : ℕ) (ps : List ExternalNetwork)
        → any (λ x. x.id == k) ps ≡ false
        → any (λ x. x.id == k) (update pool_id q f ps) ≡ false
    any-update k [] h = h
    any-update k (x ∷ ps) h = ground (arith, keep x, any-update k ps)

-- A cloudspace that is written gives up what it held and holds what it now says.
pub held_count-set :
    (k ip : ℕ) (c old : Cloudspace) (spaces : List Cloudspace)
    → UniqueIds spaces
    → get id_of c.id spaces ≡ some old
    → held_count k ip (set id_of c spaces) + bit (holds k ip old)
      ≡ held_count k ip spaces + bit (holds k ip c)
held_count-set k ip c old [] u g = absurd (ground arith)
held_count-set k ip c old (x ∷ spaces) u g = elim (Bool-cases (x.id == c.id)) [
  | inl e ↦
      let same : x ≡ old = some_eq (rw e at g) in
      ap (λ l. held_count k ip l + bit (holds k ip old)) (set-cons_own c x spaces e u.0)
      ∙ rw (← same) (omega arith)
  | inr e ↦
      let ih = held_count-set k ip c old spaces u.1 (get_rest c x old spaces e g) in
      ap (λ l. held_count k ip l + bit (holds k ip old)) (set-cons_other c x spaces e)
      ∙ omega (arith, ih)
]
  where
    some_eq : {a b : Cloudspace} → some a ≡ some b → a ≡ b
    some_eq q = cc

pub held_count-append :
    (k ip : ℕ) (c : Cloudspace) (spaces : List Cloudspace)
    → held_count k ip (spaces ++ c ∷ []) ≡ held_count k ip spaces + bit (holds k ip c)
held_count-append k ip c [] = ground arith
held_count-append k ip c (x ∷ spaces) = ground (arith, held_count-append k ip c spaces)

-- No count of what is left grows when a cloudspace is deleted.
pub held_count-remove :
    (k ip j : ℕ) (spaces : List Cloudspace)
    → held_count k ip (remove id_of j spaces) ≤ held_count k ip spaces
held_count-remove k ip j [] = omega arith
held_count-remove k ip j (x ∷ spaces) = ground (arith, held_count-remove k ip j spaces)

pub held_count-update :
    (k ip j : ℕ) (f : Cloudspace → Cloudspace) (spaces : List Cloudspace)
    → ((c : Cloudspace) → holds k ip (f c) ≡ holds k ip c)
    → held_count k ip (update id_of j f spaces) ≡ held_count k ip spaces
held_count-update k ip j f [] same = refl
held_count-update k ip j f (x ∷ spaces) same = elim (Bool-cases (x.id == j)) [
  | inl e ↦ rw (e, same x, held_count-update k ip j f spaces same) refl
  | inr e ↦ rw (e, held_count-update k ip j f spaces same) refl
]

-- An address without an owner, under other names for its pool and for itself.
pub owners_same :
    (k a q ip : ℕ) (t : Models) → (q == k && ip == a) ≡ true → owners q ip t ≡ 0 → owners k a t ≡ 0
owners_same k a q ip t h e =
    let (i, j) = both h in
    subst (λ x. owners x a t ≡ 0) ((==_iff q k).0 i)
      (subst (λ x. owners q x t ≡ 0) ((==_iff ip a).0 j) e)
  where
    both : {x y : Bool} → (x && y) ≡ true → (x ≡ true) × (y ≡ true)
    both b = ground arith
