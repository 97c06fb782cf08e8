-- ===== src/Pools/Balance.antt =====
-- Addresses taken from and given back to the pools of apps/cloudbroker/cloudbrokerlib/network.py.
use openvcloud.Prelude.{
  ℕ, ◌≡◌, ◌⊎◌, ==_refl, refl, Bool, true, false, not, ◌&&◌, ◌||◌, Option, none, some, List, [], ◌∷◌,
  ◌==◌, ==_iff, any, filter, mem, mem-append, arith, Bool-cases, Option-cases, inl, inr, sym, ap,
  ◌∙◌, subst,
}
use openvcloud.Result.{Result, ok}
use openvcloud.Models.{ExternalNetwork, Models}
use openvcloud.Models.Table.{get, get-update}
use openvcloud.Pools.{
  pool_id, pull, add_to_set, wanted, first_free, take_ip, take_first, get_external_ip_address,
}

-- No two pools have the same id.
abbrev pub UniquePools : List ExternalNetwork → Type 0
UniquePools [] = Unit {0}
UniquePools (p ∷ pools) = (any (λ q. q.id == p.id) pools ≡ false) × UniquePools pools

pub mem-pull : (x a : ℕ) (xs : List ℕ) → mem x (pull a xs) ≡ (mem x xs && not (x == a))
unfolding pull
mem-pull x a [] = refl
mem-pull x a (y ∷ ys) = ground (arith, mem-pull x a ys)

pub mem-add_to_set : (x a : ℕ) (xs : List ℕ) → mem x (add_to_set a xs) ≡ (mem x xs || x == a)
unfolding add_to_set
mem-add_to_set x a xs = elim (Bool-cases (mem a xs)) [
  | inl e ↦ elim (Bool-cases (x == a)) [
    | inl s ↦ rw (e, s) (rw ((==_iff x a).0 s, e) refl)
    | inr s ↦ rw (e, s) (ground arith)
  ]
  | inr e ↦ rw e (mem-append x xs (a ∷ []) ∙ ground arith)
]

-- An address that is taken and then given back leaves the free addresses as they were.
pub mem-add_to_set-pull :
    (x a : ℕ) (xs : List ℕ) → mem a xs ≡ true → mem x (add_to_set a (pull a xs)) ≡ mem x xs
mem-add_to_set-pull x a xs h =
    mem-add_to_set x a (pull a xs)
    ∙ rw mem-pull (back (x == a) (mem x xs) λ e. rw ((==_iff x a).0 e) h)
  where
    back : (b m : Bool) → (b ≡ true → m ≡ true) → (m && not b || b) ≡ m
    back true m f = rw (f refl) refl
    back false m f = ground arith

pub get-any :
    (k : ℕ) (pools : List ExternalNetwork) (p : ExternalNetwork)
    → get pool_id k pools ≡ some p
    → any (λ q. q.id == k) pools ≡ true
get-any k [] p h = ground arith
get-any k (x ∷ pools) p h = ground (arith, get-any k pools p)

-- A pool that is found behind another one is found.
get-later :
    (x : ExternalNetwork) (pools : List ExternalNetwork) (p : ExternalNetwork)
    → UniquePools (x ∷ pools)
    → get pool_id p.id pools ≡ some p
    → get pool_id p.id (x ∷ pools) ≡ some p
get-later x pools p u g = elim (Bool-cases (x.id == p.id)) [
  | inl e ↦
      let same : x.id ≡ p.id = (==_iff x.id p.id).0 e in
      let none_left : any (λ q. q.id == p.id) pools ≡ false =
        subst (λ k. any (λ q. q.id == k) pools ≡ false) same u.0 in
      absurd (apart (sym (get-any p.id pools p g) ∙ none_left))
  | inr e ↦ rw e g
]
  where
    apart : ¬ ((let b : Bool = true in b) ≡ false)
    apart q = cc

pub List-cases : (xs : List ℕ) → (xs ≡ []) ⊎ ((y : ℕ) × (ys : List ℕ) × (xs ≡ y ∷ ys))
List-cases [] = inl refl
List-cases (y ∷ ys) = inr (y, ys, refl)

pub get-first_free :
    (w : ExternalNetwork → Bool) (pools : List ExternalNetwork) (p : ExternalNetwork) (ip : ℕ)
    → UniquePools pools
    → first_free (filter w pools) ≡ some (p, ip)
    → (get pool_id p.id pools ≡ some p) × (mem ip p.ips ≡ true) × (w p ≡ true)
unfolding first_free
get-first_free w [] p ip u h = absurd (ground arith)
get-first_free w (x ∷ pools) p ip u h = elim (Bool-cases (w x)) [
  | inr e ↦
      let (g, m, v) = get-first_free w pools p ip u.1 (rw e at h) in (get-later x pools p u g, m, v)
  | inl e ↦ elim (List-cases x.ips) [
    | inl n ↦
        let (g, m, v) = get-first_free w pools p ip u.1 (rw (e, n) at h) in
        (get-later x pools p u g, m, v)
    | inr (y, ys, n) ↦
        let (a, b) = found x y p ip (rw (e, first_free, n) at h) in
        rw (← a, ← b) (rw ==_refl refl, rw n (ground (arith, ==_refl y)), e)
  ]
]
  where
    found :
        (a : ExternalNetwork) (i : ℕ) (b : ExternalNetwork) (j : ℕ)
        → (let o : Option (ExternalNetwork × ℕ) = some (a, i) in o) ≡ some (b, j)
        → (a ≡ b) × (i ≡ j)
    found a i b j q = (cc, cc)

-- An address that `getExternalIpAddress` returns was free in the pool that it names, which is a pool of
-- the grid, and of the external network where one is asked for; afterwards it is no longer free
-- there.
pub get_external_ip_address-taken :
    (gid : ℕ) (externalnetwork_id : Option ℕ) (models t : Models) (pool : ExternalNetwork)
    (ip mask : ℕ)
    → UniquePools models.externalnetwork
    → get_external_ip_address gid externalnetwork_id models ≡ (ok (some (pool, ip, mask)), t)
    → (p : ExternalNetwork) × (get pool_id p.id models.externalnetwork ≡ some p)
      × (wanted gid externalnetwork_id p ≡ true)
      × (mem ip p.ips ≡ true)
      × (get pool_id p.id t.externalnetwork ≡ some pool)
      × (mem ip pool.ips ≡ false)
unfolding get_external_ip_address take_first take_ip
get_external_ip_address-taken gid ext models t pool ip mask u h =
    elim (Option-cases (first_free (filter (wanted gid ext) models.externalnetwork))) [
      | inl e ↦ absurd (nothing (rw e at h))
      | inr ((p, a), e) ↦
          let (g, m, v) = get-first_free (wanted gid ext) models.externalnetwork p a u e in
          let after =
            get-update pool_id p.id (λ q. record q { ips = pull a q.ips }) models.externalnetwork p
              (λ b. refl) g in
          let (q, r, s) = parts (rw (e, after) at h) in
          (
            p,
            g,
            v,
            rw (← r) m,
            subst (λ x. get pool_id p.id x.externalnetwork ≡ some pool) s (after ∙ ap some q),
            rw (← q, ← r) (mem-pull a a p.ips ∙ ground (arith, ==_refl a)),
          )
    ]
  where
    Answer : Type 0
    Answer = Result (Option (ExternalNetwork × ℕ × ℕ)) × Models

    nothing : ¬ ((let x : Answer = (ok none, models) in x) ≡ (ok (some (pool, ip, mask)), t))
    nothing q = cc

    parts :
        {q : ExternalNetwork} {a k : ℕ} {s : Models}
        → (let x : Answer = (ok (some (q, a, k)), s) in x) ≡ (ok (some (pool, ip, mask)), t)
        → (q ≡ pool) × (a ≡ ip) × (s ≡ t)
    parts e = (cc, cc, cc)
