-- ===== src/Pools/Taken.antt =====
-- What `getExternalIpAddress` writes, and that `releaseExternalIpAddress` takes it back.
use openvcloud.Prelude.{
  ℕ, ◌≡◌, refl, Bool, true, false, Option, none, some, List, ◌==◌, ==_iff, filter, mem, Bool-cases,
  Option-cases, inl, inr, sym, ap, ◌∙◌, subst,
}
use openvcloud.Result.{Result, ok}
use openvcloud.Models.{ExternalNetwork, Models}
use openvcloud.Models.Table.{get, update, get-update, get-update_ne}
use openvcloud.Pools.{
  pool_id, pull, add_to_set, wanted, first_free, take_ip, take_first, get_external_ip_address,
}
use openvcloud.Pools.Balance.{UniquePools, get-first_free, mem-add_to_set-pull}

abbrev pub free_in : ℕ → Option ExternalNetwork → Bool
free_in ip none = false
free_in ip (some p) = mem ip p.ips

-- The address is free in the pool.
abbrev pub is_free : ℕ → ℕ → List ExternalNetwork → Bool
is_free k ip pools = free_in ip (get pool_id k pools)

-- In every pool the same addresses are free.
abbrev pub SameFree : List ExternalNetwork → List ExternalNetwork → Type 0
SameFree ps qs = (k ip : ℕ) → is_free k ip ps ≡ is_free k ip qs

abbrev pub without : ℕ → ExternalNetwork → ExternalNetwork
without ip p = record p { ips = pull ip p.ips }

abbrev pub with_free : ℕ → ExternalNetwork → ExternalNetwork
with_free ip p = record p { ips = add_to_set ip p.ips }

-- The pool `p` before and after its address `ip` is taken.
pub record IsTaken (ip : ℕ) (m : Models) (pool : ExternalNetwork) (t : Models) : Type 0 where
  pub old : ExternalNetwork
  pub in_store : get pool_id pool.id m.externalnetwork ≡ some old
  pub was_free : mem ip old.ips ≡ true
  pub after :
      t ≡ record m { externalnetwork = update pool_id pool.id (without ip) m.externalnetwork }

pub get_external_ip_address-IsTaken :
    (gid : ℕ) (ext : Option ℕ) (m t : Models) (pool : ExternalNetwork) (ip mask : ℕ)
    → UniquePools m.externalnetwork
    → get_external_ip_address gid ext m ≡ (ok (some (pool, ip, mask)), t)
    → IsTaken ip m pool t
unfolding get_external_ip_address take_first take_ip
get_external_ip_address-IsTaken gid ext m t pool ip mask u h =
    elim (Option-cases (first_free (filter (wanted gid ext) m.externalnetwork))) [
      | inl e ↦ absurd (nothing (rw e at h))
      | inr ((p, a), e) ↦
          let (g, free, v) = get-first_free (wanted gid ext) m.externalnetwork p a u e in
          let now = get-update pool_id p.id (without a) m.externalnetwork p (λ b. refl) g in
          let (q, r, s) = parts (rw (e, now) at h) in
          let same : p.id ≡ pool.id = ap (λ (x : ExternalNetwork). x.id) q in
          record {
            old = p;
            in_store = rw (← same) g;
            was_free = rw (← r) free;
            after = rw (← same, ← r) (sym s);
          }
    ]
  where
    Answer : Type 0
    Answer = Result (Option (ExternalNetwork × ℕ × ℕ)) × Models

    nothing : ¬ ((let x : Answer = (ok none, m) in x) ≡ (ok (some (pool, ip, mask)), t))
    nothing q = cc

    parts :
        {q : ExternalNetwork} {a k : ℕ} {s : Models}
        → (let x : Answer = (ok (some (q, a, k)), s) in x) ≡ (ok (some (pool, ip, mask)), t)
        → (q ≡ pool) × (a ≡ ip) × (s ≡ t)
    parts e = (cc, cc, cc)

pub is_free-back :
    (k j ip a : ℕ) (pools : List ExternalNetwork) (p : ExternalNetwork)
    → get pool_id k pools ≡ some p
    → mem ip p.ips ≡ true
    → is_free j a (update pool_id k (with_free ip) (update pool_id k (without ip) pools))
      ≡ is_free j a pools
is_free-back k j ip a pools p g free = elim (Bool-cases (k == j)) [
  | inr e ↦ ap (free_in a) (
      get-update_ne pool_id j k (with_free ip) (update pool_id k (without ip) pools) (λ b. refl) e
      ∙ get-update_ne pool_id j k (without ip) pools (λ b. refl) e)
  | inl e ↦
      let once = get-update pool_id k (without ip) pools p (λ b. refl) g in
      let twice =
        get-update pool_id k (with_free ip) (update pool_id k (without ip) pools) (without ip p)
          (λ b. refl) once in
      subst
        (λ i.
          is_free i a (update pool_id k (with_free ip) (update pool_id k (without ip) pools))
          ≡ is_free i a pools)
        ((==_iff k j).0 e)
        (ap (free_in a) twice ∙ mem-add_to_set-pull a ip p.ips free ∙ ap (free_in a) (sym g))
]
