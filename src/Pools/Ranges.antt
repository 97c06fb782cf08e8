-- ===== src/Pools/Ranges.antt =====
-- Network ids taken, given back and registered: apps/cloudbroker/base/libcloud__libvirt.
use openvcloud.Prelude.{
  ℕ, ◌≡◌, refl, Bool, true, false, not, ◌&&◌, ◌||◌, Option, none, some, List, [], ◌∷◌, ◌==◌,
  ==_refl, any, mem, ltb, leb, ◌+◌, ◌-◌, zero, suc, arith, Bool-cases, Option-cases, inl, inr, ◌∙◌,
  subst,
}
use openvcloud.Result.{Result, ok, err, python_error, conflict}
use openvcloud.Models.{NetworkIds, Models}
use openvcloud.Models.Table.{get, exists, get-update}
use openvcloud.Pools.{
  ids_id, pull, add_to_set, add_each, set_networkids, take_first_id, get_free_network_id,
  register_network_id_range, count_from, range, uses, add_range,
}
use openvcloud.Pools.Balance.{mem-pull, mem-add_to_set, List-cases}

-- A network id that `getFreeNetworkId` returns was free in the grid and is no longer free, and the
-- other ids of the grid are as free as before.
pub get_free_network_id-taken :
    (gid k : ℕ) (models t : Models)
    → get_free_network_id gid models ≡ (ok (some k), t)
    → (n after : NetworkIds) × (get ids_id gid models.networkids ≡ some n)
      × (mem k n.networkids ≡ true)
      × (get ids_id gid t.networkids ≡ some after)
      × ((j : ℕ) → mem j after.networkids ≡ (mem j n.networkids && not (j == k)))
unfolding get_free_network_id take_first_id set_networkids
get_free_network_id-taken gid k models t h =
    elim (Option-cases (get ids_id gid models.networkids)) [
      | inl e ↦ absurd (raised (rw e at h))
      | inr (n, e) ↦ elim (List-cases n.networkids) [
        | inl z ↦ absurd (nothing (rw (e, take_first_id, z) at h))
        | inr (y, ys, z) ↦
            let (q, s) = parts (rw (e, take_first_id, z) at h) in
            let after =
              get-update ids_id gid (λ m. record m { networkids = pull y m.networkids })
                models.networkids n (λ b. refl) e in
            (
              n,
              record n { networkids = pull y n.networkids },
              e,
              rw (z, ← q) (ground (arith, ==_refl y)),
              subst
                  (λ x.
                    get ids_id gid x.networkids
                    ≡ some (record n { networkids = pull y n.networkids }))
                  s after,
              λ j. rw (← q) (mem-pull j y n.networkids),
            )
      ]
    ]
  where
    Answer : Type 0
    Answer = Result (Option ℕ) × Models

    raised : ¬ ((let x : Answer = (err python_error, models) in x) ≡ (ok (some k), t))
    raised q = cc

    nothing : ¬ ((let x : Answer = (ok none, models) in x) ≡ (ok (some k), t))
    nothing q = cc

    parts :
        {a : ℕ} {s : Models}
        → (let x : Answer = (ok (some a), s) in x) ≡ (ok (some k), t)
        → (a ≡ k) × (s ≡ t)
    parts e = (cc, cc)

mem-add_each : (x : ℕ) (new xs : List ℕ) → mem x (add_each new xs) ≡ (mem x xs || mem x new)
unfolding add_each
mem-add_each x [] xs = ground arith
mem-add_each x (a ∷ new) xs =
    mem-add_each x new (add_to_set a xs) ∙ rw (mem-add_to_set x a xs) (ground arith)

mem-count_from : (x start n : ℕ) → mem x (count_from start n) ≡ (leb start x && ltb x (start + n))
mem-count_from x start zero = ground arith
mem-count_from x start (suc n) = rw (mem-count_from x (suc start) n) (ground arith)

mem-range : (x start end : ℕ) → mem x (range start (end + 1)) ≡ (leb start x && leb x end)
unfolding range
mem-range x start end = rw (mem-count_from x start ((end + 1) - start)) (ground arith)

-- A range is registered for a grid that is known only if no cloudspace of the grid that is VIRTUAL or
-- DEPLOYED uses an id of it; then the ids from the start to the end are free, with those that were
-- free before.
pub register_network_id_range-free :
    (gid start end : ℕ) (models t : Models) (n : NetworkIds)
    → get ids_id gid models.networkids ≡ some n
    → register_network_id_range gid start end models ≡ (ok true, t)
    → (any (uses gid (range start (end + 1))) models.cloudspace ≡ false)
      × (after : NetworkIds) × (get ids_id gid t.networkids ≡ some after)
      × ((j : ℕ) → mem j after.networkids ≡ (mem j n.networkids || (leb start j && leb j end)))
unfolding register_network_id_range add_range set_networkids
register_network_id_range-free gid start end models t n e h =
    let known : exists ids_id gid models.networkids ≡ true = rw (exists, e) refl in
    elim (Bool-cases (any (uses gid (range start (end + 1))) models.cloudspace)) [
      | inl b ↦ absurd (refused (rw (known, add_range, b) at h))
      | inr b ↦
          let s = stored (rw (known, add_range, b) at h) in
          let after =
            get-update ids_id gid
              (λ m. record m { networkids = add_each (range start (end + 1)) m.networkids })
              models.networkids n (λ c. refl) e in
          (
            b,
            record n { networkids = add_each (range start (end + 1)) n.networkids },
            subst
                (λ x.
                  get ids_id gid x.networkids
                  ≡ some (record n { networkids = add_each (range start (end + 1)) n.networkids }))
                s after,
            λ j.
                rw (mem-add_each j (range start (end + 1)) n.networkids, mem-range j start end)
                  refl,
          )
    ]
  where
    Answer : Type 0
    Answer = Result Bool × Models

    refused : ¬ ((let x : Answer = (err conflict, models) in x) ≡ (ok true, t))
    refused q = cc

    stored : {s : Models} → (let x : Answer = (ok true, s) in x) ≡ (ok true, t) → s ≡ t
    stored e = cc
