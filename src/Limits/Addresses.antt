-- ===== src/Limits/Addresses.antt =====
-- Room for public addresses: `checkAvailablePublicIPs` in apps/cloudbroker/base/cloudapi__cloudspaces.
use openvcloud.Prelude.{ℕ, ◌+◌, ◌≤◌, ◌≡◌, refl, some, arith, inl, inr, ap}
use openvcloud.Prelude.Int.{pos, ◌-ℤ◌}
use openvcloud.Result.{Result, ok, err, Error, Result-cases}
use openvcloud.Models.{cu_i, Account, Cloudspace, Models}
use openvcloud.Models.Table.{get}
use openvcloud.Limits.{account_of}
use openvcloud.Limits.Change.{cloudspace_id_of, consumed_in_cloudspace, consumed_in_account}
use openvcloud.Limits.Available.{
  check_addresses, check_account_public_ips, check_cloudspace_public_ips,
}

check_addresses-fits :
    (n z : ℕ) (r : Result ℕ)
    → check_addresses n (some (pos z)) r ≡ ok tt
    → (used : ℕ) × (r ≡ ok used) × (used + n ≤ z)
unfolding check_addresses ◌-ℤ◌
check_addresses-fits n z (err e) h = absurd (ground arith)
check_addresses-fits n z (ok used) h = (used, refl, ground arith)

-- When `checkAvailablePublicIPs` of a cloudspace passes, and the cloudspace and its account both limit
-- their public addresses, then the addresses in use and those asked for are within both limits.
pub check_cloudspace_public_ips-fits :
    (k n z l : ℕ) (models t : Models) (cs : Cloudspace) (account : Account)
    → check_cloudspace_public_ips k n models ≡ (ok tt, t)
    → get cloudspace_id_of k models.cloudspace ≡ some cs
    → get (λ (a : Account). a.id) cs.account_id models.account ≡ some account
    → cs.resource_limits cu_i ≡ some (pos z)
    → account.resource_limits cu_i ≡ some (pos l)
    → (used total : ℕ) × (consumed_in_cloudspace cu_i k models ≡ ok used)
      × (used + n ≤ z)
      × (consumed_in_account cu_i cs.account_id models ≡ ok total)
      × (total + n ≤ l)
unfolding check_cloudspace_public_ips check_account_public_ips account_of
check_cloudspace_public_ips-fits k n z l models t cs account h g a c d =
    elim (Result-cases
      (check_addresses n (some (pos l)) (consumed_in_account cu_i cs.account_id models))) [
        | inr (x, e) ↦ absurd (refused (rw (g, a, d, e) at h))
        | inl (u, e) ↦
            let (total, p, q) =
              check_addresses-fits n l (consumed_in_account cu_i cs.account_id models) e in
            let (used, r, s) =
              check_addresses-fits n z (consumed_in_cloudspace cu_i k models)
                (passed (rw (g, a, d, e, c) at h)) in
            (used, total, r, s, p, q)
      ]
  where
    refused :
        {x : Error} → ¬ ((let y : Result (Unit {0}) × Models = (err x, models) in y) ≡ (ok tt, t))
    refused q = cc

    passed :
        {r : Result (Unit {0})}
        → (let y : Result (Unit {0}) × Models = (r, models) in y) ≡ (ok tt, t)
        → r ≡ ok tt
    passed q = ap (λ x. x.0) q
