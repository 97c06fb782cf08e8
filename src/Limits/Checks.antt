-- ===== src/Limits/Checks.antt =====
-- The checks of resources write nothing.
use openvcloud.Prelude.{ℕ, ◌≡◌, refl, Bool, true, false, Option-cases, inl, inr}
use openvcloud.Result.{check_keeps, or_raise, or_raise_same, python_error}
use openvcloud.Models.{Account, Cloudspace, Models}
use openvcloud.Models.Table.{get}
use openvcloud.Limits.{account_of}
use openvcloud.Limits.Change.{cloudspace_id_of}
use openvcloud.Limits.Available.{
  Needs, check_account_resources, check_account_if, check_cloudspace_resources,
  check_account_public_ips, check_cloudspace_public_ips,
}

pub check_account_resources_same :
    (k : ℕ) (needs : Needs) (m : Models) → (check_account_resources k needs m).1 ≡ m
unfolding check_account_resources account_of
check_account_resources_same k needs m =
    elim (Option-cases (get (λ (a : Account). a.id) k m.account)) [
      | inl e ↦ rw e refl
      | inr (a, e) ↦ rw e refl
    ]

check_account_if_same :
    (b : Bool) (k : ℕ) (needs : Needs) (m : Models) → (check_account_if b k needs m).1 ≡ m
unfolding check_account_if
check_account_if_same true k needs m = check_account_resources_same k needs m
check_account_if_same false k needs m = refl

pub check_cloudspace_resources_same :
    (k : ℕ) (needs : Needs) (b : Bool) (m : Models) → (check_cloudspace_resources k needs b m).1 ≡ m
unfolding check_cloudspace_resources
check_cloudspace_resources_same k needs b m =
    check_keeps (λ t. t ≡ m) (λ t. or_raise (get cloudspace_id_of k t.cloudspace) python_error t) _
      m (or_raise_same (get cloudspace_id_of k m.cloudspace) python_error m) refl
      λ (cs : Cloudspace) e.
        check_keeps (λ t. t ≡ m) (check_account_if b cs.account_id needs) _ m
          (check_account_if_same b cs.account_id needs m) refl λ x f. refl

check_account_public_ips_same :
    (k numips : ℕ) (m : Models) → (check_account_public_ips k numips m).1 ≡ m
unfolding check_account_public_ips account_of
check_account_public_ips_same k numips m =
    elim (Option-cases (get (λ (a : Account). a.id) k m.account)) [
      | inl e ↦ rw e refl
      | inr (a, e) ↦ rw e refl
    ]

pub check_cloudspace_public_ips_same :
    (k numips : ℕ) (m : Models) → (check_cloudspace_public_ips k numips m).1 ≡ m
unfolding check_cloudspace_public_ips
check_cloudspace_public_ips_same k numips m =
    check_keeps (λ t. t ≡ m) (λ t. or_raise (get cloudspace_id_of k t.cloudspace) python_error t) _
      m (or_raise_same (get cloudspace_id_of k m.cloudspace) python_error m) refl
      λ (cs : Cloudspace) e.
        check_keeps (λ t. t ≡ m) (check_account_public_ips cs.account_id numips) _ m
          (check_account_public_ips_same cs.account_id numips m) refl λ x f. refl
