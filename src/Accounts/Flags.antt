-- ===== src/Accounts/Flags.antt =====
-- The flag `canBeDeleted` of `get` in apps/cloudbroker/base/cloudapi__accounts.
use openvcloud.Prelude.{
  ℕ, ◌+◌, String, ◌≡◌, refl, Bool, true, not, ◌&&◌, ◌||◌, some, List, [], ◌∷◌, arith, any, filter,
  length, leb, if◌then◌else◌, Bool-cases, inl, inr,
}
use openvcloud.Models.{Ace}
use openvcloud.Accounts.{is_admin, find_ace, is_account_user_deletable, can_be_deleted}
use openvcloud.Accounts.Access.{find_ace-cons}

count_admins : List Ace → ℕ
count_admins acl = length (filter is_admin acl)

bit : Bool → ℕ
bit b = if b then 1 else 0

count_admins-cons :
    (a : Ace) (acl : List Ace) → count_admins (a ∷ acl) ≡ bit (is_admin a) + count_admins acl
unfolding count_admins bit
count_admins-cons a acl = elim (Bool-cases (is_admin a)) [
  | inl e ↦ rw e (omega arith)
  | inr e ↦ rw e (omega arith)
]

count_admins-find_ace :
    (u : String) (acl : List Ace) (ace : Ace) (others : List Ace)
    → find_ace u acl ≡ some (ace, others)
    → count_admins acl ≡ bit (is_admin ace) + count_admins others
unfolding find_ace
count_admins-find_ace u [] ace others h = cc
count_admins-find_ace u (a ∷ acl) ace others h = elim (find_ace-cons u a acl ace others h) [
  | inl (e, q, r) ↦ rw (q, r) (count_admins-cons ace others)
  | inr (os, e, f, r) ↦ rw r (
      omega (
        arith,
        count_admins-cons a acl,
        count_admins-cons a os,
        count_admins-find_ace u acl ace os f,
      ))
]

any-count_admins : (acl : List Ace) → any is_admin acl ≡ not (leb (count_admins acl) 0)
any-count_admins [] = unfold count_admins in refl
any-count_admins (a ∷ acl) =
    rw count_admins-cons
      (step (is_admin a) (any is_admin acl) (count_admins acl) (any-count_admins acl))
  where
    step : (b c : Bool) (n : ℕ) → c ≡ not (leb n 0) → (b || c) ≡ not (leb (bit b + n) 0)
    step b c n h = unfold bit in ground arith

flag_lem :
    (b c : Bool) (n m : ℕ)
    → c ≡ not (leb m 0)
    → n ≡ bit b + m
    → not (leb n 1 && b) ≡ (if b then c else true)
unfolding bit
flag_lem b c n m h k = ground arith

-- The flag that `get` shows for the entry of a user is the answer that `updateUser` and
-- `deleteUser` act on.
pub flag-eq-deletable :
    (u : String) (acl : List Ace) (ace : Ace) (others : List Ace)
    → find_ace u acl ≡ some (ace, others)
    → can_be_deleted acl ace ≡ is_account_user_deletable ace others
unfolding can_be_deleted is_account_user_deletable count_admins
flag-eq-deletable u acl ace others f =
    flag_lem (is_admin ace) (any is_admin others) (count_admins acl) (count_admins others)
      (any-count_admins others) (count_admins-find_ace u acl ace others f)
