-- ===== src/Accounts/Admins.antt =====
-- No account loses its last administrator (apps/cloudbroker/base/cloudapi__accounts and
-- `isaccountuserdeletable` of apps/cloudbroker/cloudbrokerlib/cloudbroker.py).
use openvcloud.Prelude.{
  ℕ, String, ◌≡◌, refl, Bool, true, false, not, ◌||◌, some, List, [], ◌∷◌, ◌++◌, any, arith,
  if◌then◌else◌, Bool-cases, Option-cases, inl, inr, sym, ◌∙◌, subst,
}
use openvcloud.Result.{Result-cases}
use openvcloud.Models.{Rights, Ace, AceType, AceStatus, Account, Models}
use openvcloud.Models.Table.{get, exists, Holds, Holds-update}
use openvcloud.Accounts.{
  is_admin, is_for, is_user, is_account_user_deletable, find_ace, pull_user, set_right,
  account_id_of, update_acl, add_ace, update_user, delete_user, pull_recursively, is_valid_role,
}
use openvcloud.Accounts.Access.{
  UniqueIds, any-find_ace, pull_user-find_ace, pull_user-UniqueIds, set_right-UniqueIds,
  append-UniqueIds, any-set_right,
}

-- One entry for each user, and an administrator among them.
pub record IsManaged (acl : List Ace) : Type 0 where
  pub unique : UniqueIds acl
  pub has_admin : any is_admin acl ≡ true

-- The account `k` is in the store and is managed.
abbrev pub HasManaged : ℕ → Models → Type 0
HasManaged k models = Holds account_id_of (λ a. IsManaged a.acl) k models.account

any-append_left : (p : Ace → Bool) (xs ys : List Ace) → any p xs ≡ true → any p (xs ++ ys) ≡ true
any-append_left p [] ys h = ground arith
any-append_left p (x ∷ xs) ys h = ground (arith, any-append_left p xs ys)

append-IsManaged :
    (acl : List Ace) (ace : Ace)
    → any (is_for ace.user_group_id) acl ≡ false
    → IsManaged acl
    → IsManaged (acl ++ ace ∷ [])
append-IsManaged acl ace h w = record {
  unique = append-UniqueIds acl ace w.unique h;
  has_admin = any-append_left is_admin acl (ace ∷ []) w.has_admin;
}

deletable_cases :
    (b c d : Bool) → d ≡ (b || c) → d ≡ true → not (if b then c else true) ≡ false → c ≡ true
deletable_cases b c d e h k = ground arith

others_have_admin :
    (u : String) (acl : List Ace) (ace : Ace) (others : List Ace)
    → find_ace u acl ≡ some (ace, others)
    → not (is_account_user_deletable ace others) ≡ false
    → IsManaged acl
    → any is_admin others ≡ true
unfolding is_account_user_deletable
others_have_admin u acl ace others f d w =
    deletable_cases (is_admin ace) (any is_admin others) (any is_admin acl)
      (any-find_ace is_admin u acl ace others f) w.has_admin d

set_right-IsManaged :
    (u : String) (r : Rights) (acl : List Ace) (ace : Ace) (others : List Ace)
    → find_ace u acl ≡ some (ace, others)
    → not (is_account_user_deletable ace others) ≡ false
    → IsManaged acl
    → IsManaged (set_right u r acl)
set_right-IsManaged u r acl ace others f d w = record {
  unique = set_right-UniqueIds u r acl w.unique;
  has_admin =
      any-set_right is_admin u r acl ace others f (others_have_admin u acl ace others f d w);
}

pull_user-IsManaged :
    (u : String) (acl : List Ace) (ace : Ace) (others : List Ace)
    → find_ace u acl ≡ some (ace, others)
    → not (is_account_user_deletable ace others) ≡ false
    → IsManaged acl
    → IsManaged (pull_user u acl)
pull_user-IsManaged u acl ace others f d w = record {
  unique = pull_user-UniqueIds u acl w.unique;
  has_admin =
      rw (pull_user-find_ace u acl ace others w.unique f)
        (pick (is_user ace) (others_have_admin u acl ace others f d w) w.has_admin);
}
  where
    pick :
        (b : Bool)
        → any is_admin others ≡ true
        → any is_admin acl ≡ true
        → any is_admin (if b then others else acl) ≡ true
    pick true h k = h
    pick false h k = k

module _ (k j : ℕ) (models : Models) (w : HasManaged k models) where
  -- An operation changes the list of the account `j` by `f`, which keeps it managed.
  update_acl-HasManaged :
      (f : List Ace → List Ace) (a : Account)
      → get account_id_of j models.account ≡ some a
      → (IsManaged a.acl → IsManaged (f a.acl))
      → HasManaged k (update_acl j f models).1
  unfolding update_acl
  update_acl-HasManaged f a e step =
      Holds-update account_id_of (λ b. IsManaged b.acl) k j (λ b. record b { acl = f b.acl })
        models.account (λ b. refl)
        (λ b g. subst (λ c. IsManaged c.acl → IsManaged (f c.acl)) (same_account (sym e ∙ g)) step)
        w
    where
      same_account : {b c : Account} → some b ≡ some c → b ≡ c
      same_account q = cc

  pulled-HasManaged :
      (u : String) (recursivedelete : Bool) (m : Models)
      → HasManaged k m
      → HasManaged k ((if recursivedelete then pull_recursively j u else λ x. x) m)
  unfolding pull_recursively
  pulled-HasManaged u true m h = h
  pulled-HasManaged u false m h = h

  pub delete_user-HasManaged :
      (u : String) (recursivedelete : Bool)
      → HasManaged k (delete_user j u recursivedelete models).1
  unfolding delete_user
  delete_user-HasManaged u recursivedelete =
      elim (Option-cases (get account_id_of j models.account)) [
        | inl e ↦ rw e w
        | inr (a, e) ↦ rw e (elim (Option-cases (find_ace u a.acl)) [
          | inl f ↦ rw f w
          | inr ((ace, others), f) ↦
              rw f (elim (Bool-cases (not (is_account_user_deletable ace others))) [
                | inl d ↦ rw d w
                | inr d ↦ rw d (
                    pulled-HasManaged u recursivedelete (update_acl j (pull_user u) models).1 (
                      update_acl-HasManaged (pull_user u) a e
                        (pull_user-IsManaged u a.acl ace others f d)))
              ])
        ])
      ]

  pub update_user-HasManaged : (u : String) (r : Rights) → HasManaged k (update_user j u r models).1
  unfolding update_user
  update_user-HasManaged u r = elim (Bool-cases (not (exists account_id_of j models.account))) [
    | inl x ↦ rw x w
    | inr x ↦ rw x (elim (Result-cases (is_valid_role r)) [
      | inr (y, v) ↦ rw v w
      | inl (role, v) ↦ rw v (elim (Option-cases (get account_id_of j models.account)) [
        | inl e ↦ rw e w
        | inr (a, e) ↦ rw e (elim (Option-cases (find_ace u a.acl)) [
          | inl f ↦ rw f w
          | inr ((ace, others), f) ↦
              rw f (elim (Bool-cases (not (is_account_user_deletable ace others))) [
                | inl d ↦ rw d w
                | inr d ↦ rw d (
                    update_acl-HasManaged (set_right u r) a e
                      (set_right-IsManaged u r a.acl ace others f d))
              ])
        ])
      ])
    ])
  ]

  pub add_ace-HasManaged :
      (u : String) (r : Rights) (status : AceStatus) → HasManaged k (add_ace j u r status models).1
  unfolding add_ace
  add_ace-HasManaged u r status = elim (Bool-cases (not (exists account_id_of j models.account))) [
    | inl x ↦ rw x w
    | inr x ↦ rw x (elim (Result-cases (is_valid_role r)) [
      | inr (y, v) ↦ rw v w
      | inl (role, v) ↦ rw v (elim (Option-cases (get account_id_of j models.account)) [
        | inl e ↦ rw e w
        | inr (a, e) ↦ rw e (elim (Bool-cases (any (is_for u) a.acl)) [
          | inl d ↦ rw d w
          | inr d ↦ rw d (
              update_acl-HasManaged (λ acl. acl ++ granted ∷ []) a e
                (append-IsManaged a.acl granted d))
        ])
      ])
    ])
  ]
    where
      granted : Ace
      granted = record { user_group_id = u; type = AceType.user; right = r; status = status }
