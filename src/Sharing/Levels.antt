-- ===== src/Sharing/Levels.antt =====
-- What an entry of a cloudspace's list gives beside what the user inherits from the account.
use openvcloud.Prelude.{
  List, none, not, ◌&&◌, filter, mem, subset, str_eq, eq_iff, ap, ◌∙◌, ==_refl, arith, ◌⊎◌, ℕ,
  String, ◌≡◌, refl, Bool, true, false, Option, some, [], ◌∷◌, ◌++◌, Bool-cases, Option-cases, inl,
  inr, subst,
}
use openvcloud.Result.{Result, ok, err, Result-cases, Error, not_found, conflict}
use openvcloud.Models.{Rights, Ace, AceType, AceStatus, Cloudspace, Models}
use openvcloud.Models.Table.{get, update, get-update}
use openvcloud.Accounts.{is_valid_role, is_for, is_user, pull_user}
use openvcloud.Sharing.{
  Entry, get_cloudspace_acl, id_of_cloudspace, update_cloudspace_acl, new_ace, equals_right,
  within_right, grant_cloudspace, update_cloudspace_ace,
}

-- The entry is that of the user, not of a group with this name.
abbrev pub is_own : String → Ace → Bool
is_own u ace = elim ace.type [ AceType.user ↦ str_eq ace.user_group_id u | AceType.group ↦ false ]

own-pulled : (u : String) (ace : Ace) → (is_user ace && is_for u ace) ≡ is_own u ace
own-pulled u ace = go ace.type
  where
    go :
        (t : AceType)
        → ((elim t [ AceType.user ↦ true | AceType.group ↦ false ]) && str_eq ace.user_group_id u)
          ≡ (elim t [ AceType.user ↦ str_eq ace.user_group_id u | AceType.group ↦ false ])
    go AceType.user = refl
    go AceType.group = refl

module _ (u : String) (a : Ace) (own : is_own u a ≡ true) where
  own_replaced : (acl : List Ace) → filter (is_own u) (pull_user u acl ++ a ∷ []) ≡ a ∷ []
  unfolding pull_user
  own_replaced [] = rw own refl
  own_replaced (x ∷ acl) = elim (Bool-cases (is_own u x)) [
    | inl e ↦ rw (own-pulled u x, e) (own_replaced acl)
    | inr e ↦ rw (own-pulled u x, e) (rw e (own_replaced acl))
  ]

  others_kept :
      (acl : List Ace)
      → filter (λ x. not (is_own u x)) (pull_user u acl ++ a ∷ [])
        ≡ filter (λ x. not (is_own u x)) acl
  unfolding pull_user
  others_kept [] = rw own refl
  others_kept (x ∷ acl) = elim (Bool-cases (is_own u x)) [
    | inl e ↦ rw (own-pulled u x, e) (others_kept acl)
    | inr e ↦ rw (own-pulled u x, e) (rw e (ap (λ l. x ∷ l) (others_kept acl)))
  ]

-- One of the rights is not among those of the account.
abbrev pub Exceeds : Rights → Option Rights → Type 0
Exceeds accesstype o =
    (o ≡ none)
    ⊎ ((rights : Rights) × (o ≡ some rights)
        × (r : ℕ) × (mem r accesstype ≡ true)
        × (mem r rights ≡ false))

missing : (xs ys : Rights) → subset xs ys ≡ false → (r : ℕ) × (mem r xs ≡ true) × (mem r ys ≡ false)
missing [] ys h = absurd cc
missing (x ∷ xs) ys h = elim (Bool-cases (mem x ys)) [
  | inr e ↦ (x, rw ==_refl refl, e)
  | inl e ↦ let (r, m, n) = missing xs ys (rw e at h) in (r, ground (arith, m), n)
]

exceeds_lem :
    (accesstype : Rights) (o : Option Rights)
    → within_right accesstype o ≡ false
    → Exceeds accesstype o
exceeds_lem accesstype none h = inl refl
exceeds_lem accesstype (some rights) h =
    let (r, asked, gone) = missing accesstype rights h in inr (rights, refl, r, asked, gone)

module _ (k : ℕ) (u : String) (accesstype : Rights) (status : AceStatus) (models t : Models) where
  abbrev Answer : Type 0
  Answer = Result Bool × Models

  -- What `_updateACE` of a cloudspace has passed and written where it returns true.
  granted_steps :
      (cs : Cloudspace)
      → get id_of_cloudspace k models.cloudspace ≡ some cs
      → update_cloudspace_ace k u accesstype status models ≡ (ok true, t)
      → (entries : String → Option Entry) × (get_cloudspace_acl models k ≡ ok entries)
        × (e : Entry) × (entries u ≡ some e)
        × (within_right accesstype e.account_right ≡ false)
        × (after : Cloudspace) × (get id_of_cloudspace k t.cloudspace ≡ some after)
        × (after.acl ≡ pull_user u cs.acl ++ new_ace u accesstype status ∷ [])
  unfolding update_cloudspace_ace grant_cloudspace update_cloudspace_acl
  granted_steps cs g h = elim (Result-cases (is_valid_role accesstype)) [
    | inr (x, v) ↦ absurd (refused x models (rw v at h))
    | inl (role, v) ↦ elim (Result-cases (get_cloudspace_acl models k)) [
      | inr (x, a) ↦ absurd (refused x models (rw (v, a) at h))
      | inl (entries, a) ↦ elim (Option-cases (entries u)) [
        | inl e ↦ absurd (refused not_found models (rw (v, a, e) at h))
        | inr (entry, e) ↦ elim (Bool-cases (equals_right accesstype entry.account_right)) [
          | inl q ↦ absurd (same (rw (v, a, e, grant_cloudspace, q) at h))
          | inr q ↦ elim (Bool-cases (within_right accesstype entry.account_right)) [
            | inl w ↦ absurd (refused conflict models (rw (v, a, e, grant_cloudspace, q, w) at h))
            | inr w ↦
                let s = stored (rw (v, a, e, grant_cloudspace, q, w) at h) in
                let pulled =
                  get-update id_of_cloudspace k (λ c. record c { acl = pull_user u c.acl })
                    models.cloudspace cs (λ c. refl) g in
                let pushed =
                  get-update id_of_cloudspace k
                    (λ c. record c { acl = c.acl ++ new_ace u accesstype status ∷ [] })
                    (update id_of_cloudspace k (λ c. record c { acl = pull_user u c.acl })
                      models.cloudspace)
                    (record cs { acl = pull_user u cs.acl }) (λ c. refl) pulled in
                (
                  entries,
                  a,
                  entry,
                  e,
                  w,
                  record cs { acl = pull_user u cs.acl ++ new_ace u accesstype status ∷ [] },
                  subst
                      (λ x.
                        get id_of_cloudspace k x.cloudspace
                        ≡ some (record cs {
                          acl = pull_user u cs.acl ++ new_ace u accesstype status ∷ [];
                        }))
                      s pushed,
                  refl,
                )
          ]
        ]
      ]
    ]
  ]
    where
      refused : (x : Error) (s : Models) → ¬ ((let y : Answer = (err x, s) in y) ≡ (ok true, t))
      refused x s p = cc

      same : {s : Models} → ¬ ((let y : Answer = (ok false, s) in y) ≡ (ok true, t))
      same p = cc

      stored : {s : Models} → (let y : Answer = (ok true, s) in y) ≡ (ok true, t) → s ≡ t
      stored p = cc

  -- When `_updateACE` of a cloudspace returns true, the user had access, and one of the rights asked
  -- for is not inherited from the account. The cloudspace now has one entry of the user, with exactly
  -- these rights and the status, and the entries of all others as before.
  pub update_cloudspace_ace-granted :
      (cs : Cloudspace)
      → get id_of_cloudspace k models.cloudspace ≡ some cs
      → update_cloudspace_ace k u accesstype status models ≡ (ok true, t)
      → (entries : String → Option Entry) × (get_cloudspace_acl models k ≡ ok entries)
        × (e : Entry) × (entries u ≡ some e)
        × Exceeds accesstype e.account_right
        × (after : Cloudspace) × (get id_of_cloudspace k t.cloudspace ≡ some after)
        × (filter (is_own u) after.acl
            ≡ record { user_group_id = u; type = AceType.user; right = accesstype; status = status }
              ∷ [])
        × (filter (λ x. not (is_own u x)) after.acl ≡ filter (λ x. not (is_own u x)) cs.acl)
  update_cloudspace_ace-granted cs g h =
      let (entries, a, e, known, w, after, here, acl) = granted_steps cs g h in
      let own : is_own u (new_ace u accesstype status) ≡ true = (eq_iff u u).1 refl in
      (
        entries,
        a,
        e,
        known,
        exceeds_lem accesstype e.account_right w,
        after,
        here,
        ap (filter (is_own u)) acl ∙ own_replaced u (new_ace u accesstype status) own cs.acl,
        ap (filter (λ x. not (is_own u x))) acl
            ∙ others_kept u (new_ace u accesstype status) own cs.acl,
      )
