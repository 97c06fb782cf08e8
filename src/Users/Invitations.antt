-- ===== src/Users/Invitations.antt =====
-- What the registration of an invited user does to the resources that were shared with the address.
use openvcloud.Prelude.{
  ℕ, ◌≡◌, refl, Bool, true, false, not, ◌&&◌, some, List, [], ◌∷◌, String, str_eq, eq_iff, any, all,
  filter, map, ◌++◌, ap, sym, subst, Bool-cases, Option-cases, inl, inr, ◌⊎◌, if◌then◌else◌,
}
use openvcloud.Prelude.Bools.{or_false, and_true}
use openvcloud.Result.{ok, err, python_error}
use openvcloud.Models.{Ace, AceStatus, Account, Cloudspace, VMachine, Models}
use openvcloud.Models.Table.{get, set, delete, exists, id-get}
use openvcloud.Models.Unique.{Unique, each-map, set-own, exist-filter}
use openvcloud.Accounts.{account_id_of}
use openvcloud.Machines.{vm_id}
use openvcloud.Users.{PortalUser, InviteToken, Portal, Answer, invite_id}
use openvcloud.Users.Register.{
  invited, confirm_first, confirm_account, confirm_cloudspace, cloudspace_id_of, last_acl,
  confirm_machines, has_comma, update_resource_invitations, UserManager, register_invited_user,
  is_valid_invite, welcome,
}

confirm_first-none :
    (name email : String) (acl : List Ace)
    → invited email acl ≡ false
    → confirm_first name email acl ≡ acl
unfolding confirm_first
confirm_first-none name email [] h = refl
confirm_first-none name email (ace ∷ acl) h =
    let (miss, rest) = or_false (str_eq ace.user_group_id email) (invited email acl) h in
    rw (miss, confirm_first) (ap (λ l. ace ∷ l) (confirm_first-none name email acl rest))

-- The machines are stored as they are.
confirm_machines-same :
    (name email : String) (acl : List Ace) (vms : List VMachine) (m : Models)
    → Unique vm_id m.vmachine
    → all (λ v. exists vm_id v.id m.vmachine) vms ≡ true
    → confirm_machines name email (some acl) vms m ≡ (ok tt, m)
unfolding confirm_machines
confirm_machines-same name email acl [] m u h = refl
confirm_machines-same name email acl (vm ∷ vms) m u h =
    let (here, rest) = and_true (exists vm_id vm.id m.vmachine) _ h in
    elim (Option-cases (get vm_id vm.id m.vmachine)) [
      | inl e ↦ absurd (let q : false ≡ true = rw (exists, e) at here in cc)
      | inr (v, e) ↦
          let own : get vm_id v.id m.vmachine ≡ some v =
            subst (λ i. get vm_id i m.vmachine ≡ some v) (sym (id-get vm_id vm.id m.vmachine v e))
              e in
          let same : set vm_id v m.vmachine ≡ m.vmachine = set-own vm_id v m.vmachine u own in
          let later =
            confirm_machines-same name email (confirm_first name email acl) vms m u rest in
          elim (Bool-cases (invited email acl)) [
            | inl i ↦ rw (e, i, same) later
            | inr i ↦ rw (e, i) later
          ]
    ]

last_acl-none :
    (name email : String) (spaces : List Cloudspace)
    → (spaces ≡ []) ⊎ ((acl : List Ace) × (last_acl name email spaces ≡ some acl))
unfolding last_acl
last_acl-none name email [] = inl refl
last_acl-none name email (cs ∷ []) = inr (confirm_first name email cs.acl, refl)
last_acl-none name email (cs ∷ more ∷ spaces) = elim (last_acl-none name email (more ∷ spaces)) [
  | inl e ↦ absurd cc
  | inr found ↦ inr found
]

-- Nobody is invited to a cloudspace, and somebody is to a machine.
abbrev pub blocked : String → Models → Bool
blocked email m =
    any (λ vm. invited email vm.acl) m.vmachine
    && not (any (λ cs. invited email cs.acl) m.cloudspace)

-- The entries before and after: the first one of the address now has the name and is CONFIRMED, with
-- its type and its rights; without one of the address nothing is changed.
unfoldable pub IsConfirmed : String → String → List Ace → List Ace → Type 0
IsConfirmed name email before after =
    ((invited email before ≡ false) × (after ≡ before))
    ⊎ ((xs ys : List Ace) × (ace : Ace) × (before ≡ xs ++ ace ∷ ys)
        × (invited email xs ≡ false)
        × (ace.user_group_id ≡ email)
        × (after
            ≡ xs
              ++ record {
                user_group_id = name;
                type = ace.type;
                right = ace.right;
                status = AceStatus.confirmed;
              }
                ∷ ys))

confirm_first-IsConfirmed :
    (name email : String) (acl : List Ace)
    → IsConfirmed name email acl (confirm_first name email acl)
unfolding IsConfirmed confirm_first
confirm_first-IsConfirmed name email [] = inl (refl, refl)
confirm_first-IsConfirmed name email (ace ∷ acl) =
    elim (Bool-cases (str_eq ace.user_group_id email)) [
      | inl e ↦ inr (
        [],
        acl,
        ace,
        refl,
        refl,
        (eq_iff ace.user_group_id email).0 e,
        rw (confirm_first, e) refl,
      )
      | inr e ↦ elim (confirm_first-IsConfirmed name email acl) [
        | inl (n, q) ↦ inl (rw (e, n) refl, rw (confirm_first, e) (ap (λ l. ace ∷ l) q))
        | inr (xs, ys, a, b, n, own, q) ↦ inr (
          ace ∷ xs,
          ys,
          a,
          ap (λ l. ace ∷ l) b,
          rw (e, n) refl,
          own,
          rw (confirm_first, e) (ap (λ l. ace ∷ l) q),
        )
      ]
    ]

-- Accounts and cloudspaces with other entries.
abbrev pub with_entries : (List Ace → List Ace) → Models → Models
with_entries f m = record m {
  account = map {A = Account} {B = Account} (λ a. record a { acl = f a.acl }) m.account;
  cloudspace =
      map {A = Cloudspace} {B = Cloudspace} (λ cs. record cs { acl = f cs.acl }) m.cloudspace;
}

filter-any :
    {A : Type 0} (p : A → Bool) (xs : List A)
    → ((any p xs ≡ false) × (filter p xs ≡ []))
      ⊎ ((any p xs ≡ true) × (y : A) × (ys : List A) × (filter p xs ≡ y ∷ ys))
filter-any p [] = inl (refl, refl)
filter-any p (x ∷ xs) = elim (Bool-cases (p x)) [
  | inl e ↦ inr (rw e refl, x, filter p xs, rw e refl)
  | inr e ↦ rw e (filter-any p xs)
]

module _ (name email : String) (m : Models) (a : Unique account_id_of m.account)
    (c : Unique cloudspace_id_of m.cloudspace) (v : Unique vm_id m.vmachine)
    (one : has_comma email ≡ false) where
  machines_outcome :
      confirm_machines name email
        (last_acl name email (filter (λ cs. invited email cs.acl) m.cloudspace))
        (filter (λ vm. invited email vm.acl) m.vmachine)
        (with_entries (confirm_first name email) m)
      ≡ (
        if blocked email m then err python_error else ok tt,
        with_entries (confirm_first name email) m,
      )
  unfolding confirm_machines last_acl
  machines_outcome = elim (filter-any (λ (vm : VMachine). invited email vm.acl) m.vmachine) [
    | inl (none_shared, e) ↦ rw (none_shared, e) refl
    | inr (shared, y, ys, e) ↦
        elim (filter-any (λ (cs : Cloudspace). invited email cs.acl) m.cloudspace) [
          | inl (no_space, f) ↦ rw (shared, e, no_space, f) refl
          | inr (space, z, zs, f) ↦ elim (last_acl-none name email (z ∷ zs)) [
            | inl q ↦ absurd cc
            | inr (acl, q) ↦
                rw (shared, space, f, q)
                  (confirm_machines-same name email acl
                    (filter (λ vm. invited email vm.acl) m.vmachine)
                    (with_entries (confirm_first name email) m) v
                    (exist-filter vm_id (λ (vm : VMachine). invited email vm.acl) m.vmachine))
          ]
        ]
  ]

  update_outcome : update_resource_invitations name email m ≡ (
    if blocked email m then err python_error else ok tt,
    with_entries (confirm_first name email) m,
  )
  unfolding update_resource_invitations
  update_outcome =
      let accounts =
        each-map account_id_of (λ (x : Account). invited email x.acl) (confirm_account name email)
          (λ x. refl) m.account a
          λ x e. ap (λ l. record x { acl = l }) (confirm_first-none name email x.acl e) in
      let spaces =
        each-map cloudspace_id_of (λ (x : Cloudspace). invited email x.acl)
          (confirm_cloudspace name email) (λ x. refl) m.cloudspace c
          λ x e. ap (λ l. record x { acl = l }) (confirm_first-none name email x.acl e) in
      rw (one, accounts, spaces) machines_outcome

module _ (create_user : UserManager) (key : ℕ) (name email password : String) (portal : Portal)
    (token : InviteToken) (users : List PortalUser) (a : Unique account_id_of portal.models.account)
    (c : Unique cloudspace_id_of portal.models.cloudspace) (v : Unique vm_id portal.models.vmachine)
    (one : has_comma email ≡ false) (known : get invite_id key portal.invites ≡ some token)
    (own : token.email ≡ email) (chosen : str_eq password "" ≡ false)
    (created : create_user name password email portal.users ≡ (ok true, users)) where
  -- With a token that is known for the address, which has no comma, a password, and a portal that
  -- creates the user, where objects of a kind have different ids: the registration replaces the
  -- address by the name, CONFIRMED and with the same rights, in its first entry of every account and
  -- cloudspace, and changes no machine. It answers success and deletes the token, except where the
  -- address was invited to a machine and to no cloudspace: there it raises, the user exists, and the
  -- token is still there.
  pub register_invited_user_lem :
      (f : List Ace → List Ace) × ((acl : List Ace) → IsConfirmed name email acl (f acl))
      × (register_invited_user create_user key email name password password portal ≡ (
          if blocked email portal.models
          then (
            err python_error,
            record portal { models = with_entries f portal.models; users = users },
          )
          else (
            ok Answer.registered,
            record portal {
              models = with_entries f portal.models;
              users = users;
              invites = delete invite_id key portal.invites;
            },
          )))
  unfolding register_invited_user is_valid_invite welcome
  register_invited_user_lem =
      let mail : str_eq token.email email ≡ true = (eq_iff token.email email).1 own in
      let same : str_eq password password ≡ true = (eq_iff password password).1 refl in
      let done = update_outcome name email portal.models a c v one in
      (
        confirm_first name email,
        confirm_first-IsConfirmed name email,
        elim (Bool-cases (blocked email portal.models)) [
          | inl b ↦ rw (known, mail, chosen, same, created, done, b) refl
          | inr b ↦ rw (known, mail, chosen, same, created, done, b) refl
        ],
      )
