-- ===== src/Auth/Expanded.antt =====
-- What `expandAcl` of authenticator.py grants, and to whom.
use openvcloud.Prelude.{
  ℕ, String, ◌≡◌, refl, true, List, [], ◌∷◌, arith, mem, mem-append, any, ◌↔◌, str_eq, eq_iff,
  Bool-cases, inl, inr, ◌⊎◌,
}
use openvcloud.Models.{Ace, AceType}
use openvcloud.Auth.{applies, expand_acl}

-- An entry of the list carries the right, and it is the user's own or that of one of the user's
-- groups.
pub data Carried (r : ℕ) (username : String) (groups : List String) : List Ace → Type 0 where
  by_user :
      (ace : Ace) (acl : List Ace)
      → ace.type ≡ AceType.user
      → ace.user_group_id ≡ username
      → mem r ace.right ≡ true
      → Carried r username groups (ace ∷ acl)
  by_group :
      (ace : Ace) (acl : List Ace)
      → ace.type ≡ AceType.group
      → any (λ g. str_eq ace.user_group_id g) groups ≡ true
      → mem r ace.right ≡ true
      → Carried r username groups (ace ∷ acl)
  further :
      (ace : Ace) (acl : List Ace)
      → Carried r username groups acl
      → Carried r username groups (ace ∷ acl)

type-cases : (t : AceType) → (t ≡ AceType.user) ⊎ (t ≡ AceType.group)
type-cases AceType.user = inl refl
type-cases AceType.group = inr refl

module _ (r : ℕ) (username : String) (groups : List String) where
  here :
      (ace : Ace) (acl : List Ace)
      → applies username groups ace ≡ true
      → mem r ace.right ≡ true
      → Carried r username groups (ace ∷ acl)
  unfolding applies
  here ace acl h m = elim (type-cases ace.type) [
    | inl t ↦ by_user ace acl t ((eq_iff ace.user_group_id username).0 (rw t at h)) m
    | inr t ↦ by_group ace acl t (rw t at h) m
  ]

  found :
      (acl : List Ace)
      → mem r (expand_acl username groups acl) ≡ true
      → Carried r username groups acl
  unfolding expand_acl
  found [] h = absurd cc
  found (ace ∷ acl) h = elim (Bool-cases (applies username groups ace)) [
    | inr e ↦ further ace acl (found acl (rw e at h))
    | inl e ↦ elim (Bool-cases (mem r ace.right)) [
      | inl m ↦ here ace acl e m
      | inr m ↦
          let joined = mem-append r ace.right (expand_acl username groups acl) in
          further ace acl (found acl (rw (e, joined, m) at h))
    ]
  ]

  granted :
      (acl : List Ace)
      → Carried r username groups acl
      → mem r (expand_acl username groups acl) ≡ true
  unfolding expand_acl applies
  granted _ (by_user ace acl t i m) =
      let own : str_eq ace.user_group_id username ≡ true =
        (eq_iff ace.user_group_id username).1 i in
      rw (t, own, mem-append, m) refl
  granted _ (by_group ace acl t i m) = rw (t, i, mem-append, m) refl
  granted _ (further ace acl c) = elim (Bool-cases (applies username groups ace)) [
    | inl e ↦ rw (e, mem-append, granted acl c) (ground arith)
    | inr e ↦ rw e (granted acl c)
  ]

  -- A right is granted by an access list exactly when an entry of the user, or of one of the user's
  -- groups, carries it.
  pub mem-expand_acl :
      (acl : List Ace)
      → (mem r (expand_acl username groups acl) ≡ true) ↔ Carried r username groups acl
  mem-expand_acl acl = (found acl, granted acl)
