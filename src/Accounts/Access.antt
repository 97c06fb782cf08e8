-- ===== src/Accounts/Access.antt =====
-- The entries of an access list, one for each user: how the list operations of
-- apps/cloudbroker/base/cloudapi__accounts act on such a list.
use openvcloud.Prelude.{
  String, ◌≡◌, refl, Bool, true, false, not, ◌&&◌, ◌||◌, Option, none, some, List, [], ◌∷◌, ◌++◌,
  eq_iff, any, filter, arith, if◌then◌else◌, Bool-cases, inl, inr, ◌⊎◌, sym, ◌∙◌,
}
use openvcloud.Models.{Rights, Ace}
use openvcloud.Accounts.{is_for, pass_by, find_ace, is_user, pull_user, set_right}

-- No two entries of the list are for one user.
abbrev pub UniqueIds : List Ace → Type 0
UniqueIds [] = Unit {0}
UniqueIds (ace ∷ acl) = (any (is_for ace.user_group_id) acl ≡ false) × UniqueIds acl

pub pull_user-absent :
    (u : String) (acl : List Ace) → any (is_for u) acl ≡ false → pull_user u acl ≡ acl
unfolding pull_user
pull_user-absent u [] h = refl
pull_user-absent u (ace ∷ acl) h = ground (arith, pull_user-absent u acl)

pass_by-some :
    (a : Ace) (o : Option (Ace × List Ace)) (ace : Ace) (others : List Ace)
    → pass_by a o ≡ some (ace, others)
    → (os : List Ace) × (o ≡ some (ace, os)) × (others ≡ a ∷ os)
unfolding pass_by
pass_by-some a none ace others h = ground arith
pass_by-some a (some (b, os)) ace others h = (os, ground arith, ground arith)

pub find_ace-cons :
    (u : String) (a : Ace) (acl : List Ace) (ace : Ace) (others : List Ace)
    → find_ace u (a ∷ acl) ≡ some (ace, others)
    → ((is_for u a ≡ true) × (a ≡ ace) × (acl ≡ others))
      ⊎ ((os : List Ace) × (is_for u a ≡ false)
          × (find_ace u acl ≡ some (ace, os))
          × (others ≡ a ∷ os))
unfolding find_ace
find_ace-cons u a acl ace others h = elim (Bool-cases (is_for u a)) [
  | inl e ↦ let h' = rw e at h in inl (e, ground arith, ground arith)
  | inr e ↦
      let (os, f, r) = pass_by-some a (find_ace u acl) ace others (rw e at h) in inr (os, e, f, r)
]

-- What holds of an entry of the list holds of the user's entry or of one of the others.
pub any-find_ace :
    (p : Ace → Bool) (u : String) (acl : List Ace) (ace : Ace) (others : List Ace)
    → find_ace u acl ≡ some (ace, others)
    → any p acl ≡ (p ace || any p others)
any-find_ace p u [] ace others h = unfold find_ace in cc h
any-find_ace p u (a ∷ acl) ace others h = elim (find_ace-cons u a acl ace others h) [
  | inl (e, q, r) ↦ rw (q, r) refl
  | inr (os, e, f, r) ↦ rw r (ground (arith, any-find_ace p u acl ace os f))
]

pub find_ace-is_for :
    (u : String) (acl : List Ace) (ace : Ace) (others : List Ace)
    → find_ace u acl ≡ some (ace, others)
    → is_for u ace ≡ true
find_ace-is_for u [] ace others h = unfold find_ace in cc h
find_ace-is_for u (a ∷ acl) ace others h = elim (find_ace-cons u a acl ace others h) [
  | inl (e, q, r) ↦ rw q at e
  | inr (os, e, f, r) ↦ find_ace-is_for u acl ace os f
]

pull_user-here :
    (u : String) (a : Ace) (acl : List Ace)
    → is_for u a ≡ true
    → any (is_for u) acl ≡ false
    → pull_user u (a ∷ acl) ≡ (if is_user a then acl else a ∷ acl)
unfolding pull_user
pull_user-here u a acl e absent =
    let ih : pull_user u acl ≡ acl = pull_user-absent u acl absent in rw e (ground (arith, ih))

pull_user-there :
    (u : String) (a : Ace) (acl : List Ace)
    → is_for u a ≡ false
    → pull_user u (a ∷ acl) ≡ a ∷ pull_user u acl
unfolding pull_user
pull_user-there u a acl e = ground arith

if_cons :
    (b : Bool) (a : Ace) (xs ys : List Ace)
    → a ∷ (if b then xs else ys) ≡ (if b then a ∷ xs else a ∷ ys)
if_cons true a xs ys = refl
if_cons false a xs ys = refl

-- In a list with one entry for each user, removing a user's entries leaves the others.
pub pull_user-find_ace :
    (u : String) (acl : List Ace) (ace : Ace) (others : List Ace)
    → UniqueIds acl
    → find_ace u acl ≡ some (ace, others)
    → pull_user u acl ≡ (if is_user ace then others else acl)
pull_user-find_ace u [] ace others w h = unfold find_ace in cc h
pull_user-find_ace u (a ∷ acl) ace others w h = elim (find_ace-cons u a acl ace others h) [
  | inl (e, q, r) ↦
      let absent : any (is_for u) acl ≡ false = rw (sym ((eq_iff a.user_group_id u).0 e)) w.0 in
      rw (← q, ← r) (pull_user-here u a acl e absent)
  | inr (os, e, f, r) ↦
      rw (r, pull_user-there u a acl e, pull_user-find_ace u acl ace os w.1 f)
        (if_cons (is_user ace) a os acl)
]

-- The operations keep one entry for each user.
is_for-ne :
    (u v : String) (acl : List Ace) (p : Ace → Bool)
    → any (is_for u) acl ≡ false
    → any (is_for u) (filter p acl) ≡ false
is_for-ne u v [] p h = refl
is_for-ne u v (a ∷ acl) p h = ground (arith, is_for-ne u v acl p)

pub pull_user-UniqueIds :
    (u : String) (acl : List Ace) → UniqueIds acl → UniqueIds (pull_user u acl)
unfolding pull_user
pull_user-UniqueIds u [] w = tt
pull_user-UniqueIds u (a ∷ acl) w =
    let keep : Ace → Bool = λ ace. not (is_user ace && is_for u ace) in
    elim (Bool-cases (keep a)) [
      | inl e ↦ rw e (is_for-ne a.user_group_id u acl keep w.0, pull_user-UniqueIds u acl w.1)
      | inr e ↦ rw e (pull_user-UniqueIds u acl w.1)
    ]

set_right-is_for :
    (v u : String) (r : Rights) (acl : List Ace)
    → any (is_for v) (set_right u r acl) ≡ any (is_for v) acl
unfolding set_right
set_right-is_for v u r [] = refl
set_right-is_for v u r (a ∷ acl) = elim (Bool-cases (is_for u a)) [
  | inl e ↦ rw e refl
  | inr e ↦ rw (e, set_right-is_for v u r acl) refl
]

pub set_right-UniqueIds :
    (u : String) (r : Rights) (acl : List Ace) → UniqueIds acl → UniqueIds (set_right u r acl)
unfolding set_right
set_right-UniqueIds u r [] w = tt
set_right-UniqueIds u r (a ∷ acl) w = elim (Bool-cases (is_for u a)) [
  | inl e ↦ rw e w
  | inr e ↦ rw e (set_right-is_for a.user_group_id u r acl ∙ w.0, set_right-UniqueIds u r acl w.1)
]

append-is_for :
    (v : String) (acl : List Ace) (ace : Ace)
    → any (is_for v) (acl ++ ace ∷ []) ≡ (any (is_for v) acl || is_for v ace)
append-is_for v [] ace = ground arith
append-is_for v (a ∷ acl) ace = ground (arith, append-is_for v acl ace)

pub append-UniqueIds :
    (acl : List Ace) (ace : Ace)
    → UniqueIds acl
    → any (is_for ace.user_group_id) acl ≡ false
    → UniqueIds (acl ++ ace ∷ [])
append-UniqueIds [] ace w h = (refl, tt)
append-UniqueIds (a ∷ acl) ace w h = (
  ground (
    arith,
    append-is_for a.user_group_id acl ace,
    eq_iff a.user_group_id ace.user_group_id,
    eq_iff ace.user_group_id a.user_group_id,
    w.0,
  ),
  append-UniqueIds acl ace w.1 (ground arith),
)

-- A change of a user's rights leaves the other entries.
pub any-set_right :
    (p : Ace → Bool) (u : String) (r : Rights) (acl : List Ace) (ace : Ace) (others : List Ace)
    → find_ace u acl ≡ some (ace, others)
    → any p others ≡ true
    → any p (set_right u r acl) ≡ true
unfolding set_right find_ace
any-set_right p u r [] ace others h k = cc h
any-set_right p u r (a ∷ acl) ace others h k = elim (find_ace-cons u a acl ace others h) [
  | inl (e, q, s) ↦ rw e (rw s (ground arith))
  | inr (os, e, f, s) ↦ rw e (ground (arith, s, any-set_right p u r acl ace os f))
]
