-- ===== src/Users/Resets.antt =====
-- A password is reset only by a token that is known and young, and each token serves once.
use openvcloud.Prelude.{
  ℕ, ◌+◌, ◌≤◌, ◌≡◌, refl, true, false, some, List, [], ◌∷◌, arith, String, inl, inr, ◌⊎◌,
  Bool-cases, Option-cases, ltb, subst, sym,
}
use openvcloud.Result.{ok}
use openvcloud.Models.Table.{get, exists, set, delete}
use openvcloud.Users.{
  PortalUser, ResetToken, Portal, Answer, guid_of, reset_id, is_valid_password, reset_with,
  reset_if_valid, reset_known, reset_password,
}

exists-delete : (k : ℕ) (ts : List ResetToken) → exists reset_id k (delete reset_id k ts) ≡ false
exists-delete k [] = refl
exists-delete k (t ∷ ts) = ground (arith, exists-delete k ts)

module _ (hash : String → ℕ) (token : ℕ) (new : String) (now : ℕ) (portal : Portal) where
  -- The token admits the change to `after`.
  pub record IsReset (left : Portal) : Type 0 where
    pub found : ResetToken
    pub known : get reset_id token portal.resets ≡ some found
    pub young : now ≤ found.creation_time + 1020
    pub strong : is_valid_password new ≡ true
    pub user : PortalUser
    pub own : get guid_of found.userguid portal.users ≡ some user
    pub users : left.users ≡ set guid_of (record user { passwd = hash new }) portal.users
    pub models : left.models ≡ portal.models
    pub spent :
        (other : String) (later : ℕ)
        → reset_password hash token other later left ≡ (ok Answer.expired, left)

  abbrev after : ResetToken → PortalUser → Portal
  after t u = record portal {
    users = set guid_of (record u { passwd = hash new }) portal.users;
    resets = delete reset_id token portal.resets;
  }

  -- resetPassword leaves all users as they are; or the token is in the store, is not older than 1020
  -- seconds and the new password is valid, and then the password of the token's user is changed and
  -- nobody else's, and the token is spent: another resetPassword with it changes nothing, whenever it
  -- comes.
  pub reset_password_lem :
      ((reset_password hash token new now portal).1.users ≡ portal.users)
      ⊎ IsReset (reset_password hash token new now portal).1
  unfolding reset_password reset_known reset_if_valid reset_with
  reset_password_lem = elim (Option-cases (get reset_id token portal.resets)) [
    | inl e ↦
        let k : exists reset_id token portal.resets ≡ false = rw (exists, e) refl in inl (rw k refl)
    | inr (t, e) ↦
        let k : exists reset_id token portal.resets ≡ true = rw (exists, e) refl in
        elim (Bool-cases (is_valid_password new)) [
          | inr v ↦ inl (rw (k, v) refl)
          | inl v ↦ elim (Bool-cases (ltb (t.creation_time + 900 + 120) now)) [
            | inl old ↦ inl (rw (k, v, e, old) refl)
            | inr young ↦ elim (Option-cases (get guid_of t.userguid portal.users)) [
              | inl u ↦ inl (rw (k, v, e, young, u) refl)
              | inr (u, g) ↦ inr (
                  let done : reset_password hash token new now portal
                      ≡ (ok Answer.changed, after t u) =
                    rw (k, v, e, young, g) refl in
                  subst (λ o. IsReset o.1) (sym done)
                    record {
                      found = t;
                      known = e;
                      young = ground arith;
                      strong = v;
                      user = u;
                      own = g;
                      users = refl;
                      models = refl;
                      spent = λ other later. rw (exists-delete token portal.resets) refl;
                    })
            ]
          ]
        ]
  ]
