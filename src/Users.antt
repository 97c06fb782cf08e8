-- ===== src/Users.antt =====
-- apps/cloudbroker/base/cloudapi__users: the passwords of the users of the portal, and the tokens
-- by which they are reset and by which invited users register; `updateResourceInvitations` of
-- apps/cloudbroker/cloudbrokerlib/cloudbroker.py. The md5 of a password is the parameter `hash`,
-- the time of a call is `now`, in seconds, and a random token is an argument of the call that makes
-- it. Tokens and the guids of users are numbers, as they are only compared.
pub mod Resets
pub mod Register
pub mod Invitations
pub mod Tests
use Prim.Native.Char.{code}
use openvcloud.Prelude.{
  ℕ, zero, suc, ◌+◌, String, Bool, true, false, not, ◌&&◌, ◌||◌, Option, none, some, List, [], ◌∷◌,
  ◌++◌, ◌==◌, str_eq, ltb, any, find?, filter, if◌then◌else◌,
}
use openvcloud.Result.{
  Result, ok, err, bad_request, python_error, Exec, ◌>>=◌, ◌>>◌, pure, raise, lift, or_raise,
  raise_if, gets, modify,
}
use openvcloud.Models.{Ace, AceStatus, Account, Cloudspace, VMachine, Models}
use openvcloud.Models.Table.{get, exists, set, update, delete}

pub record PortalUser : Type 0 where
  pub guid : ℕ
  pub name : String
  pub emails : List String
  -- the md5 of the password
  pub passwd : ℕ

pub record ResetToken : Type 0 where
  pub id : ℕ
  pub creation_time : ℕ
  pub userguid : ℕ

pub record InviteToken : Type 0 where
  pub id : ℕ
  pub email : String
  pub last_invitation_time : ℕ

pub record Portal : Type 0 where
  pub models : Models
  pub users : List PortalUser
  pub resets : List ResetToken
  pub invites : List InviteToken

abbrev pub guid_of : PortalUser → ℕ
guid_of u = u.guid

abbrev pub reset_id : ResetToken → ℕ
reset_id t = t.id

abbrev pub invite_id : InviteToken → ℕ
invite_id t = t.id

-- What a call answers.
pub data Answer : Type 0 where
  changed invalid_password wrong_password expired sent not_found valid registered : Answer

abbrev is_space : ℕ → Bool
is_space c = c == 32 || (ltb 8 c && ltb c 14)

pub has_space : String → Bool
has_space String.[] = false
has_space (String.◌∷◌ c s) = is_space (code c) || has_space s

pub len : String → ℕ
len String.[] = 0
len (String.◌∷◌ c s) = suc (len s)

-- `_isValidPassword`
unfoldable pub is_valid_password : String → Bool
unfolding has_space len
is_valid_password password =
    not (ltb (len password) 8 || ltb 80 (len password)) && not (has_space password)

abbrev pub set_user : PortalUser → Exec Portal (Unit {0})
set_user u = modify λ portal. record portal { users = set guid_of u portal.users }

abbrev pub delete_reset : ℕ → Exec Portal (Unit {0})
delete_reset token = modify λ portal. record portal { resets = delete reset_id token portal.resets }

module _ (hash : String → ℕ) where
  unfoldable pub change_if : Bool → PortalUser → String → Exec Portal Answer
  change_if false u new = pure Answer.invalid_password
  change_if true u new = set_user (record u { passwd = hash new }) >> pure Answer.changed

  unfoldable pub change_own : Option PortalUser → String → String → Exec Portal Answer
  unfolding change_if is_valid_password
  change_own none old new = pure Answer.not_found
  change_own (some u) old new = elim (u.passwd == hash old) [
    | false ↦ pure Answer.wrong_password
    | true ↦ change_if (is_valid_password new) u new
  ]

  -- `updatePassword` of the user who is logged in
  unfoldable pub update_password : String → String → String → Exec Portal Answer
  unfolding change_own
  update_password name old new = do
    user ← gets (λ portal. find? (λ (u : PortalUser). str_eq u.name name) portal.users)
    change_own user old new

  unfoldable pub reset_with : Bool → ℕ → ResetToken → String → Exec Portal Answer
  reset_with true key token new = delete_reset key >> pure Answer.expired
  reset_with false key token new = do
    user ← λ portal. or_raise (get guid_of token.userguid portal.users) python_error portal
    set_user (record user { passwd = hash new })
    delete_reset key
    pure Answer.changed

  unfoldable pub reset_if_valid : Bool → ℕ → String → ℕ → Exec Portal Answer
  unfolding reset_with
  reset_if_valid false token new now = pure Answer.invalid_password
  reset_if_valid true token new now = do
    found ← λ portal. or_raise (get reset_id token portal.resets) python_error portal
    reset_with (ltb (found.creation_time + 900 + 120) now) token found new

  unfoldable pub reset_known : Bool → ℕ → String → ℕ → Exec Portal Answer
  unfolding reset_if_valid is_valid_password
  reset_known false token new now = pure Answer.expired
  reset_known true token new now = reset_if_valid (is_valid_password new) token new now

  -- `resetPassword`
  unfoldable pub reset_password : ℕ → String → ℕ → Exec Portal Answer
  unfolding reset_known
  reset_password token new now = do
    known ← gets (λ portal. exists reset_id token portal.resets)
    reset_known known token new now

-- An object under an id that may be in the store already.
abbrev pub put_reset : ResetToken → List ResetToken → List ResetToken
put_reset t tokens = elim (exists reset_id t.id tokens) [
  | true ↦ set reset_id t tokens
  | false ↦ tokens ++ t ∷ []
]

unfoldable pub send_to : Option PortalUser → ℕ → ℕ → Result (Unit {0}) → Exec Portal Answer
send_to none token now mail = pure Answer.not_found
send_to (some u) token now mail = do
  modify λ portal. record portal {
    resets =
        put_reset (record { id = token; creation_time = now; userguid = u.guid }) portal.resets;
  }
  lift mail
  pure Answer.sent

-- `sendResetPasswordLink`; `mail` is whether the e-mail can be sent.
unfoldable pub send_reset_password_link : String → ℕ → ℕ → Result (Unit {0}) → Exec Portal Answer
unfolding send_to
send_reset_password_link email token now mail = do
  user ←
      gets (λ portal. find? (λ (u : PortalUser). any (λ e. str_eq e email) u.emails) portal.users)
  send_to user token now mail

unfoldable pub show_reset : ℕ → Option ResetToken → ℕ → Exec Portal Answer
show_reset key none now = pure Answer.expired
show_reset key (some token) now = elim (ltb (token.creation_time + 900) now) [
  | true ↦ delete_reset key >> pure Answer.expired
  | false ↦ pure Answer.valid
]

-- `getResetPasswordInformation`
unfoldable pub get_reset_password_information : ℕ → ℕ → Exec Portal Answer
unfolding show_reset
get_reset_password_information token now = do
  found ← gets (λ portal. get reset_id token portal.resets)
  show_reset token found now
