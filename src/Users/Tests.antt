-- ===== src/Users/Tests.antt =====
-- A password that is reset, and an invited user to whom an account and a machine are shared.
use openvcloud.Prelude.{List, ℕ, ◌≡◌, ◌⊎◌, refl, true, none, [], ◌∷◌, String, if◌then◌else◌}
use openvcloud.Result.{ok, err, python_error}
use openvcloud.Models.{
  Ace, AceType, AceStatus, Account, AccountStatus, VMachine, MachineStatus, Models,
}
use openvcloud.Models.Table.{delete}
use openvcloud.Users.{PortalUser, Portal, Answer, invite_id, reset_password}
use openvcloud.Users.Resets.{IsReset, reset_password_lem}
use openvcloud.Users.Register.{UserManager, has_comma, register_invited_user}
use openvcloud.Users.Invitations.{IsConfirmed, blocked, with_entries, register_invited_user_lem}

abbrev invitation : Ace
invitation = record {
  user_group_id = "ann@x.org";
  type = AceType.user;
  right = b'R' ∷ [];
  status = AceStatus.invited;
}

abbrev team : Account
team = record {
  id = 1;
  name = "team";
  acl = invitation ∷ [];
  status = AccountStatus.confirmed;
  resource_limits = λ cu. none;
  send_access_emails = true;
}

abbrev shared_machine : VMachine
shared_machine = record {
  id = 1;
  name = "web";
  cloudspace_id = 1;
  size_id = 1;
  image_id = 1;
  disks = [];
  nics = [];
  status = MachineStatus.running;
  stack_id = 2;
  reference_id = 9;
  acl = invitation ∷ [];
  is_virtual = true;
  clone_reference = 0;
}

abbrev objects : Models
objects = record {
  account = team ∷ [];
  cloudspace = [];
  vmachine = shared_machine ∷ [];
  disk = [];
  size = [];
  stack = [];
  externalnetwork = [];
  networkids = [];
}

abbrev bob : PortalUser
bob = record { guid = 5; name = "bob"; emails = "bob@x.org" ∷ []; passwd = 1 }

abbrev portal : Portal
portal = record {
  models = objects;
  users = bob ∷ [];
  resets = record { id = 70; creation_time = 1000; userguid = 5 } ∷ [];
  invites = record { id = 80; email = "ann@x.org"; last_invitation_time = 1000 } ∷ [];
}

-- In place of md5
abbrev hash : String → ℕ
hash password = 2

reset_bob : (reset_password hash 70 "longenough" 2000 portal).0 ≡ ok Answer.changed
unfolding reset_password
reset_bob = refl

too_late : (reset_password hash 70 "longenough" 2021 portal).0 ≡ ok Answer.expired
unfolding reset_password
too_late = refl

reset_password_lem_example :
    ((reset_password hash 70 "longenough" 2000 portal).1.users ≡ portal.users)
    ⊎ IsReset hash 70 "longenough" 2000 portal (reset_password hash 70 "longenough" 2000 portal).1
reset_password_lem_example = reset_password_lem hash 70 "longenough" 2000 portal

abbrev ann : PortalUser
ann = record { guid = 6; name = "ann"; emails = "ann@x.org" ∷ []; passwd = 2 }

abbrev makes_user : UserManager
makes_user name password email users = (ok true, bob ∷ ann ∷ [])

register_ann :
    (register_invited_user makes_user 80 "ann@x.org" "ann" "longenough" "longenough" portal).0
    ≡ err python_error
unfolding register_invited_user
register_ann = refl

register_invited_user_lem_example :
    (f : List Ace → List Ace) × ((acl : List Ace) → IsConfirmed "ann" "ann@x.org" acl (f acl))
    × (register_invited_user makes_user 80 "ann@x.org" "ann" "longenough" "longenough" portal ≡ (
        if blocked "ann@x.org" objects
        then (
          err python_error,
          record portal { models = with_entries f objects; users = bob ∷ ann ∷ [] },
        )
        else (
          ok Answer.registered,
          record portal {
            models = with_entries f objects;
            users = bob ∷ ann ∷ [];
            invites = delete invite_id 80 portal.invites;
          },
        )))
unfolding has_comma
register_invited_user_lem_example =
    register_invited_user_lem makes_user 80 "ann" "ann@x.org" "longenough" portal
      (record { id = 80; email = "ann@x.org"; last_invitation_time = 1000 }) (bob ∷ ann ∷ [])
      (refl, tt) tt (refl, tt) refl refl refl refl refl
