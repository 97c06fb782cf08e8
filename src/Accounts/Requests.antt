-- ===== src/Accounts/Requests.antt =====
-- Any sequence of requests of apps/cloudbroker/base/cloudapi__accounts on the users of accounts.
use openvcloud.Prelude.{ℕ, String, Bool, false, List, [], ◌∷◌, Option-cases, inl, inr}
use openvcloud.Result.{Error, Result, ok, err, Exec, ◌>>◌, raise, continue}
use openvcloud.Models.{Rights, AceStatus, Models}
use openvcloud.Accounts.{
  SystemUser, Request, add, change, remove, check_user, add_ace, share_or_undo, add_user,
  delete_user, handle, serve,
}
use openvcloud.Accounts.Admins.{
  HasManaged, add_ace-HasManaged, update_user-HasManaged, delete_user-HasManaged,
}

after_raise :
    (P : Models → Type 0) (m : Exec Models Bool) (e : Error) (s : Models)
    → P (m s).1
    → P ((m >> raise {A = Bool} e) s).1
after_raise P m e s h = go (m s).0 (m s).1 h
  where
    go : (r : Result Bool) (t : Models) → P t → P (continue {B = Bool} r (λ _. raise e) t).1
    go (ok b) t p = p
    go (err x) t p = p

share_or_undo-HasManaged :
    (k : ℕ) (r : Result (Unit {0})) (j : ℕ) (u : String) (models : Models)
    → HasManaged k models
    → HasManaged k (share_or_undo r j u models).1
unfolding share_or_undo
share_or_undo-HasManaged k (ok _) j u models w = w
share_or_undo-HasManaged k (err e) j u models w =
    after_raise (HasManaged k) (delete_user j u false) e models
      (delete_user-HasManaged k j models w u false)

and_then :
    (P : Models → Type 0) (m : Exec Models Bool) (n : Exec Models Bool) (s : Models)
    → ((t : Models) → P t → P (n t).1)
    → P (m s).1
    → P ((m >> n) s).1
and_then P m n s next h = go (m s).0 (m s).1 h
  where
    go : (r : Result Bool) (t : Models) → P t → P (continue r (λ _. n) t).1
    go (ok b) t p = next t p
    go (err x) t p = p

module _ (users : List SystemUser) (send_email : SystemUser → ℕ → Rights → Result (Unit {0})) where
  add_user-HasManaged :
      (k j : ℕ) (u : String) (r : Rights) (models : Models)
      → HasManaged k models
      → HasManaged k (add_user users send_email j u r models).1
  unfolding add_user
  add_user-HasManaged k j u r models w = elim (Option-cases (check_user users u false)) [
    | inl e ↦ rw e w
    | inr (user, e) ↦ rw e (
        and_then (HasManaged k) (add_ace j user.id r AceStatus.confirmed)
          (share_or_undo (send_email user j r) j user.id) models
          (share_or_undo-HasManaged k (send_email user j r) j user.id)
          (add_ace-HasManaged k j models w user.id r AceStatus.confirmed))
  ]

  handle-HasManaged :
      (k : ℕ) (r : Request) (models : Models)
      → HasManaged k models
      → HasManaged k (handle users send_email r models).1
  unfolding handle
  handle-HasManaged k (add j u r) models w = add_user-HasManaged k j u r models w
  handle-HasManaged k (change j u r) models w = update_user-HasManaged k j models w u r
  handle-HasManaged k (remove j u recursivedelete) models w =
      delete_user-HasManaged k j models w u recursivedelete

  -- An account with an administrator and one entry for each user stays so, whatever requests to
  -- add, change or remove users of any account come, whether they succeed or raise, and also where
  -- an e-mail fails and an addition is undone.
  pub serve-HasManaged :
      (k : ℕ) (requests : List Request) (models : Models)
      → HasManaged k models
      → HasManaged k (serve users send_email requests models)
  unfolding serve
  serve-HasManaged k [] models w = w
  serve-HasManaged k (r ∷ rs) models w =
      serve-HasManaged k rs (handle users send_email r models).1 (handle-HasManaged k r models w)
