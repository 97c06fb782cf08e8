-- ===== src/Cloudspaces/Found.antt =====
-- The cloudspace that is found, and that is found again once it is written.
use openvcloud.Prelude.{
  ℕ, Option-cases, ◌≡◌, some, List, [], ◌∷◌, ==_refl, arith, sym, ◌∙◌, ap, inl, inr,
}
use openvcloud.Result.{ok, same_ok, err_not_ok}
use openvcloud.Models.{Cloudspace}
use openvcloud.Models.Table.{get, set, id-get}
use openvcloud.Firewall.{Cloud}
use openvcloud.Cloudspaces.{id_of, get_cloudspace}
use openvcloud.Cloudspaces.Network.{on_models}

pub get_cloudspace_found :
    (k : ℕ) (cs : Cloudspace) (t u : Cloud)
    → on_models (get_cloudspace k) t ≡ (ok cs, u)
    → (get id_of k t.models.cloudspace ≡ some cs) × (t ≡ u) × (cs.id ≡ k)
get_cloudspace_found k cs t u h = elim (Option-cases (get id_of k t.models.cloudspace)) [
  | inl e ↦ absurd (err_not_ok (rw e at h))
  | inr (c, e) ↦
      let (p, q) = same_ok (rw e at h) in
      (e ∙ ap some p, q, ap id_of (sym p) ∙ id-get id_of k t.models.cloudspace c e)
]

pub get-set :
    (c old : Cloudspace) (spaces : List Cloudspace)
    → get id_of c.id spaces ≡ some old
    → get id_of c.id (set id_of c spaces) ≡ some c
get-set c old [] g = absurd (ground arith)
get-set c old (x ∷ spaces) g = ground (arith, ==_refl c.id, get-set c old spaces)
