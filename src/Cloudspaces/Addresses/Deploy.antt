-- ===== src/Cloudspaces/Addresses/Deploy.antt =====
-- `deploy` and public addresses.
use openvcloud.Prelude.{
  ℕ, Option-cases, Bool-cases, ◌≡◌, refl, Bool, true, false, Option, none, some, [], arith, sym,
  subst, ◌∙◌, ap, inl, inr,
}
use openvcloud.Result.{Result, ok, err, Exec, bind_keeps, Result-cases, same_ok, err_not_ok}
use openvcloud.Models.{Cloudspace, CloudspaceStatus, Models}
use openvcloud.Models.Table.{get, update, id-get}
use openvcloud.Firewall.{Cloud}
use openvcloud.Scheduling.{get_best_provider}
use openvcloud.Pools.{pool_id, release_external_ip_address}
use openvcloud.Cloudspaces.{
  id_of, is_virtual, claim, claim_if, address_of, finish_deploy, deploy_claimed, deploy, get_pool,
}
use openvcloud.Cloudspaces.Network.{
  Jobs, on_models, fw_create, store_vfw, finish_create, fw_destroy, fw_destroy,
}
use openvcloud.Cloudspaces.Found.{get-set}
use openvcloud.Cloudspaces.Owners.{holds, added}
use openvcloud.Cloudspaces.Ids.{update-eq-set}
use openvcloud.Cloudspaces.Conserved.{IsBalanced, set-IsBalanced, give_back-IsBalanced}
use openvcloud.Cloudspaces.Addresses.Taken.{
  get_pool_found, get_pool_same, address_of-IsBalanced, address_of_holds,
}

abbrev as_deploying : Cloudspace → Cloudspace
as_deploying cs = record cs { status = CloudspaceStatus.deploying }

abbrev as_deployed : Cloudspace → Cloudspace
as_deployed cs = record cs { status = CloudspaceStatus.deployed }

abbrev as_bare : Cloudspace → Cloudspace
as_bare cs = record cs { status = CloudspaceStatus.virtual; externalnetworkip = none }

holds-as_bare : (c : Cloudspace) (q a : ℕ) → holds q a (as_bare c) ≡ false
holds-as_bare c q a = elim (Option-cases c.externalnetwork_id) [
  | inl e ↦ rw e refl
  | inr (k, e) ↦ rw e (ground arith)
]

claim-IsBalanced : (k : ℕ) (m : Models) → IsBalanced m → IsBalanced (claim k m).1
unfolding claim claim_if
claim-IsBalanced k m w = elim (Option-cases (get id_of k m.cloudspace)) [
  | inl e ↦ rw e w
  | inr (cs, e) ↦ elim (Bool-cases (is_virtual cs)) [
    | inr f ↦ rw (e, f) w
    | inl f ↦
        rw (e, f)
          (set-IsBalanced m w (record cs { status = CloudspaceStatus.deploying }) cs
            (subst (λ n. get id_of n m.cloudspace ≡ some cs)
              (sym (id-get id_of k m.cloudspace cs e)) e)
            (λ q a h. inl h))
  ]
]

claim_found :
    (k : ℕ) (m t : Models) (c : Cloudspace)
    → claim k m ≡ (ok (some c), t)
    → (get id_of k t.cloudspace ≡ some c) × (c.id ≡ k)
unfolding claim claim_if
claim_found k m t c h = elim (Option-cases (get id_of k m.cloudspace)) [
  | inl e ↦ absurd (err_not_ok (rw e at h))
  | inr (cs, e) ↦ elim (Bool-cases (is_virtual cs)) [
    | inr f ↦ absurd (none_not_some (same_ok (rw (e, f) at h)).0)
    | inl f ↦
        let (p, q) = same_ok (rw (e, f) at h) in
        let j : cs.id ≡ k = id-get id_of k m.cloudspace cs e in
        let here =
          get-set (as_deploying cs) cs m.cloudspace
            (subst (λ n. get id_of n m.cloudspace ≡ some cs) (sym j) e) in
        (
          subst (λ n. get id_of n t.cloudspace ≡ some c) j
              (subst (λ u. get id_of cs.id u.cloudspace ≡ some c) q (here ∙ p)),
          ap id_of (sym (some_eq p)) ∙ j,
        )
  ]
]
  where
    none_not_some : ¬ ((let x : Option Cloudspace = none in x) ≡ some c)
    none_not_some q = cc

    some_eq : {a b : Cloudspace} → some a ≡ some b → a ≡ b
    some_eq q = cc

module _ (jobs : Jobs) where
  fw_create_same :
      (gid domain : ℕ) (network : Option ℕ) (cloud : Cloud)
      → (fw_create jobs gid domain network cloud).1.models ≡ cloud.models
  unfolding fw_create store_vfw finish_create fw_destroy
  fw_create_same gid domain network cloud =
      elim (Result-cases (get_best_provider jobs.active gid none cloud.models [])) [
        | inr (x, e) ↦ rw e refl
        | inl (none, e) ↦ rw e refl
        | inl (some load, e) ↦
            elim (Option-cases (jobs.create_routeros load.0.reference_id (jobs.guid gid network))) [
              | inl f ↦ rw (e, f) refl
              | inr (nid, f) ↦ rw (e, f) refl
            ]
      ]

finish_deploy-IsBalanced :
    (d : Cloudspace) (taken ip : ℕ) (r : Result Bool) (m : Models)
    → IsBalanced m
    → get id_of d.id m.cloudspace ≡ some d
    → holds taken ip d ≡ true
    → IsBalanced (finish_deploy d.id taken ip r m).1
unfolding finish_deploy release_external_ip_address
finish_deploy-IsBalanced d taken ip (ok b) m w g h =
    subst (λ l. IsBalanced (record m { cloudspace = l }))
      (sym (update-eq-set _ (as_deployed d) d m.cloudspace w.spaces_unique g refl))
      (set-IsBalanced m w (as_deployed d) d g (λ q a f. inl f))
finish_deploy-IsBalanced d taken ip (err e) m w g h =
    subst
      (λ l. IsBalanced (record m {
        externalnetwork = update pool_id taken (added ip) m.externalnetwork;
        cloudspace = l;
      }))
      (sym (update-eq-set _ (as_bare d) d m.cloudspace w.spaces_unique g refl))
      (give_back-IsBalanced m w (as_bare d) d g taken ip h (λ q a. holds-as_bare d q a))

on_models_ok :
    {A : Type 0} (m : Exec Models A) (s t : Cloud) (a : A)
    → on_models m s ≡ (ok a, t)
    → m s.models ≡ (ok a, t.models)
on_models_ok m s t a h = ap (λ o. (o.0, o.1.models)) h

module _ (jobs : Jobs) where
  abbrev Balanced : Cloud → Type 0
  Balanced t = IsBalanced t.models

  deploy_claimed-IsBalanced :
      (c : Cloudspace) (cloud : Cloud)
      → IsBalanced cloud.models
      → get id_of c.id cloud.models.cloudspace ≡ some c
      → IsBalanced (deploy_claimed jobs c.id (some c) cloud).1.models
  unfolding deploy_claimed
  deploy_claimed-IsBalanced c cloud w g =
      bind_keeps Balanced (on_models (get_pool c.externalnetwork_id)) _ cloud
        (subst IsBalanced (sym (get_pool_same c.externalnetwork_id cloud.models)) w)
        λ pool t e b.
          let (ext, same) =
            get_pool_found c.externalnetwork_id cloud.models t.models pool
              (on_models_ok (get_pool c.externalnetwork_id) cloud t pool e) in
          let here = subst (λ (x : Models). get id_of c.id x.cloudspace ≡ some c) same g in
          bind_keeps Balanced (on_models (address_of c pool)) _ t
            (address_of-IsBalanced c pool ext t.models b here)
            λ (taken, ip, len) u f b2.
              let (d, found, id, held) =
                address_of_holds c pool ext t.models b here u.models taken ip len
                  (on_models_ok (address_of c pool) t u (taken, ip, len) f) in
              let fw : Result Bool × Cloud = fw_create jobs c.gid c.id c.network_id u in
              let stays : u.models ≡ fw.1.models =
                sym (fw_create_same jobs c.gid c.id c.network_id u) in
              subst (λ n. IsBalanced (finish_deploy n taken.id ip fw.0 fw.1.models).1) id
                (finish_deploy-IsBalanced d taken.id ip fw.0 fw.1.models (subst IsBalanced stays b2)
                  (subst (λ (x : Models). get id_of d.id x.cloudspace ≡ some d) stays
                    (subst (λ n. get id_of n u.models.cloudspace ≡ some d) (sym id) found))
                  held)

  -- Deploying a cloudspace, on every branch, those included where no address is free or the firewall
  -- is not created: the public addresses keep one owner at most.
  pub deploy-IsBalanced :
      (k : ℕ) (cloud : Cloud) → IsBalanced cloud.models → IsBalanced (deploy jobs k cloud).1.models
  unfolding deploy deploy_claimed
  deploy-IsBalanced k cloud w =
      bind_keeps Balanced (on_models (claim k)) (deploy_claimed jobs k) cloud
        (claim-IsBalanced k cloud.models w) claimed
    where
      claimed :
          (o : Option Cloudspace) (t : Cloud)
          → on_models (claim k) cloud ≡ (ok o, t)
          → Balanced t
          → Balanced (deploy_claimed jobs k o t).1
      claimed none t e b = b
      claimed (some c) t e b =
          let (g, id) =
            claim_found k cloud.models t.models c (on_models_ok (claim k) cloud t (some c) e) in
          subst (λ n. IsBalanced (deploy_claimed jobs n (some c) t).1.models) id
            (deploy_claimed-IsBalanced c t b
              (subst (λ n. get id_of n t.models.cloudspace ≡ some c) (sym id) g))
