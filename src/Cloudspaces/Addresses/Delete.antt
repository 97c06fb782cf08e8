-- ===== src/Cloudspaces/Addresses/Delete.antt =====
-- `delete` and public addresses.
use openvcloud.Prelude.{
  ℕ, zero, suc, Option-cases, Bool-cases, ◌≡◌, refl, Bool, true, Option, none, some, ◌==◌, ==_refl,
  ◌&&◌, any, arith, sym, subst, ◌∙◌, ap, inl, inr,
}
use openvcloud.Result.{
  Result, ok, conflict, bad_request, python_error, Exec, ◌>>=◌, ◌>>◌, pure, bind_keeps, raise_if,
  raise_if_same, or_raise_same, Result-cases, same_ok, bind_assoc, raise_if_ok,
}
use openvcloud.Models.{Cloudspace, CloudspaceStatus, Models}
use openvcloud.Models.Table.{get, set}
use openvcloud.Firewall.{Cloud, get_vfw_object}
use openvcloud.Pools.{release_network_id, release_external_ip_address, set_networkids}
use openvcloud.Cloudspaces.{
  id_of, get_cloudspace, set_cloudspace, is_deploying, exists_machine, delete,
}
use openvcloud.Cloudspaces.Network.{
  Jobs, on_models, remove_firewall, remove_found, remove_if, fw_delete, fw_destroy, release_network,
  release_ip, release_resources,
}
use openvcloud.Cloudspaces.Found.{get_cloudspace_found, get-set}
use openvcloud.Cloudspaces.Owners.{holds}
use openvcloud.Cloudspaces.Conserved.{IsBalanced, set-IsBalanced, give_back-IsBalanced}

-- Removing a firewall writes to no other object.
pub remove_firewall_same :
    (jobs : Jobs) (cs : Cloudspace) (cloud : Cloud)
    → (remove_firewall jobs cs cloud).1.models ≡ cloud.models
unfolding remove_firewall remove_found remove_if fw_delete fw_destroy
remove_firewall_same jobs cs cloud =
    elim (Result-cases (get_vfw_object (jobs.guid cs.gid cs.network_id) cloud).0) [
      | inl (fw, e) ↦ rw e (ground arith)
      | inr (x, e) ↦ rw e refl
    ]

-- What releasing a network id leaves as it was.
abbrev pub Facts : Cloudspace → Cloud → Cloudspace → Cloud → Type 0
Facts cs cloud r t =
    (r.id ≡ cs.id)
    × (r.externalnetworkip ≡ cs.externalnetworkip)
    × (r.externalnetwork_id ≡ cs.externalnetwork_id)
    × (t.models.cloudspace ≡ cloud.models.cloudspace)
    × (t.models.externalnetwork ≡ cloud.models.externalnetwork)

module _ (b : Bool) (cs r : Cloudspace) (cloud t : Cloud)
    (h : release_network b cs cloud ≡ (ok r, t)) where
  pub release_network-Facts : Facts cs cloud r t
  unfolding release_network release_network_id set_networkids
  release_network-Facts = elim (Option-cases cs.network_id) [
    | inl e ↦ outcome (rw e at h) (refl, refl, refl, refl, refl)
    | inr (zero, e) ↦ outcome (rw e at h) (refl, refl, refl, refl, refl)
    | inr (suc n, e) ↦ elim (Bool-cases b) [
      | inr f ↦ outcome (rw (e, f) at h) (refl, refl, refl, refl, refl)
      | inl f ↦ outcome (rw (e, f) at h) (refl, refl, refl, refl, refl)
    ]
  ]
    where
      outcome :
          {x : Cloudspace} {y : Cloud}
          → (let z : Result Cloudspace × Cloud = (ok x, y) in z) ≡ (ok r, t)
          → Facts cs cloud x y
          → Facts cs cloud r t
      outcome q f = let (same, after) = same_ok q in rw (← same, ← after) f

release_network-IsBalanced :
    (b : Bool) (cs : Cloudspace) (cloud : Cloud)
    → IsBalanced cloud.models
    → IsBalanced (release_network b cs cloud).1.models
unfolding release_network release_network_id set_networkids
release_network-IsBalanced b cs cloud w = elim (Option-cases cs.network_id) [
  | inl e ↦ rw e w
  | inr (zero, e) ↦ rw e w
  | inr (suc n, e) ↦ elim (Bool-cases b) [ inl f ↦ rw (e, f) (ground arith) | inr f ↦ rw (e, f) w ]
]

abbrev pub as_destroyed : Cloudspace → Cloudspace
as_destroyed cs = record cs { status = CloudspaceStatus.destroyed }

abbrev pub write_destroyed : Cloudspace → Exec Cloud Bool
write_destroyed freed = on_models (set_cloudspace (as_destroyed freed)) >> pure true

-- The cloudspace that is written last holds nothing, and its address is in the pool again.
module _ (m : Models) (w : IsBalanced m) (cs old : Cloudspace)
    (g : get id_of cs.id m.cloudspace ≡ some old) where
  release_ip-IsBalanced :
      (cloud : Cloud)
      → cloud.models ≡ m
      → cs.externalnetworkip ≡ old.externalnetworkip
      → cs.externalnetwork_id ≡ old.externalnetwork_id
      → IsBalanced ((release_ip cs >>= write_destroyed) cloud).1.models
  unfolding release_ip release_external_ip_address
  release_ip-IsBalanced cloud same ip ext = elim (Option-cases cs.externalnetworkip) [
    | inl e ↦
        rw (e, same)
          (set-IsBalanced m w (bare cs.externalnetwork_id) old g
            (λ k a h. absurd (nothing cs.externalnetwork_id k a h)))
    | inr ((a, len), e) ↦ elim (Option-cases cs.externalnetwork_id) [
      | inl f ↦
          rw (e, f, same)
            (set-IsBalanced m w (bare none) old g (λ k a h. absurd (nothing none k a h)))
      | inr (k, f) ↦
          rw (e, f, same)
            (give_back-IsBalanced m w (bare (some k)) old g k a (owned k a len e f)
              (λ q b. ground arith))
    ]
  ]
    where
      bare : Option ℕ → Cloudspace
      bare x = record cs {
        externalnetwork_id = x;
        externalnetworkip = none;
        status = CloudspaceStatus.destroyed;
      }

      nothing : (x : Option ℕ) (k a : ℕ) → ¬ (holds k a (bare x) ≡ true)
      nothing none k a h = ground arith
      nothing (some y) k a h = ground arith

      owned :
          (k a len : ℕ)
          → cs.externalnetworkip ≡ some (a, len)
          → cs.externalnetwork_id ≡ some k
          → holds k a old ≡ true
      owned k a len e f = rw (← ext, ← ip, f, e) (ground (arith, ==_refl k, ==_refl a))

module _ (jobs : Jobs) where
  release_resources-IsBalanced :
      (cs old : Cloudspace) (cloud : Cloud)
      → IsBalanced cloud.models
      → get id_of cs.id cloud.models.cloudspace ≡ some old
      → cs.externalnetworkip ≡ old.externalnetworkip
      → cs.externalnetwork_id ≡ old.externalnetwork_id
      → IsBalanced ((release_resources jobs true cs >>= write_destroyed) cloud).1.models
  unfolding release_resources
  release_resources-IsBalanced cs old cloud w g ip ext =
      subst (λ o. IsBalanced o.1.models)
        (sym (
          bind_assoc (remove_firewall jobs cs) (λ _. release_network true cs >>= release_ip)
            write_destroyed cloud))
        (bind_keeps (λ t. IsBalanced t.models) (remove_firewall jobs cs) _ cloud
          (subst IsBalanced (sym (remove_firewall_same jobs cs cloud)) w)
          λ x t e b.
            subst (λ o. IsBalanced o.1.models)
              (sym (bind_assoc (release_network true cs) release_ip write_destroyed t))
              (bind_keeps (λ t. IsBalanced t.models) (release_network true cs) _ t
                (release_network-IsBalanced true cs t b)
                λ r u f c.
                  let same : t.models ≡ cloud.models =
                    sym (ap (λ o. o.1.models) e) ∙ remove_firewall_same jobs cs cloud in
                  let (i, a, k, spaces, pools) = release_network-Facts true cs r t u f in
                  release_ip-IsBalanced u.models c r old (rw (i, spaces, same) g) u refl (a ∙ ip)
                    (k ∙ ext)))

  -- Deleting a cloudspace, on every branch, those included where a job on the node fails: the public
  -- addresses keep one owner at most.
  pub delete-IsBalanced :
      (k : ℕ) (cloud : Cloud) → IsBalanced cloud.models → IsBalanced (delete jobs k cloud).1.models
  unfolding delete
  delete-IsBalanced k cloud w =
      bind_keeps (λ t. IsBalanced t.models) (raise_if (has_machines cloud) conflict) _ cloud
        (subst (λ t. IsBalanced t.models) (sym (raise_if_same (has_machines cloud) conflict cloud))
          w)
        λ x t e b.
          bind_keeps (λ t. IsBalanced t.models) (on_models (get_cloudspace k)) _ t
            (subst IsBalanced
              (sym (or_raise_same (get id_of k t.models.cloudspace) python_error t.models)) b)
            λ cs u f c.
              bind_keeps (λ t. IsBalanced t.models) (raise_if (is_deploying cs) bad_request) _ u
                (subst (λ t. IsBalanced t.models)
                  (sym (raise_if_same (is_deploying cs) bad_request u)) c)
                λ y v g d.
                  let (q, same, j) = get_cloudspace_found k cs t u f in
                  let after = (raise_if_ok (is_deploying cs) bad_request u v y g).1 in
                  let stays : get id_of cs.id v.models.cloudspace ≡ some cs =
                    subst (λ z. get id_of cs.id z.models.cloudspace ≡ some cs) (same ∙ after)
                      (subst (λ n. get id_of n t.models.cloudspace ≡ some cs) (sym j) q) in
                  release_resources-IsBalanced (record cs { status = CloudspaceStatus.destroying })
                    (record cs { status = CloudspaceStatus.destroying })
                    (record v {
                      models = record v.models {
                        cloudspace =
                            set id_of (record cs { status = CloudspaceStatus.destroying })
                              v.models.cloudspace;
                      };
                    })
                    (set-IsBalanced v.models d (record cs { status = CloudspaceStatus.destroying })
                      cs stays (λ q a h. inl h))
                    (get-set (record cs { status = CloudspaceStatus.destroying }) cs
                      v.models.cloudspace stays)
                    refl refl
    where
      has_machines : Cloud → Bool
      has_machines c = any (λ vm. vm.cloudspace_id == k && exists_machine vm) c.models.vmachine
