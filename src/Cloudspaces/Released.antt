-- ===== src/Cloudspaces/Released.antt =====
-- What a successful `delete` leaves.
use openvcloud.Prelude.{
  Bool-cases, Bool, ◌≡◌, refl, true, false, none, some, ◌==◌, ◌&&◌, any, arith, sym, subst, ◌∙◌, ap,
  inl, inr, Option, Option-cases, List, [], ◌∷◌, ℕ, ◌||◌,
}
use openvcloud.Result.{ok, ◌>>=◌, same_ok, err_not_ok, bind_ok}
use openvcloud.Models.{Cloudspace, CloudspaceStatus, ExternalNetwork, Models}
use openvcloud.Models.Table.{exists, get, update, set, id-get}
use openvcloud.Firewall.{Cloud}
use openvcloud.Pools.{pool_id, release_external_ip_address}
use openvcloud.Cloudspaces.{id_of, is_deploying, exists_machine, delete}
use openvcloud.Cloudspaces.Network.{
  Jobs, remove_firewall, release_network, release_ip, release_resources,
}
use openvcloud.Cloudspaces.Found.{get-set}
use openvcloud.Cloudspaces.Addresses.Delete.{
  remove_firewall_same, release_network-Facts, write_destroyed,
}
use openvcloud.Cloudspaces.Owners.{added, holds}
use openvcloud.Pools.Taken.{is_free}
use openvcloud.Pools.Balance.{mem-add_to_set}

-- The pools with the address of the cloudspace, where it has one and names its pool.
abbrev back : Option (ℕ × ℕ) → Option ℕ → List ExternalNetwork → List ExternalNetwork
back none ext pools = pools
back (some (a, len)) none pools = pools
back (some (a, len)) (some q) pools = update pool_id q (added a) pools

release_ip_gives :
    (r freed : Cloudspace) (v t : Cloud)
    → release_ip r v ≡ (ok freed, t)
    → (freed.id ≡ r.id)
      × (freed.externalnetworkip ≡ none)
      × (t.models.cloudspace ≡ v.models.cloudspace)
      × (t.models.externalnetwork
          ≡ back r.externalnetworkip r.externalnetwork_id v.models.externalnetwork)
unfolding release_ip release_external_ip_address
release_ip_gives r freed v t k = elim (Option-cases r.externalnetworkip) [
  | inl e ↦
      let (p, w) = same_ok (rw e at k) in
      (
        ap id_of (sym p),
        ap (λ (c : Cloudspace). c.externalnetworkip) (sym p),
        ap (λ (c : Cloud). c.models.cloudspace) (sym w),
        rw e (ap (λ (c : Cloud). c.models.externalnetwork) (sym w)),
      )
  | inr ((a, len), e) ↦ elim (Option-cases r.externalnetwork_id) [
    | inl f ↦
        let (p, w) = same_ok (rw (e, f) at k) in
        (
          ap id_of (sym p),
          ap (λ (c : Cloudspace). c.externalnetworkip) (sym p),
          ap (λ (c : Cloud). c.models.cloudspace) (sym w),
          rw (e, f) (ap (λ (c : Cloud). c.models.externalnetwork) (sym w)),
        )
    | inr (q, f) ↦
        let (p, w) = same_ok (rw (e, f) at k) in
        (
          ap id_of (sym p),
          ap (λ (c : Cloudspace). c.externalnetworkip) (sym p),
          ap (λ (c : Cloud). c.models.cloudspace) (sym w),
          rw (e, f) (ap (λ (c : Cloud). c.models.externalnetwork) (sym w)),
        )
  ]
]

release_resources_gives :
    (jobs : Jobs) (cs freed : Cloudspace) (s t : Cloud)
    → release_resources jobs true cs s ≡ (ok freed, t)
    → (freed.id ≡ cs.id)
      × (freed.externalnetworkip ≡ none)
      × (t.models.cloudspace ≡ s.models.cloudspace)
      × (t.models.externalnetwork
          ≡ back cs.externalnetworkip cs.externalnetwork_id s.models.externalnetwork)
unfolding release_resources
release_resources_gives jobs cs freed s t h =
    let (x, u, e, h2) = bind_ok (remove_firewall jobs cs) _ s t freed h in
    let (r, v, f, h3) = bind_ok (release_network true cs) release_ip u t freed h2 in
    let same : u.models ≡ s.models =
      sym (ap (λ o. o.1.models) e) ∙ remove_firewall_same jobs cs s in
    let (i, keeps_ip, keeps_ext, spaces, pools) = release_network-Facts true cs r u v f in
    let (p, n, c, w) = release_ip_gives r freed v t h3 in
    (
      p ∙ i,
      n,
      c ∙ spaces ∙ ap (λ m. m.cloudspace) same,
      w
          ∙ ap (λ o. back o r.externalnetwork_id v.models.externalnetwork) keeps_ip
          ∙ ap (λ o. back cs.externalnetworkip o v.models.externalnetwork) keeps_ext
          ∙ ap (back cs.externalnetworkip cs.externalnetwork_id)
              (pools ∙ ap (λ m. m.externalnetwork) same),
    )

-- What is free in a pool once the address `b` went to the pool `p`.
is_free-added :
    (q p a b : ℕ) (pools : List ExternalNetwork)
    → is_free q a (update pool_id p (added b) pools)
      ≡ (is_free q a pools || (p == q && b == a) && exists pool_id q pools)
is_free-added q p a b [] = ground arith
is_free-added q p a b (x ∷ pools) =
    ground (arith, mem-add_to_set a b x.ips, is_free-added q p a b pools)

abbrev as_destroying : Cloudspace → Cloudspace
as_destroying cs = record cs { status = CloudspaceStatus.destroying }

-- The cloudspace is DESTROYED and without an address.
unfoldable pub Freed : ℕ → Models → Type 0
Freed k models =
    (d : Cloudspace) × (get id_of k models.cloudspace ≡ some d)
    × (d.status ≡ CloudspaceStatus.destroyed)
    × (d.externalnetworkip ≡ none)

released_Freed :
    (jobs : Jobs) (cs old : Cloudspace) (s t : Cloud) (b : Bool)
    → get id_of cs.id s.models.cloudspace ≡ some old
    → (release_resources jobs true cs >>= write_destroyed) s ≡ (ok b, t)
    → Freed cs.id t.models
      × (t.models.externalnetwork
          ≡ back cs.externalnetworkip cs.externalnetwork_id s.models.externalnetwork)
unfolding Freed
released_Freed jobs cs old s t b found h =
    let (freed, u, e, h2) = bind_ok (release_resources jobs true cs) write_destroyed s t b h in
    let (id, bare, spaces, pools) = release_resources_gives jobs cs freed s u e in
    let (x, after) = same_ok h2 in
    let here : get id_of freed.id u.models.cloudspace ≡ some old =
      subst (λ n. get id_of n u.models.cloudspace ≡ some old) (sym id)
        (ap (get id_of cs.id) spaces ∙ found) in
    subst
      (λ (c : Cloud).
        Freed cs.id c.models
        × (c.models.externalnetwork
            ≡ back cs.externalnetworkip cs.externalnetwork_id s.models.externalnetwork))
      after
      (
        (
          record freed { status = CloudspaceStatus.destroyed },
          subst
              (λ n.
                get id_of n (
                  set id_of (record freed { status = CloudspaceStatus.destroyed })
                    u.models.cloudspace)
                ≡ some (record freed { status = CloudspaceStatus.destroyed }))
              id
              (get-set (record freed { status = CloudspaceStatus.destroyed }) old
                u.models.cloudspace here),
          refl,
          bare,
        ),
        pools,
      )

abbrev pub has_machines : ℕ → Models → Bool
has_machines k models = any (λ vm. vm.cloudspace_id == k && exists_machine vm) models.vmachine

-- In each pool that is there, free are the addresses that were free, and the address that the
-- cloudspace held of the pool.
unfoldable pub Returned : Cloudspace → List ExternalNetwork → List ExternalNetwork → Type 0
Returned cs before after =
    (q a : ℕ) → is_free q a after ≡ (is_free q a before || holds q a cs && exists pool_id q before)

back-Returned :
    (cs : Cloudspace) (pools : List ExternalNetwork)
    → Returned cs pools (back cs.externalnetworkip cs.externalnetwork_id pools)
unfolding Returned
back-Returned cs pools q a = elim (Option-cases cs.externalnetworkip) [
  | inl e ↦ rw e (ground arith)
  | inr ((b, len), e) ↦ elim (Option-cases cs.externalnetwork_id) [
    | inl f ↦ rw (e, f) (ground arith)
    | inr (p, f) ↦ rw (e, f) (is_free-added q p a b pools)
  ]
]

-- A `delete` that succeeds was asked for a cloudspace without machines that is not DEPLOYING. It
-- leaves the cloudspace DESTROYED and without an address. In each pool, free are the addresses that
-- were free before and the address that the cloudspace had of the pool, if it had one.
pub delete_frees :
    (jobs : Jobs) (k : ℕ) (cloud t : Cloud) (b : Bool) (cs : Cloudspace)
    → delete jobs k cloud ≡ (ok b, t)
    → get id_of k cloud.models.cloudspace ≡ some cs
    → (has_machines k cloud.models ≡ false)
      × (is_deploying cs ≡ false)
      × Freed k t.models
      × Returned cs cloud.models.externalnetwork t.models.externalnetwork
unfolding delete
delete_frees jobs k cloud t b cs h found = elim (Bool-cases (has_machines k cloud.models)) [
  | inl e ↦ absurd (err_not_ok (rw e at h))
  | inr e ↦ elim (Bool-cases (is_deploying cs)) [
    | inl f ↦ absurd (err_not_ok (rw (e, found, f) at h))
    | inr f ↦
        let id : cs.id ≡ k = id-get id_of k cloud.models.cloudspace cs found in
        let here = subst (λ n. get id_of n cloud.models.cloudspace ≡ some cs) (sym id) found in
        let (freed, pools) =
          released_Freed jobs (as_destroying cs) (as_destroying cs)
            (record cloud {
              models = record cloud.models {
                cloudspace = set id_of (as_destroying cs) cloud.models.cloudspace;
              };
            })
            t b (get-set (as_destroying cs) cs cloud.models.cloudspace here)
            (rw (e, found, f) at h) in
        (
          e,
          f,
          subst (λ n. Freed n t.models) id freed,
          subst (Returned cs cloud.models.externalnetwork) (sym pools)
              (back-Returned cs cloud.models.externalnetwork),
        )
  ]
]
