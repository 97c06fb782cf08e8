-- ===== src/Cloudspaces/Addresses.antt =====
-- The operations on cloudspaces, as steps: every public address keeps one owner at most.
pub mod Create
pub mod Taken
pub mod Deploy
pub mod Delete
use openvcloud.Prelude.{
  inl, Option-cases, inr, arith, ℕ, ◌≡◌, refl, Bool, false, Option, ◌==◌, any, sym, subst, not, mem,
}
use openvcloud.Result.{
  bind_keeps, raise_if, or_raise_same, raise_if_same, python_error, bad_request,
}
use openvcloud.Models.{Cloudspace, CloudspaceStatus, Models, Size}
use openvcloud.Models.Table.{get, exists}
use openvcloud.Pools.{add_to_set, pull}
use openvcloud.Firewall.{Cloud, get_vfw_object, deployed, guid_of}
use openvcloud.Cloudspaces.{
  id_of, get_cloudspace, deploy, delete, enable, add_allowed_size, remove_allowed_size,
}
use openvcloud.Cloudspaces.Create.{Order, create}
use openvcloud.Cloudspaces.Network.{Jobs, on_models, fw_start}
use openvcloud.Cloudspaces.Conserved.{IsBalanced, update-IsBalanced}
use Create.{create-IsBalanced}
use Deploy.{deploy-IsBalanced}
use Delete.{delete-IsBalanced}

-- A call of an operation, whatever it answers.
pub data Step (jobs : Jobs) (fresh : Models → ℕ) : Cloud → Cloud → Type 0 where
  creates :
      (location : Option ℕ) (order : Order) (c : Cloud)
      → Step jobs fresh c (on_models (create fresh location order) c).1
  deploys : (k : ℕ) (c : Cloud) → Step jobs fresh c (deploy jobs k c).1
  deletes : (k : ℕ) (c : Cloud) → Step jobs fresh c (delete jobs k c).1
  enables : (k : ℕ) (c : Cloud) → Step jobs fresh c (enable jobs k c).1
  adds_size :
      (k size_id : ℕ) (c : Cloud) → Step jobs fresh c (on_models (add_allowed_size k size_id) c).1
  removes_size :
      (k size_id : ℕ) (c : Cloud)
      → Step jobs fresh c (on_models (remove_allowed_size k size_id) c).1

-- Any number of calls, one after another.
pub data Reach (jobs : Jobs) (fresh : Models → ℕ) (a : Cloud) : Cloud → Type 0 where
  start : Reach jobs fresh a a
  after : {b c : Cloud} → Reach jobs fresh a b → Step jobs fresh b c → Reach jobs fresh a c

fw_start_same : (jobs : Jobs) (fwid : ℕ) (cloud : Cloud) → (fw_start jobs fwid cloud).1 ≡ cloud
unfolding fw_start get_vfw_object deployed
fw_start_same jobs fwid cloud = elim (Option-cases (get guid_of fwid cloud.vfw)) [
  | inl e ↦ rw e refl
  | inr (fw, e) ↦ rw e (ground arith)
]

enable-IsBalanced :
    (jobs : Jobs) (k : ℕ) (cloud : Cloud)
    → IsBalanced cloud.models
    → IsBalanced (enable jobs k cloud).1.models
unfolding enable
enable-IsBalanced jobs k cloud w =
    bind_keeps (λ t. IsBalanced t.models) (on_models (get_cloudspace k)) _ cloud
      (subst IsBalanced
        (sym (or_raise_same (get id_of k cloud.models.cloudspace) python_error cloud.models)) w)
      λ cs t e b.
        bind_keeps (λ t. IsBalanced t.models) (fw_start jobs (jobs.bare cs.network_id)) _ t
          (subst (λ t. IsBalanced t.models) (sym (fw_start_same jobs (jobs.bare cs.network_id) t))
            b)
          λ x u f c.
            update-IsBalanced u.models k (λ c. record c { status = CloudspaceStatus.deployed })
              (λ c. refl) (λ q ip c. refl) c

add_allowed_size-IsBalanced :
    (k size_id : ℕ) (m : Models) → IsBalanced m → IsBalanced (add_allowed_size k size_id m).1
unfolding add_allowed_size
add_allowed_size-IsBalanced k size_id m w =
    bind_keeps IsBalanced (raise_if (no_size m) bad_request) _ m
      (subst IsBalanced (sym (raise_if_same (no_size m) bad_request m)) w)
      λ x t e b.
        update-IsBalanced t k
          (λ c. record c { allowed_vm_sizes = add_to_set size_id c.allowed_vm_sizes }) (λ c. refl)
          (λ q ip c. refl) b
  where
    no_size : Models → Bool
    no_size t = not (exists (λ (s : Size). s.id) size_id t.size)

remove_allowed_size-IsBalanced :
    (k size_id : ℕ) (m : Models) → IsBalanced m → IsBalanced (remove_allowed_size k size_id m).1
unfolding remove_allowed_size
remove_allowed_size-IsBalanced k size_id m w =
    bind_keeps IsBalanced (get_cloudspace k) _ m
      (subst IsBalanced (sym (or_raise_same (get id_of k m.cloudspace) python_error m)) w)
      λ cs t e b.
        bind_keeps IsBalanced (raise_if (not (mem size_id cs.allowed_vm_sizes)) bad_request) _ t
          (subst IsBalanced
            (sym (raise_if_same (not (mem size_id cs.allowed_vm_sizes)) bad_request t)) b)
          λ x u f c.
            update-IsBalanced u k
              (λ c. record c { allowed_vm_sizes = pull size_id c.allowed_vm_sizes }) (λ c. refl)
              (λ q ip c. refl) c

module _ (jobs : Jobs) (fresh : Models → ℕ)
    (new : (m : Models) → any (λ (x : Cloudspace). x.id == fresh m) m.cloudspace ≡ false) where
  Step-IsBalanced : {a b : Cloud} → Step jobs fresh a b → IsBalanced a.models → IsBalanced b.models
  Step-IsBalanced (creates location order c) w =
      create-IsBalanced fresh new location order c.models w
  Step-IsBalanced (deploys k c) w = deploy-IsBalanced jobs k c w
  Step-IsBalanced (deletes k c) w = delete-IsBalanced jobs k c w
  Step-IsBalanced (enables k c) w = enable-IsBalanced jobs k c w
  Step-IsBalanced (adds_size k size_id c) w = add_allowed_size-IsBalanced k size_id c.models w
  Step-IsBalanced (removes_size k size_id c) w = remove_allowed_size-IsBalanced k size_id c.models w

  -- Through any sequence of calls that create, deploy, delete and enable cloudspaces and change their
  -- allowed sizes, whether they succeed or raise and whatever the jobs on the nodes answer: no public
  -- address is ever free and held at once, or held by two cloudspaces. The store gives a new
  -- cloudspace an id that no other has.
  pub Reach-IsBalanced :
      {a b : Cloud} → Reach jobs fresh a b → IsBalanced a.models → IsBalanced b.models
  Reach-IsBalanced start w = w
  Reach-IsBalanced (after r s) w = Step-IsBalanced s (Reach-IsBalanced r w)
