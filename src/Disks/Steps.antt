-- ===== src/Disks/Steps.antt =====
-- The operations on disks and the actions on machines, as steps: a disk stays on one machine at most.
use openvcloud.Prelude.{
  ℕ, ◌≡◌, refl, Bool, false, inl, inr, Bool-cases, not, List, [], ◌∷◌, arith, ◌==◌, any, all, ◌∙◌,
}
use openvcloud.Result.{
  lift, or_raise, raise_if, bad_request, conflict, python_error, check_keeps, bind_keeps,
  or_raise_same, raise_if_same,
}
use openvcloud.Models.{VMachine, MachineStatus, Models}
use openvcloud.Models.Table.{exists, update}
use openvcloud.Models.Unique.{Unique}
use openvcloud.Machines.{Hypervisor, Action, vm_id, action, write_status, same_status}
use openvcloud.Machines.Status.{with_status}
use openvcloud.Disks.{disk_id, attach_disk, detach_disk, add_disk, create, delete}
use openvcloud.Disks.Owners.{attached, fits, IsAttached}
use openvcloud.Disks.Detached.{node_outcome, detach_disk-IsDetached}
use openvcloud.Disks.Attached.{attach_disk-IsAttached}
use openvcloud.Disks.Created.{create-IsAttached, add_disk-IsAttached}
use openvcloud.Disks.Deleted.{delete-IsAttached}

module _ (j : ℕ) (s : MachineStatus) where
  attached-update :
      (k : ℕ) (vms : List VMachine)
      → attached k (update vm_id j (with_status s) vms) ≡ attached k vms
  attached-update k [] = refl
  attached-update k (x ∷ vms) = ground (arith, attached-update k vms)

  all-update : (vms : List VMachine) → all fits (update vm_id j (with_status s) vms) ≡ all fits vms
  all-update [] = refl
  all-update (x ∷ vms) = ground (arith, all-update vms)

  any-update :
      (k : ℕ) (vms : List VMachine)
      → any (λ v. vm_id v == k) (update vm_id j (with_status s) vms) ≡ any (λ v. vm_id v == k) vms
  any-update k [] = refl
  any-update k (x ∷ vms) = ground (arith, any-update k vms)

  update-Unique :
      (vms : List VMachine) → Unique vm_id vms → Unique vm_id (update vm_id j (with_status s) vms)
  update-Unique [] u = u
  update-Unique (x ∷ vms) u = elim (Bool-cases (x.id == j)) [
    | inl e ↦ rw e (any-update x.id vms ∙ u.0, update-Unique vms u.1)
    | inr e ↦ rw e (any-update x.id vms ∙ u.0, update-Unique vms u.1)
  ]

write_status-IsAttached :
    (hv : Hypervisor) (vm : VMachine) (s : MachineStatus) (m : Models)
    → IsAttached m
    → IsAttached (write_status hv vm s m).1
unfolding write_status
write_status-IsAttached hv vm s m w = elim (Bool-cases (same_status s vm.status)) [
  | inl e ↦ rw e w
  | inr e ↦ rw e (record {
    machines_unique = update-Unique vm.id s m.vmachine w.machines_unique;
    one_machine = λ k. omega (arith, attached-update vm.id s k m.vmachine, w.one_machine k);
    all_fit = all-update vm.id s m.vmachine ∙ w.all_fit;
    known = λ k e. attached-update vm.id s k m.vmachine ∙ w.known k e;
  })
]

action-IsAttached :
    (hv : Hypervisor) (a : Action) (s : MachineStatus) (k : ℕ) (m : Models)
    → IsAttached m
    → IsAttached (action hv a s k m).1
unfolding action
action-IsAttached hv a s k m w = elim (node_outcome hv k m w) [
  | inl (e, q) ↦ rw q w
  | inr (vm, h, t, q, f) ↦ rw q (
      check_keeps IsAttached (raise_if (not vm.is_virtual) bad_request) _ t
        (raise_if_same (not vm.is_virtual) bad_request t) f.still
        λ x e.
          check_keeps IsAttached (or_raise h python_error) _ t (or_raise_same h python_error t)
            f.still
            λ b g.
              check_keeps IsAttached (raise_if b conflict) _ t (raise_if_same b conflict t) f.still
                λ y i.
                  check_keeps IsAttached (raise_if (not (hv.supports a)) bad_request) _ t
                    (raise_if_same (not (hv.supports a)) bad_request t) f.still
                    λ z l.
                      bind_keeps IsAttached (write_status hv vm s)
                        (λ _. lift (hv.act a vm.reference_id)) t
                        (write_status-IsAttached hv vm s t f.still) λ v u o p. p)
]

-- A call of an operation, whatever it answers.
pub data Step (hv : Hypervisor) (fresh : Models → ℕ) : Models → Models → Type 0 where
  attaches : (mid k : ℕ) (m : Models) → Step hv fresh m (attach_disk hv mid k m).1
  detaches : (mid k : ℕ) (m : Models) → Step hv fresh m (detach_disk hv mid k m).1
  adds : (mid size : ℕ) (m : Models) → Step hv fresh m (add_disk hv fresh mid size m).1
  creates :
      (account_id gid size : ℕ) (m : Models)
      → Step hv fresh m (create hv fresh account_id gid size m).1
  deletes : (k : ℕ) (detach : Bool) (m : Models) → Step hv fresh m (delete hv k detach m).1
  acts :
      (a : Action) (s : MachineStatus) (k : ℕ) (m : Models) → Step hv fresh m (action hv a s k m).1

-- Any number of calls, one after another.
pub data Reach (hv : Hypervisor) (fresh : Models → ℕ) (a : Models) : Models → Type 0 where
  begin : Reach hv fresh a a
  then_call : {b c : Models} → Reach hv fresh a b → Step hv fresh b c → Reach hv fresh a c

module _ (hv : Hypervisor) (fresh : Models → ℕ)
    (new : (m : Models) → exists disk_id (fresh m) m.disk ≡ false) where
  Step-IsAttached : {a b : Models} → Step hv fresh a b → IsAttached a → IsAttached b
  Step-IsAttached (attaches mid k m) w = attach_disk-IsAttached hv k mid m w
  Step-IsAttached (detaches mid k m) w = let d = detach_disk-IsDetached hv mid k m w in d.still
  Step-IsAttached (adds mid size m) w = add_disk-IsAttached hv fresh new mid size m w
  Step-IsAttached (creates account_id gid size m) w =
      create-IsAttached hv fresh new account_id gid size m w
  Step-IsAttached (deletes k detach m) w = delete-IsAttached hv k detach m w
  Step-IsAttached (acts a s k m) w = action-IsAttached hv a s k m w

  -- Through any sequence of calls that attach, detach, add, create and delete disks and act on
  -- machines, whether they succeed or raise and whatever the hypervisor answers: no disk is attached
  -- twice, no machine has more than 25 disks, and a disk that is attached is in the store. The store
  -- gives a new disk an id that no other has.
  pub Reach-IsAttached : {a b : Models} → Reach hv fresh a b → IsAttached a → IsAttached b
  Reach-IsAttached begin w = w
  Reach-IsAttached (then_call r s) w = Step-IsAttached s (Reach-IsAttached r w)
