-- ===== src/Machines/Faulty.antt =====
-- How the creation of a machine ends where it leaves the machine in the store: the machine runs, or an
-- exception of the driver that `create` and `updateMachineFromNode` do not catch has left it.
use openvcloud.Prelude.{
  ℕ, ◌<◌, ◌≡◌, refl, true, false, Option, none, some, List, [], ◌∷◌, arith, Option-cases, all,
  length, inl, inr, ◌⊎◌,
}
use openvcloud.Result.{Error, Result, ok, err, python_error}
use openvcloud.Models.{VMachine, MachineStatus, Size, Models}
use openvcloud.Models.Table.{get, exists}
use openvcloud.Machines.Provision.{Driver, made, NodeSize, find_size, adopt_disks}
use openvcloud.Disks.{disk_id}

-- The machine once it has a node.
abbrev pub hosted : ℕ → ℕ → VMachine → VMachine
hosted reference k vm = record vm {
  reference_id = reference;
  stack_id = k;
  status = MachineStatus.running;
}

-- What the driver does that `create` takes no care of: it raises for its images or its sizes, it has
-- no size that is big enough, or a node has fewer volumes than the machine has disks.
pub data Faulty (driver : Driver) (image disks : ℕ) : Type 0 where
  images_raise : (k : ℕ) (e : Error) → driver.has_image k image ≡ err e → Faulty driver image disks
  sizes_raise : (k : ℕ) (e : Error) → driver.list_sizes k ≡ err e → Faulty driver image disks
  no_size :
      (k boot : ℕ) (size : Size) (sizes : List NodeSize)
      → driver.list_sizes k ≡ ok sizes
      → find_size size boot none sizes ≡ none
      → Faulty driver image disks
  few_volumes :
      (k reference : ℕ) (size : Option NodeSize) (vm : VMachine) (volumes : List ℕ)
      → driver.create_node k size vm ≡ made reference volumes
      → length volumes < disks
      → Faulty driver image disks

-- The machine answers and runs, or the driver is at fault.
abbrev pub Ending : Driver → VMachine → Result (Option ℕ) → Type 0
Ending driver vm r =
    ((r ≡ ok (some vm.id)) × (vm.status ≡ MachineStatus.running))
    ⊎ ((e : Error) × (r ≡ err e) × Faulty driver vm.image_id (length vm.disks))

-- A machine that differs in its node and its status only.
abbrev pub IsSame : VMachine → VMachine → Type 0
IsSame vm v =
    (v.id ≡ vm.id)
    × (v.name ≡ vm.name)
    × (v.cloudspace_id ≡ vm.cloudspace_id)
    × (v.size_id ≡ vm.size_id)
    × (v.image_id ≡ vm.image_id)
    × (v.disks ≡ vm.disks)

pub adopt_disks_cases :
    (ks volumes : List ℕ) (m : Models)
    → all (λ k. exists disk_id k m.disk) ks ≡ true
    → (adopt_disks ks volumes m ≡ (ok tt, m))
      ⊎ ((adopt_disks ks volumes m ≡ (err python_error, m)) × (length volumes < length ks))
adopt_disks_cases [] volumes m h = inl refl
adopt_disks_cases (k ∷ ks) [] m h = inr (refl, omega arith)
adopt_disks_cases (k ∷ ks) (v ∷ volumes) m h = elim (Option-cases (get disk_id k m.disk)) [
  | inl e ↦ let z : false ≡ true = rw (exists, e) at h in absurd cc
  | inr (d, e) ↦ elim (adopt_disks_cases ks volumes m (rw (exists, e) at h)) [
    | inl q ↦ inl (rw (adopt_disks, e) q)
    | inr (q, less) ↦ inr (rw (adopt_disks, e) q, omega (arith, less))
  ]
]
