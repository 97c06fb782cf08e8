-- ===== src/Machines/Whole.antt =====
-- What `create` of a machine leaves in the store, on every way out of it.
use openvcloud.Prelude.{
  ℕ, suc, ◌≡◌, refl, Bool, true, false, Option, none, some, Option-cases, List, [], ◌∷◌, ◌++◌,
  arith, ap, ◌∙◌, length, inl, inr, ◌⊎◌,
}
use openvcloud.Result.{Error, Result, ok, err, python_error, check_outcome, after_or_raise, ◌>>=◌}
use openvcloud.Models.{Cloudspace, VMachine, Size, Image, Models}
use openvcloud.Models.Table.{get, exists, id-get, get-append}
use openvcloud.Limits.Available.{check_cloudspace_resources}
use openvcloud.Limits.Checks.{check_cloudspace_resources_same}
use openvcloud.Machines.{vm_id}
use openvcloud.Machines.Provision.{Driver, rounds}
use openvcloud.Machines.Candidates.{all_left}
use openvcloud.Machines.Create.{MachineOrder, order_needs, new_machine, create_model, create}
use openvcloud.Machines.Cleanup.{drives, remove_list, drives_there, store_disks_lem}
use openvcloud.Machines.Faulty.{Ending}
use openvcloud.Machines.Settled.{IsPending, Settled, rounds-Settled}
use openvcloud.Machines.Validated.{IsValid, Validated, validate_create_cases}
use openvcloud.Disks.{disk_id, new_disk}

-- The store `t` is `m` with the machine and its disks.
pub record IsBuilt (k : ℕ) (order : MachineOrder) (m : Models) (vm : VMachine) (t : Models)
    : Type 0 where
  pub cloudspace : Cloudspace
  pub in_store : get (λ (c : Cloudspace). c.id) k m.cloudspace ≡ some cloudspace
  pub valid : IsValid cloudspace order m
  pub own_id : exists vm_id vm.id m.vmachine ≡ false
  pub own_cloudspace : vm.cloudspace_id ≡ k
  pub own_name : vm.name ≡ order.name
  pub own_size : vm.size_id ≡ order.size_id
  pub own_image : vm.image_id ≡ order.image_id
  pub machines : t.vmachine ≡ m.vmachine ++ vm ∷ []
  pub one_each : length vm.disks ≡ suc (length order.datadisks)
  pub disks : t.disk ≡ m.disk ++ drives cloudspace vm.disks (order.disksize ∷ order.datadisks)

module _ (images : List Image) (fresh_disk fresh_machine : Models → ℕ)
    (new_disk_id : (t : Models) → exists disk_id (fresh_disk t) t.disk ≡ false)
    (new_vm_id : (t : Models) → exists vm_id (fresh_machine t) t.vmachine ≡ false) (driver : Driver)
    (active : ℕ → ℕ → Bool) (k : ℕ) (order : MachineOrder) (m : Models) where
  Whole : Result (Option ℕ) × Models → Type 0
  Whole o =
      ((e : Error) × (o.0 ≡ err e) × (o.1.vmachine ≡ m.vmachine) × (o.1.disk ≡ m.disk))
      ⊎ ((vm : VMachine) × IsBuilt k order m vm o.1 × Ending driver vm o.0)

  stop : (e : Error) → Whole (err e, m)
  unfolding Whole
  stop e = inl (e, refl, refl, refl)

  -- The store after `createModel`.
  abbrev with_model : Cloudspace → List ℕ → Models → ℕ → Models
  with_model cs ids t id = record t {
    disk = m.disk ++ drives cs ids (order.disksize ∷ order.datadisks);
    vmachine = m.vmachine ++ new_machine cs.id order ids id ∷ [];
  }

  record IsModelled (cs : Cloudspace) (ids : List ℕ) (id : ℕ) : Type 0 where
    own : exists vm_id id m.vmachine ≡ false
    undone : remove_list ids (m.disk ++ drives cs ids (order.disksize ∷ order.datadisks)) ≡ m.disk
    one_each : length ids ≡ suc (length order.datadisks)

  create_model_cases :
      (cs : Cloudspace)
      → (create_model images fresh_disk fresh_machine cs order m ≡ (err python_error, m))
        ⊎ ((ids : List ℕ) × (id : ℕ) × (create_model images fresh_disk fresh_machine cs order m
              ≡ (ok (new_machine cs.id order ids id), with_model cs ids m id))
            × IsModelled cs ids id)
  unfolding create_model
  create_model_cases cs = elim (Option-cases (get (λ (i : Image). i.id) order.image_id images)) [
    | inl e ↦ inl (rw e refl)
    | inr (i, e) ↦
        let (ids, added, undone, same) =
          store_disks_lem fresh_disk new_disk_id cs (order.disksize ∷ order.datadisks) m in
        let id =
          fresh_machine
            (record m { disk = m.disk ++ drives cs ids (order.disksize ∷ order.datadisks) }) in
        inr (
          ids,
          id,
          rw (e, added) refl,
          record {
            own =
                new_vm_id
                  (record m { disk = m.disk ++ drives cs ids (order.disksize ∷ order.datadisks) });
            undone = undone;
            one_each = same;
          },
        )
  ]

  pending :
      (cs : Cloudspace) (size : Size) (ids : List ℕ) (id : ℕ)
      → get (λ (s : Size). s.id) order.size_id m.size ≡ some size
      → IsModelled cs ids id
      → IsPending m.vmachine m.size m.disk
          (m.disk ++ drives cs ids (order.disksize ∷ order.datadisks))
          (new_machine cs.id order ids id)
          (with_model cs ids m id)
  pending cs size [] id z p = absurd (omega (arith, p.one_each))
  pending cs size (boot ∷ ids) id z p =
      let (d, g) =
        get-append disk_id (new_disk cs.account_id cs.gid order.disksize boot) m.disk
          (drives cs ids order.datadisks) in
      record {
        vmachines = refl;
        disks = refl;
        fresh = p.own;
        undone = p.undone;
        same_sizes = refl;
        sized = record {
          size = size;
          disk = d;
          boot = boot;
          data_ids = ids;
          size_found = z;
          all_disks = refl;
          disk_found = g;
        };
        all_there =
            drives_there cs (boot ∷ ids) (order.disksize ∷ order.datadisks) m.disk p.one_each;
      }

  modelled :
      (cs : Cloudspace) (size : Size)
      → get (λ (c : Cloudspace). c.id) k m.cloudspace ≡ some cs
      → IsValid cs order m
      → get (λ (s : Size). s.id) order.size_id m.size ≡ some size
      → Whole (
          (create_model images fresh_disk fresh_machine cs order >>= λ vm.
          λ t. rounds driver active cs.gid (suc (length t.stack)) none none [] vm t)
            m)
  unfolding Whole Settled
  modelled cs size c v z = elim (create_model_cases cs) [
    | inl q ↦ rw q (stop python_error)
    | inr (ids, id, q, p) ↦
        rw q
          (elim (rounds-Settled m.vmachine m.size m.disk
            (m.disk ++ drives cs ids (order.disksize ∷ order.datadisks)) driver active cs.gid
            (suc (length m.stack)) [] (new_machine cs.id order ids id) (with_model cs ids m id)
            (omega (arith, all_left m.stack)) (pending cs size ids id z p)) [
              | inl (e, r, a, b) ↦ inl (e, r, a, b)
              | inr (vm, (i, name, space, own_size, image, own_disks), a, b, r) ↦ inr (
                vm,
                record {
                  cloudspace = cs;
                  in_store = c;
                  valid = v;
                  own_id = rw i p.own;
                  own_cloudspace = space ∙ id-get (λ (c : Cloudspace). c.id) k m.cloudspace cs c;
                  own_name = name;
                  own_size = own_size;
                  own_image = image;
                  machines = a;
                  one_each = ap length own_disks ∙ p.one_each;
                  disks = rw own_disks b;
                },
                r,
              )
            ])
  ]

  pub create_whole :
      ((e : Error) × ((create images fresh_disk fresh_machine driver active k order m).0 ≡ err e)
        × ((create images fresh_disk fresh_machine driver active k order m).1.vmachine ≡ m.vmachine)
        × ((create images fresh_disk fresh_machine driver active k order m).1.disk ≡ m.disk))
      ⊎ ((vm : VMachine) × IsBuilt k order m vm
            (create images fresh_disk fresh_machine driver active k order m).1
          × Ending driver vm (create images fresh_disk fresh_machine driver active k order m).0)
  unfolding create Whole Validated
  create_whole =
      after_or_raise Whole m stop (get (λ (c : Cloudspace). c.id) k m.cloudspace) python_error _
        λ cs c. elim (validate_create_cases images cs order m) [
          | inl (e, q) ↦ rw q (stop e)
          | inr (q, v) ↦ rw q (
              after_or_raise Whole m stop (get (λ (s : Size). s.id) order.size_id m.size)
                python_error _
                λ size z.
                  check_outcome Whole
                    (check_cloudspace_resources cs.id (order_needs order size) true) _ m
                    (check_cloudspace_resources_same cs.id (order_needs order size) true m) stop
                    λ x f. modelled cs size c v z)
        ]
