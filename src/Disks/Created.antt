-- ===== src/Disks/Created.antt =====
-- `addDisk`, `create` and `delete` keep a disk on one machine at most.
use openvcloud.Prelude.{
  ℕ, ◌≡◌, refl, true, false, ◌||◌, List, [], ◌∷◌, ◌++◌, arith, ◌==◌, leb, ltb, ==_refl, Bool-cases,
  inl, inr, ◌⊎◌, ◌∙◌, ap, sym, length,
}
use openvcloud.Result.{
  Error, ok, err, Result-cases, python_error, bad_request, Exec, lift, check_keeps, bind_keeps,
  or_raise, raise_if, or_raise_same, raise_if_same, raise_if_passed, same_ok, err_not_ok,
}
use openvcloud.Models.{Cloudspace, VMachine, Disk, Models}
use openvcloud.Models.Table.{get, exists, delete-append}
use openvcloud.Limits.Checks.{check_account_resources_same, check_cloudspace_resources_same}
use openvcloud.Limits.Available.{check_account_resources, check_cloudspace_resources}
use openvcloud.Machines.{Hypervisor, vm_id}
use openvcloud.Disks.{
  disk_id, disk_needs, new_disk, volume_of, keep_or_delete, add_new, create_disk, create, add_disk,
  max_disks,
}
use openvcloud.Disks.Owners.{attached, IsAttached}
use openvcloud.Disks.Detached.{node_outcome}
use openvcloud.Disks.Attached.{with_disk-IsAttached}

exists-append :
    (k : ℕ) (d : Disk) (ds : List Disk)
    → exists disk_id k (ds ++ d ∷ []) ≡ (exists disk_id k ds || d.id == k)
exists-append k d [] = ground arith
exists-append k d (x ∷ ds) = ground (arith, exists-append k d ds)

exists_own : (d : Disk) (ds : List Disk) → exists disk_id d.id (ds ++ d ∷ []) ≡ true
exists_own d ds = ground (arith, exists-append d.id d ds, ==_refl d.id)

abbrev stored : Disk → Models → Models
stored d m = record m { disk = m.disk ++ d ∷ [] }

stored-IsAttached : (d : Disk) (m : Models) → IsAttached m → IsAttached (stored d m)
stored-IsAttached d m w = record {
  machines_unique = w.machines_unique;
  one_machine = w.one_machine;
  all_fit = w.all_fit;
  known = λ k e. w.known k (ground (arith, exists-append k d m.disk));
}

-- A new disk is stored, or its creation raises and the store is as before.
module _ (hv : Hypervisor) where
  add_new_cases :
      (d : Disk) (m : Models)
      → exists disk_id d.id m.disk ≡ false
      → (add_new hv d m ≡ (ok d.id, stored d m)) ⊎ ((e : Error) × (add_new hv d m ≡ (err e, m)))
  unfolding add_new keep_or_delete
  add_new_cases d m new = elim (Result-cases (volume_of hv d (stored d m))) [
    | inl (x, e) ↦ inl (rw e refl)
    | inr (x, e) ↦ inr (x, rw (e, delete-append disk_id d m.disk new) refl)
  ]

module _ (hv : Hypervisor) (fresh : Models → ℕ)
    (new : (m : Models) → exists disk_id (fresh m) m.disk ≡ false) where
  create_disk-IsAttached :
      (account_id gid size : ℕ) (m : Models)
      → IsAttached m
      → IsAttached (create_disk hv fresh account_id gid size m).1
  unfolding create_disk
  create_disk-IsAttached account_id gid size m w =
      check_keeps IsAttached (raise_if (ltb 2000 size) bad_request) _ m
        (raise_if_same (ltb 2000 size) bad_request m) w
        λ x e. elim (add_new_cases hv (new_disk account_id gid size (fresh m)) m (new m)) [
          | inl q ↦ rw q (stored-IsAttached (new_disk account_id gid size (fresh m)) m w)
          | inr (y, q) ↦ rw q w
        ]

  create_disk_found :
      (account_id gid size id : ℕ) (m u : Models)
      → create_disk hv fresh account_id gid size m ≡ (ok id, u)
      → (id ≡ fresh m) × (u ≡ stored (new_disk account_id gid size (fresh m)) m)
  unfolding create_disk
  create_disk_found account_id gid size id m u h = elim (Bool-cases (ltb 2000 size)) [
    | inl e ↦ absurd (err_not_ok (rw e at h))
    | inr e ↦ elim (add_new_cases hv (new_disk account_id gid size (fresh m)) m (new m)) [
      | inl q ↦ let (i, s) = same_ok (sym q ∙ rw e at h) in (sym i, sym s)
      | inr (y, q) ↦ absurd (err_not_ok (sym q ∙ rw e at h))
    ]
  ]

  pub create-IsAttached :
      (account_id gid size : ℕ) (m : Models)
      → IsAttached m
      → IsAttached (create hv fresh account_id gid size m).1
  unfolding create
  create-IsAttached account_id gid size m w =
      check_keeps IsAttached (check_account_resources account_id (disk_needs size)) _ m
        (check_account_resources_same account_id (disk_needs size) m) w
        λ x e. create_disk-IsAttached account_id gid size m w

  pub add_disk-IsAttached :
      (mid size : ℕ) (m : Models) → IsAttached m → IsAttached (add_disk hv fresh mid size m).1
  unfolding add_disk
  add_disk-IsAttached mid size m w = elim (node_outcome hv mid m w) [
    | inl (e, q) ↦ rw q w
    | inr (vm, h, t, q, f) ↦ rw q (
        check_keeps IsAttached (raise_if (leb max_disks (length vm.disks)) bad_request) _ t
          (raise_if_same (leb max_disks (length vm.disks)) bad_request t) f.still
          λ x room.
            check_keeps IsAttached (cloudspace_of vm) _ t
              (or_raise_same (get (λ (c : Cloudspace). c.id) vm.cloudspace_id t.cloudspace)
                python_error t)
              f.still
              λ (cs : Cloudspace) e.
                check_keeps IsAttached (check_cloudspace_resources cs.id (disk_needs size) true) _ t
                  (check_cloudspace_resources_same cs.id (disk_needs size) true t) f.still
                  λ y g.
                    bind_keeps IsAttached (create_disk hv fresh cs.account_id cs.gid size) _ t
                      (create_disk-IsAttached cs.account_id cs.gid size t f.still)
                      λ id u made i.
                        check_keeps IsAttached (or_raise h python_error) _ u
                          (or_raise_same h python_error u) i
                          λ p r.
                            check_keeps IsAttached (lift (hv.attach_volume vm.reference_id id)) _ u
                              refl i
                              λ z v.
                                let (same, store) =
                                  create_disk_found cs.account_id cs.gid size id t u made in
                                let no_one : attached id u.vmachine ≡ 0 =
                                  (ap (λ (n : Models). attached id n.vmachine) store
                                    ∙ ap (λ i. attached i t.vmachine) same
                                    ∙ f.still.known (fresh t) (new t)) in
                                let there : exists disk_id id u.disk ≡ true =
                                  (ap (λ (n : Models). exists disk_id id n.disk) store
                                    ∙ ap
                                        (λ i. exists disk_id i (
                                          t.disk
                                          ++ new_disk cs.account_id cs.gid size (fresh t) ∷ []))
                                        same
                                    ∙ exists_own (new_disk cs.account_id cs.gid size (fresh t))
                                        t.disk) in
                                with_disk-IsAttached id vm u i
                                  (ap (λ (m : Models). get vm_id vm.id m.vmachine) store ∙ f.here)
                                  no_one
                                  (raise_if_passed (leb max_disks (length vm.disks)) bad_request t x
                                    room)
                                  there)
  ]
    where
      cloudspace_of : VMachine → Exec Models Cloudspace
      cloudspace_of vm t =
          or_raise (get (λ (c : Cloudspace). c.id) vm.cloudspace_id t.cloudspace) python_error t
