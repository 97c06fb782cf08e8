-- ===== src/Disks/Deleted.antt =====
-- `delete` of a disk.
use openvcloud.Prelude.{
  ℕ, ◌≡◌, refl, Bool, true, false, not, ◌&&◌, Option, none, some, List, [], ◌∷◌, arith, mem, find?,
  Bool-cases, Option-cases, inl, inr, ◌∙◌, ap, sym, subst,
}
use openvcloud.Result.{
  same_ok, err_not_ok, bind_ok, ok, Result-cases, service_unavailable, lift, check_keeps,
  bind_keeps, raise_if, raise_if_same,
}
use openvcloud.Models.{VMachine, MachineStatus, Disk, DiskStatus, Models}
use openvcloud.Models.Table.{get, set, exists, id-get}
use openvcloud.Machines.{Hypervisor, vm_id}
use openvcloud.Models.Unique.{get-set, get-find}
use openvcloud.Disks.{
  disk_id, has_stack, detach_holder, destroy_disk, destroy_found, delete, holder_alive,
}
use openvcloud.Disks.Owners.{attached, count-mem, IsAttached}
use openvcloud.Disks.Detached.{IsDetached, detach_disk-IsDetached}

exists-set :
    (k : ℕ) (d : Disk) (ds : List Disk) → exists disk_id k (set disk_id d ds) ≡ exists disk_id k ds
exists-set k d [] = refl
exists-set k d (x ∷ ds) = ground (arith, exists-set k d ds)

abbrev pub destroyed : Disk → Models → Models
destroyed disk m = record m {
  disk = set disk_id (record disk { status = DiskStatus.destroyed }) m.disk;
}

destroyed-IsAttached : (disk : Disk) (m : Models) → IsAttached m → IsAttached (destroyed disk m)
destroyed-IsAttached disk m w = record {
  machines_unique = w.machines_unique;
  one_machine = w.one_machine;
  all_fit = w.all_fit;
  known = λ k e.
      w.known k (sym (exists-set k (record disk { status = DiskStatus.destroyed }) m.disk) ∙ e);
}

module _ (hv : Hypervisor) where
  detach_holder-IsAttached :
      (detach : Bool) (holder : Option VMachine) (k : ℕ) (m : Models)
      → IsAttached m
      → IsAttached (detach_holder hv detach holder k m).1
  unfolding detach_holder
  detach_holder-IsAttached detach none k m w = w
  detach_holder-IsAttached false (some vm) k m w = w
  detach_holder-IsAttached true (some vm) k m w =
      let d = detach_disk-IsDetached hv vm.id k m w in d.still

  destroy_disk-IsAttached :
      (detach : Bool) (disk : Disk) (m : Models)
      → IsAttached m
      → IsAttached (destroy_disk hv detach disk m).1
  unfolding destroy_disk
  destroy_disk-IsAttached detach disk m w =
      bind_keeps IsAttached (detach_holder hv detach (holder_alive disk.id m) disk.id) _ m
        (detach_holder-IsAttached detach (holder_alive disk.id m) disk.id m w)
        λ b t e i.
          check_keeps IsAttached (raise_if (not (has_stack disk.gid t)) service_unavailable) _ t
            (raise_if_same (not (has_stack disk.gid t)) service_unavailable t) i
            λ x f.
              check_keeps IsAttached (lift (hv.destroy_volume disk.id)) _ t refl i
                λ y g. destroyed-IsAttached disk t i

  pub delete-IsAttached :
      (k : ℕ) (detach : Bool) (m : Models) → IsAttached m → IsAttached (delete hv k detach m).1
  unfolding delete destroy_found
  delete-IsAttached k detach m w = elim (Option-cases (get disk_id k m.disk)) [
    | inl e ↦ rw e w
    | inr (disk, e) ↦ found disk disk.status refl (rw e refl)
  ]
    where
      found :
          (disk : Disk) (s : DiskStatus)
          → disk.status ≡ s
          → delete hv k detach m ≡ destroy_found hv detach (some disk) m
          → IsAttached (delete hv k detach m).1
      found disk DiskStatus.destroyed e q = subst (λ o. IsAttached o.1) (sym q) (rw e w)
      found disk DiskStatus.created e q =
          subst (λ o. IsAttached o.1) (sym q)
            (rw e
              (destroy_disk-IsAttached detach (record disk { status = DiskStatus.created }) m w))

alive_none : (k : ℕ) (m : Models) → attached k m.vmachine ≡ 0 → holder_alive k m ≡ none
alive_none k m h = go m.vmachine h
  where
    go :
        (vms : List VMachine)
        → attached k vms ≡ 0
        → find?
            (λ vm.
              mem k vm.disks && (elim vm.status [ MachineStatus.destroyed ↦ false | _ ↦ true ]))
            vms
          ≡ none
    go [] e = refl
    go (vm ∷ vms) e = elim (Bool-cases (mem k vm.disks)) [
      | inl f ↦ absurd (ground (arith, count-mem k vm.disks))
      | inr f ↦ rw f (go vms (ground arith))
    ]

module _ (hv : Hypervisor) where
  detach_holder_frees :
      (detach : Bool) (holder : Option VMachine) (k : ℕ) (m t : Models) (b : Bool)
      → IsAttached m
      → holder_alive k m ≡ holder
      → detach_holder hv detach holder k m ≡ (ok b, t)
      → (holder_alive k t ≡ none) × (t.disk ≡ m.disk)
  unfolding detach_holder
  detach_holder_frees detach none k m t b w h e =
      let (x, s) = same_ok e in
      subst (λ (u : Models). (holder_alive k u ≡ none) × (u.disk ≡ m.disk)) s (h, refl)
  detach_holder_frees false (some vm) k m t b w h e = absurd (err_not_ok e)
  detach_holder_frees true (some vm) k m t b w h e =
      let d = detach_disk-IsDetached hv vm.id k m w in
      let d2 : IsDetached m k vm.id (ok b, t) = subst (IsDetached m k vm.id) e d in
      let (g, has) =
        get-find vm_id
          (λ v. mem k v.disks && (elim v.status [ MachineStatus.destroyed ↦ false | _ ↦ true ]))
          m.vmachine vm w.machines_unique h in
      (alive_none k t (d2.freed vm refl g (ground arith)), d2.same_disks)

  abbrev Gone : ℕ → Models → Type 0
  Gone k u =
      (holder_alive k u ≡ none)
      × (d : Disk) × (get disk_id k u.disk ≡ some d)
      × (d.status ≡ DiskStatus.destroyed)

  destroy_disk_frees :
      (detach : Bool) (m u : Models) (disk : Disk) (b : Bool)
      → IsAttached m
      → get disk_id disk.id m.disk ≡ some disk
      → destroy_disk hv detach disk m ≡ (ok b, u)
      → Gone disk.id u
  unfolding destroy_disk
  destroy_disk_frees detach m u disk b w g h =
      let (x, t, e, h2) =
        bind_ok (detach_holder hv detach (holder_alive disk.id m) disk.id) _ m u b h in
      let (free, same) =
        detach_holder_frees detach (holder_alive disk.id m) disk.id m t x w refl e in
      elim (Bool-cases (has_stack disk.gid t)) [
        | inr f ↦ absurd (err_not_ok (rw f at h2))
        | inl f ↦ elim (Result-cases (hv.destroy_volume disk.id)) [
          | inr (y, r) ↦ absurd (err_not_ok (rw (f, r) at h2))
          | inl (y, r) ↦
              let (z, s) = same_ok (rw (f, r) at h2) in
              subst (Gone disk.id) s (
                free,
                record disk { status = DiskStatus.destroyed },
                get-set disk_id (record disk { status = DiskStatus.destroyed }) disk t.disk
                    (ap (get disk_id disk.id) same ∙ g),
                refl,
              )
        ]
      ]

  -- In a store where machines have different ids, no disk is attached twice, no machine has more than
  -- 25 disks and a disk that is attached is in the store: if `delete` of a disk that is not DESTROYED
  -- succeeds, no machine but DESTROYED ones has the disk, and it is stored as DESTROYED.
  pub delete_releases :
      (k : ℕ) (detach : Bool) (m u : Models) (disk : Disk) (b : Bool)
      → IsAttached m
      → get disk_id k m.disk ≡ some disk
      → disk.status ≡ DiskStatus.created
      → delete hv k detach m ≡ (ok b, u)
      → (holder_alive k u ≡ none)
        × (d : Disk) × (get disk_id k u.disk ≡ some d)
        × (d.status ≡ DiskStatus.destroyed)
  unfolding delete destroy_found
  delete_releases k detach m u disk b w g s h =
      let id : disk.id ≡ k = id-get disk_id k m.disk disk g in
      subst (λ i. Gone i u) id
        (destroy_disk_frees detach m u (record disk { status = DiskStatus.created }) b w
          (subst (λ i. get disk_id i m.disk ≡ some (record disk { status = DiskStatus.created }))
            (sym id) (g ∙ ap (λ st. some (record disk { status = st })) s))
          (rw (g, s) at h))
