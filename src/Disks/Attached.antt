-- ===== src/Disks/Attached.antt =====
-- `attachDisk` and `addDisk` keep a disk on one machine at most.
use openvcloud.Prelude.{
  ℕ, ◌+◌, ◌≤◌, ◌≡◌, refl, Bool, true, false, not, Option, none, some, [], ◌∷◌, ◌++◌, arith, ◌==◌,
  leb, ==_iff, ==_refl, mem, Bool-cases, inl, inr, ◌∙◌, ap, sym, subst, length,
}
use openvcloud.Result.{
  Result, ok, python_error, bad_request, pure, lift, is_ok, check_outcome, check_keeps, bind_keeps,
  or_raise, raise_if, or_raise_same, raise_if_same, raise_if_passed, or_raise_found,
}
use openvcloud.Models.{VMachine, Disk, Models}
use openvcloud.Models.Table.{get, exists}
use openvcloud.Models.Unique.{get-find, some_eq}
use openvcloud.Limits.Checks.{check_cloudspace_resources_same}
use openvcloud.Machines.{Hypervisor, vm_id}
use openvcloud.Machines.Status.{written}
use openvcloud.Disks.{
  disk_id, disk_needs, check_if, take_from, attach_missing, attach_disk, holder_of, max_disks,
  detach_disk,
}
use openvcloud.Disks.Owners.{
  bit, count, attached, count-append, length-append, IsAttached, attached_absent,
  written-IsAttached,
}
use openvcloud.Disks.Detached.{node_outcome, detach_disk-IsDetached}

check_if_same : (b : Bool) (k : ℕ) (disk : Disk) (m : Models) → (check_if b k disk m).1 ≡ m
unfolding check_if
check_if_same true k disk m = check_cloudspace_resources_same k (disk_needs disk.size_max) false m
check_if_same false k disk m = refl

-- What taking the disk `k` from its machine leaves, where `vm` is another machine.
record IsFreed (m : Models) (k : ℕ) (vm : VMachine) (o : Result Bool × Models) : Type 0 where
  still : IsAttached o.1
  same_disks : o.1.disk ≡ m.disk
  here : get vm_id vm.id o.1.vmachine ≡ some vm
  freed : is_ok o.0 ≡ true → attached k o.1.vmachine ≡ 0

module _ (hv : Hypervisor) (k : ℕ) (vm : VMachine) (disk : Disk) (m : Models) (w : IsAttached m)
    (here : get vm_id vm.id m.vmachine ≡ some vm) (apart : mem k vm.disks ≡ false) where
  detached-IsFreed :
      (other : VMachine) → holder_of k m ≡ some other → IsFreed m k vm (detach_disk hv other.id k m)
  detached-IsFreed other h =
      let (g, has) = get-find vm_id (λ v. mem k v.disks) m.vmachine other w.machines_unique h in
      let d = detach_disk-IsDetached hv other.id k m w in
      record {
        still = d.still;
        same_disks = d.same_disks;
        here = d.others vm.id (differ other g has) ∙ here;
        freed = λ ok. d.freed other ok g has;
      }
    where
      differ :
          (other : VMachine)
          → get vm_id other.id m.vmachine ≡ some other
          → mem k other.disks ≡ true
          → (other.id == vm.id) ≡ false
      differ other g has = elim (Bool-cases (other.id == vm.id)) [
        | inr e ↦ e
        | inl e ↦
            let same : other ≡ vm =
              some_eq
                (sym g ∙ ap (λ i. get vm_id i m.vmachine) ((==_iff other.id vm.id).0 e) ∙ here) in
            let has2 = subst (λ (v : VMachine). mem k v.disks ≡ true) same has in
            absurd (ground arith)
      ]

  take_from-IsFreed :
      (holder : Option VMachine)
      → holder_of k m ≡ holder
      → IsFreed m k vm (take_from hv holder vm disk k m)
  unfolding take_from
  take_from-IsFreed none h =
      check_outcome (IsFreed m k vm) (check_if true vm.cloudspace_id disk) (λ _. pure true) m
        (check_if_same true vm.cloudspace_id disk m)
        (λ e. record {
          still = w;
          same_disks = refl;
          here = here;
          freed = λ ok. absurd (ground arith);
        })
        (λ x e. record {
          still = w;
          same_disks = refl;
          here = here;
          freed = λ ok. attached_absent k m.vmachine h;
        })
  take_from-IsFreed (some other) h =
      check_outcome (IsFreed m k vm)
        (check_if (not (other.cloudspace_id == vm.cloudspace_id)) vm.cloudspace_id disk)
        (λ _. detach_disk hv other.id k) m
        (check_if_same (not (other.cloudspace_id == vm.cloudspace_id)) vm.cloudspace_id disk m)
        (λ e. record {
          still = w;
          same_disks = refl;
          here = here;
          freed = λ ok. absurd (ground arith);
        })
        (λ x e. detached-IsFreed other h)

abbrev pub with_disk : ℕ → VMachine → VMachine
with_disk k vm = record vm { disks = vm.disks ++ k ∷ [] }

-- A disk that is on no machine may be put on one that has room for it.
pub with_disk-IsAttached :
    (k : ℕ) (vm : VMachine) (m : Models)
    → IsAttached m
    → get vm_id vm.id m.vmachine ≡ some vm
    → attached k m.vmachine ≡ 0
    → leb max_disks (length vm.disks) ≡ false
    → exists disk_id k m.disk ≡ true
    → IsAttached (written (with_disk k vm) m)
with_disk-IsAttached k vm m w g free room known =
    written-IsAttached m (with_disk k vm) vm w g (ground (arith, length-append k vm.disks))
      (λ j. elim (Bool-cases (j == k)) [
        | inr e ↦ omega (arith, count-append j k vm.disks, w.one_machine j, bit_other j e)
        | inl e ↦
            subst (λ i. attached i m.vmachine + count i (vm.disks ++ k ∷ []) ≤ 1 + count i vm.disks)
              (sym ((==_iff j k).0 e)) (omega (arith, count-append k k vm.disks, free, bit_self))
      ])
      (λ j e. elim (Bool-cases (j == k)) [
        | inr f ↦ omega (arith, count-append j k vm.disks, bit_other j f)
        | inl f ↦
            let unknown = subst (λ i. exists disk_id i m.disk ≡ false) ((==_iff j k).0 f) e in
            absurd (ground arith)
      ])
  where
    bit_other : (j : ℕ) → (j == k) ≡ false → bit (j == k) ≡ 0
    bit_other j e = rw e refl

    bit_self : bit (k == k) ≡ 1
    bit_self = rw (==_refl k) refl

exists_found :
    (k : ℕ) (m : Models) (disk : Disk)
    → get disk_id k m.disk ≡ some disk
    → exists disk_id k m.disk ≡ true
exists_found k m disk g = rw (exists, g) refl

module _ (hv : Hypervisor) (k : ℕ) where
  attach_missing-IsAttached :
      (vm : VMachine) (h : Option Bool) (m : Models)
      → IsAttached m
      → get vm_id vm.id m.vmachine ≡ some vm
      → mem k vm.disks ≡ false
      → IsAttached (attach_missing hv false vm h k m).1
  unfolding attach_missing
  attach_missing-IsAttached vm h m w g apart =
      check_keeps IsAttached (raise_if (leb max_disks (length vm.disks)) bad_request) _ m
        (raise_if_same (leb max_disks (length vm.disks)) bad_request m) w
        λ x e.
          check_keeps IsAttached (λ t. or_raise (get disk_id k t.disk) python_error t) _ m
            (or_raise_same (get disk_id k m.disk) python_error m) w
            λ disk f.
              bind_keeps IsAttached (take_from hv (holder_of k m) vm disk k) _ m
                (take_from-IsFreed hv k vm disk m w g apart (holder_of k m) refl).still
                λ b t q i.
                  check_keeps IsAttached (or_raise h python_error) _ t
                    (or_raise_same h python_error t) i
                    λ p r.
                      check_keeps IsAttached (lift (hv.attach_volume vm.reference_id disk.id)) _ t
                        refl i
                        λ y s.
                          let freed : IsFreed m k vm (ok b, t) =
                            subst (IsFreed m k vm) q
                              (take_from-IsFreed hv k vm disk m w g apart (holder_of k m) refl) in
                          let known =
                            exists_found k m disk
                              (or_raise_found (get disk_id k m.disk) python_error m disk f) in
                          with_disk-IsAttached k vm t i freed.here (freed.freed refl)
                            (raise_if_passed (leb max_disks (length vm.disks)) bad_request m x e)
                            (subst (λ l. exists disk_id k l ≡ true) (sym freed.same_disks) known)

  -- `attachDisk`, on every branch
  pub attach_disk-IsAttached :
      (mid : ℕ) (m : Models) → IsAttached m → IsAttached (attach_disk hv mid k m).1
  unfolding attach_disk attach_missing
  attach_disk-IsAttached mid m w = elim (node_outcome hv mid m w) [
    | inl (e, q) ↦ rw q w
    | inr (vm, h, t, q, f) ↦ elim (Bool-cases (mem k vm.disks)) [
      | inl e ↦ rw (q, e) f.still
      | inr e ↦ rw (q, e) (attach_missing-IsAttached vm h t f.still f.here e)
    ]
  ]
