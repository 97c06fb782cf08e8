-- ===== src/Disks/Detached.antt =====
-- `detachDisk` leaves the disk on no machine.
use openvcloud.Prelude.{
  ℕ, ◌≡◌, refl, Bool, true, false, Option, some, arith, ◌==◌, ==_refl, mem, Option-cases, inl, inr,
  ◌⊎◌, ◌∙◌, ap, sym, subst,
}
use openvcloud.Result.{Error, Result, ok, err, Result-cases, python_error, is_ok}
use openvcloud.Models.{VMachine, Models}
use openvcloud.Models.Table.{get, id-get}
use openvcloud.Models.Unique.{get-set, get-set_ne, sum-set}
use openvcloud.Machines.{Hypervisor, vm_id, get_provider_and_node}
use openvcloud.Machines.Status.{with_status, written, get_provider_and_node_cases}
use openvcloud.Disks.{disk_id, remove_first, detach_found, detach_disk}
use openvcloud.Disks.Owners.{
  bit, count, attached, count-mem, count-remove_first, length-remove_first, IsAttached, get-fits,
  written-IsAttached,
}

-- The machine `k` as `getProviderAndNode` finds it and leaves it in the store.
pub record IsFound (m : Models) (k : ℕ) (vm : VMachine) (t : Models) : Type 0 where
  pub still : IsAttached t
  pub here : get vm_id vm.id t.vmachine ≡ some vm
  pub same_id : vm.id ≡ k
  pub same_disks : t.disk ≡ m.disk
  pub others : (j : ℕ) → (k == j) ≡ false → get vm_id j t.vmachine ≡ get vm_id j m.vmachine
  pub old : VMachine
  pub was : get vm_id k m.vmachine ≡ some old
  pub had : old.disks ≡ vm.disks

module _ (hv : Hypervisor) (k : ℕ) (m : Models) (w : IsAttached m) where
  pub node_outcome :
      ((e : Error) × (get_provider_and_node hv k m ≡ (err e, m)))
      ⊎ ((vm : VMachine) × (h : Option Bool) × (t : Models) × (get_provider_and_node hv k m
            ≡ (ok (h, vm), t))
          × IsFound m k vm t)
  node_outcome = elim (get_provider_and_node_cases hv k m) [
    | inl (e, q) ↦ inl (e, q)
    | inr (vm, h, g, inl q) ↦ inr (
      vm,
      h,
      m,
      q,
      record {
        still = w;
        here = as_own vm g;
        same_id = id-get vm_id k m.vmachine vm g;
        same_disks = refl;
        others = λ j n. refl;
        old = vm;
        was = g;
        had = refl;
      },
    )
    | inr (vm, h, g, inr (s, q)) ↦ inr (
      with_status s vm,
      h,
      written (with_status s vm) m,
      q,
      record {
        still =
            written-IsAttached m (with_status s vm) vm w (as_own vm g)
              (get-fits k vm m.vmachine g w.all_fit) (λ j. omega (arith, w.one_machine j))
              (λ j e. omega arith);
        here = get-set vm_id (with_status s vm) vm m.vmachine (as_own vm g);
        same_id = id-get vm_id k m.vmachine vm g;
        same_disks = refl;
        others = λ j n.
            get-set_ne vm_id j (with_status s vm) m.vmachine
              (subst (λ i. (i == j) ≡ false) (sym (id-get vm_id k m.vmachine vm g)) n);
        old = vm;
        was = g;
        had = refl;
      },
    )
  ]
    where
      as_own :
          (vm : VMachine) → get vm_id k m.vmachine ≡ some vm → get vm_id vm.id m.vmachine ≡ some vm
      as_own vm g =
          subst (λ i. get vm_id i m.vmachine ≡ some vm) (sym (id-get vm_id k m.vmachine vm g)) g

abbrev pub without : ℕ → VMachine → VMachine
without k vm = record vm { disks = remove_first k vm.disks }

without-IsAttached :
    (k : ℕ) (vm : VMachine) (t : Models)
    → IsAttached t
    → get vm_id vm.id t.vmachine ≡ some vm
    → mem k vm.disks ≡ true
    → IsAttached (written (without k vm) t)
without-IsAttached k vm t w g h =
    written-IsAttached t (without k vm) vm w g
      (ground (arith, length-remove_first k vm.disks, get-fits vm.id vm t.vmachine g w.all_fit))
      (λ j. omega (arith, w.one_machine j, count-remove_first j k vm.disks h))
      (λ j e. omega (arith, count-remove_first j k vm.disks h))

-- Afterwards no machine has the disk.
without_free :
    (k : ℕ) (vm : VMachine) (t : Models)
    → IsAttached t
    → get vm_id vm.id t.vmachine ≡ some vm
    → mem k vm.disks ≡ true
    → attached k (written (without k vm) t).vmachine ≡ 0
without_free k vm t w g h = omega (
  arith,
  w.one_machine k,
  count-remove_first k k vm.disks h,
  count-mem k vm.disks h,
  sum-set vm_id (λ v. count k v.disks) (without k vm) vm t.vmachine w.machines_unique g,
  bit_self,
)
  where
    bit_self : bit (k == k) ≡ 1
    bit_self = rw (==_refl k) refl

-- `detachDisk` on a machine that has the disk raises and leaves the store, or takes the disk off.
pub detach_found_cases :
    (hv : Hypervisor) (b : Bool) (vm : VMachine) (h : Option Bool) (k : ℕ) (t : Models)
    → ((b ≡ false) × (detach_found hv b vm h k t ≡ (ok true, t)))
      ⊎ ((e : Error) × (detach_found hv b vm h k t ≡ (err e, t)))
      ⊎ ((b ≡ true) × (detach_found hv b vm h k t ≡ (ok true, written (without k vm) t)))
unfolding detach_found
detach_found_cases hv false vm h k t = inl (refl, refl)
detach_found_cases hv true vm h k t = elim (Option-cases (get disk_id k t.disk)) [
  | inl e ↦ inr (inl (python_error, rw e refl))
  | inr (disk, e) ↦ elim (Option-cases h) [
    | inl f ↦ inr (inl (python_error, rw (e, f) refl))
    | inr (p, f) ↦ elim (Result-cases (hv.detach_volume disk.id)) [
      | inr (x, d) ↦ inr (inl (x, rw (e, f, d) refl))
      | inl (u, d) ↦ inr (inr (refl, rw (e, f, d) refl))
    ]
  ]
]

-- What `detachDisk` leaves: the invariant, the disks of the store and the other machines, and no
-- machine with the disk where it succeeds on a machine that had it.
pub record IsDetached (m : Models) (k mid : ℕ) (o : Result Bool × Models) : Type 0 where
  pub still : IsAttached o.1
  pub same_disks : o.1.disk ≡ m.disk
  pub others : (j : ℕ) → (mid == j) ≡ false → get vm_id j o.1.vmachine ≡ get vm_id j m.vmachine
  pub freed :
      (old : VMachine)
      → is_ok o.0 ≡ true
      → get vm_id mid m.vmachine ≡ some old
      → mem k old.disks ≡ true
      → attached k o.1.vmachine ≡ 0

module _ (hv : Hypervisor) (mid k : ℕ) (m : Models) (w : IsAttached m) where
  found-IsDetached :
      (vm : VMachine) (h : Option Bool) (t : Models)
      → IsFound m mid vm t
      → IsDetached m k mid (detach_found hv (mem k vm.disks) vm h k t)
  found-IsDetached vm h t f = elim (detach_found_cases hv (mem k vm.disks) vm h k t) [
    | inl (e, q) ↦ rw q (record {
      still = f.still;
      same_disks = f.same_disks;
      others = f.others;
      freed = λ old ok g has. absurd (lost old g has e);
    })
    | inr (inl (e, q)) ↦ rw q (record {
      still = f.still;
      same_disks = f.same_disks;
      others = f.others;
      freed = λ old ok g has. absurd (ground arith);
    })
    | inr (inr (e, q)) ↦ rw q (record {
      still = without-IsAttached k vm t f.still f.here e;
      same_disks = f.same_disks;
      others = λ j n.
          get-set_ne vm_id j (without k vm) t.vmachine
            (subst (λ i. (i == j) ≡ false) (sym f.same_id) n)
          ∙ f.others j n;
      freed = λ old ok g has. without_free k vm t f.still f.here e;
    })
  ]
    where
      some_eq : {a b : VMachine} → some a ≡ some b → a ≡ b
      some_eq q = cc

      lost :
          (old : VMachine)
          → get vm_id mid m.vmachine ≡ some old
          → mem k old.disks ≡ true
          → ¬ (mem k vm.disks ≡ false)
      lost old g has e =
          let same : f.old ≡ old = some_eq (sym f.was ∙ g) in
          let has2 : mem k vm.disks ≡ true =
            subst (λ l. mem k l ≡ true) (ap (λ (v : VMachine). v.disks) (sym same) ∙ f.had) has in
          ground arith

  pub detach_disk-IsDetached : IsDetached m k mid (detach_disk hv mid k m)
  unfolding detach_disk
  detach_disk-IsDetached = elim (node_outcome hv mid m w) [
    | inl (e, q) ↦ rw q (record {
      still = w;
      same_disks = refl;
      others = λ j n. refl;
      freed = λ old ok g has. absurd (ground arith);
    })
    | inr (vm, h, t, q, f) ↦ rw q (found-IsDetached vm h t f)
  ]
