-- ===== src/Machines/Settled.antt =====
-- How the loop of `Machine.create` leaves the machine and its disks that `createModel` has added.
use openvcloud.Prelude.{
  ℕ, zero, suc, ◌<◌, ◌≡◌, refl, Bool, true, false, Option, none, some, List, [], ◌∷◌, ◌++◌, arith,
  Bool-cases, all, length, inl, inr, ◌⊎◌, ◌∙◌, ap, ◌==◌,
}
use openvcloud.Result.{
  Error, Result, ok, err, Result-cases, continue, pure, ◌>>◌, python_error, bad_request,
  service_unavailable,
}
use openvcloud.Models.{VMachine, MachineStatus, Stack, Size, Disk, Models}
use openvcloud.Models.Table.{get, exists, set, delete as remove, delete-append, set-append}
use openvcloud.Scheduling.{stack_id_of, get_best_provider, mark_provider, clear_provider}
use openvcloud.Scheduling.Best.{get_best_provider-least}
use openvcloud.Machines.{vm_id}
use openvcloud.Machines.Provision.{
  Driver, Attempt, made, minus_one, storage_exception, other_exception, fail, fail_if, NodeSize,
  find_size, get_size, adopt_disks, update_machine_from_node, best_or_fail, get_stack, after_node,
  next_round, rounds,
}
use openvcloud.Machines.Faulty.{
  hosted, Faulty, images_raise, sizes_raise, no_size, few_volumes, Ending, IsSame,
  adopt_disks_cases,
}
use openvcloud.Machines.Cleanup.{remove_list, remove_disks-eq}
use openvcloud.Machines.Candidates.{left, left_less, left-set, known, best_known}
use openvcloud.Disks.{disk_id}

known-found :
    (k : ℕ) (stacks : List Stack)
    → known k stacks ≡ true
    → (s : Stack) × (get stack_id_of k stacks ≡ some s)
known-found k [] h = absurd cc
known-found k (s ∷ stacks) h = elim (Bool-cases (s.id == k)) [
  | inl e ↦ (s, rw e refl)
  | inr e ↦ let (t, g) = known-found k stacks (rw e at h) in (t, rw e g)
]

known-set :
    (k : ℕ) (a : Stack) (stacks : List Stack) → known k (set stack_id_of a stacks) ≡ known k stacks
known-set k a [] = refl
known-set k a (s ∷ stacks) = ground (arith, known-set k a stacks)

-- The other machines, the disks before and after `createModel`.
module _ (vms : List VMachine) (sizes : List Size) (before after : List Disk) where
  -- The size of the machine and its first disk are there.
  pub record HasSize (vm : VMachine) : Type 0 where
    pub size : Size
    pub disk : Disk
    pub boot : ℕ
    pub data_ids : List ℕ
    pub size_found : get (λ (s : Size). s.id) vm.size_id sizes ≡ some size
    pub all_disks : vm.disks ≡ boot ∷ data_ids
    pub disk_found : get disk_id boot after ≡ some disk

  -- The store while a node is sought for the machine.
  pub record IsPending (vm : VMachine) (t : Models) : Type 0 where
    pub vmachines : t.vmachine ≡ vms ++ vm ∷ []
    pub disks : t.disk ≡ after
    pub fresh : exists vm_id vm.id vms ≡ false
    pub undone : remove_list vm.disks after ≡ before
    pub same_sizes : t.size ≡ sizes
    pub sized : HasSize vm
    pub all_there : all (λ k. exists disk_id k after) vm.disks ≡ true

  -- Both are gone and there is an error, or the machine is there.
  unfoldable pub Settled : Driver → VMachine → Result (Option ℕ) × Models → Type 0
  Settled driver vm o =
      ((e : Error) × (o.0 ≡ err e) × (o.1.vmachine ≡ vms) × (o.1.disk ≡ before))
      ⊎ ((v : VMachine) × IsSame vm v
          × (o.1.vmachine ≡ vms ++ v ∷ [])
          × (o.1.disk ≡ after)
          × Ending driver v o.0)

  fail-Settled :
      (driver : Driver) (vm : VMachine) (e : Error) (t : Models)
      → IsPending vm t
      → Settled driver vm (fail vm e t)
  unfolding fail Settled
  fail-Settled driver vm e t p = inl (
    e,
    refl,
    ap (λ (u : Models). remove vm_id vm.id u.vmachine) (remove_disks-eq vm.disks t)
        ∙ ap (remove vm_id vm.id) p.vmachines
        ∙ delete-append vm_id vm vms p.fresh,
    ap (λ (u : Models). u.disk) (remove_disks-eq vm.disks t)
        ∙ ap (remove_list vm.disks) p.disks
        ∙ p.undone,
  )

  left-Settled :
      (driver : Driver) (vm : VMachine) (e : Error) (t : Models)
      → IsPending vm t
      → Faulty driver vm.image_id (length vm.disks)
      → Settled driver vm (err e, t)
  unfolding Settled
  left-Settled driver vm e t p f =
      inr (vm, (refl, refl, refl, refl, refl, refl), p.vmachines, p.disks, inr (e, refl, f))

  get_size_lem :
      (driver : Driver) (k : ℕ) (vm : VMachine) (t : Models) (p : IsPending vm t)
      → get_size driver k vm t
        ≡ continue
            (driver.list_sizes k)
            (λ sizes. pure (find_size p.sized.size p.sized.disk.size_max none sizes))
            t
  unfolding get_size
  get_size_lem driver k vm t p =
      let z = p.sized in
      let a : get (λ (s : Size). s.id) vm.size_id t.size ≡ some z.size =
        rw p.same_sizes z.size_found in
      let b : get disk_id z.boot t.disk ≡ some z.disk = rw p.disks z.disk_found in
      rw (get_size, a, z.all_disks, b) refl

  -- A write of the stacks and of the machine itself.
  moved :
      (vm : VMachine) (s : MachineStatus) (stacks : List Stack) (t : Models)
      → IsPending vm t
      → IsPending
          (record vm { status = s })
          (record t { stack = stacks; vmachine = set vm_id (record vm { status = s }) t.vmachine })
  moved vm s stacks t p = record {
    vmachines =
        ap (set vm_id (record vm { status = s })) p.vmachines
        ∙ set-append vm_id (record vm { status = s }) vm vms refl p.fresh;
    disks = p.disks;
    fresh = p.fresh;
    undone = p.undone;
    same_sizes = p.same_sizes;
    all_there = p.all_there;
    sized = record {
      size = p.sized.size;
      disk = p.sized.disk;
      boot = p.sized.boot;
      data_ids = p.sized.data_ids;
      size_found = p.sized.size_found;
      all_disks = p.sized.all_disks;
      disk_found = p.sized.disk_found;
    };
  }

  -- A write of the stacks.
  restacked :
      (vm : VMachine) (stacks : List Stack) (t : Models)
      → IsPending vm t
      → IsPending vm (record t { stack = stacks })
  restacked vm stacks t p = record {
    vmachines = p.vmachines;
    disks = p.disks;
    fresh = p.fresh;
    undone = p.undone;
    same_sizes = p.same_sizes;
    all_there = p.all_there;
    sized = p.sized;
  }

  module _ (driver : Driver) (active : ℕ → ℕ → Bool) (gid : ℕ) where
    adopted :
        (k r : ℕ) (z : Option NodeSize) (vm : VMachine) (volumes : List ℕ) (t : Models)
        → driver.create_node k z vm ≡ made r volumes
        → t.vmachine ≡ vms ++ hosted r k vm ∷ []
        → t.disk ≡ after
        → all (λ k. exists disk_id k after) vm.disks ≡ true
        → Settled driver vm ((adopt_disks vm.disks volumes >> pure (some vm.id)) t)
    unfolding Settled
    adopted k r z vm volumes t c a b there =
        elim (adopt_disks_cases vm.disks volumes t (rw b there)) [
          | inl q ↦
              rw q
                (inr (hosted r k vm, (refl, refl, refl, refl, refl, refl), a, b, inl (refl, refl)))
          | inr (q, less) ↦ rw q (
              inr (
                hosted r k vm,
                (refl, refl, refl, refl, refl, refl),
                a,
                b,
                inr (python_error, refl, few_volumes k r z vm volumes c less),
              ))
        ]

    node-Settled :
        (k : ℕ) (z : Option NodeSize) (vm : VMachine) (a : Attempt)
        (again : VMachine → Models → Result (Option ℕ) × Models) (m : Models)
        → driver.create_node k z vm ≡ a
        → (z ≡ none → Faulty driver vm.image_id (length vm.disks))
        → IsPending vm m
        → known k m.stack ≡ true
        → ((t : Models) (s : MachineStatus)
            → IsPending (record vm { status = s }) t
            → ((ex : List ℕ) → left ex t.stack ≡ left ex m.stack)
            → Settled driver vm (again (record vm { status = s }) t))
        → Settled driver vm (after_node driver active gid none k z vm a again m)
    unfolding after_node next_round clear_provider mark_provider update_machine_from_node
    node-Settled k none vm (made r volumes) again m c f p n h =
        let (s, e) = known-found k m.stack n in
        rw e (left-Settled driver vm python_error _ (restacked vm _ m p) (f refl))
    node-Settled k (some z) vm (made r volumes) again m c f p n h =
        let (s, e) = known-found k m.stack n in
        rw e (
          adopted k r (some z) vm volumes _ c
            (ap (set vm_id (hosted r k vm)) p.vmachines
              ∙ set-append vm_id (hosted r k vm) vm vms refl p.fresh)
            p.disks p.all_there)
    node-Settled k z vm storage_exception again m c f p n h =
        fail-Settled driver vm service_unavailable m p
    node-Settled k z vm minus_one again m c f p n h = h m vm.status p (λ ex. refl)
    node-Settled k z vm other_exception again m c f p n h =
        let (s, e) = known-found k m.stack n in
        rw e (
          h _ MachineStatus.error (moved vm MachineStatus.error _ m p)
            (λ ex. left-set ex _ m.stack))

    pub rounds-Settled :
        (n : ℕ) (ex : List ℕ) (vm : VMachine) (m : Models)
        → left ex m.stack < n
        → IsPending vm m
        → Settled driver vm (rounds driver active gid n none none ex vm m)
    unfolding rounds get_stack best_or_fail fail_if Settled
    rounds-Settled zero ex vm m h p = absurd (omega arith)
    rounds-Settled (suc n) ex vm m h p =
        elim (Result-cases (get_best_provider active gid (some vm.image_id) m ex)) [
          | inr (x, e) ↦ rw e (fail-Settled driver vm x m p)
          | inl (none, e) ↦ rw e (fail-Settled driver vm service_unavailable m p)
          | inl (some (s, u), e) ↦ elim (Result-cases (driver.has_image s.id vm.image_id)) [
            | inr (x, f) ↦ rw (e, f) (left-Settled driver vm x m p (images_raise s.id x f))
            | inl (false, f) ↦ rw (e, f) (fail-Settled driver vm bad_request m p)
            | inl (true, f) ↦ elim (Result-cases (driver.list_sizes s.id)) [
              | inr (x, g) ↦
                  rw (e, f, get_size_lem driver s.id vm m p, g)
                    (left-Settled driver vm x m p (sizes_raise s.id x g))
              | inl (sizes, g) ↦
                  let z = find_size p.sized.size p.sized.disk.size_max none sizes in
                  rw (e, f, get_size_lem driver s.id vm m p, g)
                    (node-Settled s.id z vm (driver.create_node s.id z vm) _ m refl
                      (no_size s.id p.sized.disk.size_max p.sized.size sizes g) p
                      (best_known active gid (some vm.image_id) m ex (s, u) e)
                      λ t st q same.
                        rounds-Settled n (ex ++ s.id ∷ []) (record vm { status = st }) t
                          (left_over s u e t same) q)
            ]
          ]
        ]
      where
        left_over :
            (s : Stack) (u : ℕ)
            → get_best_provider active gid (some vm.image_id) m ex ≡ ok (some (s, u))
            → (t : Models) → ((ex2 : List ℕ) → left ex2 t.stack ≡ left ex2 m.stack)
            → left (ex ++ s.id ∷ []) t.stack < n
        left_over s u e t same =
            let (serving, out, used, least) =
              get_best_provider-least active gid (some vm.image_id) m ex s u e in
            let less =
              left_less s.id ex m.stack (best_known active gid (some vm.image_id) m ex (s, u) e)
                out in
            omega (arith, same (ex ++ s.id ∷ []), less, h)
