-- ===== src/Machines/Calls.antt =====
-- Sequences of calls that create machines, rename them and act on them.
use openvcloud.Prelude.{
  ◌+◌, ℕ, ◌≤◌, ◌<◌, ◌≡◌, refl, Bool, true, false, not, Option, none, some, List, [], ◌∷◌, ◌++◌,
  arith, any, inl, inr, Bool-cases, Option-cases, ◌==◌, ==_iff, ◌∙◌, sym, subst, String,
}
use openvcloud.Prelude.Bools.{and_false_r, and_true, or_false}
use openvcloud.Result.{bind_keeps}
use openvcloud.Models.{Cloudspace, VMachine, Image, Models}
use openvcloud.Models.Table.{get, exists, id-get}
use openvcloud.Models.Unique.{Unique, append-Unique}
use openvcloud.Limits.{is_live}
use openvcloud.Machines.{Hypervisor, Action, vm_id, action, start}
use openvcloud.Machines.Provision.{Driver}
use openvcloud.Machines.Create.{
  MachineOrder, has_name, is_kept, lives_in, max_machines, create, update_machine, rename,
  given_name,
}
use openvcloud.Machines.Validated.{assert_name_cases}
use openvcloud.Machines.Whole.{IsBuilt, create_whole}
use openvcloud.Machines.Names.{distinct, clash, distinct-append, living, living-append}
use openvcloud.Machines.Named.{IsNamed, written-IsNamed, kept-IsNamed}
use openvcloud.Machines.Acted.{target, action-IsNamed, start-IsNamed}
use openvcloud.Disks.{disk_id}

clash-has_name :
    (a : VMachine) (xs : List VMachine)
    → any (has_name a.cloudspace_id a.name) xs ≡ false
    → clash a xs ≡ false
clash-has_name a [] h = refl
clash-has_name a (x ∷ xs) h =
    let (p, q) =
      or_false (has_name a.cloudspace_id a.name x) (any (has_name a.cloudspace_id a.name) xs) h in
    rw (p, and_false_r (not (x.id == a.id))) (clash-has_name a xs q)

rename-IsNamed :
    (k : ℕ) (new : Option String) (vm : VMachine) (m : Models)
    → IsNamed m
    → get vm_id k m.vmachine ≡ some vm
    → IsNamed (rename vm new m).1
unfolding rename
rename-IsNamed k none vm m w g = kept-IsNamed k m vm vm w g refl
rename-IsNamed k (some name) vm m w g = elim (assert_name_cases vm.cloudspace_id name m) [
  | inl (e, q) ↦ rw q w
  | inr (q, free) ↦
      let a : VMachine = record vm { name = name } in
      rw q (
        written-IsNamed m a vm w
          (subst (λ i. get vm_id i m.vmachine ≡ some vm) (sym (id-get vm_id k m.vmachine vm g)) g)
          (rw (clash-has_name a m.vmachine free) (and_false_r (is_live a))) λ c l. l)
]

update_machine-IsNamed :
    (k : ℕ) (new : Option String) (m : Models) → IsNamed m → IsNamed (update_machine k new m).1
unfolding update_machine
update_machine-IsNamed k new m w = elim (Option-cases (get vm_id k m.vmachine)) [
  | inl e ↦ rw e w
  | inr (vm, e) ↦ rw e (
      bind_keeps IsNamed (rename vm (given_name new)) _ m
        (rename-IsNamed k (given_name new) vm m w e) λ x t q p. p)
]

fits :
    (vm : VMachine) (xs : List VMachine) (c : ℕ)
    → living c xs ≤ max_machines
    → living vm.cloudspace_id xs < max_machines
    → living c (xs ++ vm ∷ []) ≤ max_machines
fits vm xs c h space = elim (Bool-cases (lives_in c vm)) [
  | inr e ↦
      let q : living c (xs ++ vm ∷ []) ≡ living c xs + 0 = rw e at (living-append c vm xs) in
      omega (arith, q, h)
  | inl e ↦
      let q : living c (xs ++ vm ∷ []) ≡ living c xs + 1 = rw e at (living-append c vm xs) in
      let own : vm.cloudspace_id ≡ c =
        (==_iff vm.cloudspace_id c).0 (and_true (is_kept vm) (vm.cloudspace_id == c) e).1 in
      let room : living c xs < max_machines = subst (λ d. living d xs < max_machines) own space in
      omega (arith, q, room)
]

same-IsNamed : (m t : Models) → IsNamed m → t.vmachine ≡ m.vmachine → IsNamed t
same-IsNamed m t w same = record {
  own_ids = subst (Unique vm_id) (sym same) w.own_ids;
  names = subst (λ xs. distinct xs ≡ true) (sym same) w.names;
  room = λ c. subst (λ xs. living c xs ≤ max_machines) (sym same) (w.room c);
}

built-IsNamed :
    (k : ℕ) (order : MachineOrder) (m t : Models) (vm : VMachine)
    → IsNamed m
    → IsBuilt k order m vm t
    → IsNamed t
built-IsNamed k order m t vm w b =
    let same : vm.cloudspace_id ≡ b.cloudspace.id =
      b.own_cloudspace
      ∙ sym (id-get (λ (c : Cloudspace). c.id) k m.cloudspace b.cloudspace b.in_store) in
    let free : any (has_name vm.cloudspace_id vm.name) m.vmachine ≡ false =
      subst (λ c. any (has_name c vm.name) m.vmachine ≡ false) (sym same)
        (subst (λ n. any (has_name b.cloudspace.id n) m.vmachine ≡ false) (sym b.own_name)
          b.valid.free_name) in
    let space : living vm.cloudspace_id m.vmachine < max_machines =
      subst (λ c. living c m.vmachine < max_machines) (sym same) b.valid.room in
    record {
      own_ids =
          subst (Unique vm_id) (sym b.machines)
            (append-Unique vm_id vm m.vmachine w.own_ids b.own_id);
      names =
          subst (λ xs. distinct xs ≡ true) (sym b.machines)
            (distinct-append vm m.vmachine w.names (rw free (and_false_r (is_live vm))));
      room = λ c.
          subst (λ xs. living c xs ≤ max_machines) (sym b.machines)
            (fits vm m.vmachine c (w.room c) space);
    }

module _ (images : List Image) (fresh_disk fresh_machine : Models → ℕ)
    (new_disk_id : (t : Models) → exists disk_id (fresh_disk t) t.disk ≡ false)
    (new_vm_id : (t : Models) → exists vm_id (fresh_machine t) t.vmachine ≡ false) (driver : Driver)
    (active : ℕ → ℕ → Bool) where
  create-IsNamed :
      (k : ℕ) (order : MachineOrder) (m : Models)
      → IsNamed m
      → IsNamed (create images fresh_disk fresh_machine driver active k order m).1
  create-IsNamed k order m w =
      elim (create_whole images fresh_disk fresh_machine new_disk_id new_vm_id driver active k order
        m) [
          | inl (e, r, same, d) ↦ same-IsNamed m _ w same
          | inr (vm, b, r) ↦ built-IsNamed k order m _ vm w b
        ]

  -- A call of an operation, whatever it answers.
  pub data Step (hv : Hypervisor) : Models → Models → Type 0 where
    creates :
        (k : ℕ) (order : MachineOrder) (m : Models)
        → Step hv m (create images fresh_disk fresh_machine driver active k order m).1
    updates : (k : ℕ) (new : Option String) (m : Models) → Step hv m (update_machine k new m).1
    starts : (k : ℕ) (m : Models) → Step hv m (start hv active k m).1
    acts : (a : Action) (k : ℕ) (m : Models) → Step hv m (action hv a (target a) k m).1

  -- Any number of calls, one after another.
  pub data Reach (hv : Hypervisor) (a : Models) : Models → Type 0 where
    begin : Reach hv a a
    then_call : {b c : Models} → Reach hv a b → Step hv b c → Reach hv a c

  Step-IsNamed : (hv : Hypervisor) {a b : Models} → Step hv a b → IsNamed a → IsNamed b
  Step-IsNamed hv (creates k order m) w = create-IsNamed k order m w
  Step-IsNamed hv (updates k new m) w = update_machine-IsNamed k new m w
  Step-IsNamed hv (starts k m) w = start-IsNamed hv active k m w
  Step-IsNamed hv (acts a k m) w = action-IsNamed hv a k m w

  -- Through any sequence of calls that create machines, rename, start and act on them, whether they
  -- succeed or raise and whatever the hypervisor answers, where the store gives new objects ids of
  -- their own: no two machines have one id, no two live machines of a cloudspace have one name, and
  -- no cloudspace has more than 250 machines that are not DESTROYED.
  pub Reach-IsNamed : (hv : Hypervisor) {a b : Models} → IsNamed a → Reach hv a b → IsNamed b
  Reach-IsNamed hv w begin = w
  Reach-IsNamed hv w (then_call r st) = Step-IsNamed hv st (Reach-IsNamed hv w r)
