-- ===== src/Machines/Outcome.antt =====
-- What an action on a machine leaves.
use openvcloud.Prelude.{
  ℕ, ◌≡◌, refl, Bool, true, false, not, ◌&&◌, Option, none, some, arith, Bool-cases, inl, inr, ◌∙◌,
  ap, sym, subst,
}
use openvcloud.Result.{Result, ok}
use openvcloud.Models.{VMachine, MachineStatus, Models}
use openvcloud.Models.Table.{get, set, update, id-get, get-update}
use openvcloud.Machines.{
  Hypervisor, Action, vm_id, out_of_reach, has_provider, same_status, refresh, provider_and_node,
  get_provider_and_node, write_status, action, halted_if_destroyed,
}
use openvcloud.Machines.Status.{with_status, written}
use openvcloud.Models.Unique.{get-set}

same_status-eq : (a b : MachineStatus) → same_status a b ≡ true → a ≡ b
same_status-eq a b h = ground arith

-- The machine and the store once the node has told its status.
record IsRefreshed (hv : Hypervisor) (k : ℕ) (m : Models) (vm : VMachine) : Type 0 where
  now : VMachine
  store : Models
  answer : get_provider_and_node hv k m ≡ (ok (some false, now), store)
  here : get vm_id k store.vmachine ≡ some now
  status : MachineStatus
  same : now ≡ with_status status vm

module _ (hv : Hypervisor) (a : Action) (s : MachineStatus) (k : ℕ) where
  -- What the action writes to a machine that is there.
  stored :
      (v : VMachine) (t : Models)
      → get vm_id k t.vmachine ≡ some v
      → get vm_id k (write_status hv v s t).1.vmachine ≡ some (with_status s v)
  unfolding write_status
  stored v t g = elim (Bool-cases (same_status s v.status)) [
    | inl e ↦ rw e (g ∙ ap (λ st. some (with_status st v)) (sym (same_status-eq s v.status e)))
    | inr e ↦ rw e (get_own (id-get vm_id k t.vmachine v g))
  ]
    where
      get_own :
          v.id ≡ k
          → get vm_id k (update vm_id v.id (with_status s) t.vmachine) ≡ some (with_status s v)
      get_own i =
          subst
            (λ j. get vm_id k (update vm_id j (with_status s) t.vmachine) ≡ some (with_status s v))
            (sym i) (get-update vm_id k (with_status s) t.vmachine v (λ b. refl) g)

  module _ (m : Models) (vm : VMachine) (told : Option MachineStatus)
      (g : get vm_id k m.vmachine ≡ some vm)
      (near : (not (out_of_reach vm) && has_provider vm) ≡ true) (virtual : vm.is_virtual ≡ true)
      (details : hv.node_details vm.reference_id ≡ ok (told, false))
      (known : hv.supports a ≡ true) where
    refreshed :
        (o : Option MachineStatus)
        → hv.node_details vm.reference_id ≡ ok (o, false)
        → IsRefreshed hv k m vm
    unfolding get_provider_and_node provider_and_node refresh
    refreshed none d = record {
      now = vm;
      store = m;
      answer = rw (g, near, d) refl;
      here = g;
      status = vm.status;
      same = refl;
    }
    refreshed (some st) d = elim (Bool-cases (same_status st vm.status)) [
      | inl e ↦ record {
        now = vm;
        store = m;
        answer = rw (g, near, d, e) refl;
        here = g;
        status = vm.status;
        same = refl;
      }
      | inr e ↦
          let v = with_status (halted_if_destroyed st) vm in
          let i = id-get vm_id k m.vmachine vm g in
          record {
            now = v;
            store = written v m;
            answer = rw (g, near, d, e) refl;
            here =
                subst (λ j. get vm_id j (set vm_id v m.vmachine) ≡ some v) i
                  (get-set vm_id v vm m.vmachine
                    (subst (λ j. get vm_id j m.vmachine ≡ some vm) (sym i) g));
            status = halted_if_destroyed st;
            same = refl;
          }
    ]

    reached :
        (f : IsRefreshed hv k m vm)
        → action hv a s k m ≡ (hv.act a vm.reference_id, (write_status hv f.now s f.store).1)
    unfolding action write_status
    reached f =
        let virtual_now : f.now.is_virtual ≡ true =
          ap (λ (v : VMachine). v.is_virtual) f.same ∙ virtual in
        let same_ref : f.now.reference_id ≡ vm.reference_id =
          ap (λ (v : VMachine). v.reference_id) f.same in
        elim (Bool-cases (same_status s f.now.status)) [
          | inl e ↦ rw (f.answer, virtual_now, known, e, same_ref) refl
          | inr e ↦ rw (f.answer, virtual_now, known, e, same_ref) refl
        ]

    -- An action that comes to the hypervisor, on a VIRTUAL machine that is not locked, answers what the
    -- hypervisor answers, and the machine has the new status also where that is an error. The node
    -- may have told any status before, or none that is known.
    pub action_written :
        ((action hv a s k m).0 ≡ hv.act a vm.reference_id)
        × (get vm_id k (action hv a s k m).1.vmachine ≡ some (with_status s vm))
    action_written =
        let f = refreshed told details in
        (
          ap (λ o. o.0) (reached f),
          ap (λ (o : Result Bool × Models). get vm_id k o.1.vmachine) (reached f)
              ∙ stored f.now f.store f.here
              ∙ ap (λ v. some (with_status s v)) f.same,
        )
