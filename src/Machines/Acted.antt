-- ===== src/Machines/Acted.antt =====
-- The actions on machines keep what `IsNamed` says of the store.
use openvcloud.Prelude.{
  ℕ, ◌≡◌, refl, Bool, true, false, not, none, some, [], inl, inr, Bool-cases, Option-cases,
}
use openvcloud.Result.{
  bad_request, conflict, check_keeps, bind_keeps, raise_if, raise_if_same, lift, Result-cases,
}
use openvcloud.Models.{Cloudspace, VMachine, MachineStatus, Models}
use openvcloud.Models.Table.{get}
use openvcloud.Models.Unique.{update-set}
use openvcloud.Scheduling.{get_best_provider}
use openvcloud.Machines.{
  Hypervisor, Action, vm_id, same_status, write_status, action, start, choose_if, choose_provider,
  runs_or_paused,
}
use openvcloud.Machines.Status.{with_status, written}
use openvcloud.Machines.Create.{is_kept}
use openvcloud.Machines.Named.{IsNamed, IsHeld, rewritten-IsHeld, kept-IsNamed, node_named}

-- The statuses that the actions ask for.
abbrev pub target : Action → MachineStatus
target Action.stop_node = MachineStatus.halted
target Action.pause_node = MachineStatus.paused
target _ = MachineStatus.running

target-kept : (a : Action) (vm : VMachine) → is_kept (with_status (target a) vm) ≡ true
target-kept Action.stop_node vm = refl
target-kept Action.pause_node vm = refl
target-kept Action.start_node vm = refl
target-kept Action.soft_reboot vm = refl
target-kept Action.hard_reboot vm = refl
target-kept Action.resume_node vm = refl

write_status-IsNamed :
    (hv : Hypervisor) (a : Action) (vm : VMachine) (t : Models)
    → IsHeld vm t
    → IsNamed (write_status hv vm (target a) t).1
unfolding write_status
write_status-IsNamed hv a vm t h = elim (Bool-cases (same_status (target a) vm.status)) [
  | inl e ↦ rw e h.still
  | inr e ↦
      let step : IsHeld (with_status (target a) vm) (written (with_status (target a) vm) t) =
        rewritten-IsHeld t vm (with_status (target a) vm) h refl refl refl (target-kept a vm) in
      let same =
        update-set vm_id vm.id (λ v. record v { status = target a }) vm t.vmachine h.still.own_ids
          h.here refl in
      rw (e, same) step.still
]

module _ (hv : Hypervisor) where
  pub action-IsNamed :
      (a : Action) (k : ℕ) (m : Models) → IsNamed m → IsNamed (action hv a (target a) k m).1
  unfolding action
  action-IsNamed a k m w = elim (node_named hv k m w) [
    | inl (e, q) ↦ rw q w
    | inr (inl (vm, q)) ↦ rw q (
        check_keeps IsNamed (raise_if (not vm.is_virtual) bad_request) _ m
          (raise_if_same (not vm.is_virtual) bad_request m) w λ x e. w)
    | inr (inr (vm, b, t, q, h)) ↦ rw q (
        check_keeps IsNamed (raise_if (not vm.is_virtual) bad_request) _ t
          (raise_if_same (not vm.is_virtual) bad_request t) h.still
          λ x e.
            check_keeps IsNamed (raise_if b conflict) _ t (raise_if_same b conflict t) h.still
              λ y i.
                check_keeps IsNamed (raise_if (not (hv.supports a)) bad_request) _ t
                  (raise_if_same (not (hv.supports a)) bad_request t) h.still
                  λ z l.
                    bind_keeps IsNamed (write_status hv vm (target a))
                      (λ _. lift (hv.act a vm.reference_id)) t (write_status-IsNamed hv a vm t h)
                      λ v u o p. p)
  ]

  choose_if-IsNamed :
      (active : ℕ → ℕ → Bool) (b : Bool) (k : ℕ) (vm : VMachine) (m : Models)
      → IsNamed m
      → get vm_id k m.vmachine ≡ some vm
      → IsNamed (choose_if hv active b vm m).1
  unfolding choose_if choose_provider
  choose_if-IsNamed active true k vm m w g = w
  choose_if-IsNamed active false k vm m w g =
      elim (Option-cases (get (λ (c : Cloudspace). c.id) vm.cloudspace_id m.cloudspace)) [
        | inl e ↦ rw e w
        | inr (cs, e) ↦
            elim (Result-cases (get_best_provider active cs.gid (some vm.image_id) m [])) [
              | inr (x, q) ↦ rw (e, q) w
              | inl (none, q) ↦ rw (e, q) w
              | inl (some load, q) ↦
                  rw (e, q) (kept-IsNamed k m vm (record vm { stack_id = load.0.id }) w g refl)
            ]
      ]

  pub start-IsNamed :
      (active : ℕ → ℕ → Bool) (k : ℕ) (m : Models) → IsNamed m → IsNamed (start hv active k m).1
  unfolding start
  start-IsNamed active k m w = elim (Option-cases (get vm_id k m.vmachine)) [
    | inl e ↦ rw e w
    | inr (vm, e) ↦ rw e (
        bind_keeps IsNamed (choose_if hv active (runs_or_paused vm) vm) _ m
          (choose_if-IsNamed active (runs_or_paused vm) k vm m w e)
          λ b t q p. action-IsNamed Action.start_node k t p)
  ]
