-- ===== src/Machines/Status.antt =====
-- What `getProviderAndNode` does to the store: at most it writes the status of the machine.
use openvcloud.Prelude.{
  ℕ, ◌≡◌, refl, Bool, true, false, not, ◌&&◌, Option, none, some, Option-cases, Bool-cases, inl,
  inr, ◌⊎◌,
}
use openvcloud.Prelude.Bools.{and_true, negated}
use openvcloud.Result.{Error, Result, ok, err, Result-cases, python_error}
use openvcloud.Models.{VMachine, MachineStatus, Models}
use openvcloud.Models.Table.{get, set}
use openvcloud.Machines.{
  halted_if_destroyed, Hypervisor, vm_id, out_of_reach, has_provider, same_status, refresh,
  provider_and_node, get_provider_and_node,
}

abbrev pub with_status : MachineStatus → VMachine → VMachine
with_status s vm = record vm { status = s }

abbrev pub written : VMachine → Models → Models
written vm m = record m { vmachine = set vm_id vm m.vmachine }

module _ (hv : Hypervisor) (k : ℕ) (m : Models) where
  Outcome : Type 0
  Outcome = Result (Option Bool × VMachine) × Models

  -- It raises; or it finds the machine, without a node; or with a node that the machine can have, and
  -- then it may write its status.
  pub node_cases :
      ((e : Error) × (get_provider_and_node hv k m ≡ (err e, m)))
      ⊎ ((vm : VMachine) × (get vm_id k m.vmachine ≡ some vm)
          × (get_provider_and_node hv k m ≡ (ok (none, vm), m)))
      ⊎ ((vm : VMachine) × (b : Bool) × (get vm_id k m.vmachine ≡ some vm)
          × (out_of_reach vm ≡ false)
          × ((get_provider_and_node hv k m ≡ (ok (some b, vm), m))
              ⊎ ((s : MachineStatus) × (get_provider_and_node hv k m ≡ (
                ok (some b, with_status (halted_if_destroyed s) vm),
                written (with_status (halted_if_destroyed s) vm) m,
              )))))
  unfolding get_provider_and_node provider_and_node refresh
  node_cases = elim (Option-cases (get vm_id k m.vmachine)) [
    | inl e ↦ inl (python_error, rw e refl)
    | inr (vm, e) ↦ elim (Bool-cases (not (out_of_reach vm) && has_provider vm)) [
      | inr f ↦ inr (inl (vm, e, rw (e, f) refl))
      | inl f ↦ elim (Result-cases (hv.node_details vm.reference_id)) [
        | inr (x, d) ↦ inl (x, rw (e, f, d) refl)
        | inl ((none, b), d) ↦ inr (inr (vm, b, e, near vm f, inl (rw (e, f, d) refl)))
        | inl ((some s, b), d) ↦ elim (Bool-cases (same_status s vm.status)) [
          | inl q ↦ inr (inr (vm, b, e, near vm f, inl (rw (e, f, d, q) refl)))
          | inr q ↦ inr (inr (vm, b, e, near vm f, inr (s, rw (e, f, d, q) refl)))
        ]
      ]
    ]
  ]
    where
      near :
          (vm : VMachine)
          → (not (out_of_reach vm) && has_provider vm) ≡ true
          → out_of_reach vm ≡ false
      near vm f = negated _ (and_true (not (out_of_reach vm)) (has_provider vm) f).0

  -- It raises, or it finds the machine, whose status it may write.
  pub get_provider_and_node_cases :
      ((e : Error) × (get_provider_and_node hv k m ≡ (err e, m)))
      ⊎ ((vm : VMachine) × (h : Option Bool) × (get vm_id k m.vmachine ≡ some vm)
          × ((get_provider_and_node hv k m ≡ (ok (h, vm), m))
              ⊎ ((s : MachineStatus) × (get_provider_and_node hv k m
                    ≡ (ok (h, with_status s vm), written (with_status s vm) m)))))
  get_provider_and_node_cases = elim node_cases [
    | inl (e, q) ↦ inl (e, q)
    | inr (inl (vm, g, q)) ↦ inr (vm, none, g, inl q)
    | inr (inr (vm, b, g, near, inl q)) ↦ inr (vm, some b, g, inl q)
    | inr (inr (vm, b, g, near, inr (s, q))) ↦ inr (vm, some b, g, inr (halted_if_destroyed s, q))
  ]
