-- ===== src/Machines/Named.antt =====
-- The machines of a store with different ids, names that are different within a cloudspace, and room
-- in each cloudspace; what `getProviderAndNode` leaves of it.
use openvcloud.Prelude.{
  ℕ, ◌≤◌, ◌≡◌, refl, Bool, true, false, ◌&&◌, not, ◌||◌, ap, some, none, List, [], ◌∷◌, arith, inl,
  inr, ◌⊎◌, Bool-cases, ◌==◌, ==_refl, ◌∙◌, subst, sym,
}
use openvcloud.Prelude.Bools.{and_false_r, and_true}
use openvcloud.Result.{Error, ok, err}
use openvcloud.Models.{VMachine, MachineStatus, Models}
use openvcloud.Models.Table.{get, set, id-get}
use openvcloud.Models.Unique.{Unique, set-Unique, get-set}
use openvcloud.Limits.{is_live}
use openvcloud.Machines.{
  Hypervisor, vm_id, out_of_reach, halted_if_destroyed, get_provider_and_node,
}
use openvcloud.Machines.Status.{with_status, written, node_cases}
use openvcloud.Machines.Create.{has_name, is_kept, lives_in, max_machines}
use openvcloud.Machines.Names.{distinct, clash, distinct-set, clash-own, living, living-set}

pub record IsNamed (m : Models) : Type 0 where
  pub own_ids : Unique vm_id m.vmachine
  pub names : distinct m.vmachine ≡ true
  pub room : (c : ℕ) → living c m.vmachine ≤ max_machines

pub written-IsNamed :
    (m : Models) (a old : VMachine)
    → IsNamed m
    → get vm_id a.id m.vmachine ≡ some old
    → (is_live a && clash a m.vmachine) ≡ false
    → ((c : ℕ) → lives_in c a ≡ true → lives_in c old ≡ true)
    → IsNamed (written a m)
written-IsNamed m a old w g free lives = record {
  own_ids = set-Unique vm_id a m.vmachine w.own_ids;
  names = distinct-set a m.vmachine w.own_ids w.names free;
  room = λ c. omega (arith, w.room c, living-set c a old m.vmachine w.own_ids g (lives c));
}

-- The machine as it was found or refreshed, with a node.
pub record IsHeld (vm : VMachine) (t : Models) : Type 0 where
  pub still : IsNamed t
  pub here : get vm_id vm.id t.vmachine ≡ some vm
  pub free : clash vm t.vmachine ≡ false
  pub kept : is_kept vm ≡ true

clash-set :
    (a b : VMachine) (xs : List VMachine) → a.id ≡ b.id → clash a (set vm_id b xs) ≡ clash a xs
clash-set a b [] e = refl
clash-set a b (x ∷ xs) e =
    let own : (b.id == a.id) ≡ true = rw e (==_refl b.id) in
    elim (Bool-cases (x.id == b.id)) [
      | inl q ↦ let same : (x.id == a.id) ≡ true = rw e q in rw (q, same, own) (clash-set a b xs e)
      | inr q ↦ rw q (
          ap (λ c. not (x.id == a.id) && has_name a.cloudspace_id a.name x || c)
            (clash-set a b xs e))
    ]

near_lives : (vm : VMachine) → out_of_reach vm ≡ false → (is_live vm ≡ true) × (is_kept vm ≡ true)
near_lives vm h = ground arith

own-clash :
    (vm : VMachine) (m : Models)
    → IsNamed m
    → get vm_id vm.id m.vmachine ≡ some vm
    → is_live vm ≡ true
    → clash vm m.vmachine ≡ false
own-clash vm m w g l =
    let q : (is_live vm && clash vm m.vmachine) ≡ false =
      clash-own vm m.vmachine w.own_ids w.names g in
    rw l at q

-- A machine that is held is written with another status or stack.
pub rewritten-IsHeld :
    (m : Models) (vm a : VMachine)
    → IsHeld vm m
    → a.id ≡ vm.id
    → a.name ≡ vm.name
    → a.cloudspace_id ≡ vm.cloudspace_id
    → is_kept a ≡ true
    → IsHeld a (written a m)
rewritten-IsHeld m vm a h i n c l =
    let found : get vm_id a.id m.vmachine ≡ some vm = rw i h.here in
    let free : clash a m.vmachine ≡ false = rw (i, n, c) h.free in
    record {
      still =
          written-IsNamed m a vm h.still found (rw free (and_false_r (is_live a)))
            λ d e. rw (h.kept, ← c) (and_true (is_kept a) (a.cloudspace_id == d) e).1;
      here = get-set vm_id a vm m.vmachine found;
      free = clash-set a a m.vmachine refl ∙ free;
      kept = l;
    }

pub found-IsHeld :
    (k : ℕ) (m : Models) (vm : VMachine)
    → IsNamed m
    → get vm_id k m.vmachine ≡ some vm
    → out_of_reach vm ≡ false
    → IsHeld vm m
found-IsHeld k m vm w g near =
    let own : get vm_id vm.id m.vmachine ≡ some vm =
      subst (λ i. get vm_id i m.vmachine ≡ some vm) (sym (id-get vm_id k m.vmachine vm g)) g in
    record {
      still = w;
      here = own;
      free = own-clash vm m w own (near_lives vm near).0;
      kept = (near_lives vm near).1;
    }

halted-kept :
    (s : MachineStatus) (vm : VMachine) → is_kept (with_status (halted_if_destroyed s) vm) ≡ true
halted-kept MachineStatus.running vm = refl
halted-kept MachineStatus.halted vm = refl
halted-kept MachineStatus.paused vm = refl
halted-kept MachineStatus.error vm = refl
halted-kept MachineStatus.destroying vm = refl
halted-kept MachineStatus.destroyed vm = refl
halted-kept MachineStatus.unset vm = refl

-- `getProviderAndNode` raises, finds no node, or the machine is held.
module _ (hv : Hypervisor) (k : ℕ) (m : Models) (w : IsNamed m) where
  pub node_named :
      ((e : Error) × (get_provider_and_node hv k m ≡ (err e, m)))
      ⊎ ((vm : VMachine) × (get_provider_and_node hv k m ≡ (ok (none, vm), m)))
      ⊎ ((vm : VMachine) × (b : Bool) × (t : Models) × (get_provider_and_node hv k m
            ≡ (ok (some b, vm), t))
          × IsHeld vm t)
  node_named = elim (node_cases hv k m) [
    | inl (e, q) ↦ inl (e, q)
    | inr (inl (vm, g, q)) ↦ inr (inl (vm, q))
    | inr (inr (vm, b, g, near, inl q)) ↦ inr (inr (vm, b, m, q, found-IsHeld k m vm w g near))
    | inr (inr (vm, b, g, near, inr (s, q))) ↦
        let a : VMachine = with_status (halted_if_destroyed s) vm in
        inr (
          inr (
            a,
            b,
            written a m,
            q,
            rewritten-IsHeld m vm a (found-IsHeld k m vm w g near) refl refl refl
                (halted-kept s vm),
          ))
  ]

-- A machine is written with the name, the cloudspace and the status that it has.
pub kept-IsNamed :
    (k : ℕ) (m : Models) (vm a : VMachine)
    → IsNamed m
    → get vm_id k m.vmachine ≡ some vm
    → a ≡ record vm { stack_id = a.stack_id }
    → IsNamed (written a m)
kept-IsNamed k m vm a w g e =
    let own : get vm_id vm.id m.vmachine ≡ some vm =
      subst (λ i. get vm_id i m.vmachine ≡ some vm) (sym (id-get vm_id k m.vmachine vm g)) g in
    subst (λ b. IsNamed (written b m)) (sym e)
      (written-IsNamed m (record vm { stack_id = a.stack_id }) vm w own
        (clash-own vm m.vmachine w.own_ids w.names own) λ c l. l)
