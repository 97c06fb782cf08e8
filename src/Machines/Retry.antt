-- ===== src/Machines/Retry.antt =====
-- The loop of `Machine.create` ends: each round without a node rules out one more stack.
use openvcloud.Prelude.{
  ℕ, zero, suc, ◌<◌, ◌≡◌, refl, Bool, true, false, Option, none, some, List, [], ◌∷◌, ◌++◌, arith,
  length, Option-cases, inl, inr, ◌⊎◌, ◌∙◌, ap,
}
use openvcloud.Result.{
  Error, Exec, ◌>>◌, pure, Result, ok, err, Result-cases, bad_request, service_unavailable,
  python_error,
}
use openvcloud.Models.{VMachine, Stack, Size, Models}
use openvcloud.Models.Table.{get}
use openvcloud.Scheduling.{stack_id_of, get_best_provider, mark_provider, clear_provider}
use openvcloud.Scheduling.Best.{get_best_provider-least}
use openvcloud.Machines.Provision.{
  Driver, Attempt, made, minus_one, storage_exception, other_exception, fail, fail_if, NodeSize,
  first_disk, find_size, get_size, update_machine_from_node, best_or_fail, get_stack, after_node,
  next_round, rounds,
}
use openvcloud.Disks.{disk_id}
use openvcloud.Machines.Candidates.{left, left_less, all_left, left-set, best_known}

-- The id of the machine, or an exception.
Ended : VMachine → Result (Option ℕ) × Models → Type 0
Ended vm o = ((e : Error) × (o.0 ≡ err e)) ⊎ (o.0 ≡ ok (some vm.id))

get_size_cases :
    (driver : Driver) (k : ℕ) (vm : VMachine) (m : Models)
    → ((e : Error) × (get_size driver k vm m ≡ (err e, m)))
      ⊎ ((s : Option NodeSize) × (get_size driver k vm m ≡ (ok s, m)))
unfolding get_size
get_size_cases driver k vm m = elim (Option-cases (get (λ (s : Size). s.id) vm.size_id m.size)) [
  | inl e ↦ inl (python_error, rw e refl)
  | inr (s, e) ↦ elim (Option-cases (first_disk vm.disks)) [
    | inl f ↦ inl (python_error, rw (e, f) refl)
    | inr (d, f) ↦ elim (Option-cases (get disk_id d m.disk)) [
      | inl g ↦ inl (python_error, rw (e, f, g) refl)
      | inr (b, g) ↦ elim (Result-cases (driver.list_sizes k)) [
        | inr (x, q) ↦ inl (x, rw (e, f, g, q) refl)
        | inl (sizes, q) ↦ inr (find_size s b.size_max none sizes, rw (e, f, g, q) refl)
      ]
    ]
  ]
]

node_done :
    (vm : VMachine) (x : Exec Models (Unit {0})) (m : Models)
    → Ended vm ((x >> pure (some vm.id)) m)
unfolding Ended
node_done vm x m = elim (Result-cases (x m).0) [
  | inl (y, e) ↦ inr (rw e refl)
  | inr (a, e) ↦ inl (a, rw e refl)
]

module _ (driver : Driver) (active : ℕ → ℕ → Bool) (gid : ℕ) where
  node-Ended :
      (k : ℕ) (size : Option NodeSize) (vm : VMachine) (a : Attempt)
      (again : VMachine → Models → Result (Option ℕ) × Models) (m : Models)
      → ((v : VMachine) (t : Models)
          → v.id ≡ vm.id
          → ((ex : List ℕ) → left ex t.stack ≡ left ex m.stack)
          → Ended vm (again v t))
      → Ended vm (after_node driver active gid none k size vm a again m)
  unfolding after_node fail next_round clear_provider mark_provider Ended
  node-Ended k size vm (made r volumes) again m h =
      elim (Option-cases (get stack_id_of k m.stack)) [
        | inl e ↦ inl (python_error, rw e refl)
        | inr (s, e) ↦ rw e (node_done vm (update_machine_from_node vm r volumes k size) _)
      ]
  node-Ended k size vm storage_exception again m h = inl (service_unavailable, refl)
  node-Ended k size vm minus_one again m h = h vm m refl (λ ex. refl)
  node-Ended k size vm other_exception again m h = elim (Option-cases (get stack_id_of k m.stack)) [
    | inl e ↦ inl (python_error, rw e refl)
    | inr (s, e) ↦ rw e (h _ _ refl (λ ex. left-set ex _ m.stack))
  ]

  -- Rounds enough for the stacks that are not ruled out.
  rounds-Ended :
      (n : ℕ) (ex : List ℕ) (vm : VMachine) (m : Models)
      → left ex m.stack < n
      → Ended vm (rounds driver active gid n none none ex vm m)
  unfolding rounds get_stack best_or_fail fail_if fail Ended
  rounds-Ended zero ex vm m h = absurd (omega arith)
  rounds-Ended (suc n) ex vm m h =
      elim (Result-cases (get_best_provider active gid (some vm.image_id) m ex)) [
        | inr (x, e) ↦ inl (x, rw e refl)
        | inl (none, e) ↦ inl (service_unavailable, rw e refl)
        | inl (some (s, u), e) ↦ elim (Result-cases (driver.has_image s.id vm.image_id)) [
          | inr (x, f) ↦ inl (x, rw (e, f) refl)
          | inl (false, f) ↦ inl (bad_request, rw (e, f) refl)
          | inl (true, f) ↦ elim (get_size_cases driver s.id vm m) [
            | inl (x, c) ↦ inl (x, rw (e, f, c) refl)
            | inr (z, c) ↦
                rw (e, f, c)
                  (node-Ended s.id z vm (driver.create_node s.id z vm) _ m λ v t i same.
                    elim (rounds-Ended n (ex ++ s.id ∷ []) v t (fewer s u e t same)) [
                      | inl x ↦ inl x
                      | inr q ↦ inr (q ∙ ap (λ j. ok (some j)) i)
                    ])
          ]
        ]
      ]
    where
      fewer :
          (s : Stack) (u : ℕ)
          → get_best_provider active gid (some vm.image_id) m ex ≡ ok (some (s, u))
          → (t : Models) → ((ex2 : List ℕ) → left ex2 t.stack ≡ left ex2 m.stack)
          → left (ex ++ s.id ∷ []) t.stack < n
      fewer s u e t same =
          let (serving, out, used, least) =
            get_best_provider-least active gid (some vm.image_id) m ex s u e in
          let less =
            left_less s.id ex m.stack (best_known active gid (some vm.image_id) m ex (s, u) e)
              out in
          omega (arith, same (ex ++ s.id ∷ []), less, h)

  -- The creation of a machine, without a given stack, ends within one round more than there are
  -- stacks: it answers the id of the machine or raises.
  pub create_ends :
      (vm : VMachine) (m : Models)
      → ((e : Error) × ((rounds driver active gid (suc (length m.stack)) none none [] vm m).0
            ≡ err e))
        ⊎ ((rounds driver active gid (suc (length m.stack)) none none [] vm m).0 ≡ ok (some vm.id))
  unfolding Ended
  create_ends vm m = rounds-Ended (suc (length m.stack)) [] vm m (omega (arith, all_left m.stack))
