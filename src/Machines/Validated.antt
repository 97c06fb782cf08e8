-- ===== src/Machines/Validated.antt =====
-- The validation of a new machine writes nothing, and what holds where it passes.
use openvcloud.Prelude.{
  ℕ, ◌≡◌, refl, ◌<◌, Bool, true, false, not, List, arith, ◌==◌, leb, ltb, any, mem, length, filter,
  inl, inr, ◌⊎◌, String, Bool-cases, Option-cases,
}
use openvcloud.Result.{
  Error, Result, ok, err, bad_request, conflict, python_error, after_raise_if, after_or_raise,
  ◌>>=◌, ◌>>◌, raise_if,
}
use openvcloud.Models.{Cloudspace, Size, Image, Models}
use openvcloud.Models.Table.{get}
use openvcloud.Machines.Create.{
  MachineOrder, has_name, is_blank, is_destroyed, get_size, sizes_of, assert_name, list_sizes,
  lives_in, max_machines, max_datadisk, validate_create,
}

-- What the validation of an order finds in the store.
pub record IsValid (cs : Cloudspace) (order : MachineOrder) (m : Models) : Type 0 where
  pub free_name : any (has_name cs.id order.name) m.vmachine ≡ false
  pub room : length (filter (lives_in cs.id) m.vmachine) < max_machines

pub assert_name_cases :
    (k : ℕ) (name : String) (m : Models)
    → ((e : Error) × (assert_name k name m ≡ (err e, m)))
      ⊎ ((assert_name k name m ≡ (ok tt, m)) × (any (has_name k name) m.vmachine ≡ false))
unfolding assert_name
assert_name_cases k name m = elim (Bool-cases (is_blank name)) [
  | inl b ↦ inl (python_error, rw b refl)
  | inr b ↦ elim (Bool-cases (any (has_name k name) m.vmachine)) [
    | inl h ↦ inl (conflict, rw (b, h) refl)
    | inr h ↦ inr (rw (b, h) refl, h)
  ]
]

list_sizes_cases :
    (k : ℕ) (m : Models)
    → ((e : Error) × (list_sizes k m ≡ (err e, m)))
      ⊎ ((sizes : List Size) × (list_sizes k m ≡ (ok sizes, m)))
unfolding list_sizes
list_sizes_cases k m = elim (Option-cases (get (λ (c : Cloudspace). c.id) k m.cloudspace)) [
  | inl e ↦ inl (python_error, rw e refl)
  | inr (c, e) ↦ inr (sizes_of c m, rw e refl)
]

module _ (images : List Image) (cs : Cloudspace) (order : MachineOrder) (m : Models) where
  unfoldable pub Validated : Result (Unit {0}) × Models → Type 0
  Validated o = ((e : Error) × (o ≡ (err e, m))) ⊎ ((o ≡ (ok tt, m)) × IsValid cs order m)

  stop : (e : Error) → Validated (err e, m)
  unfolding Validated
  stop e = inl (e, refl)

  last : (b : Bool) → IsValid cs order m → Validated (raise_if b bad_request m)
  unfolding Validated
  last true v = inl (bad_request, refl)
  last false v = inr (refl, v)

  last_size :
      IsValid cs order m
      → Validated (
          (get_size order.size_id >>= λ size.
          raise_if (not (mem order.disksize size.disks)) bad_request)
            m)
  last_size v =
      after_or_raise Validated m stop (get (λ (s : Size). s.id) order.size_id m.size) python_error
        (λ size. raise_if (not (mem order.disksize size.disks)) bad_request)
        λ size g. last (not (mem order.disksize size.disks)) v

  sized :
      IsValid cs order m
      → Validated (
          (list_sizes cs.id >>= λ sizes.
          raise_if (not (any (λ (s : Size). s.id == order.size_id) sizes)) bad_request
          >> (get_size order.size_id >>= λ size.
              raise_if (not (mem order.disksize size.disks)) bad_request))
            m)
  sized v = elim (list_sizes_cases cs.id m) [
    | inl (e, q) ↦ rw q (stop e)
    | inr (sizes, q) ↦ rw q (
        after_raise_if Validated m stop (not (any (λ (s : Size). s.id == order.size_id) sizes))
          bad_request
          (λ _. get_size order.size_id >>= λ size.
            raise_if (not (mem order.disksize size.disks)) bad_request)
          λ a. last_size v)
  ]

  pub validate_create_cases : Validated (validate_create images cs order m)
  unfolding validate_create
  validate_create_cases = elim (assert_name_cases cs.id order.name m) [
    | inl (e, q) ↦ rw q (stop e)
    | inr (q, free) ↦ rw q (
        after_raise_if Validated m stop (order.disksize == 0) bad_request _ λ a.
          after_raise_if Validated m stop (any (λ size. ltb max_datadisk size) order.datadisks)
            bad_request _
            λ b. after_raise_if Validated m stop (is_destroyed cs) bad_request _ λ c.
              after_or_raise Validated m stop (get (λ (i : Image). i.id) order.image_id images)
                python_error _
                λ image g.
                  after_raise_if Validated m stop (ltb order.disksize image.size) bad_request _ λ d.
                    after_raise_if Validated m stop (not image.is_created) bad_request _ λ f.
                      after_raise_if Validated m stop
                        (leb max_machines (length (filter (lives_in cs.id) m.vmachine))) bad_request
                        _ λ h. sized (record { free_name = free; room = ground arith }))
  ]
