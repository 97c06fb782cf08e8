-- ===== src/Disks/Owners.antt =====
-- To how many machines a disk is attached, and what a write to a machine makes of it.
use openvcloud.Prelude.{
  ℕ, suc, ◌+◌, ◌≤◌, ◌≡◌, refl, Bool, true, false, none, some, List, [], ◌∷◌, ◌++◌, arith, ◌==◌,
  ==_iff, all, sum, mem, leb, length, if◌then◌else◌, Bool-cases, inl, inr, ap, subst, find?,
}
use openvcloud.Models.{VMachine, Models}
use openvcloud.Models.Table.{get, set, exists}
use openvcloud.Models.Unique.{Unique, set-Unique, sum-set}
use openvcloud.Machines.{vm_id}
use openvcloud.Machines.Status.{written}
use openvcloud.Disks.{disk_id, remove_first, max_disks}

abbrev pub bit : Bool → ℕ
bit b = if b then 1 else 0

abbrev pub count : ℕ → List ℕ → ℕ
count k = sum (λ x. bit (k == x))

abbrev pub attached : ℕ → List VMachine → ℕ
attached k = sum (λ vm. count k vm.disks)

abbrev pub fits : VMachine → Bool
fits vm = leb (length vm.disks) max_disks

pub count-mem : (k : ℕ) (xs : List ℕ) → mem k xs ≡ true → 1 ≤ count k xs
count-mem k [] h = absurd (ground arith)
count-mem k (x ∷ xs) h = ground (arith, count-mem k xs)

pub count_absent : (k : ℕ) (xs : List ℕ) → mem k xs ≡ false → count k xs ≡ 0
count_absent k [] h = refl
count_absent k (x ∷ xs) h = ground (arith, count_absent k xs)

pub count-remove_first :
    (j k : ℕ) (xs : List ℕ)
    → mem k xs ≡ true
    → count j (remove_first k xs) + bit (j == k) ≡ count j xs
unfolding remove_first
count-remove_first j k [] h = absurd (ground arith)
count-remove_first j k (x ∷ xs) h = elim (Bool-cases (x == k)) [
  | inl e ↦ rw e (rw ((==_iff x k).0 e) (omega arith))
  | inr e ↦ rw e (omega (arith, count-remove_first j k xs (ground arith)))
]

pub count-append : (j k : ℕ) (xs : List ℕ) → count j (xs ++ k ∷ []) ≡ count j xs + bit (j == k)
count-append j k [] = ground arith
count-append j k (x ∷ xs) = ground (arith, count-append j k xs)

pub length-remove_first : (k : ℕ) (xs : List ℕ) → length (remove_first k xs) ≤ length xs
unfolding remove_first
length-remove_first k [] = omega arith
length-remove_first k (x ∷ xs) = ground (arith, length-remove_first k xs)

pub length-append : (k : ℕ) (xs : List ℕ) → length (xs ++ k ∷ []) ≡ suc (length xs)
length-append k [] = refl
length-append k (x ∷ xs) = ap suc (length-append k xs)

-- No two machines have one id, no disk is attached twice, no machine has more disks than it may, and
-- a disk that is attached is in the store.
pub record IsAttached (m : Models) : Type 0 where
  pub machines_unique : Unique vm_id m.vmachine
  pub one_machine : (k : ℕ) → attached k m.vmachine ≤ 1
  pub all_fit : all fits m.vmachine ≡ true
  pub known : (k : ℕ) → exists disk_id k m.disk ≡ false → attached k m.vmachine ≡ 0

all-set :
    (vm : VMachine) (vms : List VMachine)
    → fits vm ≡ true
    → all fits vms ≡ true
    → all fits (set vm_id vm vms) ≡ true
all-set vm [] f h = h
all-set vm (x ∷ vms) f h = ground (arith, all-set vm vms f)

pub get-fits :
    (k : ℕ) (vm : VMachine) (vms : List VMachine)
    → get vm_id k vms ≡ some vm
    → all fits vms ≡ true
    → fits vm ≡ true
get-fits k vm [] g h = absurd (ground arith)
get-fits k vm (x ∷ vms) g h = elim (Bool-cases (x.id == k)) [
  | inl e ↦ subst (λ v. fits v ≡ true) (some_eq (rw e at g)) (ground arith)
  | inr e ↦ get-fits k vm vms (rw e at g) (ground arith)
]
  where
    some_eq : {a b : VMachine} → some a ≡ some b → a ≡ b
    some_eq q = cc

pub attached_absent :
    (k : ℕ) (vms : List VMachine) → find? (λ vm. mem k vm.disks) vms ≡ none → attached k vms ≡ 0
attached_absent k [] h = refl
attached_absent k (x ∷ vms) h = ground (arith, count_absent k x.disks, attached_absent k vms)

-- A machine may be written if each of its disks was its own or on no machine, and is in the store.
pub written-IsAttached :
    (m : Models) (vm old : VMachine)
    → IsAttached m
    → get vm_id vm.id m.vmachine ≡ some old
    → fits vm ≡ true
    → ((k : ℕ) → attached k m.vmachine + count k vm.disks ≤ 1 + count k old.disks)
    → ((k : ℕ) → exists disk_id k m.disk ≡ false → count k vm.disks ≤ count k old.disks)
    → IsAttached (written vm m)
written-IsAttached m vm old w g f one known = record {
  machines_unique = set-Unique vm_id vm m.vmachine w.machines_unique;
  one_machine = λ k.
      omega
        (arith, sum-set vm_id (λ v. count k v.disks) vm old m.vmachine w.machines_unique g, one k);
  all_fit = all-set vm m.vmachine f w.all_fit;
  known = λ k e. omega (
    arith,
    sum-set vm_id (λ v. count k v.disks) vm old m.vmachine w.machines_unique g,
    known k e,
    w.known k e,
  );
}
