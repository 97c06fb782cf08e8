-- ===== src/Machines/Cleanup.antt =====
-- The disks of a new machine: `createModel` adds them to the store, and `cleanup` takes exactly
-- those away.
use openvcloud.Prelude.{
  ℕ, suc, ◌≡◌, refl, true, false, all, arith, List, [], ◌∷◌, ◌++◌, length, ◌∙◌, ap, sym,
}
use mathlib.Core.List.{append-nil, append_assoc}
use openvcloud.Result.{ok}
use openvcloud.Models.{Cloudspace, Disk, Models}
use openvcloud.Models.Table.{exists, delete as remove, delete-append, delete_comm, get-append}
use openvcloud.Machines.Provision.{remove_disks}
use openvcloud.Machines.Create.{store_disk, store_disks}
use openvcloud.Disks.{disk_id, new_disk}

abbrev pub remove_list : List ℕ → List Disk → List Disk
remove_list [] ds = ds
remove_list (k ∷ ks) ds = remove_list ks (remove disk_id k ds)

pub remove_disks-eq :
    (ks : List ℕ) (m : Models) → remove_disks ks m ≡ record m { disk = remove_list ks m.disk }
remove_disks-eq [] m = refl
remove_disks-eq (k ∷ ks) m = remove_disks-eq ks (record m { disk = remove disk_id k m.disk })

remove_list_comm :
    (k : ℕ) (ks : List ℕ) (ds : List Disk)
    → remove_list ks (remove disk_id k ds) ≡ remove disk_id k (remove_list ks ds)
remove_list_comm k [] ds = refl
remove_list_comm k (j ∷ ks) ds =
    ap (remove_list ks) (delete_comm disk_id j k ds) ∙ remove_list_comm k ks (remove disk_id j ds)

-- A disk for each size, under the ids that the store gave.
abbrev pub drives : Cloudspace → List ℕ → List ℕ → List Disk
drives cs (k ∷ ks) (size ∷ sizes) = new_disk cs.account_id cs.gid size k ∷ drives cs ks sizes
drives cs ks sizes = []

-- All of them are in the store then.
pub drives_there :
    (cs : Cloudspace) (ids sizes : List ℕ) (ds : List Disk)
    → length ids ≡ length sizes
    → all (λ k. exists disk_id k (ds ++ drives cs ids sizes)) ids ≡ true
drives_there cs [] sizes ds h = refl
drives_there cs (k ∷ ids) [] ds h = absurd (omega (arith, h))
drives_there cs (k ∷ ids) (size ∷ sizes) ds h =
    let d : Disk = new_disk cs.account_id cs.gid size k in
    let (e, g) = get-append disk_id d ds (drives cs ids sizes) in
    let there : exists disk_id k (ds ++ d ∷ drives cs ids sizes) ≡ true = rw (exists, g) refl in
    let rest : all (λ j. exists disk_id j (ds ++ d ∷ drives cs ids sizes)) ids ≡ true =
      rw append_assoc at (drives_there cs ids sizes (ds ++ d ∷ []) (omega (arith, h))) in
    rw (there, rest) refl

module _ (fresh_disk : Models → ℕ)
    (new : (t : Models) → exists disk_id (fresh_disk t) t.disk ≡ false) (cs : Cloudspace) where
  -- The disks are added behind the others, and removing them gives the store back.
  pub store_disks_lem :
      (sizes : List ℕ) (m : Models)
      → (ids : List ℕ) × (store_disks fresh_disk cs sizes m
          ≡ (ok ids, record m { disk = m.disk ++ drives cs ids sizes }))
        × (remove_list ids (m.disk ++ drives cs ids sizes) ≡ m.disk)
        × (length ids ≡ length sizes)
  unfolding store_disks store_disk
  store_disks_lem [] m = ([], rw append-nil refl, append-nil m.disk, refl)
  store_disks_lem (size ∷ sizes) m =
      let d : Disk = new_disk cs.account_id cs.gid size (fresh_disk m) in
      let m' : Models = record m { disk = m.disk ++ d ∷ [] } in
      let (ids, added, undone, same) = store_disks_lem sizes m' in
      let joined : (m.disk ++ d ∷ []) ++ drives cs ids sizes ≡ m.disk ++ d ∷ drives cs ids sizes =
        append_assoc m.disk (d ∷ []) (drives cs ids sizes) in
      (
        d.id ∷ ids,
        rw (added, joined) refl,
        remove_list_comm d.id ids (m.disk ++ d ∷ drives cs ids sizes)
            ∙ ap (λ ds. remove disk_id d.id (remove_list ids ds)) (sym joined)
            ∙ ap (remove disk_id d.id) undone
            ∙ delete-append disk_id d m.disk (new m),
        ap (λ n. suc n) same,
      )
