-- ===== src/Machines/Destroyed.antt =====
-- What `delete` of a machine leaves where it succeeds.
use openvcloud.Prelude.{
  ℕ, ◌≡◌, refl, Bool, true, false, not, ◌&&◌, ◌||◌, Option, some, List, [], ◌∷◌, ◌++◌, ◌==◌,
  ==_refl, any, ap, ◌∙◌, sym, subst, Bool-cases, Option-cases, inl, inr,
}
use openvcloud.Prelude.Bools.{or_false, and_false_r}
use openvcloud.Result.{Result, ok, bind_ok, same_ok, err_not_ok, Exec, bind_keeps}
use openvcloud.Models.{VMachine, Nic, Disk, Models}
use openvcloud.Models.Table.{get, set, id-get}
use openvcloud.Models.Unique.{Unique, set-Unique, get-set}
use openvcloud.Firewall.{Cloud}
use openvcloud.Cloudspaces.Network.{on_models}
use openvcloud.Pools.{release_external_ip_address}
use openvcloud.Machines.{Hypervisor, vm_id, get_provider_and_node}
use openvcloud.Machines.Status.{with_status, written, get_provider_and_node_cases}
use openvcloud.Machines.Create.{is_kept}
use openvcloud.Machines.External.{Netaddr, is_public, release_nic, detach_loop, detach_from_model}
use openvcloud.Machines.Delete.{is_clone_of, destroyed_machine, destroy_machine}

-- The store while the machine `vm` is deleted: it has the disks `ds`.
pub record IsGoing (ds : List Disk) (vm : VMachine) (t : Models) : Type 0 where
  pub own_ids : Unique vm_id t.vmachine
  pub stored : VMachine
  pub here : get vm_id vm.id t.vmachine ≡ some stored
  pub same : is_kept stored ≡ is_kept vm
  pub same_disks : t.disk ≡ ds

with_nics : VMachine → List Nic → VMachine
with_nics vm nics = record vm { nics = nics }

set-IsGoing :
    (ds : List Disk) (vm : VMachine) (nics : List Nic) (t : Models)
    → IsGoing ds vm t
    → IsGoing ds vm (written (record vm { nics = nics }) t)
set-IsGoing ds vm nics t g = record {
  own_ids = set-Unique vm_id (record vm { nics = nics }) t.vmachine g.own_ids;
  stored = record vm { nics = nics };
  here = get-set vm_id (record vm { nics = nics }) g.stored t.vmachine g.here;
  same = refl;
  same_disks = g.same_disks;
}

module _ (net : Netaddr) (ds : List Disk) (vm : VMachine) where
  release_nic-IsGoing :
      (n : Nic) (t : Models) → IsGoing ds vm t → IsGoing ds vm (release_nic net n t).1
  unfolding release_nic release_external_ip_address
  release_nic-IsGoing n t g = elim (Option-cases n.pool_id) [
    | inl e ↦ rw e g
    | inr (k, e) ↦ elim (Option-cases n.ip_address) [
      | inl f ↦ rw (e, f) g
      | inr (ip, f) ↦
          rw (e, f)
            (record {
              own_ids = g.own_ids;
              stored = g.stored;
              here = g.here;
              same = g.same;
              same_disks = g.same_disks;
            })
    ]
  ]

  detach_loop-IsGoing :
      (kept rest : List Nic) (t : Models)
      → IsGoing ds vm t
      → IsGoing ds vm (detach_loop net vm kept rest t).1
  unfolding detach_loop
  detach_loop-IsGoing kept [] t g = g
  detach_loop-IsGoing kept (n ∷ []) t g = elim (Bool-cases (is_public n)) [
    | inr e ↦ rw (detach_loop, e) g
    | inl e ↦
        rw (detach_loop, e)
          (bind_keeps (IsGoing ds vm) (release_nic net n) _ (written (record vm { nics = kept }) t)
            (release_nic-IsGoing n _ (set-IsGoing ds vm kept t g)) λ x u q p. p)
  ]
  detach_loop-IsGoing kept (n ∷ s ∷ rest) t g = elim (Bool-cases (is_public n)) [
    | inr e ↦ rw (detach_loop, e) (detach_loop-IsGoing (kept ++ n ∷ []) (s ∷ rest) t g)
    | inl e ↦
        rw (detach_loop, e)
          (bind_keeps (IsGoing ds vm) (release_nic net n) _
            (written (record vm { nics = kept ++ s ∷ rest }) t)
            (release_nic-IsGoing n _ (set-IsGoing ds vm (kept ++ s ∷ rest) t g))
            λ x u q p. detach_loop-IsGoing (kept ++ s ∷ []) rest u p)
  ]

  with_nics-IsGoing :
      (nics : List Nic) (t : Models) → IsGoing ds vm t → IsGoing ds (with_nics vm nics) t
  unfolding with_nics
  with_nics-IsGoing nics t g = record {
    own_ids = g.own_ids;
    stored = g.stored;
    here = g.here;
    same = g.same;
    same_disks = g.same_disks;
  }

  pub detach_outcome :
      (vm' : VMachine) (t u : Models)
      → IsGoing ds vm t
      → detach_from_model net vm t ≡ (ok vm', u)
      → (vm'.id ≡ vm.id) × (vm'.disks ≡ vm.disks) × IsGoing ds vm' u
  unfolding detach_from_model with_nics
  detach_outcome vm' t u g h =
      let (nics, v, e, f) = bind_ok (detach_loop net vm [] vm.nics) _ t u vm' h in
      let (p, q) = same_ok f in
      let g' = subst (IsGoing ds vm) (ap (λ o. o.1) e ∙ q) (detach_loop-IsGoing [] vm.nics t g) in
      (
        ap (λ (a : VMachine). a.id) (sym p),
        ap (λ (a : VMachine). a.disks) (sym p),
        subst (λ a. IsGoing ds a u) p (with_nics-IsGoing nics u g'),
      )

-- A living clone of the machine `k`, other than itself.
abbrev pub other_clone : ℕ → VMachine → Bool
other_clone k v = not (v.id == k) && is_clone_of k v

other_clone-set :
    (k : ℕ) (a : VMachine) (xs : List VMachine)
    → a.id ≡ k
    → any (other_clone k) (set vm_id a xs) ≡ any (other_clone k) xs
other_clone-set k a [] e = refl
other_clone-set k a (x ∷ xs) e =
    let own : (a.id == k) ≡ true = rw e (==_refl k) in
    elim (Bool-cases (x.id == a.id)) [
      | inl q ↦
          let same : (x.id == k) ≡ true = rw (← e) q in rw (q, own, same) (other_clone-set k a xs e)
      | inr q ↦ rw q (ap (λ b. other_clone k x || b) (other_clone-set k a xs e))
    ]

pub other_clone-any :
    (k : ℕ) (xs : List VMachine) → any (is_clone_of k) xs ≡ false → any (other_clone k) xs ≡ false
other_clone-any k [] h = refl
other_clone-any k (x ∷ xs) h =
    let (p, q) = or_false (is_clone_of k x) (any (is_clone_of k) xs) h in
    rw (p, and_false_r (not (x.id == k))) (other_clone-any k xs q)

-- The machine as `getProviderAndNode` answers it.
pub record IsFoundAs (k : ℕ) (m : Models) (vm : VMachine) (t : Models) : Type 0 where
  pub old : VMachine
  pub was : get vm_id k m.vmachine ≡ some old
  pub same_id : vm.id ≡ k
  pub same_disks : vm.disks ≡ old.disks
  pub same_nics : vm.nics ≡ old.nics
  pub same_pools : t.externalnetwork ≡ m.externalnetwork
  pub going : IsGoing m.disk vm t
  pub clones : any (other_clone k) t.vmachine ≡ any (other_clone k) m.vmachine

module _ (hv : Hypervisor) (k : ℕ) (m : Models) (w : Unique vm_id m.vmachine) where
  pub found_as :
      (h : Option Bool) (vm : VMachine) (t : Models)
      → get_provider_and_node hv k m ≡ (ok (h, vm), t)
      → IsFoundAs k m vm t
  found_as h vm t e = elim (get_provider_and_node_cases hv k m) [
    | inl (x, q) ↦ absurd (err_not_ok (sym q ∙ e))
    | inr (old, b, g, inl q) ↦
        let (p, r) = same_ok (sym q ∙ e) in
        let own : get vm_id old.id m.vmachine ≡ some old =
          subst (λ i. get vm_id i m.vmachine ≡ some old) (sym (id-get vm_id k m.vmachine old g))
            g in
        subst (λ (v : VMachine). IsFoundAs k m v t) (ap (λ (x : Option Bool × VMachine). x.1) p)
          (subst (IsFoundAs k m old) r record {
            old = old;
            was = g;
            same_id = id-get vm_id k m.vmachine old g;
            same_disks = refl;
            same_nics = refl;
            same_pools = refl;
            going = record {
              own_ids = w;
              stored = old;
              here = own;
              same = refl;
              same_disks = refl;
            };
            clones = refl;
          })
    | inr (old, b, g, inr (s, q)) ↦
        let (p, r) = same_ok (sym q ∙ e) in
        let own : get vm_id old.id m.vmachine ≡ some old =
          subst (λ i. get vm_id i m.vmachine ≡ some old) (sym (id-get vm_id k m.vmachine old g))
            g in
        let a : VMachine = with_status s old in
        subst (λ (v : VMachine). IsFoundAs k m v t) (ap (λ (x : Option Bool × VMachine). x.1) p)
          (subst (IsFoundAs k m a) r record {
            old = old;
            was = g;
            same_id = id-get vm_id k m.vmachine old g;
            same_disks = refl;
            same_nics = refl;
            same_pools = refl;
            going = record {
              own_ids = set-Unique vm_id a m.vmachine w;
              stored = a;
              here = get-set vm_id a old m.vmachine own;
              same = refl;
              same_disks = refl;
            };
            clones = other_clone-set k a m.vmachine (id-get vm_id k m.vmachine old g);
          })
  ]

pub on_models_ok :
    {A : Type 0} (m : Exec Models A) (cloud c : Cloud) (a : A)
    → on_models m cloud ≡ (ok a, c)
    → (t : Models) × (m cloud.models ≡ (ok a, t)) × (c ≡ record cloud { models = t })
on_models_ok m cloud c a h = let (p, q) = same_pair h in ((m cloud.models).1, pair p refl, sym q)
  where
    same_pair :
        {B : Type 0} {r s : Result B} {x y : Cloud}
        → (let z : Result B × Cloud = (r, x) in z) ≡ (s, y)
        → (r ≡ s) × (x ≡ y)
    same_pair e = (ap (λ z. z.0) e, ap (λ z. z.1) e)

    pair :
        {B : Type 0} {r s : Result B} {x y : Models}
        → r ≡ s
        → x ≡ y
        → (let z : Result B × Models = (r, x) in z) ≡ (s, y)
    pair p q = cc

pub destroyed_stored :
    (ds : List Disk) (vm : VMachine) (t : Models)
    → IsGoing ds vm t
    → (now : VMachine) × (get vm_id vm.id (destroy_machine vm t).1.vmachine ≡ some now)
      × (is_kept now ≡ false)
      × ((destroy_machine vm t).1.disk ≡ ds)
unfolding destroy_machine
destroyed_stored ds vm t g = elim (Bool-cases (is_kept vm)) [
  | inl e ↦ (
    destroyed_machine vm,
    rw (destroy_machine, e) (get-set vm_id (destroyed_machine vm) g.stored t.vmachine g.here),
    refl,
    rw (destroy_machine, e) g.same_disks,
  )
  | inr e ↦
      (g.stored, rw (destroy_machine, e) g.here, g.same ∙ e, rw (destroy_machine, e) g.same_disks)
]
