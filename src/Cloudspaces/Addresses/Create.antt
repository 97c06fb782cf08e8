-- ===== src/Cloudspaces/Addresses/Create.antt =====
-- `create` and public addresses.
use openvcloud.Prelude.{
  ℕ, ◌≡◌, refl, false, Option, none, some, List, [], ◌∷◌, ◌++◌, ◌==◌, any, arith, sym, subst, ◌∙◌,
  ap, Option-cases, inl, inr,
}
use openvcloud.Result.{
  ok, Result-cases, ◌>>=◌, bind_keeps, or_raise, raise_if_same, or_raise_same, bad_request,
  python_error,
}
use openvcloud.Models.{Account, Cloudspace, ExternalNetwork, Limits, Models}
use openvcloud.Models.Table.{get}
use openvcloud.Limits.{account_of, fill_resource_limits, validate_available}
use openvcloud.Limits.Change.{list_active_cloudspaces}
use openvcloud.Pools.{get_external_ip_address, get_free_network_id, take_first_id, set_networkids}
use openvcloud.Cloudspaces.{id_of}
use openvcloud.Cloudspaces.Create.{
  Order, new_cloudspace, check_order, give_address, add_cloudspace, create, usable,
}
use openvcloud.Cloudspaces.Owners.{owners_same}
use openvcloud.Cloudspaces.Conserved.{
  IsBalanced, get_external_ip_address-IsBalanced, get_external_ip_address-unowned, set-IsBalanced,
  append-IsBalanced, remove-IsBalanced,
}

check_order_same :
    (location : Option ℕ) (order : Order) (m : Models) → (check_order location order m).1 ≡ m
unfolding check_order account_of list_active_cloudspaces
check_order_same location order m = ground arith

validate_available_same :
    (a : ℕ) (ex : Option ℕ) (req : Limits) (m : Models) → (validate_available a ex req m).1 ≡ m
unfolding validate_available account_of
validate_available_same a ex req m = elim (Option-cases (get (λ (x : Account). x.id) a m.account)) [
  | inl e ↦ rw e refl
  | inr (account, e) ↦ elim (Result-cases (fill_resource_limits false account.resource_limits)) [
    | inl (filled, f) ↦ rw (e, f) (raise_if_same _ bad_request m)
    | inr (x, f) ↦ rw (e, f) refl
  ]
]

get_free_network_id-IsBalanced :
    (gid : ℕ) (m : Models) → IsBalanced m → IsBalanced (get_free_network_id gid m).1
unfolding get_free_network_id take_first_id set_networkids
get_free_network_id-IsBalanced gid m w = ground arith

get-append :
    (c : Cloudspace) (spaces : List Cloudspace)
    → any (λ x. x.id == c.id) spaces ≡ false
    → get id_of c.id (spaces ++ c ∷ []) ≡ some c
get-append c [] h = ground arith
get-append c (x ∷ spaces) h = ground (arith, get-append c spaces)

give_address-IsBalanced :
    (c : Cloudspace) (gid : ℕ) (ext : Option ℕ) (m : Models)
    → IsBalanced m
    → get id_of c.id m.cloudspace ≡ some c
    → IsBalanced ((get_external_ip_address gid ext >>= give_address c) m).1
unfolding give_address
give_address-IsBalanced c gid ext m w g =
    bind_keeps IsBalanced (get_external_ip_address gid ext) (give_address c) m
      (get_external_ip_address-IsBalanced gid ext m w) written
  where
    written :
        (a : Option (ExternalNetwork × ℕ × ℕ)) (t : Models)
        → get_external_ip_address gid ext m ≡ (ok a, t)
        → IsBalanced t
        → IsBalanced (give_address c a t).1
    written none t e b = remove-IsBalanced t c.id b
    written (some (pool, ip, len)) t e b =
        let (unowned, same, v) = get_external_ip_address-unowned gid ext m t pool ip len w e in
        set-IsBalanced t b
          (record c { externalnetwork_id = some pool.id; externalnetworkip = some (ip, len) }) c
          (ap (get id_of c.id) same ∙ g) (λ k a h. inr (owners_same k a pool.id ip t h unowned))

module _ (fresh : Models → ℕ)
    (new : (m : Models) → any (λ (x : Cloudspace). x.id == fresh m) m.cloudspace ≡ false) where
  -- Creating a cloudspace, where the store gives it an id that no other cloudspace has: whether it
  -- succeeds or raises, the public addresses keep one owner at most.
  pub create-IsBalanced :
      (location : Option ℕ) (order : Order) (m : Models)
      → IsBalanced m
      → IsBalanced (create fresh location order m).1
  unfolding create add_cloudspace
  create-IsBalanced location order m w =
      bind_keeps IsBalanced (check_order location order) _ m
        (subst IsBalanced (sym (check_order_same location order m)) w)
        λ (gid, limits) t e b.
          bind_keeps IsBalanced (get_free_network_id gid) _ t
            (get_free_network_id-IsBalanced gid t b)
            λ free u f b2.
              bind_keeps IsBalanced (or_raise (usable free) python_error) _ u
                (subst IsBalanced (sym (or_raise_same (usable free) python_error u)) b2)
                λ networkid v g b3.
                  bind_keeps IsBalanced (validate_available order.account_id none order.maximum) _ v
                    (subst IsBalanced
                      (sym (validate_available_same order.account_id none order.maximum v)) b3)
                    λ _ x h b4.
                      give_address-IsBalanced (new_cloudspace order gid limits networkid (fresh x))
                        gid order.externalnetwork_id
                        (record x {
                          cloudspace =
                              x.cloudspace
                              ++ new_cloudspace order gid limits networkid (fresh x) ∷ [];
                        })
                        (append-IsBalanced x (new_cloudspace order gid limits networkid (fresh x))
                          b4 (new x) (λ k ip. ground arith))
                        (get-append (new_cloudspace order gid limits networkid (fresh x))
                          x.cloudspace (new x))
