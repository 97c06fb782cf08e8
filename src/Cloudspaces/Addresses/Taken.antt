-- ===== src/Cloudspaces/Addresses/Taken.antt =====
-- The address that `deploy` takes or finds.
use openvcloud.Prelude.{
  ℕ, Option-cases, ◌≡◌, refl, true, Option, none, some, ==_refl, ==_iff, arith, sym, subst, ◌∙◌, ap,
  inl, inr,
}
use openvcloud.Result.{
  ok, python_error, Exec, ◌>>=◌, ◌>>◌, pure, bind_keeps, or_raise, or_raise_same, same_ok,
  err_not_ok, bind_ok, or_raise_ok,
}
use openvcloud.Models.{Cloudspace, ExternalNetwork, Models}
use openvcloud.Models.Table.{get, id-get, get-update}
use openvcloud.Pools.{get_external_ip_address, pool_id, wanted}
use openvcloud.Cloudspaces.{id_of, address_of, get_pool, update_space}
use openvcloud.Cloudspaces.Owners.{holds, owners, owners_same}
use openvcloud.Cloudspaces.Ids.{update-eq-set}
use openvcloud.Cloudspaces.Conserved.{
  IsBalanced, get_external_ip_address-IsBalanced, get_external_ip_address-unowned, set-IsBalanced,
}

pub get_pool_found :
    (ext : Option ℕ) (m t : Models) (pool : ExternalNetwork)
    → get_pool ext m ≡ (ok pool, t)
    → (ext ≡ some pool.id) × (m ≡ t)
get_pool_found none m t pool h = absurd (err_not_ok h)
get_pool_found (some k) m t pool h =
    let (g, same) = or_raise_ok (get pool_id k m.externalnetwork) python_error m t pool h in
    (ap some (sym (id-get pool_id k m.externalnetwork pool g)), same)

pub get_pool_same : (ext : Option ℕ) (m : Models) → (get_pool ext m).1 ≡ m
get_pool_same none m = refl
get_pool_same (some k) m = or_raise_same (get pool_id k m.externalnetwork) python_error m

abbrev with_address : ℕ → ℕ → Cloudspace → Cloudspace
with_address ip len c = record c { externalnetworkip = some (ip, len) }

abbrev write_address :
    Cloudspace → Option (ExternalNetwork × ℕ × ℕ) → Exec Models (ExternalNetwork × ℕ × ℕ)
write_address c netinfo = do
  (taken, ip, len) ← or_raise netinfo python_error
  update_space c.id (with_address ip len)
  pure (taken, ip, len)

module _ (c : Cloudspace) (pool : ExternalNetwork) (ext : c.externalnetwork_id ≡ some pool.id)
    (m : Models) (w : IsBalanced m) (g : get id_of c.id m.cloudspace ≡ some c) where
  new_address :
      c.externalnetworkip ≡ none
      → address_of c pool m
        ≡ (get_external_ip_address c.gid c.externalnetwork_id >>= write_address c) m
  unfolding address_of
  new_address e = rw e refl

  -- The address that is taken is one of the cloudspace's pool.
  taken_unowned :
      (t : Models) (taken : ExternalNetwork) (ip len : ℕ)
      → get_external_ip_address c.gid c.externalnetwork_id m ≡ (ok (some (taken, ip, len)), t)
      → (owners taken.id ip t ≡ 0) × (get id_of c.id t.cloudspace ≡ some c) × (taken.id ≡ pool.id)
  taken_unowned t taken ip len h =
      let (none_own, same, v) =
        get_external_ip_address-unowned c.gid c.externalnetwork_id m t taken ip len w h in
      (none_own, ap (get id_of c.id) same ∙ g, wanted_id c.gid pool.id taken (rw ext at v))
    where
      wanted_id : (gid k : ℕ) (p : ExternalNetwork) → wanted gid (some k) p ≡ true → p.id ≡ k
      wanted_id gid k p v = (==_iff p.id k).0 (ground arith)

  write_address-IsBalanced :
      (o : Option (ExternalNetwork × ℕ × ℕ)) (t : Models)
      → get_external_ip_address c.gid c.externalnetwork_id m ≡ (ok o, t)
      → IsBalanced t
      → IsBalanced (write_address c o t).1
  write_address-IsBalanced none t h b = b
  write_address-IsBalanced (some (taken, ip, len)) t h b =
      let (none_own, here, k) = taken_unowned t taken ip len h in
      subst (λ l. IsBalanced (record t { cloudspace = l }))
        (sym (
          update-eq-set (with_address ip len) (with_address ip len c) c t.cloudspace b.spaces_unique
            here refl))
        (set-IsBalanced t b (with_address ip len c) c here
          (λ q a f. inr (owners_same q a taken.id ip t (rw k (rw ext at f)) none_own)))

  pub address_of-IsBalanced : IsBalanced (address_of c pool m).1
  unfolding address_of
  address_of-IsBalanced = elim (Option-cases c.externalnetworkip) [
    | inr (a, e) ↦ rw e w
    | inl e ↦
        subst (λ o. IsBalanced o.1) (sym (new_address e))
          (bind_keeps IsBalanced (get_external_ip_address c.gid c.externalnetwork_id)
            (write_address c) m (get_external_ip_address-IsBalanced c.gid c.externalnetwork_id m w)
            write_address-IsBalanced)
  ]

  abbrev pub Held : Models → ExternalNetwork → ℕ → Type 0
  Held t taken ip =
      (d : Cloudspace) × (get id_of c.id t.cloudspace ≡ some d)
      × (d.id ≡ c.id)
      × (holds taken.id ip d ≡ true)

  written_holds :
      (o : Option (ExternalNetwork × ℕ × ℕ)) (u t : Models) (taken : ExternalNetwork) (ip len : ℕ)
      → get_external_ip_address c.gid c.externalnetwork_id m ≡ (ok o, u)
      → write_address c o u ≡ (ok (taken, ip, len), t)
      → Held t taken ip
  written_holds none u t taken ip len f q = absurd (err_not_ok q)
  written_holds (some (p, a, n)) u t taken ip len f q =
      let (none_own, here, k) = taken_unowned u p a n f in
      let (same, after) = same_ok q in
      (
        with_address a n c,
        subst (λ (x : Models). get id_of c.id x.cloudspace ≡ some (with_address a n c)) after
            (get-update id_of c.id (with_address a n) u.cloudspace c (λ b. refl) here),
        refl,
        subst (λ (x : ExternalNetwork × ℕ × ℕ). holds x.0.id x.1 (with_address a n c) ≡ true) same
            (rw (ext, k) (ground (arith, ==_refl pool.id, ==_refl a))),
      )

  -- The address that `deploy` goes on with is the cloudspace's.
  pub address_of_holds :
      (t : Models) (taken : ExternalNetwork) (ip len : ℕ)
      → address_of c pool m ≡ (ok (taken, ip, len), t)
      → Held t taken ip
  unfolding address_of
  address_of_holds t taken ip len h = elim (Option-cases c.externalnetworkip) [
    | inr ((a, n), e) ↦
        let (same, after) = same_ok (rw e at h) in
        (
          c,
          subst (λ (x : Models). get id_of c.id x.cloudspace ≡ some c) after g,
          refl,
          subst (λ (x : ExternalNetwork × ℕ × ℕ). holds x.0.id x.1 c ≡ true) same
              (rw (ext, e) (ground (arith, ==_refl pool.id, ==_refl a))),
        )
    | inl e ↦
        let (o, u, f, q) =
          bind_ok (get_external_ip_address c.gid c.externalnetwork_id) (write_address c) m t
            (taken, ip, len) (sym (new_address e) ∙ h) in
        written_holds o u t taken ip len f q
  ]
