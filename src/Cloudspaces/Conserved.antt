-- ===== src/Cloudspaces/Conserved.antt =====
-- Every public address has one owner at most, through the steps of the operations on cloudspaces.
use openvcloud.Prelude.{
  ℕ, ◌≤◌, ◌≡◌, ◌⊎◌, refl, true, false, ◌&&◌, Option, none, some, [], ◌∷◌, ◌++◌, ◌==◌, ==_refl, any,
  filter, arith, Bool-cases, Option-cases, inl, inr, sym, subst,
}
use openvcloud.Result.{Result, ok}
use openvcloud.Models.{Cloudspace, ExternalNetwork, Models}
use openvcloud.Models.Table.{get, update, set, delete as remove, get-update}
use openvcloud.Limits.Reserve.{UniqueIds}
use openvcloud.Pools.{pool_id, wanted, first_free, take_ip, take_first, get_external_ip_address}
use openvcloud.Pools.Balance.{UniquePools, get-first_free}
use openvcloud.Cloudspaces.{id_of}
use openvcloud.Cloudspaces.Owners.{
  holds, owners, pulled, added, free_count-pull, free_count-le, free_count-add, free_count_found,
  update-UniquePools, held_count-set, held_count-append, held_count-remove, held_count-update,
}
use openvcloud.Cloudspaces.Ids.{remove-UniqueIds, update-UniqueIds, append-UniqueIds, set-UniqueIds}

-- No two pools and no two cloudspaces have the same id, and no public address is free and held, or
-- held by two cloudspaces.
pub record IsBalanced (models : Models) : Type 0 where
  pub pools_unique : UniquePools models.externalnetwork
  pub spaces_unique : UniqueIds models.cloudspace
  pub one_owner : (k ip : ℕ) → owners k ip models ≤ 1

take_ip-IsBalanced : (q a : ℕ) (m : Models) → IsBalanced m → IsBalanced (take_ip q a m).1
unfolding take_ip
take_ip-IsBalanced q a m w = record {
  pools_unique = update-UniquePools q (pulled a) m.externalnetwork (λ p. refl) w.pools_unique;
  spaces_unique = w.spaces_unique;
  one_owner = λ k ip. ground (arith, w.one_owner k ip, free_count-pull k ip q a m.externalnetwork);
}

take_first_same :
    (o : Option (ExternalNetwork × ℕ)) (m : Models)
    → ((take_first o m).1 ≡ m) ⊎ ((q a : ℕ) × ((take_first o m).1 ≡ (take_ip q a m).1))
unfolding take_first take_ip
take_first_same none m = inl refl
take_first_same (some (p, a)) m = inr (p.id, a, ground arith)

pub get_external_ip_address-IsBalanced :
    (gid : ℕ) (ext : Option ℕ) (m : Models)
    → IsBalanced m
    → IsBalanced (get_external_ip_address gid ext m).1
unfolding get_external_ip_address
get_external_ip_address-IsBalanced gid ext m w =
    elim (take_first_same (first_free (filter (wanted gid ext) m.externalnetwork)) m) [
      | inl e ↦ subst IsBalanced (sym e) w
      | inr (q, a, e) ↦ subst IsBalanced (sym e) (take_ip-IsBalanced q a m w)
    ]

-- An address that has been handed out has no owner until it is written to a cloudspace.
wanted-pulled :
    (gid : ℕ) (ext : Option ℕ) (a : ℕ) (p : ExternalNetwork)
    → wanted gid ext p ≡ true
    → wanted gid ext (pulled a p) ≡ true
wanted-pulled gid none a p h = h
wanted-pulled gid (some k) a p h = h

pub get_external_ip_address-unowned :
    (gid : ℕ) (ext : Option ℕ) (m t : Models) (pool : ExternalNetwork) (ip len : ℕ)
    → IsBalanced m
    → get_external_ip_address gid ext m ≡ (ok (some (pool, ip, len)), t)
    → (owners pool.id ip t ≡ 0) × (t.cloudspace ≡ m.cloudspace) × (wanted gid ext pool ≡ true)
unfolding get_external_ip_address take_first take_ip
get_external_ip_address-unowned gid ext m t pool ip len w h =
    elim (Option-cases (first_free (filter (wanted gid ext) m.externalnetwork))) [
      | inl e ↦ absurd (nothing (rw e at h))
      | inr ((p, a), e) ↦
          let (g, mm, v) = get-first_free (wanted gid ext) m.externalnetwork p a w.pools_unique e in
          let after = get-update pool_id p.id (pulled a) m.externalnetwork p (λ b. refl) g in
          let (q, r, s) = parts (rw (e, after) at h) in
          let one = w.one_owner p.id a in
          let found = free_count_found p.id a m.externalnetwork p g mm in
          rw (← q, ← r, ← s)
            (
              ground
                  (arith, free_count-pull p.id a p.id a m.externalnetwork, ==_refl p.id, ==_refl a),
              refl,
              wanted-pulled gid ext a p v,
            )
    ]
  where
    Answer : Type 0
    Answer = Result (Option (ExternalNetwork × ℕ × ℕ)) × Models

    nothing : ¬ ((let x : Answer = (ok none, m) in x) ≡ (ok (some (pool, ip, len)), t))
    nothing q = cc

    parts :
        {q : ExternalNetwork} {a k : ℕ} {s : Models}
        → (let x : Answer = (ok (some (q, a, k)), s) in x) ≡ (ok (some (pool, ip, len)), t)
        → (q ≡ pool) × (a ≡ ip) × (s ≡ t)
    parts e = (cc, cc, cc)

holds_same :
    (k ip q a : ℕ) (c : Cloudspace)
    → (k == q && ip == a) ≡ true
    → holds q a c ≡ true
    → holds k ip c ≡ true
holds_same k ip q a c e h = ground arith

module _ (m : Models) (w : IsBalanced m) (c old : Cloudspace)
    (g : get id_of c.id m.cloudspace ≡ some old) where
  -- A cloudspace may be written if it holds nothing but what it held before and what has no owner.
  pub set-IsBalanced :
      ((k ip : ℕ) → holds k ip c ≡ true → (holds k ip old ≡ true) ⊎ (owners k ip m ≡ 0))
      → IsBalanced (record m { cloudspace = set id_of c m.cloudspace })
  set-IsBalanced may = record {
    pools_unique = w.pools_unique;
    spaces_unique = set-UniqueIds c m.cloudspace w.spaces_unique;
    one_owner = λ k ip. ground (
      arith,
      w.one_owner k ip,
      held_count-set k ip c old m.cloudspace w.spaces_unique g,
      may k ip,
    );
  }

  -- A cloudspace that held an address may be written without one once the address is given back.
  pub give_back-IsBalanced :
      (q a : ℕ)
      → holds q a old ≡ true
      → ((k ip : ℕ) → holds k ip c ≡ false)
      → IsBalanced (record m {
        externalnetwork = update pool_id q (added a) m.externalnetwork;
        cloudspace = set id_of c m.cloudspace;
      })
  give_back-IsBalanced q a h none_held = record {
    pools_unique = update-UniquePools q (added a) m.externalnetwork (λ p. refl) w.pools_unique;
    spaces_unique = set-UniqueIds c m.cloudspace w.spaces_unique;
    one_owner = λ k ip. elim (Bool-cases (k == q && ip == a)) [
      | inr e ↦ ground (
        arith,
        w.one_owner k ip,
        held_count-set k ip c old m.cloudspace w.spaces_unique g,
        none_held k ip,
        free_count-add k ip q a m.externalnetwork e,
      )
      | inl e ↦ ground (
        arith,
        w.one_owner k ip,
        held_count-set k ip c old m.cloudspace w.spaces_unique g,
        none_held k ip,
        holds_same k ip q a old e h,
        free_count-le k ip (update pool_id q (added a) m.externalnetwork)
            (update-UniquePools q (added a) m.externalnetwork (λ p. refl) w.pools_unique),
      )
    ];
  }

-- A new cloudspace without an address, under an id that no other has.
pub append-IsBalanced :
    (m : Models) (c : Cloudspace)
    → IsBalanced m
    → any (λ x. x.id == c.id) m.cloudspace ≡ false
    → ((k ip : ℕ) → holds k ip c ≡ false)
    → IsBalanced (record m { cloudspace = m.cloudspace ++ c ∷ [] })
append-IsBalanced m c w new none_held = record {
  pools_unique = w.pools_unique;
  spaces_unique = append-UniqueIds c m.cloudspace new w.spaces_unique;
  one_owner = λ k ip.
      ground (arith, w.one_owner k ip, held_count-append k ip c m.cloudspace, none_held k ip);
}

pub remove-IsBalanced :
    (m : Models) (j : ℕ)
    → IsBalanced m
    → IsBalanced (record m { cloudspace = remove id_of j m.cloudspace })
remove-IsBalanced m j w = record {
  pools_unique = w.pools_unique;
  spaces_unique = remove-UniqueIds j m.cloudspace w.spaces_unique;
  one_owner = λ k ip. ground (arith, w.one_owner k ip, held_count-remove k ip j m.cloudspace);
}

-- Writing fields of a cloudspace other than its id and its address.
pub update-IsBalanced :
    (m : Models) (j : ℕ) (f : Cloudspace → Cloudspace)
    → ((c : Cloudspace) → (f c).id ≡ c.id)
    → ((k ip : ℕ) (c : Cloudspace) → holds k ip (f c) ≡ holds k ip c)
    → IsBalanced m
    → IsBalanced (record m { cloudspace = update id_of j f m.cloudspace })
update-IsBalanced m j f keep same w = record {
  pools_unique = w.pools_unique;
  spaces_unique = update-UniqueIds j f m.cloudspace keep w.spaces_unique;
  one_owner =
      λ k ip. ground (arith, w.one_owner k ip, held_count-update k ip j f m.cloudspace (same k ip));
}
