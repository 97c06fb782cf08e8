-- ===== src/Firewall/Lookup.antt =====
-- One rule for each public address, port and protocol: how the operations of
-- apps/cloudbroker/cloudbrokerlib/netmgr.py treat a list without duplicates.
use openvcloud.Prelude.{
  ℕ, ◌≡◌, refl, Bool, true, false, ◌&&◌, ◌||◌, Option, some, List, [], ◌∷◌, ◌++◌, ◌==◌, any, arith,
  Bool-cases, Option-cases, inl, inr, sym, ◌∙◌, ap,
}
use openvcloud.Result.{ok, Exec, pure, ◌>>=◌, bind_keeps}
use openvcloud.Models.Table.{get, Holds, Holds-update}
use openvcloud.Firewall.{
  Protocol, Rule, VirtualFirewall, Cloud, eq_protocol, guid_of, matches, removed, set_rules,
  get_vfw_object, apply_config, apply_if, fw_forward_delete, fw_forward_create, delete_unless,
}
use openvcloud.Firewall.Removal.{skip_removed, removed-eq-skip_removed}

-- The two rules forward the same public address and port, for the same protocol.
abbrev pub same_source : Rule → Rule → Bool
same_source r s =
    (s.from_addr == r.from_addr && s.from_port == r.from_port) && eq_protocol s.protocol r.protocol

abbrev pub UniqueRules : List Rule → Type 0
UniqueRules [] = Unit {0}
UniqueRules (r ∷ rules) = (any (same_source r) rules ≡ false) × UniqueRules rules

any-skip_removed :
    (test p : Rule → Bool) (rules : List Rule)
    → any p rules ≡ false
    → any p (skip_removed test rules) ≡ false
unfolding skip_removed
any-skip_removed test p [] h = h
any-skip_removed test p (r ∷ []) h = ground arith
any-skip_removed test p (r ∷ s ∷ rules) h =
    ground (arith, any-skip_removed test p rules, any-skip_removed test p (s ∷ rules))

skip_removed-UniqueRules :
    (test : Rule → Bool) (rules : List Rule)
    → UniqueRules rules
    → UniqueRules (skip_removed test rules)
unfolding skip_removed
skip_removed-UniqueRules test [] w = w
skip_removed-UniqueRules test (r ∷ []) w = elim (Bool-cases (test r)) [
  | inl e ↦ rw e tt
  | inr e ↦ rw e w
]
skip_removed-UniqueRules test (r ∷ s ∷ rules) w = elim (Bool-cases (test r)) [
  | inl e ↦
      rw e (
        any-skip_removed test (same_source s) rules w.1.0,
        skip_removed-UniqueRules test rules w.1.1,
      )
  | inr e ↦ rw e (
    any-skip_removed test (same_source r) (s ∷ rules) w.0,
    skip_removed-UniqueRules test (s ∷ rules) w.1,
  )
]

pub removed-UniqueRules :
    (test : Rule → Bool) (rules : List Rule) → UniqueRules rules → UniqueRules (removed test rules)
removed-UniqueRules test rules w =
    rw (removed-eq-skip_removed test rules) (skip_removed-UniqueRules test rules w)

any-snoc :
    (p : Rule → Bool) (rules : List Rule) (r : Rule)
    → any p (rules ++ r ∷ []) ≡ (any p rules || p r)
any-snoc p [] r = ground arith
any-snoc p (s ∷ rules) r = ground (arith, any-snoc p rules r)

eq_protocol_comm : (p q : Option Protocol) → eq_protocol p q ≡ eq_protocol q p
eq_protocol_comm p q = ground arith

same_source_comm : (r s : Rule) → same_source r s ≡ same_source s r
same_source_comm r s = ground (arith, eq_protocol_comm s.protocol r.protocol)

pub append-UniqueRules :
    (rules : List Rule) (r : Rule)
    → any (same_source r) rules ≡ false
    → UniqueRules rules
    → UniqueRules (rules ++ r ∷ [])
append-UniqueRules [] r h w = (refl, tt)
append-UniqueRules (s ∷ rules) r h w = (
  rw any-snoc (rw w.0 (rw (same_source_comm s r) (ground arith))),
  append-UniqueRules rules r (ground arith) w.1,
)

-- The firewall `k` is in the store, with one rule for each source.
abbrev pub HasUniqueRules : ℕ → Cloud → Type 0
HasUniqueRules k cloud = Holds guid_of (λ fw. UniqueRules fw.rules) k cloud.vfw

module _ (k : ℕ) (cloud : Cloud) (w : HasUniqueRules k cloud) where
  set_rules-HasUniqueRules :
      (j : ℕ) (f : List Rule → List Rule)
      → ((fw : VirtualFirewall)
          → get guid_of j cloud.vfw ≡ some fw
          → UniqueRules fw.rules
          → UniqueRules (f fw.rules))
      → HasUniqueRules k (set_rules j f cloud).1
  unfolding set_rules
  set_rules-HasUniqueRules j f step =
      Holds-update guid_of (λ fw. UniqueRules fw.rules) k j (λ fw. record fw { rules = f fw.rules })
        cloud.vfw (λ fw. refl) step w

-- Reading a firewall changes nothing.
get_vfw_object-state : (j : ℕ) (cloud : Cloud) → (get_vfw_object j cloud).1 ≡ cloud
unfolding get_vfw_object
get_vfw_object-state j cloud = ground arith

module _ (run_job : VirtualFirewall → Option Bool) where
  apply_config-state :
      (fw : VirtualFirewall) (cloud : Cloud) → (apply_config run_job fw cloud).1 ≡ cloud
  unfolding apply_config
  apply_config-state fw cloud = ground arith

  pub apply_if-state : (b : Bool) (j : ℕ) (cloud : Cloud) → (apply_if run_job b j cloud).1 ≡ cloud
  unfolding apply_if
  apply_if-state true j cloud = ground arith
  apply_if-state false j cloud = ground arith

  -- A firewall with one rule for each source stays so under `fw_forward_delete`, whichever rules are
  -- removed, and whether it succeeds or raises.
  pub fw_forward_delete-HasUniqueRules :
      (k j ip port : ℕ) (protocol : Option Protocol) (apply : Bool) (cloud : Cloud)
      → HasUniqueRules k cloud
      → HasUniqueRules k (fw_forward_delete run_job j ip port protocol apply cloud).1
  unfolding fw_forward_delete
  fw_forward_delete-HasUniqueRules k j ip port protocol apply cloud w =
      elim (Option-cases (get guid_of j cloud.vfw)) [
        | inl e ↦ rw e w
        | inr (fw, e) ↦ rw e (elim (Option-cases fw.nid) [
          | inl n ↦ rw n w
          | inr (nid, n) ↦ rw n (elim (Bool-cases (any (matches ip port protocol) fw.rules)) [
            | inl c ↦ rw c (
                rw (apply_if-state apply j) (
                  set_rules-HasUniqueRules k cloud w j (removed (matches ip port protocol))
                    (λ x _ u. removed-UniqueRules (matches ip port protocol) x.rules u)))
            | inr c ↦ rw c w
          ])
        ])
      ]

  delete_unless-HasUniqueRules :
      (k j ip port : ℕ) (b : Bool) (protocol : Option Protocol) (cloud : Cloud)
      → HasUniqueRules k cloud
      → HasUniqueRules k (delete_unless run_job b j ip port protocol cloud).1
  unfolding delete_unless
  delete_unless-HasUniqueRules k j ip port true protocol cloud w = w
  delete_unless-HasUniqueRules k j ip port false protocol cloud w =
      bind_keeps (HasUniqueRules k) (fw_forward_delete run_job j ip port protocol false)
        (λ _. pure false) cloud
        (fw_forward_delete-HasUniqueRules k j ip port protocol false cloud w) (λ a t e p. p)

  pub fw_forward_create-HasUniqueRules :
      (k j : ℕ) (rule : Rule) (cloud : Cloud)
      → ((fw : VirtualFirewall)
          → get guid_of j cloud.vfw ≡ some fw
          → any (same_source rule) fw.rules ≡ false)
      → HasUniqueRules k cloud
      → HasUniqueRules k
          (fw_forward_create run_job j rule.from_addr rule.from_port rule.to_addr rule.to_port
            rule.protocol cloud).1
  unfolding fw_forward_create
  fw_forward_create-HasUniqueRules k j rule cloud fresh w =
      bind_keeps P (get_vfw_object j) after_read cloud (rw get_vfw_object-state w) λ a t e p.
        bind_keeps P (set_rules j add) (λ _. after_write) t
          (set_rules-HasUniqueRules k t p j add
            (λ fw g u. append-UniqueRules fw.rules rule (fresh fw (rw (← read_only_state e) g)) u))
          (λ _ u _ q.
            bind_keeps P (get_vfw_object j) after_reread u (rw get_vfw_object-state q) (λ fw v _ r.
              bind_keeps P (apply_config run_job fw) after_apply v (rw apply_config-state r)
                (λ b x _ y.
                  delete_unless-HasUniqueRules k j rule.from_addr rule.from_port b rule.protocol x
                    y)))
    where
      P : Cloud → Type 0
      P = HasUniqueRules k

      add : List Rule → List Rule
      add rules = rules ++ rule ∷ []

      after_apply : Bool → Exec Cloud Bool
      after_apply b = delete_unless run_job b j rule.from_addr rule.from_port rule.protocol

      after_reread : VirtualFirewall → Exec Cloud Bool
      after_reread fw = apply_config run_job fw >>= after_apply

      after_write : Exec Cloud Bool
      after_write = get_vfw_object j >>= after_reread

      after_read : VirtualFirewall → Exec Cloud Bool
      after_read _ = set_rules j add >>= λ _. after_write

      read_only_state :
          {a : VirtualFirewall} {t : Cloud} → get_vfw_object j cloud ≡ (ok a, t) → t ≡ cloud
      read_only_state e = sym (ap (λ x. x.1) e) ∙ get_vfw_object-state j cloud
