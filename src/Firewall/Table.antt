-- ===== src/Firewall/Table.antt =====
-- The rules of a firewall as a table from public addresses, ports and protocols to where they lead,
-- as the abstract view of `fw_forward_delete` and `fw_forward_create` of
-- apps/cloudbroker/cloudbrokerlib/netmgr.py.
use openvcloud.Prelude.{
  ℕ, ◌≡◌, refl, Bool, true, false, not, ◌&&◌, Option, none, some, List, [], ◌∷◌, ◌++◌, ◌==◌, any,
  all, filter, arith, if◌then◌else◌, Bool-cases, inl, inr, sym, ◌∙◌, ap,
}
use openvcloud.Result.{ok}
use openvcloud.Models.Table.{get, get-update}
use openvcloud.Firewall.{
  Protocol, Rule, VirtualFirewall, Cloud, same_protocol, eq_protocol, guid_of, matches, removed,
  set_rules, get_vfw_object, deployed, apply_config, delete_unless, fw_forward_delete,
  fw_forward_create,
}
use openvcloud.Firewall.Removal.{NoneAdjacent, removed-eq-filter}
use openvcloud.Firewall.Lookup.{same_source, UniqueRules, apply_if-state}

-- The rule says for which protocol it is.
abbrev pub typed : Rule → Bool
typed r = elim r.protocol [ none ↦ false | some _ ↦ true ]

abbrev pub from : ℕ → ℕ → Protocol → Rule → Bool
from ip port p r = (r.from_addr == ip && r.from_port == port) && eq_protocol r.protocol (some p)

-- Where a packet for a public address, port and protocol goes.
abbrev pub forward : ℕ → ℕ → Protocol → List Rule → Option (ℕ × ℕ)
forward ip port p [] = none
forward ip port p (r ∷ rules) =
    if from ip port p r then some (r.to_addr, r.to_port) else forward ip port p rules

abbrev pub same_key : ℕ → ℕ → Protocol → ℕ → ℕ → Protocol → Bool
same_key i q s ip port p = (i == ip && q == port) && same_protocol s p

abbrev entry : ℕ → ℕ → Protocol → Option VirtualFirewall → Option (ℕ × ℕ)
entry ip port p none = none
entry ip port p (some fw) = forward ip port p fw.rules

-- The table of the firewall `j`.
abbrev pub table : ℕ → Cloud → ℕ → ℕ → Protocol → Option (ℕ × ℕ)
table j cloud ip port p = entry ip port p (get guid_of j cloud.vfw)

module _ (ip port : ℕ) (p : Protocol) where
  matches-from : (r : Rule) → typed r ≡ true → matches ip port (some p) r ≡ from ip port p r
  unfolding matches
  matches-from r h = ground arith

  both_same :
      (r s : Rule)
      → typed r ≡ true
      → typed s ≡ true
      → same_source r s ≡ false
      → (matches ip port (some p) r && matches ip port (some p) s) ≡ false
  unfolding matches
  both_same r s t u h = ground arith

  Unique-NoneAdjacent :
      (rules : List Rule)
      → UniqueRules rules
      → all typed rules ≡ true
      → NoneAdjacent (matches ip port (some p)) rules
  Unique-NoneAdjacent [] u t = tt
  Unique-NoneAdjacent (r ∷ []) u t = tt
  Unique-NoneAdjacent (r ∷ s ∷ rules) u t = (
    both_same r s (ground arith) (ground arith) (ground arith),
    Unique-NoneAdjacent (s ∷ rules) u.1 (ground arith),
  )

  filter_none :
      (rules : List Rule)
      → any (matches ip port (some p)) rules ≡ false
      → filter (λ r. not (matches ip port (some p) r)) rules ≡ rules
  filter_none [] h = refl
  filter_none (r ∷ rules) h = ground (arith, filter_none rules)

  from_both :
      (i q : ℕ) (s : Protocol) (r : Rule)
      → from ip port p r ≡ true
      → from i q s r ≡ same_key i q s ip port p
  from_both i q s r h = ground arith

  from_key :
      (i q : ℕ) (s : Protocol) (r : Rule)
      → same_key i q s ip port p ≡ true
      → from i q s r ≡ from ip port p r
  from_key i q s r h = ground arith

  forward-filter :
      (i q : ℕ) (s : Protocol) (rules : List Rule)
      → all typed rules ≡ true
      → forward i q s (filter (λ r. not (matches ip port (some p) r)) rules)
        ≡ (if same_key i q s ip port p then none else forward i q s rules)
  forward-filter i q s [] t = ground arith
  forward-filter i q s (r ∷ rules) t =
      let ih = forward-filter i q s rules (ground arith) in
      let here = matches-from r (ground arith) in
      elim (Bool-cases (same_key i q s ip port p)) [
        | inl k ↦ elim (Bool-cases (from ip port p r)) [
          | inl e ↦ rw (here ∙ e, k) (rw k at ih)
          | inr e ↦ rw (here ∙ e, k, from_key i q s r k ∙ e) (rw k at ih)
        ]
        | inr k ↦ elim (Bool-cases (from ip port p r)) [
          | inl e ↦ rw (here ∙ e, k, from_both i q s r e ∙ k) (rw k at ih)
          | inr e ↦
              rw (here ∙ e, k)
                (elim (Bool-cases (from i q s r)) [ inl f ↦ rw f refl | inr f ↦ rw f (rw k at ih) ])
        ]
      ]

  -- The loop on rules with one entry for each source.
  forward-removed :
      (i q : ℕ) (s : Protocol) (rules : List Rule)
      → UniqueRules rules
      → all typed rules ≡ true
      → forward i q s (removed (matches ip port (some p)) rules)
        ≡ (if same_key i q s ip port p then none else forward i q s rules)
  forward-removed i q s rules u t =
      ap (forward i q s)
        (removed-eq-filter (matches ip port (some p)) rules (Unique-NoneAdjacent rules u t))
      ∙ forward-filter i q s rules t

  -- On a firewall that is deployed, whose rules have different sources and name their protocols:
  -- `fw_forward_delete` for a protocol takes the entry of its address, port and protocol from the
  -- table of the firewall, if there is one, and leaves every other entry; also where the firewall
  -- cannot be reconfigured.
  pub fw_forward_delete_refines :
      (run_job : VirtualFirewall → Option Bool) (j nid : ℕ) (apply : Bool) (cloud : Cloud)
      (fw : VirtualFirewall) (i q : ℕ) (s : Protocol)
      → get guid_of j cloud.vfw ≡ some fw
      → fw.nid ≡ some nid
      → UniqueRules fw.rules
      → all typed fw.rules ≡ true
      → table j (fw_forward_delete run_job j ip port (some p) apply cloud).1 i q s
        ≡ (if same_key i q s ip port p then none else table j cloud i q s)
  unfolding fw_forward_delete get_vfw_object set_rules
  fw_forward_delete_refines run_job j nid apply cloud fw i q s g n u t =
      elim (Bool-cases (any (matches ip port (some p)) fw.rules)) [
        | inl c ↦
            ap (λ o. table j o i q s) (stored c)
            ∙ ap (entry i q s) (
                get-update guid_of j
                  (λ f. record f { rules = removed (matches ip port (some p)) f.rules }) cloud.vfw
                  fw (λ b. refl) g)
            ∙ forward-removed i q s fw.rules u t
            ∙ sym was
        | inr c ↦
            ap (λ o. table j o i q s) (untouched c)
            ∙ ap (entry i q s) g
            ∙ ap (forward i q s) (sym (filter_none fw.rules c))
            ∙ forward-filter i q s fw.rules t
            ∙ sym was
      ]
    where
      was :
          (if same_key i q s ip port p then none else table j cloud i q s)
          ≡ (if same_key i q s ip port p then none else forward i q s fw.rules)
      was = ap (λ o. if same_key i q s ip port p then none else entry i q s o) g

      stored :
          any (matches ip port (some p)) fw.rules ≡ true
          → (fw_forward_delete run_job j ip port (some p) apply cloud).1
            ≡ (set_rules j (removed (matches ip port (some p))) cloud).1
      stored c =
          rw (g, n, c)
            (apply_if-state run_job apply j
              (set_rules j (removed (matches ip port (some p))) cloud).1)

      untouched :
          any (matches ip port (some p)) fw.rules ≡ false
          → (fw_forward_delete run_job j ip port (some p) apply cloud).1 ≡ cloud
      untouched c = rw (g, n, c) (apply_if-state run_job false j cloud)

seen :
    (j nid : ℕ) (cloud : Cloud) (fw : VirtualFirewall)
    → get guid_of j cloud.vfw ≡ some fw
    → fw.nid ≡ some nid
    → get_vfw_object j cloud ≡ (ok fw, cloud)
unfolding get_vfw_object deployed
seen j nid cloud fw g n = rw g (ground arith)

abbrev pub new_rule : ℕ → ℕ → ℕ → ℕ → Protocol → Rule
new_rule ip port to to_port p = record {
  from_addr = ip;
  from_port = port;
  to_addr = to;
  to_port = to_port;
  protocol = some p;
}

abbrev pub with_rule : Rule → VirtualFirewall → VirtualFirewall
with_rule r fw = record fw { rules = fw.rules ++ r ∷ [] }

module _ (ip port to to_port : ℕ) (p : Protocol) where
  apart :
      (i q : ℕ) (s : Protocol) (x : Rule)
      → same_source (new_rule ip port to to_port p) x ≡ false
      → from i q s x ≡ true
      → same_key i q s ip port p ≡ false
  apart i q s x h f = ground arith

  forward-append :
      (i q : ℕ) (s : Protocol) (rules : List Rule)
      → any (same_source (new_rule ip port to to_port p)) rules ≡ false
      → forward i q s (rules ++ new_rule ip port to to_port p ∷ [])
        ≡ (if same_key i q s ip port p then some (to, to_port) else forward i q s rules)
  forward-append i q s [] h = ground arith
  forward-append i q s (x ∷ rules) h = elim (Bool-cases (from i q s x)) [
    | inl f ↦ rw (f, apart i q s x (ground arith) f) refl
    | inr f ↦ rw f (forward-append i q s rules (ground arith))
  ]

  -- On a firewall that is deployed and has no rule for the address, port and protocol:
  -- `fw_forward_create` answers True where the job applies the rules with the new one, and puts that
  -- entry into the table of the firewall and leaves every other entry.
  pub fw_forward_create_refines :
      (run_job : VirtualFirewall → Option Bool) (j nid : ℕ) (cloud : Cloud) (fw : VirtualFirewall)
      (i q : ℕ) (s : Protocol)
      → get guid_of j cloud.vfw ≡ some fw
      → fw.nid ≡ some nid
      → any (same_source (new_rule ip port to to_port p)) fw.rules ≡ false
      → run_job (with_rule (new_rule ip port to to_port p) fw) ≡ some true
      → ((fw_forward_create run_job j ip port to to_port (some p) cloud).0 ≡ ok true)
        × (table j (fw_forward_create run_job j ip port to to_port (some p) cloud).1 i q s
            ≡ (if same_key i q s ip port p then some (to, to_port) else table j cloud i q s))
  unfolding fw_forward_create set_rules apply_config delete_unless
  fw_forward_create_refines run_job j nid cloud fw i q s g n fresh applied = (
    ap (λ o. o.0) created,
    ap (λ o. table j o.1 i q s) created
        ∙ ap (entry i q s) after
        ∙ forward-append i q s fw.rules fresh
        ∙ sym (ap (λ o. if same_key i q s ip port p then some (to, to_port) else entry i q s o) g),
  )
    where
      inserted : Cloud
      inserted = (set_rules j (λ rules. rules ++ new_rule ip port to to_port p ∷ []) cloud).1

      after : get guid_of j inserted.vfw ≡ some (with_rule (new_rule ip port to to_port p) fw)
      after =
          get-update guid_of j (with_rule (new_rule ip port to to_port p)) cloud.vfw fw (λ b. refl)
            g

      created : fw_forward_create run_job j ip port to to_port (some p) cloud ≡ (ok true, inserted)
      created =
          rw
            (
              seen j nid cloud fw g n,
              seen j nid inserted (with_rule (new_rule ip port to to_port p) fw) after n,
              applied,
            )
            refl
