-- ===== src/Firewall/Removal.antt =====
-- The loop of `fw_forward_delete` (apps/cloudbroker/cloudbrokerlib/netmgr.py), which removes rules
-- from the list that it runs over.
use openvcloud.Prelude.{
  ℕ, zero, suc, ◌≤◌, ◌≡◌, refl, Bool, true, false, not, ◌&&◌, some, none, List, [], ◌∷◌, ◌++◌,
  filter, any, get_elem?, length, arith, Bool-cases, inl, inr, if◌then◌else◌, ap, sym, ◌∙◌, subst,
}
use openvcloud.Firewall.{Rule, remove_at, remove_loop, removed}

module _ (test : Rule → Bool) where
  -- What the loop leaves, by recursion on the list: a rule that matches goes, and the rule after
  -- it stays unseen.
  unfoldable pub skip_removed : List Rule → List Rule
  skip_removed [] = []
  skip_removed (r ∷ []) = if test r then [] else r ∷ []
  skip_removed (r ∷ s ∷ rules) =
      let unseen = s ∷ skip_removed rules in
      let seen = r ∷ skip_removed (s ∷ rules) in if test r then unseen else seen

  -- Where no two rules that match stand side by side, the loop removes exactly those that match.
  abbrev pub NoneAdjacent : List Rule → Type 0
  NoneAdjacent [] = Unit {0}
  NoneAdjacent (r ∷ []) = Unit {0}
  NoneAdjacent (r ∷ s ∷ rules) = ((test r && test s) ≡ false) × NoneAdjacent (s ∷ rules)

  skip_removed-miss :
      (s : Rule) (rules : List Rule)
      → test s ≡ false
      → skip_removed (s ∷ rules) ≡ s ∷ skip_removed rules
  unfolding skip_removed
  skip_removed-miss s [] e = rw e refl
  skip_removed-miss s (t ∷ rules) e = rw e refl

  filter-miss :
      (s : Rule) (rules : List Rule)
      → test s ≡ false
      → filter (λ r. not (test r)) (s ∷ rules) ≡ s ∷ filter (λ r. not (test r)) rules
  filter-miss s rules e = rw e refl

  pub skip_removed-eq-filter :
      (rules : List Rule)
      → NoneAdjacent rules
      → skip_removed rules ≡ filter (λ r. not (test r)) rules
  unfolding skip_removed
  skip_removed-eq-filter [] w = refl
  skip_removed-eq-filter (r ∷ []) w = ground arith
  skip_removed-eq-filter (r ∷ s ∷ rules) w = elim (Bool-cases (test r)) [
    | inl e ↦
        let miss : test s ≡ false = rw e at w.0 in
        let ih : skip_removed (s ∷ rules) ≡ filter (λ x. not (test x)) (s ∷ rules) =
          skip_removed-eq-filter (s ∷ rules) w.1 in
        rw e (sym (skip_removed-miss s rules miss) ∙ ih)
    | inr e ↦ rw e (ap (λ l. r ∷ l) (skip_removed-eq-filter (s ∷ rules) w.1))
  ]

  -- A rule that matches, after one that matches, after rules that do not: it survives.
  pub skip_removed-skips :
      (xs : List Rule) (r s : Rule) (rules : List Rule)
      → any test xs ≡ false
      → test r ≡ true
      → skip_removed (xs ++ r ∷ s ∷ rules) ≡ xs ++ s ∷ skip_removed rules
  unfolding skip_removed
  skip_removed-skips [] r s rules h e = rw e refl
  skip_removed-skips (x ∷ xs) r s rules h e =
      let here : test x ≡ false = ground arith in
      skip_removed-miss x (xs ++ r ∷ s ∷ rules) here
      ∙ ap (λ l. x ∷ l) (skip_removed-skips xs r s rules (ground arith) e)

  get_elem?-append : (xs ys : List Rule) → get_elem? (xs ++ ys) (length xs) ≡ get_elem? ys 0
  get_elem?-append [] ys = refl
  get_elem?-append (x ∷ xs) ys = get_elem?-append xs ys

  remove_at-append :
      (xs ys : List Rule) (y : Rule) → remove_at (length xs) (xs ++ y ∷ ys) ≡ xs ++ ys
  unfolding remove_at
  remove_at-append [] ys y = refl
  remove_at-append (x ∷ xs) ys y = ap (λ l. x ∷ l) (remove_at-append xs ys y)

  get_elem?-past : (xs : List Rule) → get_elem? xs (suc (length xs)) ≡ none
  get_elem?-past [] = refl
  get_elem?-past (x ∷ xs) = get_elem?-past xs

  snoc-append : (xs : List Rule) (y : Rule) (ys : List Rule) → (xs ++ y ∷ []) ++ ys ≡ xs ++ y ∷ ys
  snoc-append [] y ys = refl
  snoc-append (x ∷ xs) y ys = ap (λ l. x ∷ l) (snoc-append xs y ys)

  length-snoc : (xs : List Rule) (y : Rule) → length (xs ++ y ∷ []) ≡ suc (length xs)
  length-snoc [] y = refl
  length-snoc (x ∷ xs) y = ap suc (length-snoc xs y)

  append-nil : (xs : List Rule) → xs ++ [] ≡ xs
  append-nil [] = refl
  append-nil (x ∷ xs) = ap (λ l. x ∷ l) (append-nil xs)

  module _ (n i : ℕ) (rules : List Rule) where
    remove_loop-none : get_elem? rules i ≡ none → remove_loop test (suc n) i rules ≡ rules
    unfolding remove_loop
    remove_loop-none e = rw (e, remove_loop) refl

    remove_loop-hit :
        (r : Rule)
        → get_elem? rules i ≡ some r
        → test r ≡ true
        → remove_loop test (suc n) i rules ≡ remove_loop test n (suc i) (remove_at i rules)
    unfolding remove_loop
    remove_loop-hit r e h = rw (e, remove_loop) (rw (h, remove_loop) refl)

    remove_loop-miss :
        (r : Rule)
        → get_elem? rules i ≡ some r
        → test r ≡ false
        → remove_loop test (suc n) i rules ≡ remove_loop test n (suc i) rules
    unfolding remove_loop
    remove_loop-miss r e h = rw (e, remove_loop) (rw (h, remove_loop) refl)

  -- Past the end of the list the loop stops.
  remove_loop-past : (n : ℕ) (xs : List Rule) → remove_loop test n (suc (length xs)) xs ≡ xs
  unfolding remove_loop
  remove_loop-past zero xs = refl
  remove_loop-past (suc n) xs = remove_loop-none n (suc (length xs)) xs (get_elem?-past xs)

  -- The loop, begun behind `xs`, leaves `xs` alone and does the rest as the recursion does.
  module _ (n : ℕ) (xs : List Rule) (r : Rule) where
    shift :
        (ys zs : List Rule)
        → remove_loop test n (length (xs ++ r ∷ [])) ((xs ++ r ∷ []) ++ ys) ≡ (xs ++ r ∷ []) ++ zs
        → remove_loop test n (suc (length xs)) (xs ++ r ∷ ys) ≡ xs ++ r ∷ zs
    shift ys zs h =
        subst (λ l. remove_loop test n (suc (length xs)) l ≡ xs ++ r ∷ zs) (snoc-append xs r ys)
          (subst (λ k. remove_loop test n k ((xs ++ r ∷ []) ++ ys) ≡ xs ++ r ∷ zs)
            (length-snoc xs r) (h ∙ snoc-append xs r zs))

  remove_loop_lem :
      (n : ℕ) (xs ys : List Rule)
      → length ys ≤ n
      → remove_loop test n (length xs) (xs ++ ys) ≡ xs ++ skip_removed ys
  unfolding skip_removed
  remove_loop_lem zero xs [] h = unfold remove_loop in refl
  remove_loop_lem zero xs (y ∷ ys) h = absurd (omega arith)
  remove_loop_lem (suc n) xs [] h =
      remove_loop-none n (length xs) (xs ++ []) (get_elem?-append xs [])
  remove_loop_lem (suc n) xs (r ∷ []) h = elim (Bool-cases (test r)) [
    | inl e ↦ rw e (
        remove_loop-hit n (length xs) (xs ++ r ∷ []) r (get_elem?-append xs (r ∷ [])) e
        ∙ rw (remove_at-append xs [] r, append-nil xs) (remove_loop-past n xs))
    | inr e ↦ rw e (
        remove_loop-miss n (length xs) (xs ++ r ∷ []) r (get_elem?-append xs (r ∷ [])) e
        ∙ shift n xs r [] [] (remove_loop_lem n (xs ++ r ∷ []) [] (omega arith)))
  ]
  remove_loop_lem (suc n) xs (r ∷ s ∷ ys) h = elim (Bool-cases (test r)) [
    | inl e ↦ rw e (
        remove_loop-hit n (length xs) (xs ++ r ∷ s ∷ ys) r (get_elem?-append xs (r ∷ s ∷ ys)) e
        ∙ rw (remove_at-append xs (s ∷ ys) r)
            (shift n xs s ys (skip_removed ys) (remove_loop_lem n (xs ++ s ∷ []) ys (omega arith))))
    | inr e ↦ rw e (
        remove_loop-miss n (length xs) (xs ++ r ∷ s ∷ ys) r (get_elem?-append xs (r ∷ s ∷ ys)) e
        ∙ shift n xs r (s ∷ ys) (skip_removed (s ∷ ys))
            (remove_loop_lem n (xs ++ r ∷ []) (s ∷ ys) (omega arith)))
  ]

  -- The loop ends within as many rounds as there are rules, and leaves what the recursion leaves.
  pub removed-eq-skip_removed : (rules : List Rule) → removed test rules ≡ skip_removed rules
  unfolding removed
  removed-eq-skip_removed rules = remove_loop_lem (length rules) [] rules (omega arith)

  -- If no two rules that match stand side by side, the loop of `fw_forward_delete` leaves exactly
  -- the rules that do not match, in their order.
  pub removed-eq-filter :
      (rules : List Rule)
      → NoneAdjacent rules
      → removed test rules ≡ filter (λ r. not (test r)) rules
  removed-eq-filter rules w = removed-eq-skip_removed rules ∙ skip_removed-eq-filter rules w

  -- The first two rules that match, side by side: the loop takes the first one, and leaves the
  -- second one in the list.
  pub removed-skips :
      (xs : List Rule) (r s : Rule) (rules : List Rule)
      → any test xs ≡ false
      → test r ≡ true
      → removed test (xs ++ r ∷ s ∷ rules) ≡ xs ++ s ∷ skip_removed rules
  removed-skips xs r s rules h e =
      removed-eq-skip_removed (xs ++ r ∷ s ∷ rules) ∙ skip_removed-skips xs r s rules h e
