-- ===== src/Prelude/Bools.antt =====
-- Conjunctions and disjunctions of Boolean tests, taken apart and put together.
use mathlib.Core.Path.{◌≡◌, refl}
use mathlib.Core.Bool.{Bool, true, false, not, ◌&&◌, ◌||◌}

pub and_true : (a b : Bool) → (a && b) ≡ true → (a ≡ true) × (b ≡ true)
and_true true true e = (refl, refl)
and_true true false e = absurd cc
and_true false b e = absurd cc

pub and_or_false :
    (a b c : Bool) → (a && (b || c)) ≡ false → ((a && b) ≡ false) × ((a && c) ≡ false)
and_or_false true true c e = absurd cc
and_or_false true false c e = (refl, e)
and_or_false false b c e = (refl, refl)

pub and_false_r : (a : Bool) → (a && false) ≡ false
and_false_r true = refl
and_false_r false = refl

pub or_false : (a b : Bool) → (a || b) ≡ false → (a ≡ false) × (b ≡ false)
or_false true b e = absurd cc
or_false false b e = (refl, e)

pub and_or : (a b c : Bool) → (a && b) ≡ false → (a && c) ≡ false → (a && (b || c)) ≡ false
and_or true true c e f = absurd cc
and_or true false c e f = f
and_or false b c e f = refl

pub negated : (b : Bool) → not b ≡ true → b ≡ false
negated true e = absurd cc
negated false e = refl

pub narrow : (l p q : Bool) → not (l && p) ≡ true → (p ≡ false → q ≡ false) → (l && q) ≡ false
narrow true true q a f = absurd cc
narrow true false q a f = f refl
narrow false p q a f = refl

pub both_true : (a b : Bool) → a ≡ true → b ≡ true → (a && b) ≡ true
both_true a b e f = rw (e, f) refl

pub keeps_apart :
    (l p q r : Bool)
    → not (l && p) ≡ true
    → (l && q) ≡ false
    → (p ≡ false → q ≡ false → r ≡ false)
    → not (l && r) ≡ true
keeps_apart true true q r a b f = absurd cc
keeps_apart true false q r a b f = rw (f refl b) refl
keeps_apart false p q r a b f = refl

pub add_apart :
    (l p q r : Bool) → not (l && p) ≡ true → (l && q) ≡ false → r ≡ (p || q) → not (l && r) ≡ true
add_apart true true q r a b c = absurd cc
add_apart true false true r a b c = absurd cc
add_apart true false false r a b c = rw c refl
add_apart false p q r a b c = refl
