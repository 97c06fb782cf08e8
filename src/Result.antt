-- ===== src/Result.antt =====
-- The exceptions of the actors and the actions that raise them. What was written before a raise
-- stays written, so the state comes back beside the error too.
use openvcloud.Prelude.{
  ◌≡◌, refl, ap, sym, subst, ◌⊎◌, inl, inr, Bool, true, false, Option, none, some,
}

-- JumpScale.portal.portal.exceptions, and `python_error` for what the interpreter or a library
-- raises (a missing key, an unbound local, an object that is not in the store).
pub data Error : Type 0 where
  bad_request not_found forbidden conflict service_unavailable precondition_failed python_error :
      Error

pub data Result {ℓ} (A : Type ℓ) : Type ℓ where
  ok : A → Result A
  err : Error → Result A

abbrev pub bind {ℓ κ} : {A : Type ℓ} {B : Type κ} → Result A → (A → Result B) → Result B
bind (ok a) f = f a
bind (err e) f = err e

abbrev pub is_ok {ℓ} : {A : Type ℓ} → Result A → Bool
is_ok (ok a) = true
is_ok (err e) = false

pub Result-cases {ℓ} :
    {A : Type ℓ} (r : Result A) → ((a : A) × (r ≡ ok a)) ⊎ ((e : Error) × (r ≡ err e))
Result-cases (ok a) = inl (a, refl)
Result-cases (err e) = inr (e, refl)

abbrev pub Exec {ℓ} : Type ℓ → Type ℓ → Type ℓ
Exec S A = S → Result A × S

module _ {ℓ} {S A : Type ℓ} where
  abbrev pub pure : A → Exec S A
  pure a s = (ok a, s)

  abbrev pub raise : Error → Exec S A
  raise e s = (err e, s)

  abbrev pub lift : Result A → Exec S A
  lift r s = (r, s)

  abbrev pub gets : (S → A) → Exec S A
  gets f s = (ok (f s), s)

  -- What the action needs is there, or it raises.
  abbrev pub or_raise : Option A → Error → Exec S A
  or_raise none e s = (err e, s)
  or_raise (some a) e s = (ok a, s)

  -- `try: m except: h`
  abbrev pub rescue : Result A → (Error → Exec S A) → Exec S A
  rescue (ok a) h s = (ok a, s)
  rescue (err e) h s = h e s

module _ {ℓ} {S : Type ℓ} where
  abbrev pub modify : (S → S) → Exec S (Unit {ℓ})
  modify f s = (ok tt, f s)

  abbrev pub raise_if : Bool → Error → Exec S (Unit {ℓ})
  raise_if true e s = (err e, s)
  raise_if false e s = (ok tt, s)

module _ {ℓ} {S A B : Type ℓ} where
  abbrev pub continue : Result A → (A → Exec S B) → Exec S B
  continue (ok a) f s = f a s
  continue (err e) f s = (err e, s)

  infixl 10 ◌>>=◌ ◌>>◌
  abbrev pub ◌>>=◌ : Exec S A → (A → Exec S B) → Exec S B
  ◌>>=◌ m f s = let (r, s') = m s in continue r f s'

  abbrev pub ◌>>◌ : Exec S A → Exec S B → Exec S B
  m >> n = m >>= λ _. n

  -- Inversion of a successful sequence.
  pub >>=-eq-ok :
      (m : Exec S A) (f : A → Exec S B) (s : S) (b : B)
      → ((m >>= f) s).0 ≡ ok b
      → (a : A) × ((m s).0 ≡ ok a) × ((f a (m s).1).0 ≡ ok b)
  >>=-eq-ok m f s b = go (m s)
    where
      go :
          (r : Result A × S)
          → (continue r.0 f r.1).0 ≡ ok b
          → (a : A) × (r.0 ≡ ok a) × ((f a r.1).0 ≡ ok b)
      go (ok a, s') h = (a, refl, h)
      go (err e, s') h = cc

-- A property of the state holds after a sequence if it holds after its first action, and if the rest
-- keeps it.
pub bind_keeps {ℓ} :
    {S A B : Type ℓ} (P : S → Type 0) (m : Exec S A) (f : A → Exec S B) (s : S)
    → P (m s).1
    → ((a : A) (t : S) → m s ≡ (ok a, t) → P t → P (f a t).1)
    → P ((m >>= f) s).1
bind_keeps {S = S} {A = A} P m f s h next = go (m s).0 (m s).1 h next
  where
    go :
        (r : Result A) (t : S)
        → P t
        → ((a : A) (u : S) → (let x : Result A × S = (r, t) in x) ≡ (ok a, u) → P u → P (f a u).1)
        → P (continue r f t).1
    go (ok a) t p n = n a t refl p
    go (err e) t p n = p

pub raise_if_same {ℓ} : {S : Type ℓ} (b : Bool) (e : Error) (s : S) → (raise_if b e s).1 ≡ s
raise_if_same true e s = refl
raise_if_same false e s = refl

pub or_raise_same {ℓ} : {S A : Type ℓ} (o : Option A) (e : Error) (s : S) → (or_raise o e s).1 ≡ s
or_raise_same none e s = refl
or_raise_same (some a) e s = refl

pub bind_assoc {ℓ} :
    {S A B C : Type ℓ} (m : Exec S A) (f : A → Exec S B) (g : B → Exec S C) (s : S)
    → ((m >>= f) >>= g) s ≡ (m >>= λ a. f a >>= g) s
bind_assoc {S = S} {A = A} m f g s = go (m s)
  where
    go :
        (p : Result A × S)
        → continue (continue p.0 f p.1).0 g (continue p.0 f p.1).1
          ≡ continue p.0 (λ a. f a >>= g) p.1
    go (ok a, t) = refl
    go (err e, t) = refl

module _ {ℓ} {S A : Type ℓ} where
  -- What two outcomes that are the same consist of.
  pub same_ok :
      {a b : A} {s t : S} → (let x : Result A × S = (ok a, s) in x) ≡ (ok b, t) → (a ≡ b) × (s ≡ t)
  same_ok e = (cc, cc)

  pub err_not_ok :
      {e : Error} {b : A} {s t : S} → ¬ ((let x : Result A × S = (err e, s) in x) ≡ (ok b, t))
  err_not_ok e = cc

pub or_raise_ok {ℓ} :
    {S A : Type ℓ} (o : Option A) (e : Error) (s t : S) (a : A)
    → or_raise o e s ≡ (ok a, t)
    → (o ≡ some a) × (s ≡ t)
or_raise_ok none e s t a h = absurd (err_not_ok h)
or_raise_ok (some b) e s t a h = let (p, q) = same_ok h in (ap some p, q)

pub raise_if_ok {ℓ} :
    {S : Type ℓ} (b : Bool) (e : Error) (s t : S) (x : Unit {ℓ})
    → raise_if b e s ≡ (ok x, t)
    → (b ≡ false) × (s ≡ t)
raise_if_ok true e s t x h = absurd (err_not_ok h)
raise_if_ok false e s t x h = (refl, (same_ok h).1)

-- A sequence that succeeds: its first action does, and then the rest.
pub bind_ok {ℓ} :
    {S A B : Type ℓ} (m : Exec S A) (f : A → Exec S B) (s t : S) (b : B)
    → (m >>= f) s ≡ (ok b, t)
    → (a : A) × (u : S) × (m s ≡ (ok a, u)) × (f a u ≡ (ok b, t))
bind_ok {S = S} {A = A} m f s t b h = go (m s) h
  where
    go :
        (p : Result A × S)
        → continue p.0 f p.1 ≡ (ok b, t)
        → (a : A) × (u : S) × (p ≡ (ok a, u)) × (f a u ≡ (ok b, t))
    go (ok a, u) q = (a, u, refl, q)
    go (err e, u) q = absurd (err_not_ok q)

-- A sequence whose first action writes nothing.
pub check_outcome {ℓ} :
    {S A B : Type ℓ} (P : Result B × S → Type 0) (m : Exec S A) (f : A → Exec S B) (s : S)
    → (m s).1 ≡ s
    → ((e : Error) → P (err e, s))
    → ((a : A) → (m s).0 ≡ ok a → P (f a s))
    → P ((m >>= f) s)
check_outcome {S = S} {A = A} P m f s same stop next = go (m s).0 (m s).1 same next
  where
    go : (r : Result A) (t : S) → t ≡ s → ((a : A) → r ≡ ok a → P (f a s)) → P (continue r f t)
    go (ok a) t q n = subst (λ u. P (f a u)) (sym q) (n a refl)
    go (err e) t q n = subst (λ u. P (err e, u)) (sym q) (stop e)

pub check_keeps {ℓ} :
    {S A B : Type ℓ} (P : S → Type 0) (m : Exec S A) (f : A → Exec S B) (s : S)
    → (m s).1 ≡ s
    → P s
    → ((a : A) → (m s).0 ≡ ok a → P (f a s).1)
    → P ((m >>= f) s).1
check_keeps P m f s same p next = check_outcome (λ o. P o.1) m f s same (λ e. p) next

pub raise_if_passed {ℓ} :
    {S : Type ℓ} (b : Bool) (e : Error) (s : S) (x : Unit {ℓ})
    → (raise_if b e s).0 ≡ ok x
    → b ≡ false
raise_if_passed true e s x h = absurd cc
raise_if_passed false e s x h = refl

pub or_raise_found {ℓ} :
    {S A : Type ℓ} (o : Option A) (e : Error) (s : S) (a : A)
    → (or_raise o e s).0 ≡ ok a
    → o ≡ some a
or_raise_found none e s a h = absurd cc
or_raise_found (some b) e s a h = ap some cc

-- The first action of a sequence is a guard or a read: the sequence stops, or goes on in the same
-- state.
module _ {ℓ} {S B : Type ℓ} (P : Result B × S → Type 0) (s : S)
    (stop : (e : Error) → P (err e, s)) where
  pub after_raise_if :
      (b : Bool) (e : Error) (f : Unit {ℓ} → Exec S B)
      → (b ≡ false → P (f tt s))
      → P ((raise_if b e >>= f) s)
  after_raise_if true e f next = stop e
  after_raise_if false e f next = next refl

  pub after_or_raise :
      {A : Type ℓ} (o : Option A) (e : Error) (f : A → Exec S B)
      → ((a : A) → o ≡ some a → P (f a s))
      → P ((or_raise o e >>= f) s)
  after_or_raise none e f next = stop e
  after_or_raise (some a) e f next = next a refl
