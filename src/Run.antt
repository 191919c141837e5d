-- ===== src/Run.antt =====
-- Runs of C code over a state: a result with the new state, an access outside an object (which C
-- leaves undefined), or a loop that has used up its fuel.
use ec440_projects.Prelude.{◌≡◌, ◌≢◌, refl, subst, Bool, true, false}

pub data Run {ℓ} (A : Type ℓ) : Type ℓ where
  done : A → Run A
  fault : Run A
  out_of_fuel : Run A

abbrev pub and_then {ℓ κ} : {A : Type ℓ} {B : Type κ} → Run A → (A → Run B) → Run B
and_then (done a) k = k a
and_then fault k = fault
and_then out_of_fuel k = out_of_fuel

infixl 5 ◌>>=◌
abbrev pub ◌>>=◌ {ℓ κ} : {A : Type ℓ} {B : Type κ} → Run A → (A → Run B) → Run B
m >>= k = and_then m k

-- An access to an array of which only the indices with `inside` exist.
abbrev pub access {ℓ} : {A : Type ℓ} → Bool → A → Run A
access true a = done a
access false a = fault

-- The run of an error branch, or of the rest of the function.
abbrev pub on {ℓ} : {A : Type ℓ} → Bool → Run A → Run A → Run A
on true a b = a
on false a b = b

-- Inversion of a run that is done.
>>=-done {ℓ κ} :
    {A : Type ℓ} {B : Type κ} (m : Run A) (k : A → Run B) {b : B}
    → (m >>= k) ≡ done b
    → (a : A) × (m ≡ done a) × (k a ≡ done b)
>>=-done (done a) k h = (a, refl, h)
>>=-done fault k h = cc
>>=-done out_of_fuel k h = cc

pub done_injective {ℓ} : {A : Type ℓ} (a b : A) → done a ≡ done b → a ≡ b
done_injective a b e = cc

-- A run that is done has `P`; one that is not is left aside.
pub data Keeps {ℓ κ} {A : Type ℓ} (P : A → Type κ) : Run A → Type (ℓ ⊔ κ) where
  kept : {a : A} → P a → Keeps P (done a)
  faulted : Keeps P fault
  endless : Keeps P out_of_fuel

module _ {ℓ κ} {A : Type ℓ} {P : A → Type κ} where
  pub Keeps-on :
      (b : Bool) (m n : Run A)
      → (b ≡ true → Keeps P m)
      → (b ≡ false → Keeps P n)
      → Keeps P (on b m n)
  Keeps-on true m n f g = f refl
  Keeps-on false m n f g = g refl

  pub Keeps-access {ι} :
      {B : Type ι} (b : Bool) (x : B) (k : B → Run A)
      → (b ≡ true → Keeps P (k x))
      → Keeps P (access b x >>= k)
  Keeps-access true x k f = f refl
  Keeps-access false x k f = faulted

  pub Keeps-bind {ι} :
      {B : Type ι} (m : Run B) (b : B) (k : B → Run A)
      → m ≡ done b
      → Keeps P (k b)
      → Keeps P (m >>= k)
  Keeps-bind m b k e p = rw e p

  -- A run that goes on from a result with `Q`.
  pub Keeps-then {ι μ} :
      {B : Type ι} {Q : B → Type μ} (m : Run B) (k : B → Run A)
      → Keeps Q m
      → ((b : B) → Q b → Keeps P (k b))
      → Keeps P (m >>= k)
  Keeps-then (done b) k (kept q) f = f b q
  Keeps-then fault k faulted f = faulted
  Keeps-then out_of_fuel k endless f = endless

  -- A run that goes on in the same way from every result.
  pub Keeps-any {ι} :
      {B : Type ι} (m : Run B) (k : B → Run A) → ((b : B) → Keeps P (k b)) → Keeps P (m >>= k)
  Keeps-any (done b) k f = f b
  Keeps-any fault k f = faulted
  Keeps-any out_of_fuel k f = endless

  -- What a run that is done keeps.
  pub Keeps-done : {a : A} {m : Run A} → Keeps P m → m ≡ done a → P a
  Keeps-done {a} (kept {a = b} p) e = subst P (done_injective b a e) p
  Keeps-done faulted e = cc
  Keeps-done endless e = cc

pub Keeps-map {ℓ κ μ} :
    {A : Type ℓ} {P : A → Type κ} {Q : A → Type μ} {m : Run A}
    → ((a : A) → P a → Q a)
    → Keeps P m
    → Keeps Q m
Keeps-map f (kept {a} p) = kept (f a p)
Keeps-map f faulted = faulted
Keeps-map f endless = endless

-- A run that returns or faults, and so does not run for ever.
pub data Ends {ℓ} {A : Type ℓ} : Run A → Type ℓ where
  returns : {a : A} → Ends (done a)
  faults : Ends fault

pub Ends-of_ne {ℓ} : {A : Type ℓ} (m : Run A) → m ≢ out_of_fuel → Ends m
Ends-of_ne (done a) h = returns
Ends-of_ne fault h = faults
Ends-of_ne out_of_fuel h = absurd (h refl)

pub Ends-on {ℓ} : {A : Type ℓ} (b : Bool) (m n : Run A) → Ends m → Ends n → Ends (on b m n)
Ends-on true m n p q = p
Ends-on false m n p q = q

pub Ends-access {ℓ} : {A : Type ℓ} (b : Bool) (a : A) → Ends (access b a)
Ends-access true a = returns
Ends-access false a = faults

pub Ends-bind {ℓ κ} :
    {A : Type ℓ} {B : Type κ} (m : Run B) (k : B → Run A)
    → Ends m
    → ((b : B) → Ends (k b))
    → Ends (m >>= k)
Ends-bind (done b) k returns f = f b
Ends-bind fault k faults f = faults
Ends-bind out_of_fuel k h f = elim h [ ]

pub Ends-then {ℓ κ μ} :
    {A : Type ℓ} {B : Type κ} {Q : B → Type μ} (m : Run B) (k : B → Run A)
    → Keeps Q m
    → Ends m
    → ((b : B) → Q b → Ends (k b))
    → Ends (m >>= k)
Ends-then (done b) k (kept q) e f = f b q
Ends-then fault k q e f = faults
Ends-then out_of_fuel k q e f = elim e [ ]
