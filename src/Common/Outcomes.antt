-- ===== src/Common/Outcomes.antt =====
-- What a Python call ends with: a value, or the exception that it raises.
use mathlib.Core.Path.{◌≡◌, refl, sym, subst}
use mathlib.Core.Bool.{Bool, true, false}
use mathlib.Core.Logic.{◌⊎◌, inl, inr}
use mathlib.Core.Option.{Option, none, some}

pub data Error : Type 0 where
  value_error runtime_error index_error key_error connection_error type_error overflow_error : Error

pub data Result {ℓ} (A : Type ℓ) : Type ℓ where
  ok : A → Result A
  err : Error → Result A

-- `d[key]`, `xs[i]`: what is not there is an exception
abbrev pub or_raise {ℓ} : {A : Type ℓ} → Option A → Error → Result A
or_raise (some a) e = ok a
or_raise none e = err e

-- `if bad: raise e`
abbrev pub raise_if : Bool → Error → Result (Unit {0})
raise_if bad e = elim bad [ true ↦ err e | false ↦ ok tt ]

module _ {ℓ κ} {A : Type ℓ} {B : Type κ} where
  infixl 5 ◌>>=◌
  -- a statement and what follows it
  abbrev pub ◌>>=◌ : Result A → (A → Result B) → Result B
  first >>= later = elim first [ ok a ↦ later a | err e ↦ err e ]

  -- Of a chain that returned, each part returned.
  pub >>=-eq-ok :
      (first : Result A) (later : A → Result B) {b : B}
      → (first >>= later) ≡ ok b
      → (a : A) × (first ≡ ok a) × (later a ≡ ok b)
  >>=-eq-ok (err e) later h = cc
  >>=-eq-ok (ok a) later h = (a, refl, h)

infixl 5 ◌>>◌
abbrev pub ◌>>◌ {ℓ} : {B : Type ℓ} → Result (Unit {0}) → Result B → Result B
first >> later = first >>= λ done. later

pub Result-cases {ℓ} :
    {A : Type ℓ} (r : Result A) → ((a : A) × (r ≡ ok a)) ⊎ ((e : Error) × (r ≡ err e))
Result-cases (ok a) = inl (a, refl)
Result-cases (err e) = inr (e, refl)

-- The call returns with the property, or raises an exception for the reason that is stated.
abbrev pub ReturnsUnless {ℓ} : {A : Type ℓ} → (Error → Type 0) → (A → Type 0) → Result A → Type 0
ReturnsUnless Q P (ok a) = P a
ReturnsUnless Q P (err e) = Q e

pub unless_ok {ℓ} :
    {A : Type ℓ} (Q : Error → Type 0) (P : A → Type 0) {m : Result A} (a : A)
    → m ≡ ok a
    → P a
    → ReturnsUnless Q P m
unless_ok Q P a h p = subst (ReturnsUnless Q P) (sym h) p

pub unless_err {ℓ} :
    {A : Type ℓ} (Q : Error → Type 0) (P : A → Type 0) {m : Result A} (e : Error)
    → m ≡ err e
    → Q e
    → ReturnsUnless Q P m
unless_err Q P e h q = subst (ReturnsUnless Q P) (sym h) q

pub unless_returned {ℓ} :
    {A : Type ℓ} (Q : Error → Type 0) (P : A → Type 0) (m : Result A)
    → ((a : A) → m ≡ ok a → P a)
    → ((e : Error) → m ≡ err e → Q e)
    → ReturnsUnless Q P m
unless_returned Q P (ok a) f g = f a refl
unless_returned Q P (err e) f g = g e refl

pub ReturnsUnless-map {ℓ} :
    {A : Type ℓ} (Q : Error → Type 0) (P P' : A → Type 0) (m : Result A)
    → ((a : A) → P a → P' a)
    → ReturnsUnless Q P m
    → ReturnsUnless Q P' m
ReturnsUnless-map Q P P' (ok a) f p = f a p
ReturnsUnless-map Q P P' (err e) f p = p

pub because :
    {A : Type 0} (Q Q' : Error → Type 0) (P : A → Type 0) (m : Result A)
    → ((e : Error) → Q e → Q' e)
    → ReturnsUnless Q P m
    → ReturnsUnless Q' P m
because Q Q' P (ok a) f p = p
because Q Q' P (err e) f p = f e p

pub chained {ℓ κ} :
    {A : Type ℓ} {B : Type κ} (Q : Error → Type 0) (P : A → Type 0) (E : B → Type 0)
    (first : Result A) (later : A → Result B)
    → ReturnsUnless Q P first
    → ((a : A) → P a → ReturnsUnless Q E (later a))
    → ReturnsUnless Q E (first >>= later)
chained Q P E (ok a) later p k = k a p
chained Q P E (err e) later q k = q

-- The call returns, and the property holds of what it returns.
abbrev pub Returns {ℓ} : {A : Type ℓ} → (A → Type 0) → Result A → Type 0
Returns P (ok a) = P a
Returns P (err e) = ⊥

pub returns {ℓ} :
    {A : Type ℓ} (P : A → Type 0) {m : Result A} (a : A) → m ≡ ok a → P a → Returns P m
returns P a h p = subst (Returns P) (sym h) p

pub Returns-total {ℓ} :
    {A : Type ℓ} (P : A → Type 0) (m : Result A) → Returns P m → (a : A) × (m ≡ ok a) × P a
Returns-total P (ok a) p = (a, refl, p)
Returns-total P (err e) p = absurd p

-- The call returns with the property, or raises ValueError.
abbrev pub Checked {ℓ} : {A : Type ℓ} → (A → Type 0) → Result A → Type 0
Checked P (ok a) = P a
Checked P (err value_error) = Unit
Checked P (err _) = ⊥

-- After a test of the input, the property may rest on the test.
pub raise_if-Checked {ℓ} :
    {A : Type ℓ} (P : A → Type 0) (bad : Bool) (later : Result A)
    → (bad ≡ false → Checked P later)
    → Checked P (raise_if bad value_error >> later)
raise_if-Checked P true later k = tt
raise_if-Checked P false later k = k refl

-- A call that may raise ValueError, and what follows it.
pub >>=-Checked {ℓ κ} :
    {A : Type ℓ} {B : Type κ} (Q : A → Type 0) (P : B → Type 0) (first : Result A)
    (later : A → Result B)
    → Checked Q first
    → ((a : A) → first ≡ ok a → Q a → Checked P (later a))
    → Checked P (first >>= later)
>>=-Checked Q P (ok a) later q k = k a refl q
>>=-Checked Q P (err value_error) later q k = tt
>>=-Checked Q P (err _) later q k = absurd q

pub or_raise-Checked :
    {A : Type 0} (o : Option A) → Checked (λ a. o ≡ some a) (or_raise o value_error)
or_raise-Checked (some a) = refl
or_raise-Checked none = tt

pub Checked-map {ℓ} :
    {A : Type ℓ} (P Q : A → Type 0) (r : Result A)
    → ((a : A) → r ≡ ok a → P a → Q a)
    → Checked P r
    → Checked Q r
Checked-map P Q (ok a) f p = f a refl p
Checked-map P Q (err value_error) f p = tt
Checked-map P Q (err _) f p = absurd p

pub Checked-ok {ℓ} :
    {A : Type ℓ} (P : A → Type 0) (r : Result A) (a : A) → Checked P r → r ≡ ok a → P a
Checked-ok P r a h e = subst (Checked P) e h

-- The call returns with the property, or raises ValueError or OverflowError.
abbrev pub Loads {ℓ} : {A : Type ℓ} → (A → Type 0) → Result A → Type 0
Loads P (ok a) = P a
Loads P (err value_error) = Unit
Loads P (err overflow_error) = Unit
Loads P (err _) = ⊥

-- After a test of the input, the property may rest on the test.
pub raise_if-Loads {ℓ} :
    {A : Type ℓ} (P : A → Type 0) (bad : Bool) (later : Result A)
    → (bad ≡ false → Loads P later)
    → Loads P (raise_if bad value_error >> later)
raise_if-Loads P true later k = tt
raise_if-Loads P false later k = k refl

-- A call that may raise ValueError, and what follows it.
pub >>=-Loads {ℓ κ} :
    {A : Type ℓ} {B : Type κ} (Q : A → Type 0) (P : B → Type 0) (first : Result A)
    (later : A → Result B)
    → Loads Q first
    → ((a : A) → first ≡ ok a → Q a → Loads P (later a))
    → Loads P (first >>= later)
>>=-Loads Q P (ok a) later q k = k a refl q
>>=-Loads Q P (err value_error) later q k = tt
>>=-Loads Q P (err overflow_error) later q k = tt
>>=-Loads Q P (err _) later q k = absurd q

pub or_raise-Loads : {A : Type 0} (o : Option A) → Loads (λ a. o ≡ some a) (or_raise o value_error)
or_raise-Loads (some a) = refl
or_raise-Loads none = tt

pub Loads-map {ℓ} :
    {A : Type ℓ} (P Q : A → Type 0) (r : Result A)
    → ((a : A) → r ≡ ok a → P a → Q a)
    → Loads P r
    → Loads Q r
Loads-map P Q (ok a) f p = f a refl p
Loads-map P Q (err value_error) f p = tt
Loads-map P Q (err overflow_error) f p = tt
Loads-map P Q (err _) f p = absurd p

pub Loads-ok {ℓ} : {A : Type ℓ} (P : A → Type 0) (r : Result A) (a : A) → Loads P r → r ≡ ok a → P a
Loads-ok P r a h e = subst (Loads P) e h

pub Loads-Checked {ℓ} : {A : Type ℓ} (P : A → Type 0) (r : Result A) → Checked P r → Loads P r
Loads-Checked P (ok a) p = p
Loads-Checked P (err value_error) p = tt
Loads-Checked P (err _) p = absurd p
