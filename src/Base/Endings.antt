-- ===== src/Base/Endings.antt =====
-- How a piece of C code ends: it returns, makes an access that C does not define, calls `exit`,
-- or runs on without end (the model's fuel is used up).
use mathlib.Core.Path.{◌≡◌, refl, ap, subst}
use mathlib.Core.Bool.{Bool, true, false}
use progetto_sistemi_operati.Base.Tests.{if◌then◌else◌}

pub data Outcome {ℓ} (A : Type ℓ) : Type ℓ where
  ok : A → Outcome A
  fault exited stuck : Outcome A

infixl 5 ◌>>=◌
abbrev pub ◌>>=◌ {ℓ κ} : {A : Type ℓ} {B : Type κ} → Outcome A → (A → Outcome B) → Outcome B
ok a >>= f = f a
fault >>= f = fault
exited >>= f = exited
stuck >>= f = stuck

pub >>=-eq-ok {ℓ κ} :
    {A : Type ℓ} {B : Type κ} (first : Outcome A) (then_do : A → Outcome B) {result : B}
    → (first >>= then_do) ≡ ok result
    → (value : A) × (first ≡ ok value) × (then_do value ≡ ok result)
>>=-eq-ok fault then_do e = cc
>>=-eq-ok exited then_do e = cc
>>=-eq-ok stuck then_do e = cc
>>=-eq-ok (ok value) then_do e = (value, refl, e)

-- What holds of every result of the second part holds of every result of both.
pub >>=-all {ℓ κ μ} :
    {A : Type ℓ} {B : Type κ} (P : B → Type μ) (first : Outcome A) (then_do : A → Outcome B)
    → ((a : A) (b : B) → then_do a ≡ ok b → P b)
    → (b : B) → (first >>= then_do) ≡ ok b
    → P b
>>=-all P (ok a) then_do all b e = all a b e
>>=-all P fault then_do all b e = cc
>>=-all P exited then_do all b e = cc
>>=-all P stuck then_do all b e = cc

abbrev value_or {ℓ} : {A : Type ℓ} → A → Outcome A → A
value_or a (ok b) = b
value_or a fault = a
value_or a exited = a
value_or a stuck = a

pub ok-injective {ℓ} : {A : Type ℓ} {a b : A} → ok a ≡ ok b → a ≡ b
ok-injective {a = a} e = ap (value_or a) e

-- The piece returns what fulfils `P`, or makes an undefined access: it does not run on.
abbrev pub Ends {ℓ} : {A : Type ℓ} → (A → Type 0) → Outcome A → Type 0
Ends P (ok a) = P a
Ends P fault = Unit
Ends P exited = ⊥
Ends P stuck = ⊥

pub >>=-Ends {ℓ κ} :
    {A : Type ℓ} {B : Type κ} (P : A → Type 0) (Q : B → Type 0) (first : Outcome A)
    (then_do : A → Outcome B)
    → Ends P first
    → ((a : A) → P a → Ends Q (then_do a))
    → Ends Q (first >>= then_do)
>>=-Ends P Q (ok a) then_do e next = next a e
>>=-Ends P Q fault then_do e next = tt
>>=-Ends P Q exited then_do e next = elim e [ ]
>>=-Ends P Q stuck then_do e next = elim e [ ]

pub Ends-eq :
    {A : Type 0} (P : A → Type 0) (o : Outcome A) → Ends P o → Ends (λ a. P a × (o ≡ ok a)) o
Ends-eq P (ok a) e = (e, refl)
Ends-eq P fault e = tt
Ends-eq P exited e = elim e [ ]
Ends-eq P stuck e = elim e [ ]

pub Ends-map {ℓ} :
    {A : Type ℓ} (P Q : A → Type 0) (o : Outcome A) → ((a : A) → P a → Q a) → Ends P o → Ends Q o
Ends-map P Q (ok a) stronger e = stronger a e
Ends-map P Q fault stronger e = tt
Ends-map P Q exited stronger e = elim e [ ]
Ends-map P Q stuck stronger e = elim e [ ]

-- What the piece returns, if it does, fulfils `P`.
abbrev pub Gives : {A : Type 0} → (A → Type 0) → Outcome A → Type 0
Gives P (ok a) = P a
Gives P fault = Unit
Gives P exited = Unit
Gives P stuck = Unit

pub >>=-Gives :
    {A B : Type 0} (P : A → Type 0) (Q : B → Type 0) (first : Outcome A) (then_do : A → Outcome B)
    → Gives P first
    → ((a : A) → P a → Gives Q (then_do a))
    → Gives Q (first >>= then_do)
>>=-Gives P Q (ok a) then_do g next = next a g
>>=-Gives P Q fault then_do g next = tt
>>=-Gives P Q exited then_do g next = tt
>>=-Gives P Q stuck then_do g next = tt

pub Gives-any : {A : Type 0} (o : Outcome A) → Gives (λ a. Unit) o
Gives-any (ok a) = tt
Gives-any fault = tt
Gives-any exited = tt
Gives-any stuck = tt

pub Gives-map :
    {A : Type 0} (P Q : A → Type 0) (o : Outcome A) → ((a : A) → P a → Q a) → Gives P o → Gives Q o
Gives-map P Q (ok a) weaker g = weaker a g
Gives-map P Q fault weaker g = tt
Gives-map P Q exited weaker g = tt
Gives-map P Q stuck weaker g = tt

pub if-both-Gives :
    {A : Type 0} (P : A → Type 0) (c : Bool) (x y : Outcome A)
    → Gives P x
    → Gives P y
    → Gives P (if c then x else y)
if-both-Gives P true x y on off = on
if-both-Gives P false x y on off = off

pub Gives-at : {A : Type 0} (P : A → Type 0) (o : Outcome A) {a : A} → Gives P o → o ≡ ok a → P a
Gives-at P o {a = a} g e = subst (Gives P) e g
