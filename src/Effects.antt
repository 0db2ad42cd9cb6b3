-- ===== src/Effects.antt =====
-- The effects of C++ code that changes global variables, may end the process, and may do what C++ leaves
-- undefined; and the rules for sequences of such code.
use user_level_threads_libra.Prelude.{◌≡◌, refl, ap, ◌∙◌, ℤ}

pub data Result {ℓ} (S : Type 0) (A : Type ℓ) : Type ℓ where
  ok : A → S → Result S A
  exited : ℤ → S → Result S A
  undefined : Result S A

infixl 5 ◌>>=◌
abbrev pub ◌>>=◌ : {S A B : Type 0} → (S → Result S A) → (A → S → Result S B) → S → Result S B
◌>>=◌ m f s = elim (m s) [ ok a t ↦ f a t | exited c t ↦ exited c t | undefined ↦ undefined ]

-- A result after which `P` holds, with what an exit of the process and undefined behaviour stand for.
abbrev pub Outcome {ℓ} :
    {S : Type 0} {A : Type ℓ} (E U : Type 0) → (A → S → Type 0) → Result S A → Type 0
Outcome E U P (ok a s) = P a s
Outcome E U P (exited c s) = E
Outcome E U P undefined = U

-- An exit is allowed, undefined behaviour is not.
abbrev pub Ensures {ℓ} : {S : Type 0} {A : Type ℓ} → (A → S → Type 0) → Result S A → Type 0
Ensures P r = Outcome (Unit {0}) ⊥ P r

-- If the call comes to an end, `P` holds.
abbrev pub Yields {ℓ} : {S : Type 0} {A : Type ℓ} → (A → S → Type 0) → Result S A → Type 0
Yields P r = Outcome (Unit {0}) (Unit {0}) P r

-- The process does not exit.
abbrev pub Stays {ℓ} : {S : Type 0} {A : Type ℓ} → Result S A → Type 0
Stays r = Outcome ⊥ (Unit {0}) (λ _ _. Unit {0}) r

-- The call comes to an end, and `P` holds.
abbrev pub Returns {ℓ} : {S : Type 0} {A : Type ℓ} → (A → S → Type 0) → Result S A → Type 0
Returns P r = Outcome ⊥ ⊥ P r

pub bind-Outcome :
    {S A B : Type 0} (E U : Type 0) (P : A → S → Type 0) (Q : B → S → Type 0) (m : (S → Result S A))
    (f : A → S → Result S B) (s : S)
    → Outcome E U P (m s)
    → ((a : A) (t : S) → P a t → Outcome E U Q (f a t))
    → Outcome E U Q ((m >>= f) s)
bind-Outcome {S} {A} {B} E U P Q m f s first rest = go (m s) first
  where
    go :
        (r : Result S A)
        → Outcome E U P r
        → Outcome E U Q
            (elim r [ ok a t ↦ f a t | exited c t ↦ exited c t | undefined ↦ undefined ])
    go (ok a t) h = rest a t h
    go (exited c t) h = h
    go undefined h = h

pub bind-Ensures :
    {S A B : Type 0} (P : A → S → Type 0) (Q : B → S → Type 0) (m : (S → Result S A))
    (f : A → S → Result S B) (s : S)
    → Ensures P (m s)
    → ((a : A) (t : S) → P a t → Ensures Q (f a t))
    → Ensures Q ((m >>= f) s)
bind-Ensures = bind-Outcome (Unit {0}) ⊥

pub bind-Yields :
    {S A B : Type 0} (P : A → S → Type 0) (Q : B → S → Type 0) (m : (S → Result S A))
    (f : A → S → Result S B) (s : S)
    → Yields P (m s)
    → ((a : A) (t : S) → P a t → Yields Q (f a t))
    → Yields Q ((m >>= f) s)
bind-Yields = bind-Outcome (Unit {0}) (Unit {0})

pub bind-Stays :
    {S A B : Type 0} (m : (S → Result S A)) (f : A → S → Result S B) (s : S)
    → Stays (m s)
    → ((a : A) (t : S) → Stays (f a t))
    → Stays ((m >>= f) s)
bind-Stays m f s first rest =
    bind-Outcome ⊥ (Unit {0}) (λ _ _. Unit {0}) (λ _ _. Unit {0}) m f s first (λ a t _. rest a t)

-- No undefined behaviour, no exit and a partial property make a total one.
pub Returns-Ensures :
    {S A : Type 0} (P Q : A → S → Type 0) (r : Result S A)
    → Ensures P r
    → Stays r
    → Yields Q r
    → Returns (λ a t. P a t × Q a t) r
Returns-Ensures P Q (ok a t) e s y = (e, y)
Returns-Ensures P Q (exited c t) e s y = s
Returns-Ensures P Q undefined e s y = e

pub Returns-mono :
    {S A : Type 0} (P Q : A → S → Type 0) (r : Result S A)
    → Returns P r
    → ((a : A) (t : S) → P a t → Q a t)
    → Returns Q r
Returns-mono P Q (ok a t) h f = f a t h
Returns-mono P Q (exited c t) h f = h
Returns-mono P Q undefined h f = h

-- A first step whose result is known.
pub step-Ensures :
    {S A B : Type 0} (Q : B → S → Type 0) (m : (S → Result S A)) (f : A → S → Result S B) (s : S)
    {a : A} {t : S}
    → m s ≡ ok a t
    → Ensures Q (f a t)
    → Ensures Q ((m >>= f) s)
step-Ensures Q m f s {a} {t} e h =
    bind-Ensures (λ b r. (b ≡ a) × (r ≡ t)) Q m f s (rw e (refl, refl)) (λ b r p. rw (p.0, p.1) h)

-- A result satisfies what is ensured of it, and is the result.
pub Ensures-eq :
    {S A : Type 0} (P : A → S → Type 0) (r : Result S A)
    → Ensures P r
    → Ensures (λ a t. P a t × (r ≡ ok a t)) r
Ensures-eq P (ok a t) h = (h, refl)
Ensures-eq P (exited c t) h = tt
Ensures-eq P undefined h = h

pub bind-eq :
    {S A B : Type 0} (m : (S → Result S A)) (f : A → S → Result S B) (s : S) {a : A} {t : S}
    {r : Result S B}
    → m s ≡ ok a t
    → f a t ≡ r
    → (m >>= f) s ≡ r
bind-eq {S} {A} {B} m f s e h = ap continue e ∙ h
  where
    continue : Result S A → Result S B
    continue x = elim x [ ok a t ↦ f a t | exited c t ↦ exited c t | undefined ↦ undefined ]

pub Returns-bind-eq :
    {S A B : Type 0} (Q : B → S → Type 0) (m : (S → Result S A)) (f : A → S → Result S B) (s : S)
    (a : A) (t : S)
    → m s ≡ ok a t
    → Returns Q (f a t)
    → Returns Q ((m >>= f) s)
Returns-bind-eq Q m f s a t e h =
    bind-Outcome ⊥ ⊥ (λ b r. (b ≡ a) × (r ≡ t)) Q m f s (rw e (refl, refl))
      (λ b r p. rw (p.0, p.1) h)

pub Ensures-mono :
    {S A : Type 0} (P Q : A → S → Type 0) (r : Result S A)
    → Ensures P r
    → ((a : A) (t : S) → P a t → Q a t)
    → Ensures Q r
Ensures-mono P Q (ok a t) h f = f a t h
Ensures-mono P Q (exited c t) h f = h
Ensures-mono P Q undefined h f = h

pub Yields-mono :
    {S A : Type 0} (P Q : A → S → Type 0) (r : Result S A)
    → Yields P r
    → ((a : A) (t : S) → P a t → Q a t)
    → Yields Q r
Yields-mono P Q (ok a t) h f = f a t h
Yields-mono P Q (exited c t) h f = h
Yields-mono P Q undefined h f = h

pub bind-undefined :
    {S A B : Type 0} (m : S → Result S A) (f : A → S → Result S B) (s : S)
    → m s ≡ undefined
    → (m >>= f) s ≡ undefined
bind-undefined {S} {A} {B} m f s e = ap continue e
  where
    continue : Result S A → Result S B
    continue x = elim x [ ok a t ↦ f a t | exited c t ↦ exited c t | undefined ↦ undefined ]
