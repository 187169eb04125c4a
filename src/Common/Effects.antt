-- ===== src/Common/Effects.antt =====
-- Code that calls the system and may stop with an error: it takes the state of the world, and gives
-- the new one and, unless it returned a negative number, its result. What was done before an error
-- stays done.
use mathlib.Core.Path.{◌≡◌, refl}
use mathlib.Core.Option.{Option, none, some}

abbrev pub Eff : Type 0 → Type 0 → Type 0
Eff W A = W → W × Option A

module _ {W : Type 0} where
  abbrev pub pure : {A : Type 0} → A → Eff W A
  pure a w = (w, some a)

  -- `return throw_err(...)`
  abbrev pub fail : {A : Type 0} → Eff W A
  fail w = (w, none)

  -- what follows a call, given what the call left
  abbrev pub continue : {A B : Type 0} → (A → Eff W B) → W × Option A → W × Option B
  continue f (w, none) = (w, none)
  continue f (w, some a) = f a w

  infixl 5 ◌>>=◌ ◌>>◌
  abbrev pub ◌>>=◌ : {A B : Type 0} → Eff W A → (A → Eff W B) → Eff W B
  ◌>>=◌ m f w = continue f (m w)

  abbrev pub ◌>>◌ : {A B : Type 0} → Eff W A → Eff W B → Eff W B
  m >> k = m >>= λ _. k

  abbrev pub modify : (W → W) → Eff W Unit
  modify f w = (f w, some tt)

  -- a call whose error the code ignores
  abbrev pub ignore : {A : Type 0} → Eff W A → Eff W Unit
  ignore m w = ((m w).0, some tt)

  pub continue-continue :
      {A B C : Type 0} (f : A → Eff W B) (g : B → Eff W C) (r : W × Option A)
      → continue g (continue f r) ≡ continue (λ a. f a >>= g) r
  continue-continue f g (w, none) = refl
  continue-continue f g (w, some a) = refl

  pub >>=_assoc :
      {A B C : Type 0} (m : Eff W A) (f : A → Eff W B) (g : B → Eff W C) (w : W)
      → ((m >>= f) >>= g) w ≡ (m >>= λ a. f a >>= g) w
  >>=_assoc m f g w = continue-continue f g (m w)

  pub continue-pure : (r : W × Option {0} Unit) → continue (λ _. pure tt) r ≡ r
  continue-pure (w, none) = refl
  continue-pure (w, some u) = refl

  -- a property of what a call gave, from the two cases
  pub result_cases :
      {A : Type 0} (P : W × Option A → Type 0)
      → ((w : W) → P (w, none))
      → ((w : W) (a : A) → P (w, some a))
      → (r : W × Option A) → P r
  result_cases P failed went_on (w, none) = failed w
  result_cases P failed went_on (w, some a) = went_on w a

  -- continuations that agree everywhere
  pub continue_ext :
      {A B : Type 0} {f g : A → Eff W B}
      → ((a : A) (w : W) → f a w ≡ g a w)
      → (r : W × Option A) → continue f r ≡ continue g r
  continue_ext same (w, none) = refl
  continue_ext same (w, some a) = same a w
