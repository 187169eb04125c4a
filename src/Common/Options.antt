-- ===== src/Common/Options.antt =====
-- A chain of steps that may run out of fuel.
use mathlib.Core.Path.{◌≡◌, refl}
use mathlib.Core.Option.{Option, none, some}

infixl 5 ◌>>=◌
abbrev pub ◌>>=◌ {ℓ κ} : {A : Type ℓ} {B : Type κ} → Option A → (A → Option B) → Option B
none >>= f = none
some a >>= f = f a

pub >>=_ext {ℓ κ} :
    {A : Type ℓ} {B : Type κ} (r : Option A) {f g : A → Option B}
    → ((a : A) → f a ≡ g a)
    → (r >>= f) ≡ (r >>= g)
>>=_ext none same = refl
>>=_ext (some a) same = same a

pub >>=_assoc {ℓ κ μ} :
    {A : Type ℓ} {B : Type κ} {C : Type μ} (r : Option A) (f : A → Option B) (g : B → Option C)
    → ((r >>= f) >>= g) ≡ (r >>= λ a. f a >>= g)
>>=_assoc none f g = refl
>>=_assoc (some a) f g = refl
