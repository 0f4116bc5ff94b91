-- ===== src/Prelude/Outcome.antt =====
-- What a Rust function that returns `Result` can do: return, fail with an error, or panic.
use mathlib.Core.Path.{◌≡◌, refl}

pub data Outcome (E A : Type 0) : Type 0 where
  ok : A → Outcome E A
  err : E → Outcome E A
  panic : Outcome E A

-- `?`, and a plain call, whose panic goes up.
infixl 5 ◌>>=◌ ◌>>◌
abbrev pub ◌>>=◌ : {E A B : Type 0} → Outcome E A → (A → Outcome E B) → Outcome E B
ok a >>= f = f a
err e >>= f = err e
panic >>= f = panic

abbrev pub ◌>>◌ : {E B : Type 0} → Outcome E (Unit {0}) → Outcome E B → Outcome E B
m >> k = m >>= λ _. k

-- `map_err`, and the conversion that `?` makes through `From`.
abbrev pub map_err : {E F A : Type 0} → (E → F) → Outcome E A → Outcome F A
map_err f (ok a) = ok a
map_err f (err e) = err (f e)
map_err f panic = panic

-- A bind whose first part only rearranges what it returns.
pub bind_through :
    {E S T U : Type 0} (o : Outcome E S) (k : S → T) (f : T → Outcome E U) (g : S → Outcome E U)
    → ((s : S) → f (k s) ≡ g s)
    → ((o >>= λ s. ok (k s)) >>= f) ≡ (o >>= g)
bind_through (ok s) k f g h = h s
bind_through (err e) k f g h = refl
bind_through panic k f g h = refl
