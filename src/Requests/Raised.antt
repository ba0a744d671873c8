-- ===== src/Requests/Raised.antt =====
-- How a call that may raise comes to return.
use herdres.Prelude.{Bool, ap, false, refl, true, ◌≡◌}
use herdres.Requests.Lifecycle.{write}
use herdres.Requests.Types.{Raises, Request, check, corrupt_store, returns, value_error, ◌>>◌}

pub check-returns {ℓ} :
    {A : Type ℓ} (b : Bool) (m : Raises A) (a : A)
    → (check b >> m) ≡ returns a
    → (b ≡ true) × (m ≡ returns a)
check-returns true m a h = (refl, h)
check-returns false m a h = cc

returned_or {ℓ} : {A : Type ℓ} → A → Raises A → A
returned_or d (returns a) = a
returned_or d value_error = d
returned_or d corrupt_store = d

pub returns-injective {ℓ} : {A : Type ℓ} (a b : A) → returns a ≡ returns b → a ≡ b
unfolding returned_or
returns-injective a b h = ap (returned_or a) h

-- What holds of the record before the call, and of what a call that returned writes, holds after.
pub write-kept :
    {A : Type 0} (P : Request → Type 0) (r : Request) (m : Raises A) (f : A → Request)
    → P r
    → ((a : A) → m ≡ returns a → P (f a))
    → P (write r m f).1
write-kept P r (returns b) f p q = q b refl
write-kept P r value_error f p q = p
write-kept P r corrupt_store f p q = p
