-- ===== src/Net/Packet/Ensured.antt =====
-- What holds of a result, if there is one.
use just_for_test_and_try.Base.{◌≡◌, refl, Bool, true, false, if◌then◌else◌}
use just_for_test_and_try.Net.Packet.{Outcome, undefined, waiting, returned, ◌>>=◌}

abbrev pub Ensures {ℓ κ} : {A : Type ℓ} → (A → Type κ) → Outcome A → Type κ
Ensures P undefined = Unit
Ensures P waiting = Unit
Ensures P (returned a) = P a

pub Ensures-bind {ℓ κ μ} :
    {A : Type ℓ} {B : Type κ} (P : B → Type μ) (m : Outcome A) (f : A → Outcome B)
    → ((a : A) → m ≡ returned a → Ensures P (f a))
    → Ensures P (m >>= f)
Ensures-bind P undefined f h = tt
Ensures-bind P waiting f h = tt
Ensures-bind P (returned a) f h = h a refl

pub Ensures-if {ℓ κ} :
    {A : Type ℓ} (P : A → Type κ) (b : Bool) (m n : Outcome A)
    → Ensures P m
    → Ensures P n
    → Ensures P (if b then m else n)
Ensures-if P true m n h k = h
Ensures-if P false m n h k = k
