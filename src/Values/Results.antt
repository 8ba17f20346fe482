-- ===== src/Values/Results.antt =====
-- What a result that is a value says of its parts.
use raddy.Base.{Bool, true, false, ◌≡◌, refl}
use raddy.Values.{Text, Result, ok, err, ◌>>=◌, ◌>>◌, reject_if}

pub >>=-ok :
    {A B : Type 0} (r : Result A) (f : A → Result B) {b : B}
    → (r >>= f) ≡ ok b
    → (a : A) × (r ≡ ok a) × (f a ≡ ok b)
>>=-ok (ok a) f h = (a, refl, h)
>>=-ok (err m) f h = absurd cc

pub reject_if-ok :
    {B : Type 0} (c : Bool) (m : Text) (k : Result B) {b : B}
    → (reject_if c m >> k) ≡ ok b
    → (c ≡ false) × (k ≡ ok b)
reject_if-ok true m k h = absurd cc
reject_if-ok false m k h = (refl, h)

pub ok_inj : {A : Type 0} {a b : A} → ok a ≡ ok b → a ≡ b
ok_inj h = cc

pub reject_if-last : (c : Bool) (m : Text) → reject_if c m ≡ ok (tt {0}) → c ≡ false
reject_if-last true m h = absurd cc
reject_if-last false m h = refl
