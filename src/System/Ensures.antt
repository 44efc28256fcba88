-- ===== src/System/Ensures.antt =====
-- What holds of the world once an action has returned true, with a rule for each way to build one.
use micro_config_drive.Base.{Bool, true, false, if◌then◌else◌, ◌≡◌}
use micro_config_drive.System.Io.{World, Io, ◌>>=◌, ◌>>◌, pure}

pub record Ensures (P : World → Type 0) (m : Io Bool) : Type 0 where
  pub holds : (w : World) → (m w).0 ≡ true → P (m w).1

module _ {P : World → Type 0} where
  pub Ensures-false : Ensures P (pure false)
  Ensures-false = record { holds = λ w h. cc }

  pub Ensures-bind :
      {A : Type 0} (m : Io A) (f : A → Io Bool) → ((a : A) → Ensures P (f a)) → Ensures P (m >>= f)
  Ensures-bind m f p = record { holds = λ w h. let (a, v) = m w in (p a).holds v h }

  pub Ensures-seq : {A : Type 0} (m : Io A) (k : Io Bool) → Ensures P k → Ensures P (m >> k)
  Ensures-seq m k p = Ensures-bind m (λ _. k) (λ _. p)

  pub Ensures-if :
      (b : Bool) (m k : Io Bool) → Ensures P m → Ensures P k → Ensures P (if b then m else k)
  Ensures-if true m k p q = p
  Ensures-if false m k p q = q

-- What the actions before an end leave there.
pub Ensures-end :
    {P : World → Type 0} {A : Type 0} (m : Io A)
    → ((w : World) → P (m w).1)
    → Ensures P (m >> pure true)
Ensures-end m p = record { holds = λ w h. p w }

pub ruleset ensures_rules = (Ensures-false, Ensures-bind, Ensures-seq, Ensures-if)
