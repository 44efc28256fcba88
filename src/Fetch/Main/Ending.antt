-- ===== src/Fetch/Main/Ending.antt =====
-- Actions of a program that may end it: `FAIL` is `exit_failure`.
use micro_config_drive.Base.{Option, none, some, Bool, true, false}
use micro_config_drive.System.{Call, Trace}
use micro_config_drive.System.Io.{World, Io, call}

-- None means that the program has called `exit (EXIT_FAILURE)`.
abbrev pub Exit : Type 0 → Type 0
Exit A = World → Option A × World

infixl 5 ◌>>=◌ ◌>>◌
unfoldable pub ◌>>=◌ : {A B : Type 0} → Exit A → (A → Exit B) → Exit B
◌>>=◌ m f w = let (a, v) = m w in elim a [ none ↦ (none, v) | some a ↦ f a v ]

unfoldable pub ◌>>◌ : {A B : Type 0} → Exit A → Exit B → Exit B
unfolding ◌>>=◌
◌>>◌ m k = m >>= (λ _. k)

abbrev pub pure : {A : Type 0} → A → Exit A
pure a w = (some a, w)

abbrev pub exit_failure : {A : Type 0} → Exit A
exit_failure w = (none, w)

abbrev pub lift : {A : Type 0} → Io A → Exit A
lift m w = let (a, v) = m w in (some a, v)

abbrev pub make : {A : Type 0} → Call → (Trace → A) → Exit A
make c answer = lift (call c answer)

-- Cleans up and ends the program where the test has failed.
unfoldable pub when_fails : Bool → Exit (Unit {0}) → Exit (Unit {0})
when_fails true cleanup w = (some tt, w)
when_fails false cleanup w = (none, (cleanup w).1)
