-- ===== src/System/Calls.antt =====
-- Actions that only make calls: they leave the static variables of the program as they are.
use micro_config_drive.Base.{
  Bytes, List, Option, none, some, Bool, true, false, if◌then◌else◌, ◌≡◌, refl, ◌∙◌, ap,
}
use micro_config_drive.System.{Os, Call, Flag, Trace}
use micro_config_drive.System.Io.{World, Io, ◌>>=◌, ◌>>◌, pure, call, open_path}

pub record OnlyCalls {A : Type 0} (m : Io A) : Type 0 where
  pub vars : (w : World) → (m w).1 ≡ record w { trace = (m w).1.trace }

pub OnlyCalls-pure : {A : Type 0} (a : A) → OnlyCalls (pure a)
OnlyCalls-pure a = record { vars = λ w. refl }

module _ {A B : Type 0} where
  pub OnlyCalls-bind :
      (m : Io A) (f : A → Io B) → OnlyCalls m → ((a : A) → OnlyCalls (f a)) → OnlyCalls (m >>= f)
  OnlyCalls-bind m f p q = record {
    vars = λ w.
        let (a, v) = m w in
        (q a).vars v ∙ ap (λ (u : World). record u { trace = (f a v).1.trace }) (p.vars w);
  }

  pub OnlyCalls-seq : {m : Io A} {k : Io B} → OnlyCalls m → OnlyCalls k → OnlyCalls (m >> k)
  OnlyCalls-seq {m} {k} p q = OnlyCalls-bind m (λ _. k) p (λ _. q)

  pub OnlyCalls-option :
      (o : Option A) (m : Io B) (f : A → Io B)
      → OnlyCalls m
      → ((a : A) → OnlyCalls (f a))
      → OnlyCalls (elim o [ none ↦ m | some a ↦ f a ])
  OnlyCalls-option none m f p q = p
  OnlyCalls-option (some a) m f p q = q a

pub OnlyCalls-if :
    {A : Type 0} (b : Bool) (m k : Io A)
    → OnlyCalls m
    → OnlyCalls k
    → OnlyCalls (if b then m else k)
OnlyCalls-if true m k p q = p
OnlyCalls-if false m k p q = q

pub OnlyCalls-call : {A : Type 0} (c : Call) (answer : Trace → A) → OnlyCalls (call c answer)
OnlyCalls-call c answer = record { vars = λ w. refl }

pub OnlyCalls-open :
    (os : Os) (path : Bytes) (flags : List Flag) → OnlyCalls (open_path os path flags)
OnlyCalls-open os path flags = record { vars = λ w. refl }

pub ruleset calls_rules = (
  OnlyCalls-pure, OnlyCalls-bind, OnlyCalls-seq, OnlyCalls-option, OnlyCalls-if, OnlyCalls-call,
  OnlyCalls-open,
)
