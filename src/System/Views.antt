-- ===== src/System/Views.antt =====
-- Actions that leave a part of the world as it is, with a rule for each way to build one.
use micro_config_drive.Base.{
  Bytes, List, Option, none, some, Bool, true, false, if◌then◌else◌, ◌≡◌, refl, ◌∙◌, ap,
}
use micro_config_drive.System.{Os, Call, Flag, Trace}
use micro_config_drive.System.Drive.{Drive, Task}
use micro_config_drive.System.Io.{World, Io, ◌>>=◌, ◌>>◌, pure, call, open_path}
use micro_config_drive.System.Calls.{OnlyCalls}

pub record Keeps {X A : Type 0} (view : World → X) (m : Io A) : Type 0 where
  pub same : (w : World) → view (m w).1 ≡ view w

-- The parts that are spoken of.
abbrev pub the_vars : World → Drive
the_vars w = w.drive

abbrev pub the_pool : World → List Task × List Task × List Task
the_pool w = (w.pushed, w.taken, w.ran)

module _ {X : Type 0} {view : World → X} where
  pub Keeps-pure : {A : Type 0} (a : A) → Keeps view (pure a)
  Keeps-pure a = record { same = λ w. refl }

  pub Keeps-bind :
      {A B : Type 0} (m : Io A) (f : A → Io B)
      → Keeps view m
      → ((a : A) → Keeps view (f a))
      → Keeps view (m >>= f)
  Keeps-bind m f p q = record { same = λ w. let (a, v) = m w in (q a).same v ∙ p.same w }

  pub Keeps-seq :
      {A B : Type 0} {m : Io A} {k : Io B} → Keeps view m → Keeps view k → Keeps view (m >> k)
  Keeps-seq {m} {k} p q = Keeps-bind m (λ _. k) p (λ _. q)

  pub Keeps-if :
      {A : Type 0} (b : Bool) (m k : Io A)
      → Keeps view m
      → Keeps view k
      → Keeps view (if b then m else k)
  Keeps-if true m k p q = p
  Keeps-if false m k p q = q

module _ {X : Type 0} {view : World → X} {A B : Type 0} where
  pub Keeps-option :
      (o : Option B) (m : Io A) (f : B → Io A)
      → Keeps view m
      → ((b : B) → Keeps view (f b))
      → Keeps view (elim o as (λ _. Io A) [ none ↦ m | some b ↦ f b ])
  Keeps-option none m f p q = p
  Keeps-option (some b) m f p q = q b

pub vars-call : {A : Type 0} (c : Call) (answer : Trace → A) → Keeps the_vars (call c answer)
vars-call c answer = record { same = λ w. refl }

pub pool-call : {A : Type 0} (c : Call) (answer : Trace → A) → Keeps the_pool (call c answer)
pool-call c answer = record { same = λ w. refl }

pub vars-open :
    (os : Os) (path : Bytes) (flags : List Flag) → Keeps the_vars (open_path os path flags)
vars-open os path flags = record { same = λ w. refl }

pub pool-open :
    (os : Os) (path : Bytes) (flags : List Flag) → Keeps the_pool (open_path os path flags)
pool-open os path flags = record { same = λ w. refl }

-- What makes calls only keeps both.
pub vars-OnlyCalls : {A : Type 0} (m : Io A) → OnlyCalls m → Keeps the_vars m
vars-OnlyCalls m p = record { same = λ w. ap the_vars (p.vars w) }

pub pool-OnlyCalls : {A : Type 0} (m : Io A) → OnlyCalls m → Keeps the_pool m
pool-OnlyCalls m p = record { same = λ w. ap the_pool (p.vars w) }

pub ruleset view_rules =
    (Keeps-pure, Keeps-bind, Keeps-seq, Keeps-if, vars-call, pool-call, vars-open, pool-open)
