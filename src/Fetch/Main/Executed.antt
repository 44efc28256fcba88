-- ===== src/Fetch/Main/Executed.antt =====
-- Whether a program executes another one: rules for the actions of a program that may end it.
pub mod Loops
use mathlib.Core.List.{foldl, foldl-append}
use micro_config_drive.Base.{
  ℕ, suc, Bytes, length, Option, none, some, [], ◌∷◌, ◌++◌, Bool, true, false, ltb, ◌≡◌, ◌⊎◌, refl,
  ◌∙◌, inl, inr, Option-cases, not,
}
use micro_config_drive.System.{Os, Call, Trace, exec, write}
use micro_config_drive.System.Io.{World, Io}
use micro_config_drive.System.Io
use micro_config_drive.System.Views.{Keeps, Keeps-pure, Keeps-bind}
use micro_config_drive.Fetch.Lines.{write_all}
use micro_config_drive.Fetch.Main.Ending.{
  Exit, ◌>>=◌, ◌>>◌, pure, exit_failure, lift, make, when_fails,
}

-- The programs that have been executed in place of this one, or were to be.
abbrev count_executed : ℕ → Call → ℕ
count_executed n (exec path args) = suc n
count_executed n _ = n

abbrev pub executed : World → ℕ
executed w = foldl count_executed 0 w.trace

pub executed-call :
    {A : Type 0} (c : Call) (answer : Trace → A)
    → ((n : ℕ) → count_executed n c ≡ n)
    → Keeps executed (Io.call c answer)
executed-call c answer h = record { same = λ w. rw foldl-append (h (executed w)) }

pub executed-make :
    {A : Type 0} (c : Call) (answer : Trace → A)
    → ((n : ℕ) → count_executed n c ≡ n)
    → Keeps executed (make c answer)
executed-make c answer h = record { same = λ w. rw foldl-append (h (executed w)) }

pub executed-exit : {A : Type 0} → Keeps executed (exit_failure {A = A})
executed-exit = record { same = λ w. refl }

pub executed-pure : {A : Type 0} (a : A) → Keeps executed (pure a)
executed-pure a = record { same = λ w. refl }

pub executed-lift : {A : Type 0} (m : Io A) → Keeps executed m → Keeps executed (lift m)
executed-lift m p = record { same = p.same }

pub executed-when :
    (b : Bool) (cleanup : Exit (Unit {0}))
    → Keeps executed cleanup
    → Keeps executed (when_fails b cleanup)
unfolding when_fails
executed-when true cleanup p = record { same = λ w. refl }
executed-when false cleanup p = record { same = p.same }

module _ {A B : Type 0} where
  pub executed-bind :
      (m : Exit A) (f : A → Exit B)
      → Keeps executed m
      → ((a : A) → Keeps executed (f a))
      → Keeps executed (m >>= f)
  unfolding ◌>>=◌
  executed-bind m f p q = record {
    same = λ w.
        let (o, v) = m w in
        elim o
          as (λ o.
            executed ((elim o as (λ _. Option B × World) [ none ↦ (none, v) | some a ↦ f a v ]).1)
            ≡ executed w) [ none ↦ p.same w | some a ↦ (q a).same v ∙ p.same w ];
  }

  pub executed-seq :
      (m : Exit A) (k : Exit B) → Keeps executed m → Keeps executed k → Keeps executed (m >> k)
  unfolding ◌>>◌
  executed-seq m k p q = executed-bind m (λ _. k) p (λ _. q)

pub ruleset executed_rules = (
  executed-make, executed-exit, executed-pure, executed-lift, executed-when, executed-bind,
  executed-seq,
)

pub write_all-executed : (os : Os) (fd : ℕ) (text : Bytes) → Keeps executed (write_all os fd text)
unfolding write_all
write_all-executed os fd text =
    Keeps-bind _ _ (executed-call (write fd text) (λ t. os.written t fd text) (λ n. refl)) (λ n.
      elim n
        as (λ n. Keeps executed (elim n as (λ _. Io Bool) [
          | none ↦ Io.pure false
          | some k ↦ Io.pure (not (ltb k (length text)))
        ])) [ none ↦ Keeps-pure false | some k ↦ Keeps-pure (not (ltb k (length text))) ])

-- An action that ends the program with a failure and without executing another, or calls `c` once, and last.
pub record EndsBy (c : Call) (m : Exit (Unit {0})) : Type 0 where
  pub outcome :
      (w : World)
      → (((m w).0 ≡ none) × (executed (m w).1 ≡ executed w))
        ⊎ ((u : World) × (executed u ≡ executed w)
            × ((m w).1 ≡ record u { trace = u.trace ++ (c ∷ []) }))

pub EndsBy-bind :
    {A : Type 0} (c : Call) (m : Exit A) (f : A → Exit (Unit {0}))
    → Keeps executed m
    → ((a : A) → EndsBy c (f a))
    → EndsBy c (m >>= f)
unfolding ◌>>=◌
EndsBy-bind c m f p q = record {
  outcome = λ w. elim (Option-cases (m w).0) [
    | inl e ↦ rw (e, ◌>>=◌) (inl (refl, p.same w))
    | inr (a, e) ↦ rw (e, ◌>>=◌, ← p.same w) ((q a).outcome (m w).1)
  ];
}

pub EndsBy-seq :
    {A : Type 0} (c : Call) (m : Exit A) (k : Exit (Unit {0}))
    → Keeps executed m
    → EndsBy c k
    → EndsBy c (m >> k)
unfolding ◌>>◌
EndsBy-seq c m k p q = EndsBy-bind c m (λ _. k) p (λ _. q)
