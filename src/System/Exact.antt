-- ===== src/System/Exact.antt =====
-- Actions whose calls are known, whatever the world they start in.
use micro_config_drive.Base.{[], ◌∷◌, ◌++◌, ◌≡◌, refl, ◌∙◌, ap, append_assoc, append-nil}
use micro_config_drive.System.{Call, Trace}
use micro_config_drive.System.Io.{World, Io, ◌>>=◌, ◌>>◌, pure, call}

-- An action with known calls, and nothing else; and with a known result.
pub record Calls {A : Type 0} (m : Io A) (calls : Trace) : Type 0 where
  pub does : (w : World) → (m w).1 ≡ record w { trace = w.trace ++ calls }

pub record Answers {A : Type 0} (m : Io A) (a : A) (calls : Trace) : Type 0 where
  pub gives : (w : World) → (m w).0 ≡ a
  pub does : (w : World) → (m w).1 ≡ record w { trace = w.trace ++ calls }

module _ {A B : Type 0} where
  pub Calls-answer :
      (m : Io A) (f : A → Io B) (a : A) (s t : Trace)
      → Answers m a s
      → Calls (f a) t
      → Calls (m >>= f) (s ++ t)
  Calls-answer m f a s t p q = record {
    does = λ w.
        let v = (m w).1 in
        ap (λ x. (f x v).1) (p.gives w)
        ∙ q.does v
        ∙ ap (λ (u : World). record u { trace = u.trace ++ t }) (p.does w)
        ∙ ap (λ r. record w { trace = r }) (append_assoc w.trace s t);
  }

  pub Calls-seq :
      (m : Io A) (k : Io B) (s t : Trace) → Calls m s → Calls k t → Calls (m >> k) (s ++ t)
  Calls-seq m k s t p q = record {
    does = λ w.
        q.does ((m w).1)
        ∙ ap (λ (u : World). record u { trace = u.trace ++ t }) (p.does w)
        ∙ ap (λ r. record w { trace = r }) (append_assoc w.trace s t);
  }

pub Calls-pure : {A : Type 0} (a : A) → Calls (pure a) []
Calls-pure a = record { does = λ w. rw append-nil refl }

pub Calls-call : {A : Type 0} (c : Call) (answer : Trace → A) → Calls (call c answer) (c ∷ [])
Calls-call c answer = record { does = λ w. refl }

pub Answers-call :
    {A : Type 0} (c : Call) (answer : Trace → A) (a : A)
    → ((t : Trace) → answer t ≡ a)
    → Answers (call c answer) a (c ∷ [])
Answers-call c answer a h = record { gives = λ w. h w.trace; does = λ w. refl }
