-- ===== src/Shell/Batch.antt =====
-- Commands run one after the other, whatever each returns: what most handlers amount to.
use mathlib.Core.Path.{fun_ext}
use micro_config_drive.Base.{
  Bytes, List, [], ◌∷◌, ◌++◌, map, ◌≡◌, refl, append-nil, append_assoc, map-append, sym,
}
use micro_config_drive.System.{Os, spawn}
use micro_config_drive.System.Io.{World, Io, ◌>>◌, skip}
use micro_config_drive.Shell.{shell_line, exec_task}

unfoldable pub exec_all : Os → List Bytes → Io (Unit {0})
exec_all os [] = skip
exec_all os (c ∷ cs) = do exec_task os c; exec_all os cs

exec_all-append_at :
    (os : Os) (xs ys : List Bytes) (w : World)
    → exec_all os (xs ++ ys) w ≡ (do exec_all os xs; exec_all os ys) w
unfolding exec_all
exec_all-append_at os [] ys w = refl
exec_all-append_at os (x ∷ xs) ys w = exec_all-append_at os xs ys (exec_task os x w).1

-- Two batches in a row are one.
pub exec_all-append :
    (os : Os) (xs ys : List Bytes) → exec_all os (xs ++ ys) ≡ (do exec_all os xs; exec_all os ys)
exec_all-append os xs ys = fun_ext (exec_all-append_at os xs ys)

-- A batch makes one call for each command, in order, and changes no variable of the program.
pub exec_all_trace :
    (os : Os) (cs : List Bytes) (w : World)
    → exec_all os cs w ≡ (tt, record w { trace = w.trace ++ map (λ c. spawn (shell_line os c)) cs })
unfolding exec_all exec_task
exec_all_trace os [] w = rw append-nil
exec_all_trace os (c ∷ cs) w = rw (exec_all_trace os cs (exec_task os c w).1) (rw append_assoc)

-- The action runs the commands of these requests, in order, and does nothing else.
pub record Runs {A : Type 0} (os : Os) (command : A → Bytes) (m : Io (Unit {0})) (requests : List A)
    : Type 0 where
  pub runs : m ≡ exec_all os (map command requests)

module _ {A : Type 0} (os : Os) (command : A → Bytes) where
  pub Runs-skip : Runs os command skip []
  unfolding exec_all
  Runs-skip = record { runs = refl }

  pub Runs-seq :
      {m k : Io (Unit {0})} {xs ys : List A}
      → Runs os command m xs
      → Runs os command k ys
      → Runs os command (do m; k) (xs ++ ys)
  Runs-seq {xs} {ys} p q = record {
    runs =
        rw (p.runs, q.runs, map-append command)
          (sym (exec_all-append os (map command xs) (map command ys)));
  }

  pub Runs-cons :
      {m : Io (Unit {0})} {xs : List A}
      → (x : A) → Runs os command m xs
      → Runs os command (do exec_task os (command x); m) (x ∷ xs)
  unfolding exec_all
  Runs-cons x p = record { runs = rw p.runs }
