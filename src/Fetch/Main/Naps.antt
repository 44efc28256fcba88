-- ===== src/Fetch/Main/Naps.antt =====
-- How often an action of the program sleeps.
pub mod Loops
pub mod Requests
use micro_config_drive.Base.{
  ℕ, zero, suc, ◌+◌, ◌≤◌, Bytes, str, length, Option, none, some, [], ◌∷◌, ◌++◌, Bool, true, false,
  if◌then◌else◌, ◌≡◌, arith, inl, inr, Option-cases,
}
use micro_config_drive.System.{Os, Call, Trace, nanosleep, connect, look_up, write}
use micro_config_drive.System.Io.{World, Io}
use micro_config_drive.Fetch.{CloudStruct, config, find_config}
use micro_config_drive.Fetch.Stream.{fgets}
use micro_config_drive.Fetch.Headers.{Answer, error, refused, content}
use micro_config_drive.Fetch.Lines.{
  c_string, write_all, write_prefix, end_line, write_line, less, write_lines,
}
use micro_config_drive.Fetch.Main.{
  output_opened, keys_answered, part_answered, read_headers, copy_lines, send_request,
  create_output, discard, is_test, write_keys, fetch_keys, fetch_part, fetch_hostname,
  fetch_userdata, start_ucd, fetch, main,
}
use micro_config_drive.Fetch.Connect.{
  Net, nap, look_up_loop, resolve, connect_loop, connect_server, socket_opened, open_socket, reopen,
}
use micro_config_drive.Fetch.Main.Ending.{
  Exit, ◌>>=◌, ◌>>◌, pure, exit_failure, lift, make, when_fails,
}

-- The number of naps in a trace.
unfoldable pub naps : Trace → ℕ
naps [] = 0
naps (nanosleep n ∷ t) = 1 + naps t
naps (_ ∷ t) = naps t

pub naps-append : (s t : Trace) → naps (s ++ t) ≡ naps s + naps t
unfolding naps
naps-append [] t = omega arith
naps-append (nanosleep n ∷ s) t = omega (arith, naps-append s t)
naps-append (_ ∷ s) t = omega (arith, naps-append s t)

-- The action takes at most `k` naps.
pub record NapsAtMost {A : Type 0} (k : ℕ) (m : Io A) : Type 0 where
  pub bound : (w : World) → naps (m w).1.trace ≤ naps w.trace + k

pub NapsAtMost-pure : {A : Type 0} (a : A) → NapsAtMost 0 (pure a)
NapsAtMost-pure a = record { bound = λ w. omega arith }

pub NapsAtMost-exit : {A : Type 0} → NapsAtMost 0 (exit_failure {A = A})
NapsAtMost-exit = record { bound = λ w. omega arith }

pub NapsAtMost-make :
    {A : Type 0} (c : Call) (answer : Trace → A) → NapsAtMost (naps (c ∷ [])) (make c answer)
NapsAtMost-make c answer = record { bound = λ w. omega (arith, naps-append w.trace (c ∷ [])) }

pub NapsAtMost-lift : {A : Type 0} {k : ℕ} {m : Io A} → NapsAtMost k m → NapsAtMost k (lift m)
NapsAtMost-lift p = record { bound = p.bound }

pub NapsAtMost-more : {A : Type 0} {j k : ℕ} {m : Io A} → NapsAtMost j m → j ≤ k → NapsAtMost k m
NapsAtMost-more p h = record { bound = λ w. omega (arith, p.bound w) }

module _ {A B : Type 0} {j k : ℕ} where
  pub NapsAtMost-bind :
      {m : Exit A} {f : A → Exit B}
      → NapsAtMost j m
      → ((a : A) → NapsAtMost k (f a))
      → NapsAtMost (j + k) (m >>= f)
  unfolding ◌>>=◌
  NapsAtMost-bind {m} {f} p q = record {
    bound = λ w.
        let (o, v) = m w in
        let first = p.bound w in
        elim o
          as (λ o.
            naps ((elim o as (λ _. Option B × World) [ none ↦ (none, v) | some a ↦ f a v ]).1.trace)
            ≤ naps w.trace + (j + k)) [
              | none ↦ omega arith
              | some a ↦ omega (arith, (q a).bound v)
            ];
  }

  pub NapsAtMost-seq :
      {m : Exit A} {n : Exit B} → NapsAtMost j m → NapsAtMost k n → NapsAtMost (j + k) (m >> n)
  unfolding ◌>>◌
  NapsAtMost-seq p q = NapsAtMost-bind p (λ _. q)

pub NapsAtMost-when :
    (b : Bool) {cleanup : Exit (Unit {0})}
    → NapsAtMost 0 cleanup
    → NapsAtMost 0 (when_fails b cleanup)
unfolding when_fails
NapsAtMost-when true p = record { bound = λ w. omega arith }
NapsAtMost-when false p = record { bound = p.bound }

module _ {A B : Type 0} where
  pub NapsAtMost-bind_none :
      (m : Exit A) (f : A → Exit B)
      → NapsAtMost 0 m
      → ((a : A) → NapsAtMost 0 (f a))
      → NapsAtMost 0 (m >>= f)
  NapsAtMost-bind_none m f p q = NapsAtMost-bind {j = 0} {k = 0} p q

  pub NapsAtMost-seq_none :
      (m : Exit A) (n : Exit B) → NapsAtMost 0 m → NapsAtMost 0 n → NapsAtMost 0 (m >> n)
  NapsAtMost-seq_none m n p q = NapsAtMost-seq {j = 0} {k = 0} p q

pub NapsAtMost-make_none :
    {A : Type 0} (c : Call) (answer : Trace → A) → naps (c ∷ []) ≡ 0 → NapsAtMost 0 (make c answer)
NapsAtMost-make_none c answer h = record {
  bound = λ w. omega (arith, h, naps-append w.trace (c ∷ []));
}

pub NapsAtMost-if :
    {A : Type 0} {k : ℕ} (b : Bool) {m n : Io A}
    → NapsAtMost k m
    → NapsAtMost k n
    → NapsAtMost k (if b then m else n)
NapsAtMost-if true p q = p
NapsAtMost-if false p q = q

pub ruleset nap_rules = (
  NapsAtMost-pure, NapsAtMost-exit, NapsAtMost-make_none, NapsAtMost-lift, NapsAtMost-bind_none,
  NapsAtMost-seq_none, NapsAtMost-when,
)
