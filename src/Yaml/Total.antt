-- ===== src/Yaml/Total.antt =====
-- The parser comes to an end.
use micro_config_drive.Base.{
  ℕ, zero, suc, ◌≤◌, ◌<◌, length, Option, some, List, [], ◌∷◌, true, false, ◌≡◌, refl, arith, inl,
  inr, Bool-cases,
}
use micro_config_drive.Yaml.{
  Event, failure, scalar, sequence_start, sequence_end, mapping_start, mapping_end, stream_end,
  no_token, ignored, Frame, in_sequence, in_mapping, frame, on_scalar, on_sequence, on_mapping,
  Outcome, parse,
}

-- The parser has come to an outcome, with no more events than before.
abbrev pub Stops : List Event → Option Outcome → Type 0
Stops events r = (o : Outcome) × (r ≡ some o) × (length o.rest ≤ length events)

-- The parser stops on every list of events, if there is fuel for one round more than there are events:
-- each round takes an event, and the rounds of a sequence or a mapping inside take theirs.
parse_total :
    (fuel : ℕ) (events : List Event) (f : Frame)
    → length events < fuel
    → Stops events (parse fuel events f)
unfolding parse
parse_total zero events f h = absurd (omega arith)
parse_total (suc fuel) [] f h =
    (record { succeeded = false; built = f.kids; rest = [] }, refl, omega arith)
parse_total (suc fuel) (failure ∷ events) f h =
    (record { succeeded = false; built = f.kids; rest = events }, refl, omega arith)
parse_total (suc fuel) (scalar text ∷ events) f h =
    let (o, e, k) = parse_total fuel events (on_scalar f text) (omega arith) in (o, e, omega arith)
parse_total (suc fuel) (sequence_start ∷ events) f h =
    let (o, e, k) = parse_total fuel events (frame in_sequence) (omega arith) in
    let (o', e', k') = parse_total fuel o.rest (on_sequence f o.built) (omega arith) in
    elim (Bool-cases o.succeeded) [
      | inl s ↦ (o', rw e (rw s e'), omega arith)
      | inr s ↦ (
        record { succeeded = false; built = (on_sequence f o.built).kids; rest = o.rest },
        rw e (rw s refl),
        omega arith,
      )
    ]
parse_total (suc fuel) (mapping_start ∷ events) f h =
    let (o, e, k) = parse_total fuel events (frame in_mapping) (omega arith) in
    let (o', e', k') = parse_total fuel o.rest (on_mapping f o.built) (omega arith) in
    elim (Bool-cases o.succeeded) [
      | inl s ↦ (o', rw e (rw s e'), omega arith)
      | inr s ↦ (
        record { succeeded = false; built = (on_mapping f o.built).kids; rest = o.rest },
        rw e (rw s refl),
        omega arith,
      )
    ]
parse_total (suc fuel) (sequence_end ∷ events) f h =
    (record { succeeded = true; built = f.kids; rest = events }, refl, omega arith)
parse_total (suc fuel) (mapping_end ∷ events) f h =
    (record { succeeded = true; built = f.kids; rest = events }, refl, omega arith)
parse_total (suc fuel) (stream_end ∷ events) f h =
    (record { succeeded = true; built = f.kids; rest = events }, refl, omega arith)
parse_total (suc fuel) (no_token ∷ events) f h =
    (record { succeeded = true; built = f.kids; rest = events }, refl, omega arith)
parse_total (suc fuel) (ignored ∷ events) f h =
    let (o, e, k) = parse_total fuel events f (omega arith) in (o, e, omega arith)
