-- ===== src/Live/Transport/Final.antt =====
-- src/features/live/transport-supervisor.ts: any order of events, and that closing is final.
use asad.Base.{
  ℕ, zero, suc, String, ◌≡◌, refl, inl, inr, true, false, Option, none, some, List, [], ◌∷◌, arith,
  Option-cases,
}
use asad.Live.Transport.{
  FailureKind, closed, TransportState, PendingOpen, PendingClose, Supervisor, OpenResult, resolved,
  rejected, retry, give_up, attempt_open, open_settled, close_settled, resume, report, close,
  dispose, timer_fired,
}

abbrev pub at_index : {A : Type 0} → List A → ℕ → Option A
at_index [] n = none
at_index (x ∷ xs) zero = some x
at_index (x ∷ xs) (suc n) = at_index xs n

abbrev pub without_index : {A : Type 0} → List A → ℕ → List A
without_index [] n = []
without_index (x ∷ xs) zero = xs
without_index (x ∷ xs) (suc n) = x ∷ without_index xs n

-- A settling and a timer are told by their place among those that are pending.
pub data Event : Type 0 where
  started resumed closed_down unmounted : Event
  reported : FailureKind → String → Event
  open_done : ℕ → OpenResult → Event
  close_done timer_done : ℕ → Event

unfoldable pub step : Supervisor → Event → Supervisor
step s started = attempt_open s true
step s resumed = resume s
step s closed_down = close s
step s unmounted = dispose s
step s (reported kind message) = report s kind message
step s (open_done n result) = elim (at_index s.opens n) [
  | none ↦ s
  | some o ↦ open_settled (record s { opens = without_index s.opens n }) o result
]
step s (close_done n) = elim (at_index s.closings n) [
  | none ↦ s
  | some c ↦ close_settled (record s { closings = without_index s.closings n }) c
]
step s (timer_done n) = elim (at_index s.timers n) [ none ↦ s | some t ↦ timer_fired s t ]

unfoldable pub run : Supervisor → List Event → Supervisor
run s [] = s
run s (e ∷ es) = run (step s e) es

-- Closed for good: nothing has been shown or opened since.
pub record IsClosed (shown : List TransportState) (token : ℕ) (s : Supervisor) : Type 0 where
  pub is_disposed : s.disposed ≡ true
  pub at_end : s.phase ≡ closed
  pub no_fault : s.fault ≡ none
  pub silent : s.emitted ≡ shown
  pub none_opened : s.open_token ≡ token

open_settled-IsClosed :
    (shown : List TransportState) (token : ℕ) (s : Supervisor) (o : PendingOpen)
    (result : OpenResult)
    → IsClosed shown token s
    → IsClosed shown token (open_settled s o result)
unfolding open_settled
open_settled-IsClosed shown token s o (resolved true) c = ground arith
open_settled-IsClosed shown token s o (resolved false) c = c
open_settled-IsClosed shown token s o (rejected f) c = ground arith

close_settled-IsClosed :
    (shown : List TransportState) (token : ℕ) (s : Supervisor) (p : PendingClose)
    → IsClosed shown token s
    → IsClosed shown token (close_settled s p)
unfolding close_settled
close_settled-IsClosed shown token s retry c = ground arith
close_settled-IsClosed shown token s (give_up f first) c = ground arith

step-IsClosed :
    (shown : List TransportState) (token : ℕ) (s : Supervisor) (e : Event)
    → IsClosed shown token s
    → IsClosed shown token (step s e)
unfolding step attempt_open resume report close dispose timer_fired
step-IsClosed shown token s started c = ground arith
step-IsClosed shown token s resumed c = ground arith
step-IsClosed shown token s closed_down c = ground arith
step-IsClosed shown token s unmounted c = ground arith
step-IsClosed shown token s (reported kind message) c = ground arith
step-IsClosed shown token s (open_done n result) c = elim (Option-cases (at_index s.opens n)) [
  | inl e ↦ rw (e, step) c
  | inr (o, e) ↦
      rw (e, step)
        (open_settled-IsClosed shown token (record s { opens = without_index s.opens n }) o result
          (record {
            is_disposed = c.is_disposed;
            at_end = c.at_end;
            no_fault = c.no_fault;
            silent = c.silent;
            none_opened = c.none_opened;
          }))
]
step-IsClosed shown token s (close_done n) c = elim (Option-cases (at_index s.closings n)) [
  | inl e ↦ rw (e, step) c
  | inr (p, e) ↦
      rw (e, step)
        (close_settled-IsClosed shown token (record s { closings = without_index s.closings n }) p
          (record {
            is_disposed = c.is_disposed;
            at_end = c.at_end;
            no_fault = c.no_fault;
            silent = c.silent;
            none_opened = c.none_opened;
          }))
]
step-IsClosed shown token s (timer_done n) c = ground arith

run-IsClosed :
    (shown : List TransportState) (token : ℕ) (s : Supervisor) (es : List Event)
    → IsClosed shown token s
    → IsClosed shown token (run s es)
unfolding run
run-IsClosed shown token s [] c = c
run-IsClosed shown token s (e ∷ es) c =
    run-IsClosed shown token (step s e) es (step-IsClosed shown token s e c)

-- Closing is final: whatever was pending then settles, whatever timer still fires and whatever is
-- called afterwards, the supervisor stays closed without a fault, shows nothing more and opens
-- nothing more.
pub close-IsClosed :
    (s : Supervisor) (es : List Event) → IsClosed s.emitted s.open_token (run (close s) es)
unfolding close
close-IsClosed s es = run-IsClosed s.emitted s.open_token (close s) es (record {
  is_disposed = refl;
  at_end = refl;
  no_fault = refl;
  silent = refl;
  none_opened = omega arith;
})
