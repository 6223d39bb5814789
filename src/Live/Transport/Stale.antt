-- ===== src/Live/Transport/Stale.antt =====
-- src/features/live/transport-supervisor.ts: an `open` that was pending when a fault was reported.
use asad.Base.{
  ℕ, zero, suc, ◌+◌, ◌≤◌, ◌<◌, String, ◌≡◌, refl, inl, inr, Bool, true, false, not, none, some,
  List, [], ◌∷◌, arith, All, All-append, Option-cases,
}
use asad.Live.Transport.{
  FailureKind, Failure, is_recovering, PendingOpen, PendingClose, Supervisor, OpenResult, initial,
  resolved, rejected, retry, give_up, attempt_open, handle, open_settled, close_settled, resume,
  report, close, dispose, timer_fired,
}
use asad.Live.Transport.Final.{
  Event, started, resumed, closed_down, unmounted, reported, open_done, close_done, timer_done,
  at_index, without_index, step, run,
}

abbrev IsOld : ℕ → PendingOpen → Type 0
IsOld token o = o.token ≤ token

-- No pending call has a later token than the supervisor.
abbrev IsNumbered : Supervisor → Type 0
IsNumbered s = All (IsOld s.open_token) s.opens

All-IsOld : (a b : ℕ) (os : List PendingOpen) → a ≤ b → All (IsOld a) os → All (IsOld b) os
All-IsOld a b [] h q = tt
All-IsOld a b (o ∷ os) h q = (omega arith, All-IsOld a b os h q.1)

All-without_index :
    (P : PendingOpen → Type 0) (os : List PendingOpen) (n : ℕ)
    → All P os
    → All P (without_index os n)
All-without_index P [] n q = q
All-without_index P (o ∷ os) zero q = q.1
All-without_index P (o ∷ os) (suc n) q = (q.0, All-without_index P os n q.1)

attempt_open-IsNumbered :
    (s : Supervisor) (first : Bool) → IsNumbered s → IsNumbered (attempt_open s first)
unfolding attempt_open
attempt_open-IsNumbered s first q =
    let older = All-IsOld s.open_token (s.open_token + 1) s.opens (omega arith) q in
    let joined =
      All-append (IsOld (s.open_token + 1)) s.opens
        (record { token = s.open_token + 1; first_open = first } ∷ []) older (omega arith, tt) in
    ground (arith, joined)

handle-IsNumbered :
    (s : Supervisor) (f : Failure) (first : Bool) → IsNumbered s → IsNumbered (handle s f first)
unfolding handle
handle-IsNumbered s f first q =
    ground (arith, All-IsOld s.open_token (s.open_token + 1) s.opens (omega arith) q)

open_settled-IsNumbered :
    (s : Supervisor) (o : PendingOpen) (result : OpenResult)
    → IsNumbered s
    → IsNumbered (open_settled s o result)
unfolding open_settled
open_settled-IsNumbered s o (resolved true) q = ground arith
open_settled-IsNumbered s o (resolved false) q = q
open_settled-IsNumbered s o (rejected f) q = ground (arith, handle-IsNumbered s f o.first_open q)

close_settled-IsNumbered :
    (s : Supervisor) (p : PendingClose) → IsNumbered s → IsNumbered (close_settled s p)
unfolding close_settled
close_settled-IsNumbered s retry q = ground arith
close_settled-IsNumbered s (give_up f first) q = ground arith

step-IsNumbered : (s : Supervisor) (e : Event) → IsNumbered s → IsNumbered (step s e)
unfolding step resume report close dispose timer_fired
step-IsNumbered s started q = attempt_open-IsNumbered s true q
step-IsNumbered s resumed q =
    ground (arith, attempt_open-IsNumbered (record s { attempts = 0 }) false q)
step-IsNumbered s closed_down q = q
step-IsNumbered s unmounted q = q
step-IsNumbered s (reported kind message) q =
    ground
      (arith, handle-IsNumbered s (record { kind = kind; message = message }) (not s.ever_opened) q)
step-IsNumbered s (open_done n result) q = elim (Option-cases (at_index s.opens n)) [
  | inl e ↦ rw (e, step) q
  | inr (o, e) ↦
      rw (e, step)
        (open_settled-IsNumbered (record s { opens = without_index s.opens n }) o result
          (All-without_index (IsOld s.open_token) s.opens n q))
]
step-IsNumbered s (close_done n) q = elim (Option-cases (at_index s.closings n)) [
  | inl e ↦ rw (e, step) q
  | inr (p, e) ↦
      rw (e, step)
        (close_settled-IsNumbered (record s { closings = without_index s.closings n }) p q)
]
step-IsNumbered s (timer_done n) q = elim (Option-cases (at_index s.timers n)) [
  | inl e ↦ rw (e, step) q
  | inr (t, e) ↦ rw (e, step) (attempt_open-IsNumbered _ false q)
]

run-IsNumbered : (s : Supervisor) (es : List Event) → IsNumbered s → IsNumbered (run s es)
unfolding run
run-IsNumbered s [] q = q
run-IsNumbered s (e ∷ es) q = run-IsNumbered (step s e) es (step-IsNumbered s e q)

-- What settles is one of those that were pending.
at_index-All :
    (P : PendingOpen → Type 0) (os : List PendingOpen) (n : ℕ) (o : PendingOpen)
    → All P os
    → at_index os n ≡ some o
    → P o
at_index-All P [] n o q e = absurd cc
at_index-All P (p ∷ os) zero o q e = let same : p ≡ o = cc in rw (← same) q.0
at_index-All P (p ∷ os) (suc n) o q e = at_index-All P os n o q.1 e

without_index-none :
    (os : List PendingOpen) (n : ℕ) → at_index os n ≡ none → without_index os n ≡ os
without_index-none [] n e = refl
without_index-none (o ∷ os) zero e = absurd cc
without_index-none (o ∷ os) (suc n) e = rw (without_index-none os n e) refl

stale-settled :
    (s : Supervisor) (o : PendingOpen) (result : OpenResult)
    → o.token < s.open_token
    → open_settled s o result ≡ s
unfolding open_settled
stale-settled s o (resolved true) h = ground arith
stale-settled s o (resolved false) h = refl
stale-settled s o (rejected f) h = ground arith

report-opens :
    (s : Supervisor) (kind : FailureKind) (message : String)
    → s.disposed ≡ false
    → is_recovering s.phase ≡ false
    → ((report s kind message).opens ≡ s.opens)
      × ((report s kind message).open_token ≡ s.open_token + 1)
unfolding report handle
report-opens s kind message live calm = (ground arith, ground arith)

-- Where the supervisor is not disposed of and not recovering, a reported fault outlives every `open`
-- that was pending: however one of them settles, whether it succeeds, is cancelled or fails, nothing
-- changes but that it is not pending any more.
pub report-stale :
    (es : List Event) (kind : FailureKind) (message : String) (n : ℕ) (result : OpenResult)
    → (run initial es).disposed ≡ false
    → is_recovering (run initial es).phase ≡ false
    → let r = report (run initial es) kind message in
      step r (open_done n result) ≡ record r { opens = without_index r.opens n }
unfolding step
report-stale es kind message n result live calm =
    let s = run initial es in
    let r = report s kind message in
    let (same, next) = report-opens s kind message live calm in
    elim (Option-cases (at_index r.opens n)) [
      | inl e ↦ rw (e, step, without_index-none r.opens n e) refl
      | inr (o, e) ↦
          let found : at_index s.opens n ≡ some o = rw same at e in
          let old : o.token ≤ s.open_token =
            at_index-All (IsOld s.open_token) s.opens n o (run-IsNumbered initial es tt) found in
          rw (e, step)
            (stale-settled (record r { opens = without_index r.opens n }) o result
              (rw next (omega arith)))
    ]
