-- ===== src/Live/Transport.antt =====
-- src/features/live/transport-supervisor.ts: `TransportSupervisor`. The synchronous parts of its
-- methods are functions on its fields and on what is pending outside: the calls of `open` and `close`
-- that have not settled, with what the code does when they do, and the timers that are set. An event
-- is a call of a method, a settling, or a timer that fires, in any order.
pub mod Final
pub mod Stale
mod Tests
use asad.Base.{
  ℕ, zero, suc, ◌+◌, min, String, Bool, true, false, not, ◌&&◌, ◌||◌, Option, none, some, List, [],
  ◌∷◌, ◌++◌, ltb, ◌==◌, if◌then◌else◌, keep,
}

pub data FailureKind : Type 0 where
  permission device unsupported transport : FailureKind

abbrev pub is_transport : FailureKind → Bool
is_transport transport = true
is_transport _ = false

pub record Failure : Type 0 where
  pub kind : FailureKind
  pub message : String

pub record SessionFault : Type 0 where
  pub failure : Failure
  pub recovering : Bool
  pub attempts : ℕ

pub data TransportPhase : Type 0 where
  idle opening opened recovering interrupted failed_to_start closed : TransportPhase

abbrev pub is_recovering : TransportPhase → Bool
is_recovering recovering = true
is_recovering _ = false

abbrev pub is_open_or_opening : TransportPhase → Bool
is_open_or_opening opened = true
is_open_or_opening opening = true
is_open_or_opening _ = false

pub record TransportState : Type 0 where
  pub phase : TransportPhase
  pub fault : Option SessionFault

-- A call of `open` that has not settled: its token, and whether it is the first open.
pub record PendingOpen : Type 0 where
  pub token : ℕ
  pub first_open : Bool

-- What `handle` does once `close` has settled.
pub data PendingClose : Type 0 where
  retry : PendingClose
  give_up : Failure → Bool → PendingClose

pub record Timer : Type 0 where
  pub handle_id : ℕ
  pub delay : ℕ

pub record Supervisor : Type 0 where
  pub phase : TransportPhase
  pub ever_opened : Bool
  pub fault : Option SessionFault
  pub attempts : ℕ
  pub timer : Option ℕ
  pub open_token : ℕ
  pub disposed : Bool
  -- outside: calls that have not settled, timers that are set, the next handle, and what
  -- `onState` was given, the last first
  pub opens : List PendingOpen
  pub closings : List PendingClose
  pub timers : List Timer
  pub next_handle : ℕ
  pub emitted : List TransportState

abbrev pub initial : Supervisor
initial = record {
  phase = idle;
  ever_opened = false;
  fault = none;
  attempts = 0;
  timer = none;
  open_token = 0;
  disposed = false;
  opens = [];
  closings = [];
  timers = [];
  next_handle = 0;
  emitted = [];
}

-- `RECOVERY_BACKOFF_MS`, and its length
abbrev pub recovery_attempts : ℕ
recovery_attempts = 4

abbrev pub recovery_backoff_ms : ℕ → ℕ
recovery_backoff_ms n =
    if n == 0 then 600 else if n == 1 then 1_800 else if n == 2 then 4_000 else 8_000

abbrev pub emit : Supervisor → Supervisor
emit s =
    if s.disposed
    then s
    else record s { emitted = record { phase = s.phase; fault = s.fault } ∷ s.emitted }

abbrev pub without_timer : Option ℕ → List Timer → List Timer
without_timer none ts = ts
without_timer (some h) ts = keep (λ t. not (t.handle_id == h)) ts

abbrev pub cancel_timer : Supervisor → Supervisor
cancel_timer s = record s { timers = without_timer s.timer s.timers; timer = none }

-- `attemptOpen` up to the call of `open`
unfoldable pub attempt_open : Supervisor → Bool → Supervisor
attempt_open s first_open =
    let anew = first_open || s.attempts == 0 in
    let c = cancel_timer s in
    let p = emit (record c {
      phase = if anew then opening else recovering;
      fault = if anew then none else s.fault;
    }) in
    if s.disposed then s else record p {
      open_token = s.open_token + 1;
      opens = s.opens ++ record { token = s.open_token + 1; first_open = first_open } ∷ [];
    }

-- `handle` up to the call of `close`
unfoldable pub handle : Supervisor → Failure → Bool → Supervisor
handle s f first_open =
    let p = emit (record s {
      open_token = s.open_token + 1;
      fault = some (record { failure = f; recovering = true; attempts = s.attempts });
      phase = recovering;
    }) in
    if is_transport f.kind && (not first_open && ltb s.attempts recovery_attempts)
    then record p { closings = s.closings ++ retry ∷ [] }
    else record s {
      open_token = s.open_token + 1;
      closings = s.closings ++ give_up f first_open ∷ [];
    }

pub data OpenResult : Type 0 where
  resolved : Bool → OpenResult
  rejected : Failure → OpenResult

-- `attemptOpen` from where `open` has settled
unfoldable pub open_settled : Supervisor → PendingOpen → OpenResult → Supervisor
unfolding handle
open_settled s o (resolved false) = s
open_settled s o (resolved true) =
    if s.disposed || not (o.token == s.open_token)
    then s
    else emit (record s { attempts = 0; fault = none; ever_opened = true; phase = opened })
open_settled s o (rejected f) =
    if s.disposed || not (o.token == s.open_token) then s else handle s f o.first_open

-- `handle` from where `close` has settled
unfoldable pub close_settled : Supervisor → PendingClose → Supervisor
close_settled s retry = if s.disposed then s else record s {
  attempts = s.attempts + 1;
  timer = some s.next_handle;
  timers =
      s.timers
      ++ record { handle_id = s.next_handle; delay = recovery_backoff_ms (min s.attempts 3) } ∷ [];
  next_handle = s.next_handle + 1;
}
close_settled s (give_up f first_open) =
    if s.disposed
    then s
    else emit (record s {
      fault = some (record { failure = f; recovering = false; attempts = s.attempts });
      phase = if first_open then failed_to_start else interrupted;
    })

unfoldable pub resume : Supervisor → Supervisor
unfolding attempt_open
resume s =
    if s.disposed || is_open_or_opening s.phase
    then s
    else attempt_open (record s { attempts = 0 }) false

unfoldable pub report : Supervisor → FailureKind → String → Supervisor
unfolding handle
report s kind message =
    if s.disposed || is_recovering s.phase
    then s
    else handle s (record { kind = kind; message = message }) (not s.ever_opened)

unfoldable pub close : Supervisor → Supervisor
close s = record (cancel_timer s) { attempts = 0; fault = none; phase = closed; disposed = true }

unfoldable pub dispose : Supervisor → Supervisor
dispose s = record (cancel_timer s) { disposed = true }

-- The callback of a timer.
unfoldable pub timer_fired : Supervisor → Timer → Supervisor
unfolding attempt_open
timer_fired s t =
    attempt_open
      (record s { timer = none; timers = keep (λ u. not (u.handle_id == t.handle_id)) s.timers })
      false
