-- ===== src/RemoteMic/Session/Roles.antt =====
-- src/remote-mic/session.ts: what a refused action leaves, what each role can change, and when a
-- pairing is over.
use asad.Base.{
  ℕ, ◌+◌, ◌≤◌, ◌<◌, String, ◌≡◌, ◌⊎◌, Bool, true, false, not, ◌&&◌, ◌||◌, Option, none, some, [],
  arith, ltb, ◌==◌, is_some,
}
use asad.RemoteMic.Protocol.{
  Role, receiver, sender, ErrorCode, expired, expired_link, SignalRequest, approve, reject, offer,
  answer, candidates, transport, status, is_ended, SignalDescription, max_session_ms, is_relayed,
  is_connected,
}
use asad.RemoteMic.Session.{
  Pairing, for_role, fail, is_expired, end_pairing, apply_claim, retention_ms,
}
use asad.RemoteMic.Session.Signal.{
  on_approve, on_reject, on_offer, on_answer, on_candidates, on_transport, on_status, on_action,
  apply_signal, Reply,
}

-- A reply that failed holds the record as it was.
abbrev Unchanged : Pairing → Reply → Type 0
Unchanged r reply = (n : ℕ) (code : ErrorCode) → reply.0 ≡ fail n code → reply.1 ≡ r

on_action-Unchanged :
    (r : Pairing) (role : Role) (request : SignalRequest) (now : ℕ)
    → Unchanged r (on_action r role request now)
unfolding on_action on_approve on_reject on_offer on_answer on_candidates on_transport on_status
on_action-Unchanged r role approve now n code e = ground arith
on_action-Unchanged r role reject now n code e = ground arith
on_action-Unchanged r role (offer sdp gen peer) now n code e = ground arith
on_action-Unchanged r role (answer sdp gen peer) now n code e = ground arith
on_action-Unchanged r role (candidates gen items) now n code e = ground arith
on_action-Unchanged r role (transport mode) now n code e = ground arith
on_action-Unchanged r role (status link active muted) now n code e = ground arith

-- A refused action leaves the record as it was, unless the pairing had run out just then: that
-- ends it, with the reason `expired`.
pub apply_signal-fail :
    (r : Pairing) (role : Role) (request : SignalRequest) (now n : ℕ) (code : ErrorCode)
    → (apply_signal r role request now).0 ≡ fail n code
    → ((apply_signal r role request now).1 ≡ r)
      ⊎ ((is_expired r now ≡ true)
          × (is_ended r.state ≡ false)
          × ((apply_signal r role request now).1 ≡ end_pairing r expired now))
unfolding apply_signal
apply_signal-fail r role request now n code e =
    ground (arith, on_action-Unchanged r role request now n code)

-- The description that a role posts: the phone the offer, the computer the answer.
abbrev pub posted_by : Role → Pairing → Option SignalDescription
posted_by receiver r = r.answer
posted_by sender r = r.offer

-- The computer has answered the offer of the current generation.
abbrev has_answered : Pairing → Bool
has_answered r = elim r.answer [ none ↦ false | some d ↦ d.generation == r.generation ]

-- The actions of a role that start a negotiation over, by which the other loses its part of the old
-- one: the first offer or one of a later generation, the turn to the relay, the refusal of the phone,
-- and the report that the connection stands, once the current offer is answered.
abbrev pub starts_over : Role → Pairing → SignalRequest → Bool
starts_over sender r (offer sdp gen peer) = not (is_some r.offer) || ltb r.generation gen
starts_over sender r (transport mode) = is_relayed mode
starts_over receiver r reject = true
starts_over receiver r (status connection active muted) = is_connected connection && has_answered r
starts_over _ _ _ = false

-- What belongs to one role, while the other acts: nothing of it changes, but that its description
-- and its candidates are dropped together where that is allowed.
pub record Keeps (r q : Pairing) (role : Role) (dropping : Bool) : Type 0 where
  pub negotiation :
      ((posted_by role q ≡ posted_by role r)
        × (for_role q.candidates role ≡ for_role r.candidates role))
      ⊎ ((dropping ≡ true) × (posted_by role q ≡ none) × (for_role q.candidates role ≡ []))
  pub reported : for_role q.status role ≡ for_role r.status role

on_action-sender :
    (r : Pairing) (request : SignalRequest) (now : ℕ)
    → Keeps r (on_action r sender request now).1 receiver (starts_over sender r request)
unfolding on_action on_approve on_reject on_offer on_answer on_candidates on_transport on_status
on_action-sender r approve now = ground arith
on_action-sender r reject now = ground arith
on_action-sender r (offer sdp gen peer) now = ground arith
on_action-sender r (answer sdp gen peer) now = ground arith
on_action-sender r (candidates gen items) now = ground arith
on_action-sender r (transport mode) now = ground arith
on_action-sender r (status link active muted) now = ground arith

on_action-receiver :
    (r : Pairing) (request : SignalRequest) (now : ℕ)
    → Keeps r (on_action r receiver request now).1 sender (starts_over receiver r request)
unfolding on_action on_approve on_reject on_offer on_answer on_candidates on_transport on_status
on_action-receiver r approve now = ground arith
on_action-receiver r reject now = ground arith
on_action-receiver r (offer sdp gen peer) now = ground arith
on_action-receiver r (answer sdp gen peer) now = ground arith
on_action-receiver r (candidates gen items) now = ground arith
on_action-receiver r (transport mode) now = ground arith
on_action-receiver r (status link active muted) now = ground arith

-- Whatever one role posts, the description, the candidates and the status of the other role stay
-- as they were; only where the pairing has run out, or the action starts the negotiation over, are
-- its description and its candidates dropped, and then all of them.
pub apply_signal-Keeps :
    (r : Pairing) (request : SignalRequest) (now : ℕ)
    → Keeps r
        (apply_signal r sender request now).1
        receiver
        (is_expired r now || starts_over sender r request)
      × Keeps r
          (apply_signal r receiver request now).1
          sender
          (is_expired r now || starts_over receiver r request)
unfolding apply_signal end_pairing
apply_signal-Keeps r request now = (
  ground (arith, on_action-sender r request now),
  ground (arith, on_action-receiver r request now),
)

-- Past the ceiling of a session, or past its deadline, every claim and every action is refused with
-- status 410, and an action leaves the pairing ended.
pub expired_refuses :
    (digest : String → String) (r : Pairing) (role : Role) (request : SignalRequest)
    (secret token code : String) (now : ℕ)
    → (r.expires_at ≤ now) ⊎ (r.created_at + max_session_ms ≤ now)
    → ((apply_claim digest r secret token code now).0 ≡ fail 410 expired_link)
      × ((apply_signal r role request now).0 ≡ fail 410 expired_link)
      × (is_ended (apply_signal r role request now).1.state ≡ true)
unfolding apply_claim apply_signal is_expired end_pairing
expired_refuses digest r role request secret token code now late =
    (ground arith, ground arith, ground arith)

-- The store keeps a record for at least a second and at least as long as it is not expired.
pub retention_covers :
    (r : Pairing) (now later : ℕ)
    → (1_000 ≤ retention_ms r now)
      × ((is_expired r (now + later) ≡ true) ⊎ (later < retention_ms r now))
unfolding retention_ms is_expired
retention_covers r now later = (omega arith, ground arith)
