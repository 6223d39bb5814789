-- ===== src/RemoteMic/Session/Preserved.antt =====
-- src/remote-mic/session.ts: every operation keeps a pairing record valid.
use asad.Base.{ℕ, ◌+◌, String, ◌≡◌, refl, inl, inr, Bool-cases, Bool, true, List, arith, length}
use asad.RemoteMic.Protocol.{
  Role, receiver, sender, is_ended, is_approved, rejected, expired, EndReason, CandidateItem,
  SignalRequest, approve, reject, offer, answer, candidates, transport, status, Connection,
  Transport,
}
use asad.RemoteMic.Session.{
  Pairing, new_pairing, touch, clear_negotiation, end_pairing, apply_claim,
}
use asad.RemoteMic.Session.Signal.{
  on_approve, on_reject, on_offer, install_offer, on_answer, on_candidates, on_transport, on_status,
  on_action, apply_signal,
}
use asad.RemoteMic.Session.Validity.{IsValid, nil-IsListed, append-IsListed, mono-IsListed}

pub new_pairing-IsValid :
    (digest : String → String) (id token secret : String) (now : ℕ)
    → IsValid (new_pairing digest id token secret now)
unfolding new_pairing
new_pairing-IsValid digest id token secret now = record {
  quiet = λ e. record {
    no_offer = refl;
    no_answer = refl;
    no_sent = refl;
    no_received = refl;
    not_relayed = refl;
  };
  single_use = λ e. cc;
  unclaimed = λ e. (refl, refl);
  has_sender = λ e f. cc;
  current_offer = tt;
  current_answer = tt;
  answers = λ e. refl;
  from_sender = nil-IsListed 0 1 (omega arith);
  from_receiver = nil-IsListed 0 1 (omega arith);
  numbered_from = omega arith;
  within = λ e. cc;
  reasoned = refl;
}

pub touch-IsValid : (r : Pairing) (now : ℕ) → IsValid r → IsValid (touch r now)
unfolding touch
touch-IsValid r now v = ground (arith, v.quiet)

-- A record with the negotiation dropped and, for `relay`, the mode given.
cleared-IsValid : (r : Pairing) → IsValid r → IsValid (clear_negotiation r)
unfolding clear_negotiation
cleared-IsValid r v = record {
  quiet = λ e. record {
    no_offer = refl;
    no_answer = refl;
    no_sent = refl;
    no_received = refl;
    not_relayed = (v.quiet e).not_relayed;
  };
  single_use = v.single_use;
  unclaimed = v.unclaimed;
  has_sender = v.has_sender;
  current_offer = tt;
  current_answer = tt;
  answers = λ e. refl;
  from_sender = nil-IsListed r.generation r.next_seq v.numbered_from;
  from_receiver = nil-IsListed r.generation r.next_seq v.numbered_from;
  numbered_from = v.numbered_from;
  within = v.within;
  reasoned = v.reasoned;
}

pub end_pairing-IsValid :
    (r : Pairing) (reason : EndReason) (now : ℕ) → IsValid r → IsValid (end_pairing r reason now)
unfolding end_pairing clear_negotiation
end_pairing-IsValid r reason now v = elim (Bool-cases (is_ended r.state)) [
  | inl e ↦ rw e v
  | inr e ↦ rw e (record {
    quiet = λ e. record {
      no_offer = refl;
      no_answer = refl;
      no_sent = refl;
      no_received = refl;
      not_relayed = refl;
    };
    single_use = λ e. refl;
    unclaimed = λ e. cc;
    has_sender = λ e f. cc;
    current_offer = tt;
    current_answer = tt;
    answers = λ e. refl;
    from_sender = nil-IsListed r.generation r.next_seq v.numbered_from;
    from_receiver = nil-IsListed r.generation r.next_seq v.numbered_from;
    numbered_from = v.numbered_from;
    within = λ e. cc;
    reasoned = refl;
  })
]

pub apply_claim-IsValid :
    (digest : String → String) (r : Pairing) (secret token code : String) (now : ℕ)
    → IsValid r
    → IsValid (apply_claim digest r secret token code now).1
unfolding apply_claim
apply_claim-IsValid digest r secret token code now v = ground (arith, v.quiet, v.single_use)

on_approve-IsValid :
    (r : Pairing) (role : Role) (now : ℕ) → IsValid r → IsValid (on_approve r role now).1
unfolding on_approve
on_approve-IsValid r role now v = ground (arith, v.quiet, v.single_use, v.has_sender)

on_reject-IsValid :
    (r : Pairing) (role : Role) (now : ℕ) → IsValid r → IsValid (on_reject r role now).1
unfolding on_reject
on_reject-IsValid r role now v = ground (arith, end_pairing-IsValid r rejected now v)

install_offer-IsValid :
    (r : Pairing) (sdp : String) (gen : ℕ) (peer : String) (now : ℕ)
    → is_approved r.state ≡ true
    → IsValid r
    → IsValid (install_offer r sdp gen peer now)
unfolding install_offer
install_offer-IsValid r sdp gen peer now a v = rw a (record {
  quiet = λ e. cc;
  single_use = v.single_use;
  unclaimed = v.unclaimed;
  has_sender = v.has_sender;
  current_offer = refl;
  current_answer = tt;
  answers = λ e. cc;
  from_sender = nil-IsListed gen r.next_seq v.numbered_from;
  from_receiver = nil-IsListed gen r.next_seq v.numbered_from;
  numbered_from = v.numbered_from;
  within = λ e. omega arith;
  reasoned = v.reasoned;
})

on_offer-IsValid :
    (r : Pairing) (role : Role) (sdp : String) (gen : ℕ) (peer : String) (now : ℕ)
    → IsValid r
    → IsValid (on_offer r role sdp gen peer now).1
unfolding on_offer
on_offer-IsValid r role sdp gen peer now v =
    let installed = install_offer-IsValid r sdp gen peer now in ground (arith, installed)

on_answer-IsValid :
    (r : Pairing) (role : Role) (sdp : String) (gen : ℕ) (peer : String) (now : ℕ)
    → IsValid r
    → IsValid (on_answer r role sdp gen peer now).1
unfolding on_answer
on_answer-IsValid r role sdp gen peer now v = ground (arith, v.quiet, v.single_use, v.has_sender)

on_candidates-IsValid :
    (r : Pairing) (role : Role) (gen : ℕ) (items : List CandidateItem) (now : ℕ)
    → IsValid r
    → IsValid (on_candidates r role gen items now).1
unfolding on_candidates
on_candidates-IsValid r receiver gen items now v = ground (
  arith,
  v.quiet,
  append-IsListed gen r.next_seq r.candidates.of_receiver items,
  mono-IsListed gen r.next_seq (r.next_seq + length items) r.candidates.of_sender,
)
on_candidates-IsValid r sender gen items now v = ground (
  arith,
  v.quiet,
  append-IsListed gen r.next_seq r.candidates.of_sender items,
  mono-IsListed gen r.next_seq (r.next_seq + length items) r.candidates.of_receiver,
)

on_transport-IsValid :
    (r : Pairing) (role : Role) (mode : Transport) (now : ℕ)
    → IsValid r
    → IsValid (on_transport r role mode now).1
unfolding on_transport
on_transport-IsValid r role mode now v =
    ground (arith, v.quiet, nil-IsListed r.generation r.next_seq v.numbered_from)

on_status-IsValid :
    (r : Pairing) (role : Role) (link : Connection) (active muted : Bool) (now : ℕ)
    → IsValid r
    → IsValid (on_status r role link active muted now).1
unfolding on_status
on_status-IsValid r role link active muted now v =
    ground (arith, v.quiet, nil-IsListed r.generation r.next_seq v.numbered_from)

on_action-IsValid :
    (r : Pairing) (role : Role) (request : SignalRequest) (now : ℕ)
    → IsValid r
    → IsValid (on_action r role request now).1
unfolding on_action
on_action-IsValid r role approve now v = on_approve-IsValid r role now v
on_action-IsValid r role reject now v = on_reject-IsValid r role now v
on_action-IsValid r role (offer sdp gen peer) now v = on_offer-IsValid r role sdp gen peer now v
on_action-IsValid r role (answer sdp gen peer) now v = on_answer-IsValid r role sdp gen peer now v
on_action-IsValid r role (candidates gen items) now v = on_candidates-IsValid r role gen items now v
on_action-IsValid r role (transport mode) now v = on_transport-IsValid r role mode now v
on_action-IsValid r role (status link active muted) now v =
    on_status-IsValid r role link active muted now v

-- Whatever a role posts, and whenever, a valid record stays valid.
pub apply_signal-IsValid :
    (r : Pairing) (role : Role) (request : SignalRequest) (now : ℕ)
    → IsValid r
    → IsValid (apply_signal r role request now).1
unfolding apply_signal
apply_signal-IsValid r role request now v =
    ground (arith, end_pairing-IsValid r expired now v, on_action-IsValid r role request now v)
