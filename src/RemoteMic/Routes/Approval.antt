-- ===== src/RemoteMic/Routes/Approval.antt =====
-- src/app/api/remote-mic: who can open a pairing to media, and what is final.
use asad.Base.{
  ℕ, ◌≤◌, String, ◌≡◌, refl, inl, inr, true, false, Option, none, some, List, [], ◌∷◌, arith, All,
  Option-cases,
}
use asad.RemoteMic.Protocol.{
  Role, receiver, sender, approve, reject, offer, answer, candidates, transport, status,
  SignalRequest, is_ended, is_approved, expired_link,
}
use asad.RemoteMic.Session.{
  Pairing, new_pairing, apply_claim, role_for_token, hash_secret, hashes_match, receiver_secret,
  end_pairing, fail,
}
use asad.RemoteMic.Session.Signal.{
  apply_signal, on_action, on_approve, on_reject, on_offer, on_answer, on_candidates, on_transport,
  on_status,
}
use asad.RemoteMic.Session.Validity.{IsQuiet}
use asad.RemoteMic.Routes.{signal_mutation, reason_for}
use asad.RemoteMic.Routes.Histories.{
  Request, claim, signal, end, step, run, step_cases, run-new_pairing-IsValid,
}

module _ (digest : String → String) where
  -- Whatever is requested of an ended pairing, its record stays as it is.
  pub run-ended : (r : Pairing) (cs : List Request) → is_ended r.state ≡ true → run digest r cs ≡ r
  unfolding run
  run-ended r [] e = refl
  run-ended r (c ∷ cs) e =
      let same : step digest r c ≡ r =
        step_cases digest (λ q. q ≡ r) r c refl (λ s t k n. unfold apply_claim in ground arith)
          (λ role q n. unfold apply_signal in ground arith)
          (λ role n. unfold end_pairing in ground arith) in
      rw same (run-ended r cs e)

  -- Once a pairing has ended, whatever is requested leaves its record as it is, and every claim and
  -- every action after that is refused with status 410.
  pub run-refuses :
      (r : Pairing) (cs : List Request) (role : Role) (request : SignalRequest)
      (secret token code : String) (now : ℕ)
      → is_ended r.state ≡ true
      → (run digest r cs ≡ r)
        × ((apply_claim digest (run digest r cs) secret token code now).0 ≡ fail 410 expired_link)
        × ((apply_signal (run digest r cs) role request now).0 ≡ fail 410 expired_link)
  unfolding apply_claim apply_signal
  run-refuses r cs role request secret token code now e =
      let same = run-ended r cs e in (same, rw same (ground arith), rw same (ground arith))

  signal-generation :
      (r : Pairing) (role : Role) (q : SignalRequest) (now : ℕ)
      → r.generation ≤ (apply_signal r role q now).1.generation
  unfolding apply_signal on_action on_approve on_reject on_offer on_answer on_candidates
      on_transport on_status
  signal-generation r role approve now = ground arith
  signal-generation r role reject now = ground arith
  signal-generation r role (offer sdp gen peer) now = ground arith
  signal-generation r role (answer sdp gen peer) now = ground arith
  signal-generation r role (candidates gen items) now = ground arith
  signal-generation r role (transport mode) now = ground arith
  signal-generation r role (status link active muted) now = ground arith

  -- No request takes a pairing back to an earlier connection attempt.
  pub run-generation :
      (r : Pairing) (cs : List Request) → r.generation ≤ (run digest r cs).generation
  unfolding run
  run-generation r [] = omega arith
  run-generation r (c ∷ cs) =
      let once : r.generation ≤ (step digest r c).generation =
        step_cases digest (λ q. r.generation ≤ q.generation) r c (omega arith)
          (λ s t k n. unfold apply_claim in ground arith) (signal-generation r)
          (λ role n. unfold end_pairing in ground arith) in
      omega (arith, run-generation (step digest r c) cs)

  -- An approval that does not carry the token of the computer that opened the pairing.
  abbrev pub IsNotOurApproval : String → Request → Type 0
  IsNotOurApproval h (signal (some token) approve now) =
      hashes_match (hash_secret digest receiver_secret token) (some h) ≡ false
  IsNotOurApproval h _ = Unit

  role-receiver :
      (r : Pairing) (token : String)
      → role_for_token digest r (some token) ≡ some receiver
      → hashes_match (hash_secret digest receiver_secret token) (some r.receiver_token_hash) ≡ true
  unfolding role_for_token
  role-receiver r token e = ground arith

  -- Neither open to media nor under another computer's token.
  abbrev IsShut : String → Pairing → Type 0
  IsShut h r = (is_approved r.state ≡ false) × (r.receiver_token_hash ≡ h)

  claim-IsShut :
      (h : String) (r : Pairing) (secret token code : String) (now : ℕ)
      → IsShut h r
      → IsShut h (apply_claim digest r secret token code now).1
  unfolding apply_claim
  claim-IsShut h r secret token code now v = ground arith

  end-IsShut :
      (h : String) (r : Pairing) (role : Role) (now : ℕ)
      → IsShut h r
      → IsShut h (end_pairing r (reason_for role) now)
  unfolding end_pairing
  end-IsShut h r role now v = ground arith

  -- Only the receiver's approval opens it.
  signal-IsShut :
      (h : String) (r : Pairing) (role : Role) (q : SignalRequest) (now : ℕ)
      → (q ≡ approve → role ≡ sender)
      → IsShut h r
      → IsShut h (apply_signal r role q now).1
  unfolding apply_signal on_action on_approve on_reject on_offer on_answer on_candidates
      on_transport on_status
  signal-IsShut h r role approve now s v = ground (arith, s refl)
  signal-IsShut h r role reject now s v = ground arith
  signal-IsShut h r role (offer sdp gen peer) now s v = ground arith
  signal-IsShut h r role (answer sdp gen peer) now s v = ground arith
  signal-IsShut h r role (candidates gen items) now s v = ground arith
  signal-IsShut h r role (transport mode) now s v = ground arith
  signal-IsShut h r role (status link active muted) now s v = ground arith

  -- The role that an approval without our token acts in.
  approver :
      (h : String) (r : Pairing) (token : Option String) (q : SignalRequest) (now : ℕ) (role : Role)
      → IsNotOurApproval h (signal token q now)
      → r.receiver_token_hash ≡ h
      → role_for_token digest r token ≡ some role
      → q ≡ approve
      → role ≡ sender
  unfolding role_for_token
  approver h r token q now sender n same found e = refl
  approver h r none q now receiver n same found e = cc
  approver h r (some token) approve now receiver n same found e =
      absurd (ground (arith, role-receiver r token found))
  approver h r (some token) _ now receiver n same found e = cc

  step-IsShut :
      (h : String) (r : Pairing) (c : Request)
      → IsNotOurApproval h c
      → IsShut h r
      → IsShut h (step digest r c)
  unfolding step
  step-IsShut h r (claim secret token code now) n v =
      ground (arith, claim-IsShut h r secret token code now v)
  step-IsShut h r (signal token q now) n v = elim (Option-cases (role_for_token digest r token)) [
    | inl e ↦ rw (e, signal_mutation) v
    | inr (role, e) ↦
        let by_sender = approver h r token q now role n v.1 e in
        rw (e, signal_mutation) (ground (arith, signal-IsShut h r role q now by_sender v))
  ]
  step-IsShut h r (end token now) n v =
      ground (arith, end-IsShut h r receiver now v, end-IsShut h r sender now v)

  run-IsShut :
      (h : String) (r : Pairing) (cs : List Request)
      → All (IsNotOurApproval h) cs
      → IsShut h r
      → IsShut h (run digest r cs)
  unfolding run
  run-IsShut h r [] n v = v
  run-IsShut h r (c ∷ cs) n v = run-IsShut h (step digest r c) cs n.1 (step-IsShut h r c n.0 v)

  -- Until the computer that opened the pairing approves with its own token, no request of anybody
  -- makes the pairing approved: it holds no offer, no answer and no candidates, and the relay is
  -- off.
  pub unapproved-IsQuiet :
      (id token secret : String) (now : ℕ) (cs : List Request)
      → All (IsNotOurApproval (hash_secret digest receiver_secret token)) cs
      → let r = run digest (new_pairing digest id token secret now) cs in
        (is_approved r.state ≡ false) × IsQuiet r
  unfolding new_pairing
  unapproved-IsQuiet id token secret now cs n =
      let shut = run-IsShut (hash_secret digest receiver_secret token) _ cs n (refl, refl) in
      (shut.0, (run-new_pairing-IsValid digest id token secret now cs).quiet shut.0)
