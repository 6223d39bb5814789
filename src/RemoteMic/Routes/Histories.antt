-- ===== src/RemoteMic/Routes/Histories.antt =====
-- src/app/api/remote-mic: a pairing under any sequence of requests, in the order in which the store
-- runs them.
use asad.Base.{
  ℕ, ◌+◌, ◌≤◌, String, ◌≡◌, inl, inr, Bool, true, false, Option, List, [], ◌∷◌, arith, Option-cases,
  if◌then◌else◌,
}
use asad.RemoteMic.Protocol.{
  Role, approve, reject, offer, answer, candidates, transport, status, SignalRequest, is_waiting,
}
use asad.RemoteMic.Session.{Pairing, new_pairing, apply_claim, role_for_token, end_pairing}
use asad.RemoteMic.Session.Signal.{
  apply_signal, on_action, on_approve, on_reject, on_offer, on_answer, on_candidates, on_transport,
  on_status,
}
use asad.RemoteMic.Session.Validity.{IsValid}
use asad.RemoteMic.Session.Preserved.{
  new_pairing-IsValid, apply_claim-IsValid, apply_signal-IsValid, end_pairing-IsValid,
}
use asad.RemoteMic.Routes.{
  Mutated, stored, is_ok, claim_mutation, signal_mutation, end_mutation, reason_for,
}

pub data Request : Type 0 where
  -- the secret, the token and the code that the server draws, and the time
  claim : String → String → String → ℕ → Request
  signal : Option String → SignalRequest → ℕ → Request
  end : Option String → ℕ → Request

if_cases {κ} :
    (P : Pairing → Type κ) (b : Bool) {x y : Pairing} → P x → P y → P (if b then x else y)
if_cases P true p q = p
if_cases P false p q = q

stored_cases {κ} :
    {T : Type 0} (P : Pairing → Type κ) (r : Pairing) (m : Mutated T)
    → P r
    → P m.draft
    → P (stored r m)
stored_cases P r m p q = if_cases P m.write q p

module _ (digest : String → String) where
  unfoldable pub step : Pairing → Request → Pairing
  unfolding claim_mutation signal_mutation end_mutation
  step r (claim secret token code now) = stored r (claim_mutation digest secret token code now r)
  step r (signal token request now) = stored r (signal_mutation digest token request now r)
  step r (end token now) = stored r (end_mutation digest token now r)

  unfoldable pub run : Pairing → List Request → Pairing
  run r [] = r
  run r (c ∷ cs) = run (step r c) cs

  -- What holds of the record and of each draft holds of what is stored.
  pub step_cases {κ} :
      (P : Pairing → Type κ) (r : Pairing) (c : Request)
      → P r
      → ((secret token code : String) (now : ℕ) → P (apply_claim digest r secret token code now).1)
      → ((role : Role) (request : SignalRequest) (now : ℕ) → P (apply_signal r role request now).1)
      → ((role : Role) (now : ℕ) → P (end_pairing r (reason_for role) now))
      → P (step r c)
  unfolding step
  step_cases P r (claim secret token code now) same claimed signalled over =
      stored_cases P r (claim_mutation digest secret token code now r) same
        (claimed secret token code now)
  step_cases P r (signal token request now) same claimed signalled over =
      elim (Option-cases (role_for_token digest r token)) [
        | inl e ↦ rw (e, signal_mutation) same
        | inr (role, e) ↦ rw (e, signal_mutation) (if_cases P _ (signalled role request now) same)
      ]
  step_cases P r (end token now) same claimed signalled over =
      elim (Option-cases (role_for_token digest r token)) [
        | inl e ↦ rw (e, end_mutation) same
        | inr (role, e) ↦ rw (e, end_mutation) (over role now)
      ]

  step-IsValid : (r : Pairing) (c : Request) → IsValid r → IsValid (step r c)
  step-IsValid r c v =
      step_cases IsValid r c v (λ s t k n. apply_claim-IsValid digest r s t k n v)
        (λ role q n. apply_signal-IsValid r role q n v)
        (λ role n. end_pairing-IsValid r (reason_for role) n v)

  run-IsValid : (r : Pairing) (cs : List Request) → IsValid r → IsValid (run r cs)
  unfolding run
  run-IsValid r [] v = v
  run-IsValid r (c ∷ cs) v = run-IsValid (step r c) cs (step-IsValid r c v)

  -- A new pairing is valid after any requests, whoever sends them and whenever they come.
  pub run-new_pairing-IsValid :
      (id token secret : String) (now : ℕ) (cs : List Request)
      → IsValid (run (new_pairing digest id token secret now) cs)
  run-new_pairing-IsValid id token secret now cs =
      run-IsValid _ cs (new_pairing-IsValid digest id token secret now)

  pub is_accepted : Pairing → Request → Bool
  is_accepted r (claim secret token code now) =
      is_ok (claim_mutation digest secret token code now r).result.0
  is_accepted r _ = false

  -- How many claims are answered with a sender token.
  pub accepted_claims : Pairing → List Request → ℕ
  accepted_claims r [] = 0
  accepted_claims r (c ∷ cs) = (if is_accepted r c then 1 else 0) + accepted_claims (step r c) cs

  abbrev Stays : Pairing → Pairing → Type 0
  Stays r q = is_waiting r.state ≡ false → is_waiting q.state ≡ false

  claim-Stays :
      (r : Pairing) (secret token code : String) (now : ℕ)
      → Stays r (apply_claim digest r secret token code now).1
  unfolding apply_claim
  claim-Stays r secret token code now e = ground arith

  signal-Stays :
      (r : Pairing) (role : Role) (q : SignalRequest) (now : ℕ)
      → Stays r (apply_signal r role q now).1
  unfolding apply_signal on_action on_approve on_reject on_offer on_answer on_candidates
      on_transport on_status
  signal-Stays r role approve now e = ground arith
  signal-Stays r role reject now e = ground arith
  signal-Stays r role (offer sdp gen peer) now e = ground arith
  signal-Stays r role (answer sdp gen peer) now e = ground arith
  signal-Stays r role (candidates gen items) now e = ground arith
  signal-Stays r role (transport mode) now e = ground arith
  signal-Stays r role (status link active muted) now e = ground arith

  end-Stays : (r : Pairing) (role : Role) (now : ℕ) → Stays r (end_pairing r (reason_for role) now)
  unfolding end_pairing
  end-Stays r role now e = ground arith

  step-Stays : (r : Pairing) (c : Request) → Stays r (step r c)
  step-Stays r c = step_cases (Stays r) r c (λ e. e) (claim-Stays r) (signal-Stays r) (end-Stays r)

  -- Only a waiting pairing accepts a claim, and then it waits no more.
  accepted-waiting :
      (r : Pairing) (c : Request)
      → IsValid r
      → is_accepted r c ≡ true
      → (is_waiting r.state ≡ true) × (is_waiting (step r c).state ≡ false)
  unfolding is_accepted step claim_mutation apply_claim
  accepted-waiting r (claim secret token code now) v e = ground (arith, v.single_use)
  accepted-waiting r (signal token q now) v e = cc
  accepted-waiting r (end token now) v e = cc

  accepted-bound :
      (r : Pairing) (cs : List Request)
      → IsValid r
      → accepted_claims r cs ≤ (if is_waiting r.state then 1 else 0)
  unfolding accepted_claims
  accepted-bound r [] v = omega arith
  accepted-bound r (c ∷ cs) v = ground (
    arith,
    accepted-bound (step r c) cs (step-IsValid r c v),
    accepted-waiting r c v,
    step-Stays r c,
  )

  -- A pairing link is good for one phone: among any requests at most one claim is accepted.
  pub accepted_once :
      (id token secret : String) (now : ℕ) (cs : List Request)
      → accepted_claims (new_pairing digest id token secret now) cs ≤ 1
  accepted_once id token secret now cs = ground (
    arith,
    accepted-bound (new_pairing digest id token secret now) cs
        (new_pairing-IsValid digest id token secret now),
  )
