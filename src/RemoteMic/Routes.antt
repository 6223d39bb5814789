-- ===== src/RemoteMic/Routes.antt =====
-- src/app/api/remote-mic: the mutations that the claim, signal and session routes hand to the
-- store, which runs each one atomically on the record and writes the draft if told to.
pub mod Histories
pub mod Approval
mod Tests
use asad.Base.{ℕ, String, Bool, true, false, ◌||◌, Option, none, some, if◌then◌else◌}
use asad.RemoteMic.Protocol.{
  Role, receiver, sender, receiver_ended, sender_ended, EndReason, SignalRequest, is_ended,
}
use asad.RemoteMic.Session.{
  Pairing, Outcome, ok, fail, Claim, apply_claim, role_for_token, end_pairing,
}
use asad.RemoteMic.Session.Signal.{apply_signal}
use asad.RemoteMic.Session.View.{View, view_for}

-- What a `Mutation<T>` returns, with the draft that it has mutated.
pub record Mutated (T : Type 0) : Type 0 where
  pub write : Bool
  pub result : T
  pub draft : Pairing

-- The record that the store holds afterwards.
abbrev pub stored : {T : Type 0} → Pairing → Mutated T → Pairing
stored r m = if m.write then m.draft else r

abbrev pub is_ok : {A : Type 0} → Outcome A → Bool
is_ok (ok _) = true
is_ok (fail _ _) = false

pub data SignalResult : Type 0 where
  refused : SignalResult
  applied : Outcome (Unit {0}) → View → SignalResult

-- POST /api/remote-mic/claim
unfoldable pub claim_mutation :
    (String → String) → String → String → String → ℕ → Pairing → Mutated (Outcome Claim × ℕ)
claim_mutation digest secret token code now r =
    let (result, draft) = apply_claim digest r secret token code now in
    record { write = is_ok result; result = (result, draft.expires_at); draft = draft }

-- POST /api/remote-mic/signal
unfoldable pub signal_mutation :
    (String → String) → Option String → SignalRequest → ℕ → Pairing → Mutated SignalResult
signal_mutation digest token request now r = elim (role_for_token digest r token) [
  | none ↦ record { write = false; result = refused; draft = r }
  | some role ↦
      let (result, draft) = apply_signal r role request now in
      record {
        write = is_ok result || is_ended draft.state;
        result = applied result (view_for draft role 0);
        draft = draft;
      }
]

abbrev pub reason_for : Role → EndReason
reason_for receiver = receiver_ended
reason_for sender = sender_ended

-- DELETE /api/remote-mic/session; the result says whether the caller was authorised
unfoldable pub end_mutation : (String → String) → Option String → ℕ → Pairing → Mutated Bool
end_mutation digest token now r = elim (role_for_token digest r token) [
  | none ↦ record { write = false; result = false; draft = r }
  | some role ↦ record { write = true; result = true; draft = end_pairing r (reason_for role) now }
]
