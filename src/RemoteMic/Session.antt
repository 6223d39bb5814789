-- ===== src/RemoteMic/Session.antt =====
-- src/remote-mic/session.ts: the pairing state machine. A function that mutates its record returns
-- the record. The digest (SHA-256 of the Node library, in base64url), the random tokens and the
-- confirmation code are arguments; a failure has its HTTP status and its code, without the sentence.
pub mod Signal
pub mod Validity
pub mod Preserved
pub mod Roles
pub mod View
mod Tests
use asad.Base.{
  ℕ, ◌+◌, ◌-◌, min, max, String, Bool, true, false, not, ◌||◌, Option, none, some, List, [], leb,
  ltb, if◌then◌else◌, str_eq, utf16_length,
}
use Prim.Native.String.{◌++◌}
use asad.RemoteMic.Protocol.{
  Role, receiver, sender, PairingState, waiting, claimed, ended, is_waiting, is_approved, is_ended,
  EndReason, ErrorCode, expired_link, unauthorized, already_claimed, SignalDescription,
  SignalCandidate, PeerStatus, pairing_window_ms, paired_idle_ttl_ms, max_session_ms,
  ended_retention_ms,
}

-- `{ sender: …, receiver: … }`
pub record PerRole (A : Type 0) : Type 0 where
  pub of_sender : A
  pub of_receiver : A

abbrev pub for_role : {A : Type 0} → PerRole A → Role → A
for_role p receiver = p.of_receiver
for_role p sender = p.of_sender

abbrev pub set_role : {A : Type 0} → PerRole A → Role → A → PerRole A
set_role p receiver a = record { of_sender = p.of_sender; of_receiver = a }
set_role p sender a = record { of_sender = a; of_receiver = p.of_receiver }

pub record Pairing : Type 0 where
  pub id : String
  pub created_at : ℕ
  pub expires_at : ℕ
  pub state : PairingState
  pub receiver_token_hash : String
  pub pairing_secret_hash : Option String
  pub sender_token_hash : Option String
  pub confirm_code : Option String
  pub generation : ℕ
  pub offer : Option SignalDescription
  pub answer : Option SignalDescription
  pub candidates : PerRole (List SignalCandidate)
  pub next_seq : ℕ
  pub status : PerRole (Option PeerStatus)
  pub ended_reason : Option EndReason
  pub relay : Bool

pub data Outcome (A : Type 0) : Type 0 where
  ok : A → Outcome A
  fail : ℕ → ErrorCode → Outcome A

pub data SecretKind : Type 0 where
  receiver_secret sender_secret pairing_secret : SecretKind

abbrev pub kind_name : SecretKind → String
kind_name receiver_secret = "receiver"
kind_name sender_secret = "sender"
kind_name pairing_secret = "pairing"

-- `hashSecret`, given the digest
unfoldable pub hash_secret : (String → String) → SecretKind → String → String
hash_secret digest kind secret =
    digest ("asad/remote-mic/" ++ (kind_name kind ++ ("/v1:" ++ secret)))

-- Buffers of equal length that `timingSafeEqual` finds equal; a hash that is null or empty
-- matches nothing.
unfoldable pub hashes_match : String → Option String → Bool
hashes_match a none = false
hashes_match a (some b) = if str_eq b "" then false else str_eq a b

unfoldable pub role_for_token : (String → String) → Pairing → Option String → Option Role
unfolding hash_secret hashes_match
role_for_token digest r none = none
role_for_token digest r (some token) =
    if str_eq token "" || ltb 128 (utf16_length token)
    then none
    else if hashes_match (hash_secret digest receiver_secret token) (some r.receiver_token_hash)
    then some receiver
    else if hashes_match (hash_secret digest sender_secret token) r.sender_token_hash
    then some sender
    else none

abbrev pub no_candidates : PerRole (List SignalCandidate)
no_candidates = record { of_sender = []; of_receiver = [] }

abbrev pub no_status : PerRole (Option PeerStatus)
no_status = record { of_sender = none; of_receiver = none }

-- `newPairing`, given the three random tokens
unfoldable pub new_pairing : (String → String) → String → String → String → ℕ → Pairing
unfolding hash_secret
new_pairing digest id receiver_token secret now = record {
  id = id;
  created_at = now;
  expires_at = now + pairing_window_ms;
  state = waiting;
  receiver_token_hash = hash_secret digest receiver_secret receiver_token;
  pairing_secret_hash = some (hash_secret digest pairing_secret secret);
  sender_token_hash = none;
  confirm_code = none;
  generation = 0;
  offer = none;
  answer = none;
  candidates = no_candidates;
  next_seq = 1;
  status = no_status;
  ended_reason = none;
  relay = false;
}

unfoldable pub is_expired : Pairing → ℕ → Bool
is_expired r now = leb r.expires_at now || leb (r.created_at + max_session_ms) now

-- The signed difference `until - now` is below the least retention where `until` has passed.
unfoldable pub retention_ms : Pairing → ℕ → ℕ
retention_ms r now = max 1_000 (min r.expires_at (r.created_at + max_session_ms) - now)

unfoldable pub touch : Pairing → ℕ → Pairing
touch r now =
    if is_approved r.state
    then record r { expires_at = min (r.created_at + max_session_ms) (now + paired_idle_ttl_ms) }
    else r

unfoldable pub clear_negotiation : Pairing → Pairing
clear_negotiation r = record r { offer = none; answer = none; candidates = no_candidates }

unfoldable pub end_pairing : Pairing → EndReason → ℕ → Pairing
unfolding clear_negotiation
end_pairing r reason now =
    if is_ended r.state
    then r
    else let cut = clear_negotiation (record r {
      state = ended;
      ended_reason = some reason;
      pairing_secret_hash = none;
      relay = false;
    }) in
      record cut { expires_at = now + ended_retention_ms }

pub record Claim : Type 0 where
  pub sender_token : String
  pub confirm_code : String

-- `applyClaim`, given the token and the code that it draws
unfoldable pub apply_claim :
    (String → String) → Pairing → String → String → String → ℕ → Outcome Claim × Pairing
unfolding hash_secret hashes_match is_expired
apply_claim digest r secret sender_token code now =
    if is_ended r.state || is_expired r now
    then (fail 410 expired_link, r)
    else elim r.pairing_secret_hash [
      | none ↦ (fail 409 already_claimed, r)
      | some h ↦
          if not (is_waiting r.state) || str_eq h ""
          then (fail 409 already_claimed, r)
          else if hashes_match (hash_secret digest pairing_secret secret) (some h)
          then (
            ok (record { sender_token = sender_token; confirm_code = code }),
            record r {
              sender_token_hash = some (hash_secret digest sender_secret sender_token);
              pairing_secret_hash = none;
              confirm_code = some code;
              state = claimed;
            },
          )
          else (fail 403 unauthorized, r)
    ]
