-- ===== src/RemoteMic/Protocol.antt =====
-- src/remote-mic/protocol.ts: the limits and the data of the signalling protocol. Times are
-- milliseconds. A signalling request is what `signalSchema` has accepted.
use asad.Base.{ℕ, ◌*◌, String, Bool, true, false, Option, List}

abbrev pub pairing_window_ms : ℕ
pairing_window_ms = 5 * 60_000

abbrev pub paired_idle_ttl_ms : ℕ
paired_idle_ttl_ms = 10 * 60_000

abbrev pub max_session_ms : ℕ
max_session_ms = 6 * 60 * 60_000

abbrev pub ended_retention_ms : ℕ
ended_retention_ms = 2 * 60_000

abbrev pub max_candidates_per_role : ℕ
max_candidates_per_role = 40

abbrev pub relay_max_stored_frames : ℕ
relay_max_stored_frames = 40

abbrev pub relay_ttl_ms : ℕ
relay_ttl_ms = 60_000

pub data Role : Type 0 where
  receiver sender : Role

abbrev pub is_receiver : Role → Bool
is_receiver receiver = true
is_receiver sender = false

abbrev pub is_sender : Role → Bool
is_sender receiver = false
is_sender sender = true

pub data PairingState : Type 0 where
  waiting claimed approved ended : PairingState

abbrev pub is_waiting : PairingState → Bool
is_waiting waiting = true
is_waiting _ = false

abbrev pub is_claimed : PairingState → Bool
is_claimed claimed = true
is_claimed _ = false

abbrev pub is_approved : PairingState → Bool
is_approved approved = true
is_approved _ = false

abbrev pub is_ended : PairingState → Bool
is_ended ended = true
is_ended _ = false

pub data EndReason : Type 0 where
  receiver_ended sender_ended rejected expired : EndReason

pub data ErrorCode : Type 0 where
  not_found expired_link unauthorized forbidden_role already_claimed not_approved : ErrorCode
  invalid_state stale_generation too_many_candidates : ErrorCode

-- An offer or an answer, told apart by the field of the record that holds it.
pub record SignalDescription : Type 0 where
  pub sdp : String
  pub generation : ℕ
  pub peer_id : String

-- A candidate as it is posted.
pub record CandidateItem : Type 0 where
  pub candidate : String
  pub sdp_mid : Option String
  pub sdp_m_line_index : Option ℕ

pub record SignalCandidate : Type 0 where
  pub item : CandidateItem
  pub generation : ℕ
  pub seq : ℕ

pub data Connection : Type 0 where
  fresh connecting connected disconnected failed closed : Connection

abbrev pub is_connected : Connection → Bool
is_connected connected = true
is_connected _ = false

pub record PeerStatus : Type 0 where
  pub connection : Connection
  pub mic_active : Bool
  pub muted : Bool
  pub updated_at : ℕ

pub data Transport : Type 0 where
  direct relayed : Transport

abbrev pub is_relayed : Transport → Bool
is_relayed direct = false
is_relayed relayed = true

-- One constructor for each `action`.
pub data SignalRequest : Type 0 where
  approve reject : SignalRequest
  -- the SDP, the generation and the peer
  offer answer : String → ℕ → String → SignalRequest
  candidates : ℕ → List CandidateItem → SignalRequest
  transport : Transport → SignalRequest
  -- the connection, and whether the microphone is active and muted
  status : Connection → Bool → Bool → SignalRequest
