-- ===== src/RemoteMic/Session/Signal.antt =====
-- src/remote-mic/session.ts: `applySignal`, one function for each action.
use asad.Base.{
  ℕ, ◌+◌, String, Bool, true, false, not, ◌&&◌, none, some, List, [], ◌∷◌, ◌++◌, ltb, ◌==◌,
  if◌then◌else◌, str_eq, length,
}
use asad.RemoteMic.Protocol.{
  Role, is_receiver, is_sender, approved, is_claimed, is_approved, is_ended, rejected, expired,
  expired_link, forbidden_role, not_approved, invalid_state, stale_generation, too_many_candidates,
  SignalDescription, CandidateItem, SignalCandidate, Connection, is_connected, Transport,
  is_relayed, max_candidates_per_role, SignalRequest, approve, reject, offer, answer, candidates,
  transport, status,
}
use asad.RemoteMic.Session.{
  Pairing, Outcome, ok, fail, for_role, set_role, is_expired, touch, clear_negotiation, end_pairing,
}

abbrev pub Reply : Type 0
Reply = Outcome (Unit {0}) × Pairing

unfoldable pub on_approve : Pairing → Role → ℕ → Reply
unfolding touch
on_approve r role now =
    if not (is_receiver role)
    then (fail 403 forbidden_role, r)
    else if is_approved r.state
    then (ok tt, r)
    else if not (is_claimed r.state)
    then (fail 409 invalid_state, r)
    else (ok tt, touch (record r { state = approved }) now)

unfoldable pub on_reject : Pairing → Role → ℕ → Reply
unfolding end_pairing
on_reject r role now =
    if not (is_receiver role)
    then (fail 403 forbidden_role, r)
    else if not (is_claimed r.state)
    then (fail 409 invalid_state, r)
    else (ok tt, end_pairing r rejected now)

abbrev pub same_sdp : SignalDescription → String → Bool
same_sdp d sdp = str_eq d.sdp sdp

-- The new offer replaces the negotiation, and is a direct attempt.
unfoldable pub install_offer : Pairing → String → ℕ → String → ℕ → Pairing
unfolding clear_negotiation touch
install_offer r sdp gen peer now =
    let cleared = clear_negotiation (record r { generation = gen }) in
    touch
      (record cleared {
        relay = false;
        offer = some (record { sdp = sdp; generation = gen; peer_id = peer });
      })
      now

unfoldable pub on_offer : Pairing → Role → String → ℕ → String → ℕ → Reply
unfolding install_offer
on_offer r role sdp gen peer now =
    if not (is_sender role)
    then (fail 403 forbidden_role, r)
    else if not (is_approved r.state)
    then (fail 409 not_approved, r)
    else if ltb gen r.generation
    then (fail 409 stale_generation, r)
    else elim r.offer [
      | none ↦ (ok tt, install_offer r sdp gen peer now)
      | some d ↦
          if gen == r.generation
          then (if same_sdp d sdp then (ok tt, r) else (fail 409 stale_generation, r))
          else (ok tt, install_offer r sdp gen peer now)
    ]

unfoldable pub on_answer : Pairing → Role → String → ℕ → String → ℕ → Reply
unfolding touch
on_answer r role sdp gen peer now =
    if not (is_receiver role)
    then (fail 403 forbidden_role, r)
    else if not (is_approved r.state)
    then (fail 409 not_approved, r)
    else elim r.offer [
      | none ↦ (fail 409 stale_generation, r)
      | some _ ↦
          if not (gen == r.generation) then (fail 409 stale_generation, r) else elim r.answer [
            | some d ↦ if same_sdp d sdp then (ok tt, r) else (fail 409 stale_generation, r)
            | none ↦ (
              ok tt,
              touch
                  (record r {
                    answer = some (record { sdp = sdp; generation = gen; peer_id = peer });
                  })
                  now,
            )
          ]
    ]

-- The loop of the pushes, in which the sequence number runs on.
unfoldable pub number_items : ℕ → ℕ → List CandidateItem → List SignalCandidate
number_items gen seq [] = []
number_items gen seq (item ∷ items) =
    record { item = item; generation = gen; seq = seq } ∷ number_items gen (seq + 1) items

unfoldable pub on_candidates : Pairing → Role → ℕ → List CandidateItem → ℕ → Reply
unfolding touch
on_candidates r role gen items now =
    if not (is_approved r.state)
    then (fail 409 not_approved, r)
    else if not (gen == r.generation)
    then (fail 409 stale_generation, r)
    else if ltb max_candidates_per_role (length (for_role r.candidates role) + length items)
    then (fail 413 too_many_candidates, r)
    else (
      ok tt,
      touch
          (record r {
            candidates =
                set_role r.candidates role
                  (for_role r.candidates role ++ number_items gen r.next_seq items);
            next_seq = r.next_seq + length items;
          })
          now,
    )

unfoldable pub on_transport : Pairing → Role → Transport → ℕ → Reply
unfolding touch clear_negotiation
on_transport r role mode now =
    if not (is_sender role)
    then (fail 403 forbidden_role, r)
    else if not (is_approved r.state)
    then (fail 409 not_approved, r)
    else (
      ok tt,
      touch
          (if is_relayed mode
            then clear_negotiation (record r { relay = true })
            else record r { relay = false })
          now,
    )

-- `record.answer?.generation === record.generation`
abbrev pub answered : Pairing → Bool
answered r = elim r.answer [ none ↦ false | some d ↦ d.generation == r.generation ]

unfoldable pub on_status : Pairing → Role → Connection → Bool → Bool → ℕ → Reply
unfolding touch clear_negotiation
on_status r role connection active muted now =
    if not (is_approved r.state) && not (is_claimed r.state)
    then (fail 409 invalid_state, r)
    else let seen = record r {
      status = set_role r.status role (
          some (record {
            connection = connection;
            mic_active = active;
            muted = muted;
            updated_at = now;
          }));
    } in
      (
        ok tt,
        touch
            (if is_receiver role && (is_connected connection && answered r)
              then clear_negotiation seen
              else seen)
            now,
      )

unfoldable pub on_action : Pairing → Role → SignalRequest → ℕ → Reply
on_action r role approve now = on_approve r role now
on_action r role reject now = on_reject r role now
on_action r role (offer sdp gen peer) now = on_offer r role sdp gen peer now
on_action r role (answer sdp gen peer) now = on_answer r role sdp gen peer now
on_action r role (candidates gen items) now = on_candidates r role gen items now
on_action r role (transport mode) now = on_transport r role mode now
on_action r role (status connection active muted) now = on_status r role connection active muted now

unfoldable pub apply_signal : Pairing → Role → SignalRequest → ℕ → Reply
unfolding on_action is_expired end_pairing
apply_signal r role request now =
    if is_ended r.state
    then (fail 410 expired_link, r)
    else if is_expired r now
    then (fail 410 expired_link, end_pairing r expired now)
    else on_action r role request now
