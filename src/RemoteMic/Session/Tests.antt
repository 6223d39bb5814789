-- ===== src/RemoteMic/Session/Tests.antt =====
-- src/remote-mic/session.ts: concrete pairings. The digest is the identity here.
use asad.Base.{◌<◌, ◌||◌, String, ◌≡◌, refl, ◌⊎◌, true, false, none, some, [], ◌∷◌, arith}
use asad.RemoteMic.Protocol.{
  receiver, sender, approve, transport, relayed, expired, forbidden_role, CandidateItem, is_ended,
}
use asad.RemoteMic.Session.{Pairing, ok, new_pairing, apply_claim, end_pairing, is_expired}
use asad.RemoteMic.Session.Signal.{apply_signal, on_approve, on_candidates, number_items}
use asad.RemoteMic.Session.Validity.{IsValid}
use asad.RemoteMic.Session.Preserved.{
  new_pairing-IsValid, apply_claim-IsValid, apply_signal-IsValid,
}
use asad.RemoteMic.Session.Roles.{Keeps, starts_over, apply_signal-fail, apply_signal-Keeps}
use asad.RemoteMic.Session.View.{view_for, poll_exact}

abbrev digest : String → String
digest s = s

abbrev opened : Pairing
opened = new_pairing digest "pair" "computer" "secret" 1_000

abbrev claimed_by_phone : Pairing
claimed_by_phone = (apply_claim digest opened "secret" "phone" "12" 2_000).1

abbrev approved_pairing : Pairing
approved_pairing = (apply_signal claimed_by_phone receiver approve 3_000).1

approved_pairing-IsValid : IsValid approved_pairing
approved_pairing-IsValid = apply_signal-IsValid claimed_by_phone receiver approve 3_000 (
    apply_claim-IsValid digest opened "secret" "phone" "12" 2_000
      (new_pairing-IsValid digest "pair" "computer" "secret" 1_000))

abbrev item : CandidateItem
item = record { candidate = "host"; sdp_mid = none; sdp_m_line_index = some 0 }

approving_opens : (apply_signal claimed_by_phone receiver approve 3_000).0 ≡ ok tt
unfolding apply_signal apply_claim new_pairing on_approve
approving_opens = refl

apply_signal-fail_example :
    let reply = apply_signal claimed_by_phone sender approve 3_000 in
    (reply.1 ≡ claimed_by_phone)
    ⊎ ((is_expired claimed_by_phone 3_000 ≡ true)
        × (is_ended claimed_by_phone.state ≡ false)
        × (reply.1 ≡ end_pairing claimed_by_phone expired 3_000))
unfolding apply_signal apply_claim new_pairing on_approve
apply_signal-fail_example =
    apply_signal-fail claimed_by_phone sender approve 3_000 403 forbidden_role refl

apply_signal-Keeps_example :
    Keeps approved_pairing
      (apply_signal approved_pairing sender (transport relayed) 4_000).1
      receiver
      (is_expired approved_pairing 4_000 || starts_over sender approved_pairing (transport relayed))
    × Keeps approved_pairing
        (apply_signal approved_pairing receiver (transport relayed) 4_000).1
        sender
        (is_expired approved_pairing 4_000
          || starts_over receiver approved_pairing (transport relayed))
apply_signal-Keeps_example = apply_signal-Keeps approved_pairing (transport relayed) 4_000

poll_exact_example :
    let cursor = (view_for approved_pairing receiver 0).cursor in
    (cursor < approved_pairing.next_seq)
    × ((view_for approved_pairing receiver cursor).candidates ≡ [])
    × ((view_for
          (on_candidates approved_pairing sender 0 (item ∷ item ∷ []) 4_000).1
          receiver
          cursor).candidates
        ≡ number_items approved_pairing.generation approved_pairing.next_seq (item ∷ item ∷ []))
unfolding apply_signal apply_claim new_pairing on_approve on_candidates
poll_exact_example =
    poll_exact approved_pairing receiver 0 0 (item ∷ item ∷ []) 4_000 approved_pairing-IsValid
      (omega arith) refl
