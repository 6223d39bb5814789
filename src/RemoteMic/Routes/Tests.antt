-- ===== src/RemoteMic/Routes/Tests.antt =====
-- src/app/api/remote-mic: concrete sequences of requests. The digest is the identity here.
use asad.Base.{◌≤◌, String, ◌≡◌, refl, false, some, List, [], ◌∷◌}
use asad.RemoteMic.Protocol.{is_approved, approve, offer, rejected, receiver, expired_link}
use asad.RemoteMic.Session.{
  Pairing, new_pairing, end_pairing, hash_secret, hashes_match, apply_claim, fail,
}
use asad.RemoteMic.Session.Signal.{apply_signal}
use asad.RemoteMic.Session.Validity.{IsValid, IsQuiet}
use asad.RemoteMic.Routes.Histories.{
  Request, claim, signal, run, accepted_claims, run-new_pairing-IsValid, accepted_once,
}
use asad.RemoteMic.Routes.Approval.{run-refuses, unapproved-IsQuiet}

abbrev digest : String → String
digest s = s

abbrev opened : Pairing
opened = new_pairing digest "pair" "computer" "secret" 1_000

abbrev two_claims : List Request
two_claims = claim "secret" "phone" "12" 2_000 ∷ claim "secret" "thief" "34" 2_500 ∷ []

abbrev intrusion : List Request
intrusion =
    claim "secret" "phone" "12" 2_000
    ∷ signal (some "phone") approve 3_000
    ∷ signal (some "phone") (offer "v=0" 1 "peer") 4_000
    ∷ []

abbrev proper : List Request
proper =
    claim "secret" "phone" "12" 2_000
    ∷ signal (some "computer") approve 3_000
    ∷ signal (some "phone") (offer "v=0" 1 "peer") 4_000
    ∷ []

run-new_pairing-IsValid_example : IsValid (run digest opened proper)
run-new_pairing-IsValid_example =
    run-new_pairing-IsValid digest "pair" "computer" "secret" 1_000 proper

accepted_once_example : accepted_claims digest opened two_claims ≤ 1
accepted_once_example = accepted_once digest "pair" "computer" "secret" 1_000 two_claims

abbrev gone : Pairing
gone = end_pairing opened rejected 2_000

run-refuses_example :
    (run digest gone two_claims ≡ gone)
    × ((apply_claim digest (run digest gone two_claims) "secret" "phone" "12" 3_000).0
        ≡ fail 410 expired_link)
    × ((apply_signal (run digest gone two_claims) receiver approve 3_000).0 ≡ fail 410 expired_link)
unfolding end_pairing new_pairing
run-refuses_example =
    run-refuses digest gone two_claims receiver approve "secret" "phone" "12" 3_000 refl

unapproved-IsQuiet_example :
    (is_approved (run digest opened intrusion).state ≡ false)
    × IsQuiet (run digest opened intrusion)
unfolding hash_secret hashes_match
unapproved-IsQuiet_example =
    unapproved-IsQuiet digest "pair" "computer" "secret" 1_000 intrusion (tt, (refl, (tt, tt)))
