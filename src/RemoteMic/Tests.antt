-- ===== src/RemoteMic/Tests.antt =====
-- src/remote-mic/relay-codec.ts: concrete samples.
use asad.Base.{ℕ, ◌≡◌, refl, [], ◌∷◌, arith}
use asad.Base.Int.{pos}
use asad.RemoteMic.Codec.{exponent_from, linear_to_mulaw, mulaw_to_linear, mulaw_round_trip}
use asad.RemoteMic.Frames.{push, Cuts, push-Cuts}

silence : linear_to_mulaw (pos 0) ≡ 255
unfolding linear_to_mulaw exponent_from
silence = refl

mulaw_round_trip_example : linear_to_mulaw (mulaw_to_linear 0x42) ≡ 0x42
mulaw_round_trip_example = mulaw_round_trip 0x42 (omega arith) (λ e. omega arith)

push-Cuts_example :
    Cuts {A = ℕ} 2 (9 ∷ []) (7 ∷ 8 ∷ 6 ∷ 5 ∷ []) (push 2 (9 ∷ []) (7 ∷ 8 ∷ 6 ∷ 5 ∷ []))
push-Cuts_example = push-Cuts 2 (9 ∷ []) (7 ∷ 8 ∷ 6 ∷ 5 ∷ []) (omega arith)
