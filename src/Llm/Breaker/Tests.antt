-- ===== src/Llm/Breaker/Tests.antt =====
-- src/providers/llm/circuit-breaker.ts: the breaker on concrete failures.
use asad.Base.{◌+◌, ◌≡◌, refl, true, false, none, [], ◌∷◌, arith, leb}
use asad.Llm.Breaker.{
  Breaker, default_breaker, initial, auth, server_error, timeout, FailureOptions, record_failure,
  can_attempt, cooldown,
}
use asad.Llm.Breaker.History.{
  Call, failed, step, run, permanent_count, run-initial-IsValid, run-confirmed,
}
use asad.Llm.Breaker.Opening.{run-threshold}

abbrev plain_failure : FailureOptions
plain_failure = record { fatal = false; retry_after_seconds = none }

abbrev rejected_key : Call
rejected_key = failed auth "401" plain_failure 1000

abbrev broken : Call
broken = failed server_error "503" plain_failure 2000

abbrev disabled : Breaker
disabled = run default_breaker initial (rejected_key ∷ rejected_key ∷ [])

opens_after_three :
    can_attempt (run default_breaker initial (broken ∷ broken ∷ broken ∷ [])) 21_999 ≡ false
unfolding run step record_failure can_attempt cooldown
opens_after_three = refl

run-confirmed_example :
    (run default_breaker
      (run default_breaker initial [])
      (rejected_key ∷ broken ∷ rejected_key ∷ [])).permanent
    ≡ true
unfolding permanent_count
run-confirmed_example =
    run-confirmed default_breaker (run default_breaker initial [])
      (rejected_key ∷ broken ∷ rejected_key ∷ [])
      (run-initial-IsValid default_breaker (omega arith) (omega arith) []) (omega arith)
      (omega arith) (tt, (tt, (tt, tt))) (omega arith)

run-threshold_example :
    (can_attempt (run default_breaker initial (broken ∷ broken ∷ [])) 2_500 ≡ true)
    × (can_attempt
          (record_failure default_breaker
            (run default_breaker initial (broken ∷ broken ∷ []))
            timeout
            "slow"
            plain_failure
            3_000)
          2_500
        ≡ leb
            (3_000
              + cooldown default_breaker
                  ((run default_breaker initial (broken ∷ broken ∷ [])).opens + 1)
                  none)
            2_500)
run-threshold_example =
    run-threshold default_breaker initial (broken ∷ broken ∷ []) timeout "slow" plain_failure 3_000
      2_500 refl refl ((refl, refl), ((refl, refl), tt)) refl refl
