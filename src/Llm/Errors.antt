-- ===== src/Llm/Errors.antt =====
-- src/providers/llm/errors.ts: the kinds of failure, and what a status or a thrown value is.
-- Whether the lower-cased body of an answer includes a phrase, and whether the message of an
-- error looks like the network's (a regular expression), are arguments.
use asad.Base.{
  ℕ, String, Bool, true, false, ◌&&◌, ◌||◌, Option, none, leb, ◌==◌, str_eq, if◌then◌else◌,
}
use asad.Llm.Breaker.{
  FailureKind, timeout, rate_limited, quota_exhausted, server_error, network, auth, bad_request,
  request_rejected, unknown, is_permanent_kind,
}

pub record LlmError : Type 0 where
  pub message : String
  pub kind : FailureKind
  pub status : Option ℕ
  pub retry_after_seconds : Option ℕ

-- `new LlmError(message, kind)`
abbrev pub llm_error : String → FailureKind → LlmError
llm_error message kind = record {
  message = message;
  kind = kind;
  status = none;
  retry_after_seconds = none;
}

-- `HARD_STOP`
abbrev pub hard_stop : FailureKind → Bool
hard_stop auth = true
hard_stop bad_request = true
hard_stop quota_exhausted = true
hard_stop _ = false

abbrev pub retryable : LlmError → Bool
retryable e = if is_permanent_kind e.kind then false else true

abbrev pub fatal : LlmError → Bool
fatal e = hard_stop e.kind

module _ (includes : String → Bool) where
  abbrev pub looks_like_permanent_model_error : Bool
  looks_like_permanent_model_error =
      includes "no such model"
      || (includes "model not found"
          || (includes "unknown model"
              || (includes "invalid model"
                  || (includes "unsupported model"
                      || (includes "model does not exist"
                          || (includes "model doesn't exist"
                              || (includes "model" && includes "not found")))))))

  abbrev exhausted : Bool
  exhausted =
      includes "quota"
      || (includes "exhausted"
          || (includes "insufficient" || (includes "billing" || includes "credits")))

  unfoldable pub classify_http_status : ℕ → FailureKind
  classify_http_status status =
      if status == 401 || status == 403
      then auth
      else if status == 429
      then (if exhausted then quota_exhausted else rate_limited)
      else if status == 404
      then bad_request
      else if status == 400 || status == 422
      then (if looks_like_permanent_model_error then bad_request else request_rejected)
      else if leb 500 status
      then server_error
      else unknown

-- What a `catch` is handed: the class's own error, another `Error`, or any other value.
pub data Thrown : Type 0 where
  thrown_llm : LlmError → Thrown
  thrown_error : String → String → Thrown
  thrown_value : String → Thrown

unfoldable pub to_llm_error : (String → Bool) → Thrown → FailureKind → LlmError
to_llm_error looks_like_network (thrown_llm e) fallback = e
to_llm_error looks_like_network (thrown_error name message) fallback =
    if str_eq name "AbortError" || str_eq name "TimeoutError"
    then llm_error "Request exceeded the live deadline." timeout
    else if str_eq name "TypeError" || looks_like_network message
    then llm_error message network
    else llm_error message fallback
to_llm_error looks_like_network (thrown_value text) fallback = llm_error text fallback
