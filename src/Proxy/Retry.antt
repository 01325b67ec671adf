-- ===== src/Proxy/Retry.antt =====
-- src/spillover/proxy/retry.py: the attempts of a call, the waits between them and where they end.
pub mod Contract
pub mod Stream
use spillover.Prelude.{
  ℕ, zero, suc, ◌-◌, ◌^◌, String, Bool, true, false, not, ◌||◌, Option, none, some, List, [], ◌∷◌,
  ◌==◌, str_eq, if◌then◌else◌, ℤ, pos,
}
use spillover.Runtime.{Floats, max_f, min_f, Environ}
use spillover.Proxy.Budget.{env_float, env_int}

pub record Response : Type 0 where
  pub status_code : ℕ
  pub headers : String → Option String

-- What one call of `fn` does: it raises one of `_RETRYABLE_EXC`, or another exception, or returns.
pub data Reply (E A : Type 0) : Type 0 where
  lost : E → Reply E A
  failed : E → Reply E A
  replied : A → Reply E A

-- How the whole ends; `unbound` is the UnboundLocalError of a name that nothing was bound to.
pub data Outcome (E A : Type 0) : Type 0 where
  raises : E → Outcome E A
  returns : A → Outcome E A
  unbound : Outcome E A

-- `_RETRYABLE_STATUS`
unfoldable pub is_retryable_status : ℕ → Bool
is_retryable_status n = n == 429 || n == 502 || n == 503 || n == 504 || n == 529

-- `if raw:` and `a or b` on the values of headers
abbrev pub non_empty : Option String → Option String
non_empty none = none
non_empty (some t) = if str_eq t "" then none else some t

abbrev pub first_of : Option String → Option String → Option String
first_of a b = elim (non_empty a) [ none ↦ non_empty b | some t ↦ some t ]

module _ (f : Floats) where
  abbrev pub default_max_attempts : Environ → ℤ
  default_max_attempts env = env_int f env "SPILLOVER_RETRY_MAX_ATTEMPTS" (pos 5)

  abbrev pub default_base_delay : Environ → f.Float
  default_base_delay env = env_float f env "SPILLOVER_RETRY_BASE_DELAY" "0.5"

  abbrev pub default_cap : Environ → f.Float
  default_cap env = env_float f env "SPILLOVER_RETRY_CAP" "60.0"

  -- `max(0.0, ...)` around a number that was read, if one was.
  abbrev pub at_least_zero : Option f.Float → Option f.Float
  at_least_zero none = none
  at_least_zero (some x) = some (max_f f (f.literal "0.0") x)

  abbrev pub read_with : (String → Option f.Float) → Option String → Option f.Float
  read_with read none = none
  read_with read (some t) = at_least_zero (read t)

  -- `_retry_after_seconds`; `until` is the time from now to a date in ISO format, where it is one.
  unfoldable pub retry_after_seconds : (String → Option f.Float) → Option Response → Option f.Float
  retry_after_seconds until none = none
  retry_after_seconds until (some resp) =
      elim (read_with f.float_of (non_empty (resp.headers "retry-after"))) [
        | some x ↦ some x
        | none ↦ read_with until (
            first_of (resp.headers "anthropic-ratelimit-tokens-reset")
              (resp.headers "anthropic-ratelimit-requests-reset"))
      ]

  -- `_backoff`; `uniform` is `random.uniform`, with its draw.
  unfoldable pub backoff :
      (f.Float → f.Float → f.Float) → ℕ → f.Float → f.Float → Option f.Float → f.Float
  backoff uniform attempt base cap (some retry_after) = min_f f cap (max_f f retry_after base)
  backoff uniform attempt base cap none =
      let delay = min_f f cap (f.mul_f base (f.of_int (pos (4 ^ (attempt - 1))))) in
      f.add_f delay (uniform (f.literal "0") (f.mul_f delay (f.literal "0.1")))

-- What is left when a call is over: its outcome, the delays slept and the responses closed.
pub record Run (D E A : Type 0) : Type 0 where
  pub outcome : Outcome E A
  pub delays : List D
  pub closed : List A

module _ {D E A : Type 0} where
  abbrev pub halt : Outcome E A → Run D E A
  halt o = record { outcome = o; delays = []; closed = [] }

  abbrev pub wait : D → Run D E A → Run D E A
  wait d r = record r { delays = d ∷ r.delays }

  abbrev pub close : A → Run D E A → Run D E A
  close a r = record r { closed = a ∷ r.closed }

-- The end of `with_retry` behind its loop.
abbrev pub after_loop : {E A : Type 0} → Option E → Option A → Outcome E A
after_loop (some e) result = raises e
after_loop none (some a) = returns a
after_loop none none = unbound

-- `fn n` is what the call does at the attempt `n`; `as_response` tells the results that are
-- responses; `delay_of` is `_backoff` at an attempt, with what `_retry_after_seconds` says of it;
-- `ma` is `max_attempts`, 0 for a negative one.
module _ {D E A : Type 0} (delay_of : ℕ → Option Response → D) (as_response : A → Option Response)
    (fn : ℕ → Reply E A) (ma : ℕ) where
  -- The loop of `with_retry` from an attempt on, with `last_exc` and `result`.
  unfoldable pub retry_from : ℕ → ℕ → Option E → Option A → Run D E A
  retry_from zero attempt last_exc result = halt (after_loop last_exc result)
  retry_from (suc left) attempt last_exc result = elim (fn attempt) [
    | lost e ↦
        if attempt == ma
        then halt (raises e)
        else wait (delay_of attempt none) (retry_from left (suc attempt) (some e) result)
    | failed e ↦ halt (raises e)
    | replied a ↦ elim (as_response a) [
      | none ↦ halt (returns a)
      | some r ↦
          if not (is_retryable_status r.status_code)
          then halt (returns a)
          else if attempt == ma
          then halt (returns a)
          else wait (delay_of attempt (some r)) (retry_from left (suc attempt) last_exc (some a))
    ]
  ]

  abbrev pub with_retry : Run D E A
  with_retry = retry_from ma 1 none none

-- The stream's `client.send` instead of `fn`. `unbound` stands for the RuntimeError at the end.
module _ {D E : Type 0} (delay_of : ℕ → Option Response → D) (send : ℕ → Reply E Response)
    (ma : ℕ) where
  unfoldable pub stream_from : ℕ → ℕ → Run D E Response
  stream_from zero attempt = halt unbound
  stream_from (suc left) attempt = elim (send attempt) [
    | lost e ↦
        if attempt == ma
        then halt (raises e)
        else wait (delay_of attempt none) (stream_from left (suc attempt))
    | failed e ↦ halt (raises e)
    | replied r ↦
        if not (is_retryable_status r.status_code)
        then halt (returns r)
        else if attempt == ma
        then halt (returns r)
        else close r (wait (delay_of attempt (some r)) (stream_from left (suc attempt)))
  ]

  abbrev pub with_retry_stream : Run D E Response
  with_retry_stream = stream_from ma 1
