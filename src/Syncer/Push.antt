-- ===== src/Syncer/Push.antt =====
-- internal/syncer/syncer.go: pushConfig, pushToTarget and doPush. What a request to a target results
-- in, and whether the context is done when a retry waits, are functions of the attempt. A duration is
-- its 64 bits. The targets are pushed to at once; here they stand in their order, since each push
-- touches its own target only.
pub mod Retries
use the_redirector.Base.{
  ℕ, zero, suc, ◌+◌, ◌-◌, ◌*◌, ◌%◌, Bool, true, false, ◌&&◌, Option, none, some, List, [], ◌∷◌,
  ◌++◌, Bytes, lit, is_empty, ltb, ℤ, pos, negsuc, ltb_ℤ, if◌then◌else◌, not,
}

pub record TargetConfig : Type 0 where
  pub name : Bytes
  pub url : Bytes
  pub api_key : Bytes
  pub timeout : ℕ
  pub healthy : Bool

pub record PushRequest : Type 0 where
  pub url : Bytes
  pub headers : List (Bytes × Bytes)
  pub timeout : ℕ

-- What the library makes of a request: it does not build or send it, or it returns a response.
pub data Sent : Type 0 where
  not_created not_sent : Sent
  responded : ℤ → Bytes → Sent

pub data PushError : Type 0 where
  creating_request sending_request context_done : PushError
  http_error : ℤ → Bytes → PushError

-- The request of doPush: a POST without a body.
unfoldable pub request_of : TargetConfig → PushRequest
request_of target = record {
  url = target.url ++ lit "/api/v1/reload";
  headers =
      (if is_empty target.api_key then [] else (lit "X-API-Key", target.api_key) ∷ [])
      ++ (lit "Content-Type", lit "application/json") ∷ [];
  timeout = target.timeout;
}

-- doPush: the error, if there is one.
unfoldable pub do_push : (PushRequest → Sent) → TargetConfig → Option PushError
unfolding request_of
do_push send target = elim (send (request_of target)) [
  | not_created ↦ some creating_request
  | not_sent ↦ some sending_request
  | responded status body ↦
      if not (ltb_ℤ status (pos 400)) then some (http_error status body) else none
]

-- 2 to the power, and the 64 bits of delay * (1 << n).
pub pow2 : ℕ → ℕ
pow2 zero = 1
pow2 (suc n) = 2 * pow2 n

unfoldable pub backoff : ℕ → ℕ → ℕ
unfolding pow2
backoff delay n = (delay * pow2 n) % pow2 64

-- The error, if there is one, and the delays that were begun.
abbrev pub Pushed : Type 0
Pushed = Option PushError × List ℕ

module _ (delay : ℕ) (outcome : ℕ → Option PushError) (done : ℕ → Bool) where
  -- An attempt, and the rest behind it.
  unfoldable pub try_push : ℕ → (PushError → Pushed) → Pushed
  try_push attempt rest = elim (outcome attempt) [ none ↦ (none, []) | some e ↦ rest e ]

  -- The wait before an attempt that is a retry.
  unfoldable pub wait_for : ℕ → Pushed → Pushed
  wait_for zero rest = rest
  wait_for (suc n) rest =
      if done (suc n)
      then (some context_done, backoff delay n ∷ [])
      else (rest.0, backoff delay n ∷ rest.1)

  -- The loop, at an attempt with so many left, with lastErr.
  unfoldable pub push_from : ℕ → ℕ → Option PushError → Pushed
  unfolding wait_for try_push
  push_from attempt zero last = (last, [])
  push_from attempt (suc left) last =
      wait_for attempt (try_push attempt (λ e. push_from (attempt + 1) left (some e)))

-- for attempt := 0; attempt <= attempts
abbrev pub rounds : ℤ → ℕ
rounds (pos n) = suc n
rounds (negsuc n) = 0

-- pushToTarget
unfoldable pub push_to_target :
    ℤ → ℕ → (ℕ → PushRequest → Sent) → (ℕ → Bool) → TargetConfig → Pushed
unfolding push_from
push_to_target attempts delay send done target =
    push_from delay (λ attempt. do_push (send attempt) target) done 0 (rounds attempts) none

-- The goroutines of pushConfig: the targets with their health, and the errors.
unfoldable pub push_all :
    (TargetConfig → Option PushError)
    → List TargetConfig
    → List TargetConfig × List (Bytes × PushError)
push_all push [] = ([], [])
push_all push (t ∷ ts) =
    let (rest, errors) = push_all push ts in
    elim (push t) [
      | none ↦ (record t { healthy = true } ∷ rest, errors)
      | some e ↦ (record t { healthy = false } ∷ rest, (t.name, e) ∷ errors)
    ]
