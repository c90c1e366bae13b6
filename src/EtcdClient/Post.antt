-- ===== src/EtcdClient/Post.antt =====
-- daemon/etcd_client.py: `_post`, with its retries and its change of endpoints.
use milvus_onprem.Base.{
  ℕ, zero, suc, ◌+◌, ◌%◌, Text, rstrip, List, [], ◌∷◌, ◌++◌, length, leb, ltb, ◌==◌, ◌&&◌,
  if◌then◌else◌, Result, ok, err, runtime_error, unavailable,
}

-- What comes of one request: a transport error or timeout, or a response with its status and body.
pub data Reply : Type 0 where
  broken : Reply
  response : ℕ → Text → Reply

-- The endpoints at a position.
unfoldable pub endpoint_at : ℕ → List Text → Text
endpoint_at n [] = []
endpoint_at zero (ep ∷ eps) = ep
endpoint_at (suc n) (ep ∷ eps) = endpoint_at n eps

-- `_url`
unfoldable pub url : List Text → ℕ → Text → Text
unfolding endpoint_at rstrip
url endpoints idx path =
    rstrip (λ c. c == b'/') (endpoint_at (idx % length endpoints) endpoints) ++ path

-- `(0, *_RETRY_DELAYS_S)`
abbrev pub retry_delays_s : List ℕ
retry_delays_s = 0 ∷ 1 ∷ 2 ∷ 4 ∷ 8 ∷ 8 ∷ 8 ∷ []

-- What `_post` leaves: its result, `_idx`, and the seconds it slept.
pub record Posted : Type 0 where
  pub result : Result Text
  pub idx : ℕ
  pub slept : ℕ

-- `raise_for_status`, then `json`, which stays the body's text.
unfoldable pub settle : ℕ → Text → Result Text
settle status body = if leb 200 status && ltb status 300 then ok body else err unavailable

-- The loop over the delays. `send` is the HTTP client: the reply to the n-th request, by its URL.
module _ (endpoints : List Text) (path : Text) (send : ℕ → Text → Reply) where
  unfoldable pub attempts_from : List ℕ → ℕ → ℕ → ℕ → Posted
  unfolding url settle
  attempts_from [] n idx slept = record { result = err runtime_error; idx = idx; slept = slept }
  attempts_from (delay ∷ delays) n idx slept =
      let again = attempts_from delays (n + 1) (idx + 1) (slept + delay) in
      elim (send n (url endpoints idx path)) [
        | broken ↦ again
        | response status body ↦
            if status == 503
            then again
            else record { result = settle status body; idx = idx; slept = slept + delay }
      ]

  -- `_post`
  unfoldable pub post : ℕ → Posted
  unfolding attempts_from
  post idx = attempts_from retry_delays_s 0 idx 0
