-- ===== src/EtcdClient/Retry.antt =====
-- daemon/etcd_client.py: what the retries of `_post` come to.
use milvus_onprem.Base.{
  ℕ, zero, suc, ◌+◌, ◌<◌, Text, Bool, true, false, List, [], ◌∷◌, length, take, ◌==◌, Result, err,
  runtime_error, ◌≡◌, refl, ap, sym, subst, ◌∙◌, arith,
}
use milvus_onprem.EtcdClient.Post.{
  Reply, broken, response, url, retry_delays_s, Posted, settle, attempts_from, post,
}

-- A transport error, or status 503.
abbrev pub is_transient : Reply → Bool
is_transient broken = true
is_transient (response status body) = status == 503

abbrev pub settled : Reply → Result Text
settled broken = err runtime_error
settled (response status body) = settle status body

abbrev pub total : List ℕ → ℕ
total [] = 0
total (d ∷ ds) = d + total ds

module _ (endpoints : List Text) (path : Text) (send : ℕ → Text → Reply) where
  -- The reply to the n-th request of a `_post` that starts at an index.
  abbrev pub reply_at : ℕ → ℕ → Reply
  reply_at idx n = send n (url endpoints (idx + n) path)

  abbrev posted : Result Text → ℕ → ℕ → Posted
  posted r i w = record { result = r; idx = i; slept = w }

  posted-eq : {r : Result Text} {i j v w : ℕ} → i ≡ j → v ≡ w → posted r i v ≡ posted r j w
  posted-eq {r} {i} {j} {v} {w} e h = ap (λ i. posted r i v) e ∙ ap (posted r j) h

  attempts_from-transient :
      (d : ℕ) (ds : List ℕ) (n idx slept : ℕ)
      → is_transient (send n (url endpoints idx path)) ≡ true
      → attempts_from endpoints path send (d ∷ ds) n idx slept
        ≡ attempts_from endpoints path send ds (n + 1) (idx + 1) (slept + d)
  unfolding attempts_from
  attempts_from-transient d ds n idx slept h = ground (arith, h)

  attempts_from-lasting :
      (d : ℕ) (ds : List ℕ) (n idx slept : ℕ)
      → is_transient (send n (url endpoints idx path)) ≡ false
      → attempts_from endpoints path send (d ∷ ds) n idx slept ≡ record {
        result = settled (send n (url endpoints idx path));
        idx = idx;
        slept = slept + d;
      }
  unfolding attempts_from
  attempts_from-lasting d ds n idx slept h = ground (arith, h)

  attempts_from-failing :
      (delays : List ℕ) (n idx slept start : ℕ)
      → idx ≡ start + n
      → ((m : ℕ) → m < n + length delays → is_transient (reply_at start m) ≡ true)
      → attempts_from endpoints path send delays n idx slept ≡ record {
        result = err runtime_error;
        idx = idx + length delays;
        slept = slept + total delays;
      }
  attempts_from-failing [] n idx slept start e h =
      at_end ∙ posted-eq {r = err runtime_error} (omega arith) (omega arith)
    where
      at_end :
          attempts_from endpoints path send [] n idx slept ≡ posted (err runtime_error) idx slept
      at_end = unfold attempts_from in refl
  attempts_from-failing (d ∷ ds) n idx slept start e h =
      attempts_from-transient d ds n idx slept (rw e (h n (omega arith)))
      ∙ attempts_from-failing ds (n + 1) (idx + 1) (slept + d) start (omega (arith, e))
          (λ m l. h m (omega (arith, l)))
      ∙ posted-eq {r = err runtime_error} (omega arith) (omega arith)

  attempts_from-first :
      (delays : List ℕ) (k n p idx slept start : ℕ)
      → idx ≡ start + n
      → p ≡ n + k
      → k < length delays
      → ((m : ℕ) → m < p → is_transient (reply_at start m) ≡ true)
      → is_transient (reply_at start p) ≡ false
      → attempts_from endpoints path send delays n idx slept ≡ record {
        result = settled (reply_at start p);
        idx = start + p;
        slept = slept + total (take (suc k) delays);
      }
  attempts_from-first [] k n p idx slept start e q l h lasting = absurd (omega (arith, l))
  attempts_from-first (d ∷ ds) zero n p idx slept start e q l h lasting =
      attempts_from-lasting d ds n idx slept
        (subst (λ r. is_transient r ≡ false) same_reply lasting)
      ∙ ap (λ r. posted (settled r) idx (slept + d)) (sym same_reply)
      ∙ posted-eq {r = settled (reply_at start p)} (omega (arith, e, q)) (omega arith)
    where
      same_reply : reply_at start p ≡ send n (url endpoints idx path)
      same_reply =
          let here : p ≡ n = omega (arith, q) in
          let there : start + p ≡ idx = omega (arith, e, q) in
          ap (λ m. send m (url endpoints (start + p) path)) here
          ∙ ap (λ i. send n (url endpoints i path)) there
  attempts_from-first (d ∷ ds) (suc k) n p idx slept start e q l h lasting =
      attempts_from-transient d ds n idx slept (rw e (h n (omega (arith, q))))
      ∙ attempts_from-first ds k (n + 1) p (idx + 1) (slept + d) start (omega (arith, e))
          (omega (arith, q)) (omega (arith, l)) h lasting
      ∙ posted-eq {r = settled (reply_at start p)} (omega arith) (omega arith)

  -- A `_post` whose seven requests, each to the endpoint after the last one's, all meet a transport error
  -- or status 503 raises RuntimeError after 31 s of sleep.
  post-all_transient :
      (idx : ℕ)
      → ((m : ℕ) → m < 7 → is_transient (reply_at idx m) ≡ true)
      → post endpoints path send idx
        ≡ record { result = err runtime_error; idx = idx + 7; slept = 31 }
  unfolding post
  post-all_transient idx h = attempts_from-failing retry_delays_s 0 idx 0 idx (omega arith) h

  -- A `_post` ends with what the first reply says that is no transport error and no status 503, if it is
  -- one of the first seven, having slept the delays up to it; the next `_post` starts at that reply's
  -- endpoint.
  pub post-first_lasting :
      (idx n : ℕ)
      → n < 7
      → ((m : ℕ) → m < n → is_transient (reply_at idx m) ≡ true)
      → is_transient (reply_at idx n) ≡ false
      → post endpoints path send idx ≡ record {
        result = settled (reply_at idx n);
        idx = idx + n;
        slept = total (take (suc n) retry_delays_s);
      }
  unfolding post
  post-first_lasting idx n l h lasting =
      attempts_from-first retry_delays_s n 0 n idx 0 idx (omega arith) (omega arith) l h lasting
      ∙ posted-eq {r = settled (reply_at idx n)} (omega arith) (omega arith)
