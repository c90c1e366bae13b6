-- ===== src/Host.antt =====
-- What the handlers and the workers of the daemon reach outside themselves, as an interface: etcd, bash
-- (`_run`), the HTTP client, the clock with `asyncio.sleep`, and the files of the repository's directory.
pub mod Waiting
pub mod Shell
pub mod Preserving
use milvus_onprem.Base.{
  ℕ, ◌+◌, ◌≤◌, Text, str, starts_with, Bool, true, Option, some, List, ◌≡◌, ◌≢◌, Exec, ok,
}
use milvus_onprem.Etcd.{Etcd}

-- `(rc, stdout, stderr)`
pub record Output : Type 0 where
  pub rc : ℕ
  pub out : Text
  pub err : Text

-- The fields that are read of a JSON object that another daemon answers.
pub record Body : Type 0 where
  pub applied : Bool
  pub pulsar_host : Option Text
  -- `body_json.get("error")`, with "" where it is not there
  pub error : Text

-- A response; `body` is `none` where `resp.json()` raises.
pub record Response : Type 0 where
  pub status_code : ℕ
  pub body : Option Body

-- A state of etcd's holds the clock and the files too, and all that decides how what is called ends. A
-- request is a method's URL, the bearer token and, for a POST, the fields of its body; it is
-- `none` where the client raises. Times are in milliseconds.
pub record Host : Type 1 where
  pub etcd : Etcd
  pub run : Text → etcd.State → Output × etcd.State
  pub http_get : Text → Text → etcd.State → Option Response × etcd.State
  pub http_post : Text → Text → List (Text × Text) → etcd.State → Option Response × etcd.State
  -- `_tcp_probe`, of an address and a port
  pub probe : Text → ℕ → etcd.State → Bool × etcd.State
  pub time : etcd.State → ℕ
  pub sleep : ℕ → etcd.State → etcd.State
  pub file : etcd.State → Text → Option Text
  pub write : Text → Text → etcd.State → etcd.State

-- What MinIO's client does, GET requests, probes of a port, sleeping and writing a file change no key of
-- etcd: the client talks to MinIO, and the routes that answer a GET only read. Of other commands and of
-- POST requests nothing is said, as Milvus and the other daemons write to the same etcd. A file that was
-- written is there, and the others are as they were; time does not go back, and a sleep lasts as long as it
-- was asked to.
pub record HostLaws (h : Host) : Type 0 where
  pub mc_keeps :
      (c j : Text) (s : h.etcd.State)
      → starts_with (str "docker exec milvus-minio mc ") c ≡ true
      → h.etcd.find (h.run c s).1 j ≡ h.etcd.find s j
  pub get_keeps :
      (u t j : Text) (s : h.etcd.State) → h.etcd.find (h.http_get u t s).1 j ≡ h.etcd.find s j
  pub probe_keeps :
      (ip : Text) (p : ℕ) (j : Text) (s : h.etcd.State)
      → h.etcd.find (h.probe ip p s).1 j ≡ h.etcd.find s j
  pub sleep_keeps :
      (n : ℕ) (j : Text) (s : h.etcd.State) → h.etcd.find (h.sleep n s) j ≡ h.etcd.find s j
  pub write_keeps :
      (p v j : Text) (s : h.etcd.State) → h.etcd.find (h.write p v s) j ≡ h.etcd.find s j
  pub write_same : (p v : Text) (s : h.etcd.State) → h.file (h.write p v s) p ≡ some v
  pub write_other :
      (p v q : Text) (s : h.etcd.State) → q ≢ p → h.file (h.write p v s) q ≡ h.file s q
  pub sleep_later : (n : ℕ) (s : h.etcd.State) → h.time s + n ≤ h.time (h.sleep n s)
  pub run_later : (c : Text) (s : h.etcd.State) → h.time s ≤ h.time (h.run c s).1
  pub get_later : (u t : Text) (s : h.etcd.State) → h.time s ≤ h.time (h.http_get u t s).1
  pub probe_later : (ip : Text) (p : ℕ) (s : h.etcd.State) → h.time s ≤ h.time (h.probe ip p s).1

-- A call that cannot raise, as an action.
abbrev pub call : {S A : Type 0} → (S → A × S) → Exec S A
call m s = let (a, t) = m s in (ok a, t)
