-- ===== src/Tests/Machine.antt =====
-- A machine whose etcd is in memory, and on which commands and requests end as functions say.
use milvus_onprem.Base.{
  ◌+◌, Text, lookup, insert, lookup-insert, same_iff, same_refl, true, Option, none, [], refl,
  arith,
}
use milvus_onprem.Host.{Host, HostLaws, Output, Response}
use milvus_onprem.Tests.Memory.{memory}

abbrev pub machine : (Text → Output) → (Text → Option Response) → Host
machine reply answer = record {
  etcd = memory true;
  run = λ c s. (reply c, s);
  http_get = λ u t s. (answer u, s);
  http_post = λ u t b s. (answer u, s);
  probe = λ ip p s. (true, s);
  time = λ s. s.clock;
  sleep = λ n s. record s { clock = s.clock + n };
  file = λ s p. lookup p s.files;
  write = λ p v s. record s { files = insert p v s.files };
}

pub machine-HostLaws :
    (reply : Text → Output) (answer : Text → Option Response) → HostLaws (machine reply answer)
machine-HostLaws reply answer = record {
  mc_keeps = λ c j s h. refl;
  get_keeps = λ u t j s. refl;
  probe_keeps = λ ip p j s. refl;
  sleep_keeps = λ n j s. refl;
  write_keeps = λ p v j s. refl;
  write_same = λ p v s. ground (arith, lookup-insert p p v s.files, same_refl p);
  write_other = λ p v q s ne. ground (arith, lookup-insert p q v s.files, same_iff p q);
  sleep_later = λ n s. omega arith;
  run_later = λ c s. omega arith;
  get_later = λ u t s. omega arith;
  probe_later = λ ip p s. omega arith;
}

-- Every command goes through and prints nothing.
abbrev pub quiet : Text → Output
quiet c = record { rc = 0; out = []; err = [] }

-- Nobody answers.
abbrev pub silent : Text → Option Response
silent u = none
