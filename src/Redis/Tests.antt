-- ===== src/Redis/Tests.antt =====
-- internal/rds/rds.go: the theorems at concrete inputs.
use braelaspin.Prelude.{is_space, arith, pos, ◌≡◌, refl, true, false, codes, ok, text_eq}
use braelaspin.Calls.{◌>>=◌, or_fail}
use braelaspin.Redis.{limit_key, put_refresh}
use braelaspin.Redis.Store.{put, done, execute, Step, sessions, execute-Step}
use braelaspin.Redis.Counters.{Admission, allow, decide}
use braelaspin.Redis.Memory.{Memory, memory, memory-IsRedis, nothing, contents}
use braelaspin.Redis.Limits.{Hits, opened, hit, admits_capacity, smaller, capacity}

abbrev once : Memory
once = (allow memory (codes "spin") (codes "u1") (pos 1) (pos 60) nothing).1

abbrev twice : Memory
twice = (allow memory (codes "spin") (codes "u1") (pos 1) (pos 60) once).1

abbrev admitted : Admission
admitted = record { admitted = true; retry_after = pos 0 }

abbrev refused : Admission
refused = record { admitted = false; retry_after = pos 1 }

first_call : allow memory (codes "spin") (codes "u1") (pos 1) (pos 60) nothing ≡ (ok admitted, once)
unfolding allow decide limit_key ◌>>=◌ or_fail
first_call = refl

second_call : allow memory (codes "spin") (codes "u1") (pos 1) (pos 60) once ≡ (ok refused, twice)
unfolding allow decide limit_key ◌>>=◌ or_fail text_eq
second_call = refl

two-Hits : Hits memory contents (codes "spin") (codes "u1") 1 (pos 60) 2 1 twice
two-Hits = hit refused twice (hit admitted once (opened nothing refl) first_call) second_call

admits_capacity_example : 1 ≡ smaller 2 (capacity 1)
admits_capacity_example =
    admits_capacity memory contents (codes "spin") (codes "u1") 1 (pos 60) memory-IsRedis 2 1 twice
      two-Hits

family_word : is_space b'a' ≡ false
unfolding is_space
family_word = refl

abbrev stored : Memory
stored =
    (execute memory (put (codes "ab") 7 (codes "a") (pos 60) (omega arith) (family_word, tt) refl)
      nothing).1

put_runs :
    execute memory
      (put (codes "ab") 7 (codes "a") (pos 60) (omega arith) (family_word, tt) refl)
      nothing
    ≡ (ok done, stored)
unfolding execute put_refresh ◌>>=◌ or_fail
put_runs = refl

execute-Step_example :
    Step
      (put (codes "ab") 7 (codes "a") (pos 60) (omega arith) (family_word, tt) refl)
      done
      (sessions memory memory-IsRedis nothing)
      (sessions memory memory-IsRedis stored)
execute-Step_example =
    execute-Step memory memory-IsRedis
      (put (codes "ab") 7 (codes "a") (pos 60) (omega arith) (family_word, tt) refl) done nothing
      stored put_runs
