-- ===== src/Lock.antt =====
-- internal/lock/file.go: the lock that lets one process run for a state. The system calls are parameters;
-- Close gives the lock back and is not modelled.
use goedge_ip_cert.Prelude.{String}
use goedge_ip_cert.Error.{Error, known, wrapped, already_running}
use goedge_ip_cert.Action.{Action, pass, fail, ◌>>=◌, ◌>>◌}

-- What flock(LOCK_EX|LOCK_NB) answers.
pub data FlockAnswer : Type 0 where
  granted would_block : FlockAnswer
  failed : Error → FlockAnswer

-- The calls on the lock's path; the first two are on its directory.
pub record LockCalls (X : Type 0) : Type 0 where
  pub mkdir_all : String → Action X (Unit {0})
  pub chmod : String → Action X (Unit {0})
  pub open_no_follow : String → Action X (Unit {0})
  pub flock : String → Action X FlockAnswer

unfoldable pub take_lock : {X : Type 0} → FlockAnswer → Action X (Unit {0})
take_lock granted = pass tt
take_lock would_block = fail (known already_running)
take_lock (failed e) = fail (wrapped "take the run lock" e)

-- Acquire
unfoldable pub acquire : {X : Type 0} → LockCalls X → String → Action X (Unit {0})
unfolding take_lock
acquire calls path = do
  calls.mkdir_all path
  calls.chmod path
  calls.open_no_follow path
  answer ← calls.flock path
  take_lock answer
