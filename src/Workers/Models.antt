-- ===== src/Workers/Models.antt =====
-- The vocabulary of src/eag/workers: enums.py, and the fields of models.py's records that the
-- registry, the manager, the matcher and the runtime read. A worker is known by its profile; what
-- its `execute` does is a parameter of the runtime.
use eag.Prelude.{Bool, String, List}

-- `WorkerRole`
pub data Role : Type 0 where
  general backend frontend database testing review documentation devops security ai : Role

-- `WorkerState`
pub data State : Type 0 where
  idle assigned planning executing waiting reviewing blocked completed failed : State

-- `WorkerHealth`
pub data Grade : Type 0 where
  healthy busy degraded unavailable : Grade

-- `WorkerProfile`
pub record Profile : Type 0 where
  pub id : String
  pub role : Role
  pub capabilities : List String
  pub preferred_capabilities : List String

-- `WorkerTask`
pub record Task : Type 0 where
  pub id : String
  pub title : String
  pub required_capability : String

-- `WorkerResult`
pub record Report : Type 0 where
  pub worker_id : String
  pub task_id : String
  pub success : Bool
