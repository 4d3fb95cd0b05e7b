-- ===== src/World/Kube.antt =====
-- The calls of the controller-runtime client, as steps of the state.
use eks_ami_operator.Base.{suc, String, ◌∷◌, Option, none, some}
use eks_ami_operator.Go.Error.{Error, Result, ok, err}
use eks_ami_operator.Api.{Policy}
use eks_ami_operator.World.State.{Call, World, M}
use eks_ami_operator.World.External.{Env}

abbrev pub called : Call → World → World
called c w = record w { tick = suc w.tick; calls = c ∷ w.calls }

-- The answer is decoded into the object that the call was given.
abbrev pub received : Result Policy → World → Option Error × World
received (ok p) w = (none, record w { policy = p })
received (err e) w = (some e, w)

module _ (env : Env) where
  -- r.Get
  abbrev pub get : String → M (Option Error)
  get name w = received (env.get w.tick name) (called (Call.get name) w)

  -- c.Update
  abbrev pub update : M (Option Error)
  update w = received (env.update w.tick w.policy) (called (Call.update w.policy) w)

  -- c.Status().Update
  abbrev pub update_status : M (Option Error)
  update_status w =
      received (env.update_status w.tick w.policy) (called (Call.update_status w.policy) w)
