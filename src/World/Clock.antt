-- ===== src/World/Clock.antt =====
-- time.Now and the generators of math/rand, as steps of the state.
use eks_ami_operator.Base.{ℕ, suc}
use eks_ami_operator.Go.Time.{Time}
use eks_ami_operator.World.State.{World, M}
use eks_ami_operator.World.External.{Env}

abbrev tick : World → World
tick w = record w { tick = suc w.tick }

module _ (env : Env) where
  abbrev pub now : M Time
  now w = (env.now w.tick, tick w)

  abbrev pub int63n : ℕ → M ℕ
  int63n n w = (env.int63n w.tick n, tick w)

  abbrev pub intn : ℕ → M ℕ
  intn n w = (env.intn w.tick n, tick w)
