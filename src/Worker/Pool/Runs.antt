-- ===== src/Worker/Pool/Runs.antt =====
-- What every step keeps, every run keeps (pool.go, connection.go).
use reverse_http.Prelude.{Option, none, some, List, [], ◌∷◌, Each}
use reverse_http.Worker.Pool.{Crew, Step, step, run, then_run}

module _ {ℓ} (P : Crew → Type ℓ) (keeps : (w : Crew) (e : Step) → P w → Each P (step w e)) where
  after_keeps :
      (es : List Step) (o : Option Crew)
      → ((w : Crew) → P w → Each P (run es w))
      → Each P o
      → Each P (then_run (run es) o)
  after_keeps es none k h = tt
  after_keeps es (some w) k h = k w h

  pub run_keeps : (es : List Step) (w : Crew) → P w → Each P (run es w)
  unfolding run
  run_keeps [] w h = h
  run_keeps (e ∷ es) w h = after_keeps es (step w e) (run_keeps es) (keeps w e h)
