-- ===== src/Proxy/Registry.antt =====
-- internal/proxy/proxy.go: the attached workers of a proxy, with `acceptTunnel` of
-- internal/proxy/tunnel.go around them. A worker goes by the place of its tunnel in `tunnels`; each
-- tunnel has a goroutine, and a step is its code between two points where another can come between.
pub mod Order
pub mod Attached
pub mod Runs
use reverse_http.Prelude.{
  ℕ, suc, ◌+◌, ◌-◌, Bool, true, false, not, ◌&&◌, ◌||◌, Option, none, some, List, [], ◌∷◌, ◌++◌,
  length, get_elem?, set, if◌then◌else◌, ◌==◌, nat_eq,
}

-- Where the goroutine of a tunnel stands: before `attach`; after the test of the shutdown channel, with
-- either answer; in the set; after OnWorkerAttach, in serveTunnel; back from it; out of the set, before
-- and after OnWorkerDetach; ended. A tunnel that was never attached ends as `rejected`.
pub data Stage : Type 0 where
  accepting refused admitted appended serving ended removed leaving gone rejected : Stage

pub data Hook : Type 0 where
  on_attach on_detach : ℕ → Hook

-- `accepts` is the counter of `tunnelAccepts`, `hooks` the log of the hook calls, `woken` the workers
-- that Shutdown has set a read deadline for. `order` has the workers in the order of their `append`.
pub record Registry : Type 0 where
  pub workers : List ℕ
  pub shut : Bool
  pub snapped : Bool
  pub accepts : ℕ
  pub panicked : Bool
  pub tunnels : List Stage
  pub hooks : List Hook
  pub woken : List ℕ
  pub order : List ℕ

-- `New`
abbrev pub new_registry : Registry
new_registry = record {
  workers = [];
  shut = false;
  snapped = false;
  accepts = 0;
  panicked = false;
  tunnels = [];
  hooks = [];
  woken = [];
  order = [];
}

-- The scan of `detach`, which takes the first match off.
unfoldable pub without : ℕ → List ℕ → List ℕ
without w [] = []
without w (x ∷ xs) = if x == w then xs else x ∷ without w xs

unfoldable pub is_present : ℕ → List ℕ → Bool
is_present w [] = false
is_present w (x ∷ xs) = x == w || is_present w xs

-- The workers for which a test holds, in their order.
unfoldable pub keep : (ℕ → Bool) → List ℕ → List ℕ
keep p [] = []
keep p (x ∷ xs) = let rest = keep p xs in if p x then x ∷ rest else rest

-- `availableWorkers`: the snapshot less the draining tunnels.
unfoldable pub available_workers : (ℕ → Bool) → Registry → List ℕ
available_workers draining r = keep (λ w. not (draining w)) r.workers

-- tunnelAccepts.Done(), which panics on a counter of zero.
unfoldable pub accept_done : Registry → Registry
accept_done r =
    if r.accepts == 0 then record r { panicked = true } else record r { accepts = r.accepts - 1 }

-- What the goroutine of a tunnel does next. `fails` is a return of the accept goroutine before
-- `attach`: a bad handshake, protocol or preface, or an error of h2.New.
pub data Move : Type 0 where
  fails admits appends announces ends removes denounces leaves : Move

-- The moves of the worker `w`: `attach` is admits, appends and announces, `detach` removes and denounces.
unfoldable pub act : Move → ℕ → Stage → Registry → Option (Registry × Stage)
act Move.fails w accepting r = some (r, refused)
act Move.admits w accepting r = some (r, if r.shut then refused else admitted)
act Move.appends w admitted r =
    some (record r { workers = r.workers ++ w ∷ []; order = r.order ++ w ∷ [] }, appended)
act Move.announces w appended r =
    some (record r { hooks = r.hooks ++ Hook.on_attach w ∷ [] }, serving)
act Move.ends w serving r = some (r, ended)
act Move.removes w ended r = some (
  record r { workers = without w r.workers },
  if is_present w r.workers then removed else leaving,
)
act Move.denounces w removed r =
    some (record r { hooks = r.hooks ++ Hook.on_detach w ∷ [] }, leaving)
act Move.leaves w refused r = some (accept_done r, rejected)
act Move.leaves w leaving r = some (accept_done r, gone)
act _ w _ r = none

-- `arrives` is a connection that Accept gives (runTunnelAccept); `shuts` and `snapshots` are the
-- parts of Shutdown.
pub data Step : Type 0 where
  moves : ℕ → Move → Step
  arrives shuts snapshots : Step

abbrev pub placed : ℕ → Option (Registry × Stage) → Option Registry
placed w none = none
placed w (some (r, st)) = some (record r { tunnels = set r.tunnels w st })

abbrev pub moved : Registry → ℕ → Move → Option Stage → Option Registry
moved r w m none = none
moved r w m (some st) = placed w (act m w st r)

unfoldable pub step : Registry → Step → Option Registry
unfolding act
step r (moves w m) = moved r w m (get_elem? r.tunnels w)
step r arrives = some (record r { tunnels = r.tunnels ++ accepting ∷ []; accepts = suc r.accepts })
step r shuts = if r.shut then none else some (record r { shut = true })
step r snapshots =
    if not r.shut || r.snapped then none else some (record r { woken = r.workers; snapped = true })

abbrev pub then_run : (Registry → Option Registry) → Option Registry → Option Registry
then_run k none = none
then_run k (some r) = k r

unfoldable pub run : List Step → Registry → Option Registry
unfolding step
run [] r = some r
run (e ∷ es) r = then_run (run es) (step r e)
