-- ===== src/Worker/Pool.antt =====
-- pool.go and connection.go: the slots of a worker's pool, each kept by one goroutine of
-- maintainConnection, their connections, and Shutdown. A step of a slot is the code between two points at which
-- the goroutine can wait. TLS and the network choose among the steps.
pub mod Runs
pub mod Counts
pub mod Owners
pub mod Falling
pub mod Woken
pub mod Ending
use reverse_http.Prelude.{
  ℕ, suc, ◌+◌, ◌-◌, Bool, true, false, not, ◌&&◌, ◌||◌, Option, none, some, List, [], ◌∷◌, ◌++◌,
  length, get_elem?, set, if◌then◌else◌, ◌==◌, nat_eq,
}
use reverse_http.Prelude.Table.{Table, insert, delete, lookup}

-- A connection with its `serve` goroutine: whether readyCh and the channel of DrainStarted are
-- closed, whether errCh holds the result of `serve`, and whether Shutdown has set a read deadline.
pub record Link : Type 0 where
  pub is_ready : Bool
  pub is_draining : Bool
  pub has_ended : Bool
  pub woken : Bool

abbrev pub new_link : Link
new_link = record { is_ready = false; is_draining = false; has_ended = false; woken = false }

-- `ready` and `maintainers` are the counters of the wait groups, `conns` the registered connections
-- (by their places in `links`, which has every connection made), `reapers` those that a goroutine of
-- `dial` waits for. `panicked` tells that a counter would have gone below zero.
pub record Pool : Type 0 where
  pub ready : ℕ
  pub maintainers : ℕ
  pub shut : Bool
  pub snapped : Bool
  pub conns : Table ℕ (Unit {0})
  pub links : List Link
  pub reapers : List ℕ
  pub panicked : Bool

-- Where a slot's goroutine stands. `starting` is after startConnection and before registerConn,
-- `greeting` and `serving` are the two selects of `dial`, `pausing` the select after it.
pub data Phase : Type 0 where
  checking dialing pausing leaving exited : Phase
  starting greeting serving : ℕ → Phase

-- `fired` is whether the slot's sync.Once has run.
pub record Slot : Type 0 where
  pub phase : Phase
  pub fired : Bool

pub record Crew : Type 0 where
  pub pool : Pool
  pub slots : List Slot

-- WaitGroup.Done panics on a counter of zero.
unfoldable pub ready_done : Pool → Pool
ready_done p =
    if p.ready == 0 then record p { panicked = true } else record p { ready = p.ready - 1 }

unfoldable pub maintainer_done : Pool → Pool
maintainer_done p =
    if p.maintainers == 0
    then record p { panicked = true }
    else record p { maintainers = p.maintainers - 1 }

-- once.Do(p.ready.Done)
unfoldable pub fire : Bool → Pool → Pool
unfolding ready_done
fire fired p = if fired then p else ready_done p

unfoldable pub register_conn : ℕ → Pool → Pool
register_conn c p = record p { conns = insert c tt p.conns }

unfoldable pub deregister_conn : ℕ → Pool → Pool
deregister_conn c p = record p { conns = delete c p.conns }

abbrev pub holds : (Link → Bool) → Option Link → Bool
holds f none = false
holds f (some l) = f l

abbrev pub link_is : (Link → Bool) → Pool → ℕ → Bool
link_is f p c = holds f (get_elem? p.links c)

-- What a slot's goroutine may do next.
pub data Move : Type 0 where
  checks dial_fails connects registers greets drops hands_over ticks stops leaves : Move

-- The moves of one slot. `drops` is the case of errCh in either select, `hands_over` that of DrainStarted.
unfoldable pub act : Move → Phase → Bool → Pool → Option (Pool × Slot)
act Move.checks checking fired p =
    if p.shut
    then some (fire fired p, record { phase = leaving; fired = true })
    else some (p, record { phase = dialing; fired = fired })
act Move.dial_fails dialing fired p = some (p, record { phase = pausing; fired = fired })
act Move.connects dialing fired p = some (
  record p { links = p.links ++ new_link ∷ [] },
  record { phase = starting (length p.links); fired = fired },
)
act Move.registers (starting c) fired p =
    some (register_conn c p, record { phase = greeting c; fired = fired })
act Move.greets (greeting c) fired p =
    if link_is (λ l. l.is_ready) p c
    then some (fire fired p, record { phase = serving c; fired = true })
    else none
act Move.drops (greeting c) fired p =
    if link_is (λ l. l.has_ended) p c
    then some (deregister_conn c p, record { phase = pausing; fired = fired })
    else none
act Move.drops (serving c) fired p =
    if link_is (λ l. l.has_ended) p c
    then some (deregister_conn c p, record { phase = pausing; fired = fired })
    else none
act Move.hands_over (serving c) fired p =
    if link_is (λ l. l.is_draining) p c
    then some (
      record p { maintainers = suc p.maintainers; reapers = c ∷ p.reapers },
      record { phase = pausing; fired = fired },
    )
    else none
act Move.ticks pausing fired p = some (p, record { phase = checking; fired = fired })
act Move.stops pausing fired p =
    if p.shut then some (fire fired p, record { phase = leaving; fired = true }) else none
act Move.leaves leaving fired p = some (maintainer_done p, record { phase = exited; fired = fired })
act _ _ fired p = none

-- What a `serve` goroutine lets the pool see (handler.go): the peer's SETTINGS have come, a graceful
-- GOAWAY has come, and the loop has ended. The peer may end the connection at any time, so `ends`
-- does not ask for a read deadline; which ends are bound to come is for the theorems to say.
pub data Served : Type 0 where
  handshakes drains ends : Served

unfoldable pub serves : Served → Link → Option Link
serves Served.handshakes l =
    if l.is_ready || l.has_ended then none else some (record l { is_ready = true })
serves Served.drains l =
    if not l.is_ready || (l.is_draining || l.has_ended)
    then none
    else some (record l { is_draining = true })
serves Served.ends l = if l.has_ended then none else some (record l { has_ended = true })

pub data Step : Type 0 where
  moves : ℕ → Move → Step
  serve : ℕ → Served → Step
  reaps : ℕ → Step
  shuts snapshots : Step

-- One reaper of the connection, taken off.
abbrev pub kept_reaper : ℕ → Option (List ℕ) → Option (List ℕ)
kept_reaper c none = none
kept_reaper c (some cs) = some (c ∷ cs)

abbrev pub reaper_taken : ℕ → List ℕ → Option (List ℕ)
reaper_taken c [] = none
reaper_taken c (d ∷ ds) = if d == c then some ds else kept_reaper d (reaper_taken c ds)

abbrev pub reaped : ℕ → Pool → Option (List ℕ) → Option Pool
reaped c p none = none
reaped c p (some cs) =
    if link_is (λ l. l.has_ended) p c
    then some (maintainer_done (deregister_conn c (record p { reapers = cs })))
    else none

-- SetReadDeadline on each connection of the snapshot.
abbrev pub wake_link : Option Link → ℕ → List Link → List Link
wake_link none c ls = ls
wake_link (some l) c ls = set ls c (record l { woken = true })

abbrev pub wake : Table ℕ (Unit {0}) → List Link → List Link
wake [] ls = ls
wake ((c, _) ∷ cs) ls = wake cs (wake_link (get_elem? ls c) c ls)

abbrev pub placed : Crew → ℕ → Option (Pool × Slot) → Option Crew
placed w i none = none
placed w i (some (p, s)) = some (record { pool = p; slots = set w.slots i s })

abbrev pub moved : Crew → ℕ → Move → Option Slot → Option Crew
moved w i m none = none
moved w i m (some s) = placed w i (act m s.phase s.fired w.pool)

abbrev pub with_pool : Crew → Option Pool → Option Crew
with_pool w none = none
with_pool w (some p) = some (record w { pool = p })

abbrev pub with_link : Pool → ℕ → Option Link → Option Pool
with_link p c none = none
with_link p c (some l) = some (record p { links = set p.links c l })

abbrev pub served : Pool → ℕ → Served → Option Link → Option Pool
served p c e none = none
served p c e (some l) = with_link p c (serves e l)

abbrev pub pool_step : Pool → Step → Option Pool
pool_step p (moves i m) = none
pool_step p (serve c e) = served p c e (get_elem? p.links c)
pool_step p (reaps c) = reaped c p (reaper_taken c p.reapers)
pool_step p shuts = if p.shut then none else some (record p { shut = true })
pool_step p snapshots =
    if not p.shut || p.snapped
    then none
    else some (record p { links = wake p.conns p.links; snapped = true })

-- One step of the pool; `none` is a step that cannot happen now.
unfoldable pub step : Crew → Step → Option Crew
unfolding act
step w (moves i m) = moved w i m (get_elem? w.slots i)
step w e = with_pool w (pool_step w.pool e)

abbrev pub then_run : (Crew → Option Crew) → Option Crew → Option Crew
then_run k none = none
then_run k (some w) = k w

unfoldable pub run : List Step → Crew → Option Crew
unfolding step
run [] w = some w
run (e ∷ es) w = then_run (run es) (step w e)

abbrev pub new_slots : ℕ → List Slot
new_slots ℕ.zero = []
new_slots (suc n) = record { phase = checking; fired = false } ∷ new_slots n

-- `NewConnectionPool`, which takes 0 connections for 1.
unfoldable pub new_pool : ℕ → Crew
new_pool nb_conn =
    let n = if nb_conn == 0 then 1 else nb_conn in
    record {
      pool = record {
        ready = n;
        maintainers = n;
        shut = false;
        snapped = false;
        conns = [];
        links = [];
        reapers = [];
        panicked = false;
      };
      slots = new_slots n;
    }

-- Whether Shutdown's wait for the maintainers is over.
unfoldable pub all_gone : Pool → Bool
all_gone p = p.maintainers == 0
