-- ===== src/Examples/Pooling.antt =====
-- Instances for the pool of a worker: pool.go, connection.go.
use reverse_http.Prelude.{
  ℕ, zero, suc, ◌+◌, ◌≤◌, ◌≡◌, refl, true, false, none, some, List, [], ◌∷◌, length,
}
use reverse_http.Prelude.Table.{insert, delete}
use reverse_http.Worker.Pool.{
  Crew, Move, Served, Step, moves, serve, reaps, shuts, snapshots, pausing, greeting, exited,
  new_link, step, run, new_pool, all_gone, ready_done, maintainer_done, register_conn,
  deregister_conn, serves, fire,
}
use reverse_http.Worker.Pool.Counts.{Accounted, run-Accounted}
use reverse_http.Worker.Pool.Owners.{Owned, registered, run-Owned}
use reverse_http.Worker.Pool.Ending.{Quiescent, IsDue, shutdown_terminates, shutdown_completes}
use reverse_http.Worker.Pool.Falling.{measure}

-- One slot connects and is greeted; its connection drains, so that a reaper takes it and the slot
-- goes on to dial; then the pool is shut down.
abbrev opening : List Step
opening =
    moves 0 Move.checks
    ∷ moves 0 Move.connects
    ∷ moves 0 Move.registers
    ∷ serve 0 Served.handshakes
    ∷ moves 0 Move.greets
    ∷ serve 0 Served.drains
    ∷ moves 0 Move.hands_over
    ∷ shuts
    ∷ []

abbrev closing : List Step
closing = snapshots ∷ moves 0 Move.stops ∷ moves 0 Move.leaves ∷ serve 0 Served.ends ∷ reaps 0 ∷ []

abbrev at_shutdown : Crew
at_shutdown = record {
  pool = record {
    ready = 0;
    maintainers = 2;
    shut = true;
    snapped = false;
    conns = (0, tt) ∷ [];
    links = record { is_ready = true; is_draining = true; has_ended = false; woken = false } ∷ [];
    reapers = 0 ∷ [];
    panicked = false;
  };
  slots = record { phase = pausing; fired = true } ∷ [];
}

abbrev at_end : Crew
at_end = record {
  pool = record {
    ready = 0;
    maintainers = 0;
    shut = true;
    snapped = true;
    conns = [];
    links = record { is_ready = true; is_draining = true; has_ended = true; woken = true } ∷ [];
    reapers = [];
    panicked = false;
  };
  slots = record { phase = exited; fired = true } ∷ [];
}

run-opening : run opening (new_pool 1) ≡ some at_shutdown
unfolding run new_pool insert fire ready_done register_conn serves
run-opening = refl

run-closing : run closing at_shutdown ≡ some at_end
unfolding run delete fire maintainer_done deregister_conn serves
run-closing = refl

run-Accounted_example : Accounted at_shutdown
run-Accounted_example = run-Accounted 1 opening at_shutdown run-opening

run-Owned_example : Owned 0 at_shutdown
run-Owned_example = run-Owned 1 opening at_shutdown run-opening 0

shutdown_terminates_example : length closing + measure at_end ≤ measure at_shutdown
shutdown_terminates_example = shutdown_terminates at_shutdown closing at_end refl run-closing

-- The state that Shutdown leaves, and what the goroutines do then.
abbrev after_snapshot : Crew
after_snapshot = record {
  pool = record {
    ready = 0;
    maintainers = 2;
    shut = true;
    snapped = true;
    conns = (0, tt) ∷ [];
    links = record { is_ready = true; is_draining = true; has_ended = false; woken = true } ∷ [];
    reapers = 0 ∷ [];
    panicked = false;
  };
  slots = record { phase = pausing; fired = true } ∷ [];
}

abbrev after_shutdown : List Step
after_shutdown = moves 0 Move.stops ∷ moves 0 Move.leaves ∷ serve 0 Served.ends ∷ reaps 0 ∷ []

run-after_shutdown : run after_shutdown after_snapshot ≡ some at_end
unfolding run delete fire maintainer_done deregister_conn serves
run-after_shutdown = refl

at_snapshot : step at_shutdown snapshots ≡ some after_snapshot
unfolding step
at_snapshot = refl

over_slots : (i : ℕ) (m : Move) → step at_end (moves i m) ≡ none
unfolding step
over_slots zero Move.checks = refl
over_slots zero m = refl
over_slots (suc i) m = refl

over_links : (c : ℕ) (e : Served) → step at_end (serve c e) ≡ none
unfolding step serves
over_links zero Served.ends = refl
over_links zero e = refl
over_links (suc c) e = refl

over : Quiescent at_end
unfolding step
over (moves i m) due = over_slots i m
over (serve c e) due = over_links c e
over (reaps c) due = refl
over shuts due = refl
over snapshots due = refl

shutdown_completes_example :
    (all_gone at_end.pool ≡ true)
    × (at_end.pool.ready ≡ 0)
    × ((c : ℕ) → registered c at_end.pool ≡ 0)
shutdown_completes_example =
    shutdown_completes 1 opening after_shutdown at_shutdown after_snapshot at_end run-opening
      at_snapshot (tt, (tt, (tt, (tt, tt)))) run-after_shutdown over

-- A connection without a deadline is not taken to end: a slot that registers
-- its connection after the snapshot can rest there, with the connection registered.
abbrev stranded : Crew
stranded = record {
  pool = record {
    ready = 1;
    maintainers = 1;
    shut = true;
    snapped = true;
    conns = (0, tt) ∷ [];
    links = new_link ∷ [];
    reapers = [];
    panicked = false;
  };
  slots = record { phase = greeting 0; fired = false } ∷ [];
}

run-stranded :
    run
      (moves 0 Move.checks
        ∷ moves 0 Move.connects
        ∷ shuts
        ∷ snapshots
        ∷ moves 0 Move.registers
        ∷ [])
      (new_pool 1)
    ≡ some stranded
unfolding run new_pool insert register_conn
run-stranded = refl

stranded_slots : (i : ℕ) (m : Move) → step stranded (moves i m) ≡ none
unfolding step
stranded_slots zero Move.greets = refl
stranded_slots zero Move.drops = refl
stranded_slots zero m = refl
stranded_slots (suc i) m = refl

stranded_links :
    (c : ℕ) (e : Served) → IsDue stranded (serve c e) → step stranded (serve c e) ≡ none
unfolding step serves
stranded_links zero Served.handshakes due = absurd due
stranded_links zero Served.drains due = absurd due
stranded_links zero Served.ends due = cc
stranded_links (suc c) e due = refl

stranded-Quiescent : Quiescent stranded
unfolding step
stranded-Quiescent (moves i m) due = stranded_slots i m
stranded-Quiescent (serve c e) due = stranded_links c e due
stranded-Quiescent (reaps c) due = refl
stranded-Quiescent shuts due = refl
stranded-Quiescent snapshots due = refl
