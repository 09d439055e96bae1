-- ===== src/Worker/Pool/Counts.antt =====
-- The wait groups of a worker's pool (pool.go, connection.go).
use reverse_http.Prelude.{
  ℕ, zero, suc, ◌+◌, ◌≤◌, ◌≡◌, refl, Bool, true, false, Option, none, some, List, [], ◌∷◌, length,
  get_elem?, set, total, total-set, total-ge, arith, Each, subst, ap, if_cases, nat_beq_iff, ◌==◌,
  nat_eq,
}
use reverse_http.Worker.Pool.Runs.{run_keeps}
use reverse_http.Worker.Pool.{
  Link, Pool, Phase, Slot, Crew, Move, Served, Step, moves, serve, reaps, shuts, snapshots,
  checking, leaving, exited, serving, act, step, run, fire, new_slots, ready_done, maintainer_done,
  register_conn, deregister_conn, kept_reaper, reaper_taken, new_pool, moved, placed, with_pool,
  with_link, served, serves, reaped,
}

-- A goroutine that still counts as a maintainer.
abbrev pub alive : Slot → ℕ
alive s = elim s.phase [ exited ↦ 0 | _ ↦ 1 ]

-- A slot whose sync.Once has not run.
abbrev pub unfired : Slot → ℕ
unfired s = elim s.fired [ true ↦ 0 | false ↦ 1 ]

-- A slot that serves or has stopped, and has not released the Ready waiter.
abbrev pub late : Slot → ℕ
late s = elim s.phase [ exited ↦ unfired s | leaving ↦ unfired s | serving _ ↦ unfired s | _ ↦ 0 ]

kept_reaper-total :
    (f : ℕ → ℕ) (c d : ℕ) (ds : List ℕ) (o : Option (List ℕ))
    → Each (λ cs. total f ds ≡ f c + total f cs) o
    → Each (λ cs. f d + total f ds ≡ f c + total f cs) (kept_reaper d o)
kept_reaper-total f c d ds none h = tt
kept_reaper-total f c d ds (some cs) h = omega (arith, h)

pub total-reaper_taken :
    (f : ℕ → ℕ) (c : ℕ) (ds : List ℕ)
    → Each (λ cs. total f ds ≡ f c + total f cs) (reaper_taken c ds)
total-reaper_taken f c [] = tt
total-reaper_taken f c (d ∷ ds) =
    if_cases (Each (λ cs. f d + total f ds ≡ f c + total f cs)) (d == c)
      (λ e. ap (λ x. f x + total f ds) ((nat_beq_iff d c).0 e))
      λ _. kept_reaper-total f c d ds (reaper_taken c ds) (total-reaper_taken f c ds)

pub length-eq-total : (ds : List ℕ) → length ds ≡ total (λ _. 1) ds
length-eq-total [] = refl
length-eq-total (d ∷ ds) = omega (arith, length-eq-total ds)

pub length-reaper_taken :
    (c : ℕ) (ds cs : List ℕ) → reaper_taken c ds ≡ some cs → length ds ≡ suc (length cs)
length-reaper_taken c ds cs h = omega (
  arith,
  subst (Each (λ cs. total (λ _. 1) ds ≡ 1 + total (λ _. 1) cs)) h
      (total-reaper_taken (λ _. 1) c ds),
  length-eq-total ds,
  length-eq-total cs,
)

-- What a move of a slot does to the counters.
record Changed (p p' : Pool) (s s' : Slot) : Type 0 where
  calm : p'.panicked ≡ false
  crew : p'.maintainers + alive s + length p.reapers ≡ p.maintainers + alive s' + length p'.reapers
  readiness : p'.ready + unfired s ≡ p.ready + unfired s'
  in_time : late s' ≡ 0

module _ {p p' : Pool} {s' : Slot} where
  act-Changed :
      (m : Move) (ph : Phase) (f : Bool)
      → act m ph f p ≡ some (p', s')
      → p.panicked ≡ false
      → alive (record { phase = ph; fired = f }) ≤ p.maintainers
      → unfired (record { phase = ph; fired = f }) ≤ p.ready
      → late (record { phase = ph; fired = f }) ≡ 0
      → Changed p p' (record { phase = ph; fired = f }) s'
  unfolding act fire ready_done maintainer_done register_conn deregister_conn
  act-Changed Move.checks checking f h c a u l = ground arith
  act-Changed m ph f h c a u l = ground arith

-- The counters of the wait groups are what the goroutines stand for.
pub record Accounted (w : Crew) : Type 0 where
  pub calm : w.pool.panicked ≡ false
  pub crew : w.pool.maintainers ≡ total alive w.slots + length w.pool.reapers
  pub readiness : w.pool.ready ≡ total unfired w.slots
  pub in_time : total late w.slots ≡ 0

module _ (w : Crew) (acc : Accounted w) where
  slot-Accounted :
      (i : ℕ) (s s' : Slot) (p' : Pool)
      → get_elem? w.slots i ≡ some s
      → Changed w.pool p' s s'
      → Accounted (record { pool = p'; slots = set w.slots i s' })
  slot-Accounted i s s' p' g ch = record {
    calm = ch.calm;
    crew = omega (arith, acc.crew, ch.crew, total-set alive w.slots i s s' g);
    readiness = omega (arith, acc.readiness, ch.readiness, total-set unfired w.slots i s s' g);
    in_time = omega (arith, acc.in_time, ch.in_time, total-set late w.slots i s s' g);
  }

  placed-Accounted :
      (i : ℕ) (m : Move) (s : Slot) (o : Option (Pool × Slot))
      → get_elem? w.slots i ≡ some s
      → act m s.phase s.fired w.pool ≡ o
      → Each Accounted (placed w i o)
  placed-Accounted i m s none g a = tt
  placed-Accounted i m s (some (p', s')) g a = slot-Accounted i s s' p' g (
      act-Changed m s.phase s.fired a acc.calm
        (omega (arith, acc.crew, total-ge alive w.slots i s g))
        (omega (arith, acc.readiness, total-ge unfired w.slots i s g))
        (omega (arith, acc.in_time, total-ge late w.slots i s g)))

  moved-Accounted :
      (i : ℕ) (m : Move) (o : Option Slot)
      → get_elem? w.slots i ≡ o
      → Each Accounted (moved w i m o)
  moved-Accounted i m none g = tt
  moved-Accounted i m (some s) g = placed-Accounted i m s (act m s.phase s.fired w.pool) g refl

  -- A connection's own steps change no counter.
  linked-Accounted : (c : ℕ) (o : Option Link) → Each Accounted (with_pool w (with_link w.pool c o))
  linked-Accounted c none = tt
  linked-Accounted c (some l) = ground (arith, acc)

  served-Accounted :
      (c : ℕ) (e : Served) (o : Option Link) → Each Accounted (with_pool w (served w.pool c e o))
  served-Accounted c e none = tt
  served-Accounted c e (some l) = linked-Accounted c (serves e l)

  reaped-Accounted :
      (c : ℕ) (o : Option (List ℕ))
      → reaper_taken c w.pool.reapers ≡ o
      → Each Accounted (with_pool w (reaped c w.pool o))
  unfolding maintainer_done deregister_conn
  reaped-Accounted c none t = tt
  reaped-Accounted c (some cs) t = ground (
    arith,
    acc.crew,
    acc.calm,
    acc.readiness,
    acc.in_time,
    length-reaper_taken c w.pool.reapers cs t,
  )

pub step-Accounted : (w : Crew) (e : Step) → Accounted w → Each Accounted (step w e)
unfolding step
step-Accounted w (moves i m) acc = moved-Accounted w acc i m (get_elem? w.slots i) refl
step-Accounted w (serve c e) acc = served-Accounted w acc c e (get_elem? w.pool.links c)
step-Accounted w (reaps c) acc = reaped-Accounted w acc c (reaper_taken c w.pool.reapers) refl
step-Accounted w shuts acc = ground (arith, acc)
step-Accounted w snapshots acc = ground (arith, acc)

new_slots-totals :
    (n : ℕ)
    → (total alive (new_slots n) ≡ n)
      × (total unfired (new_slots n) ≡ n)
      × (total late (new_slots n) ≡ 0)
new_slots-totals zero = (refl, refl, refl)
new_slots-totals (suc n) = ground (arith, new_slots-totals n)

new_pool-Accounted : (n : ℕ) → Accounted (new_pool n)
unfolding new_pool
new_pool-Accounted n = ground (arith, new_slots-totals n, new_slots-totals 1)

-- In every run of the pool's goroutines, however they interleave with the connections and with
-- Shutdown, no wait group goes below zero; the maintainers' wait group counts exactly the slots that
-- have not exited and the reapers of draining connections; the Ready wait group counts exactly the
-- slots whose once has not run, and every slot that serves a connection or has stopped has run it.
pub run-Accounted : (n : ℕ) (es : List Step) (w : Crew) → run es (new_pool n) ≡ some w → Accounted w
run-Accounted n es w h =
    subst (Each Accounted) h
      (run_keeps Accounted step-Accounted es (new_pool n) (new_pool-Accounted n))
