-- ===== src/Worker/Pool/Falling.antt =====
-- A measure of a pool that is shut down, which every step lowers (pool.go, connection.go).
use reverse_http.Prelude.{
  ℕ, suc, ◌+◌, ◌≤◌, ◌<◌, ◌≡◌, refl, ◌∙◌, Bool, true, false, Option, none, some, List, [], ◌∷◌,
  length, get_elem?, total, total-set, total-append, arith, Each, Each-map, nat_eq,
}
use reverse_http.Prelude.Table.{Table}
use reverse_http.Worker.Pool.{
  Link, new_link, Pool, Phase, Slot, Crew, Move, Served, Step, moves, serve, reaps, shuts,
  snapshots, checking, dialing, pausing, leaving, exited, starting, greeting, serving, act, step,
  run, fire, ready_done, maintainer_done, register_conn, deregister_conn, reaper_taken, then_run,
  moved, placed, with_pool, with_link, served, serves, reaped, wake, wake_link,
}
use reverse_http.Worker.Pool.Counts.{length-reaper_taken}

-- The steps that a goroutine can still take once the pool is shut.
abbrev pub weight : Slot → ℕ
weight s = elim s.phase [
  | exited ↦ 0
  | leaving ↦ 1
  | checking ↦ 2
  | pausing ↦ 3
  | serving _ ↦ 5
  | greeting _ ↦ 6
  | starting _ ↦ 7
  | dialing ↦ 11
]

abbrev bit : Bool → ℕ
bit true = 0
bit false = 1

abbrev pub link_weight : Link → ℕ
link_weight l = bit l.is_ready + bit l.is_draining + bit l.has_ended

abbrev pub measure : Crew → ℕ
measure w =
    total weight w.slots
    + total link_weight w.pool.links
    + length w.pool.reapers
    + bit w.pool.snapped

abbrev pub loose : Pool → ℕ
loose p = total link_weight p.links + length p.reapers + bit p.snapped

act-falls :
    (m : Move) (ph : Phase) (f : Bool) (p : Pool) {p' : Pool} {s' : Slot}
    → act m ph f p ≡ some (p', s')
    → p.shut ≡ true
    → (p'.shut ≡ true)
      × (weight s' + loose p' < weight (record { phase = ph; fired = f }) + loose p)
unfolding act fire ready_done maintainer_done register_conn deregister_conn
act-falls Move.connects dialing f p h sh =
    ground (arith, total-append link_weight p.links (new_link ∷ []))
act-falls m ph f p h sh = ground arith

abbrev Fallen : Crew → Crew → Type 0
Fallen w w' = (w'.pool.shut ≡ true) × (measure w' < measure w)

module _ (w : Crew) (sh : w.pool.shut ≡ true) where
  placed-falls :
      (i : ℕ) (m : Move) (s : Slot) (o : Option (Pool × Slot))
      → get_elem? w.slots i ≡ some s
      → act m s.phase s.fired w.pool ≡ o
      → Each (Fallen w) (placed w i o)
  placed-falls i m s none g a = tt
  placed-falls i m s (some (p', s')) g a =
      let (kept, less) = act-falls m s.phase s.fired w.pool a sh in
      (kept, omega (arith, total-set weight w.slots i s s' g))

  moved-falls :
      (i : ℕ) (m : Move) (o : Option Slot)
      → get_elem? w.slots i ≡ o
      → Each (Fallen w) (moved w i m o)
  moved-falls i m none g = tt
  moved-falls i m (some s) g = placed-falls i m s (act m s.phase s.fired w.pool) g refl

  linked-falls :
      (c : ℕ) (e : Served) (l : Link) (o : Option Link)
      → get_elem? w.pool.links c ≡ some l
      → serves e l ≡ o
      → Each (Fallen w) (with_pool w (with_link w.pool c o))
  unfolding serves
  linked-falls c e l none g a = tt
  linked-falls c Served.handshakes l (some l') g a =
      ground (arith, total-set link_weight w.pool.links c l l' g)
  linked-falls c e l (some l') g a = ground (arith, total-set link_weight w.pool.links c l l' g)

  served-falls :
      (c : ℕ) (e : Served) (o : Option Link)
      → get_elem? w.pool.links c ≡ o
      → Each (Fallen w) (with_pool w (served w.pool c e o))
  served-falls c e none g = tt
  served-falls c e (some l) g = linked-falls c e l (serves e l) g refl

  reaped-falls :
      (c : ℕ) (o : Option (List ℕ))
      → reaper_taken c w.pool.reapers ≡ o
      → Each (Fallen w) (with_pool w (reaped c w.pool o))
  unfolding maintainer_done deregister_conn
  reaped-falls c none t = tt
  reaped-falls c (some cs) t = ground (arith, length-reaper_taken c w.pool.reapers cs t)

wake_link-weight :
    (ls : List Link) (c : ℕ) (o : Option Link)
    → get_elem? ls c ≡ o
    → total link_weight (wake_link o c ls) ≡ total link_weight ls
wake_link-weight ls c none g = refl
wake_link-weight ls c (some l) g = omega (arith, total-set link_weight ls c l _ g)

wake-weight :
    (cs : Table ℕ (Unit {0})) (ls : List Link)
    → total link_weight (wake cs ls) ≡ total link_weight ls
wake-weight [] ls = refl
wake-weight ((c, _) ∷ cs) ls =
    wake-weight cs (wake_link (get_elem? ls c) c ls) ∙ wake_link-weight ls c (get_elem? ls c) refl

step-falls : (w : Crew) (e : Step) → w.pool.shut ≡ true → Each (Fallen w) (step w e)
unfolding step
step-falls w (moves i m) sh = moved-falls w sh i m (get_elem? w.slots i) refl
step-falls w (serve c e) sh = served-falls w sh c e (get_elem? w.pool.links c) refl
step-falls w (reaps c) sh = reaped-falls w sh c (reaper_taken c w.pool.reapers) refl
step-falls w shuts sh = ground arith
step-falls w snapshots sh = ground (arith, wake-weight w.pool.conns w.pool.links)

after-falls :
    (w : Crew) (es : List Step) (o : Option Crew)
    → ((v : Crew) → v.pool.shut ≡ true → Each (λ z. length es + measure z ≤ measure v) (run es v))
    → Each (Fallen w) o
    → Each (λ z. suc (length es) + measure z ≤ measure w) (then_run (run es) o)
after-falls w es none k h = tt
after-falls w es (some v) k h =
    Each-map (λ z. length es + measure z ≤ measure v) _ (run es v) (λ z le. omega (arith, h.1))
      (k v h.0)

pub run-falls :
    (es : List Step) (w : Crew)
    → w.pool.shut ≡ true
    → Each (λ z. length es + measure z ≤ measure w) (run es w)
unfolding run
run-falls [] w sh = omega arith
run-falls (e ∷ es) w sh = after-falls w es (step w e) (run-falls es) (step-falls w e sh)
