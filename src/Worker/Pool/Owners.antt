-- ===== src/Worker/Pool/Owners.antt =====
-- Who holds the connections of a worker's pool (pool.go, connection.go).
use native.Mathlib.Decide.{dec_lt}
use reverse_http.Prelude.{
  ℕ, zero, suc, ◌+◌, ◌≤◌, ◌≡◌, refl, Bool, true, false, Option, none, some, List, [], ◌∷◌, length,
  length-append, get_elem?, set, total, total-set, total-le, total-gap, total-ge, length-set, ◌∙◌,
  arith, Each, subst, ◌==◌, nat_eq, nat_beq_iff,
}
use reverse_http.Prelude.Table.{
  Table, lookup, Unique, lookup-insert, lookup-delete, insert-Unique, delete-Unique,
}
use reverse_http.Worker.Pool.Runs.{run_keeps}
use reverse_http.Worker.Pool.{
  new_link, Link, Pool, Phase, Slot, Crew, Move, Served, Step, moves, serve, reaps, shuts,
  snapshots, dialing, starting, greeting, serving, act, step, run, fire, new_slots, ready_done,
  maintainer_done, register_conn, deregister_conn, reaper_taken, new_pool, moved, placed, with_pool,
  with_link, served, serves, reaped, wake, wake_link,
}
use reverse_http.Worker.Pool.Counts.{total-reaper_taken}

abbrev pub one_if : Bool → ℕ
one_if true = 1
one_if false = 0

-- Whether the goroutine of a slot has the connection `c`, and whether it has not registered it yet.
abbrev pub owns : ℕ → Slot → ℕ
owns c s = elim s.phase [
  | starting d ↦ one_if (d == c)
  | greeting d ↦ one_if (d == c)
  | serving d ↦ one_if (d == c)
  | _ ↦ 0
]

abbrev pub opening : ℕ → Slot → ℕ
opening c s = elim s.phase [ starting d ↦ one_if (d == c) | _ ↦ 0 ]

abbrev pub is_in : Option (Unit {0}) → ℕ
is_in none = 0
is_in (some _) = 1

abbrev pub registered : ℕ → Pool → ℕ
registered c p = is_in (lookup c p.conns)

abbrev pub reapers_of : ℕ → Pool → ℕ
reapers_of c p = total (λ d. one_if (d == c)) p.reapers

-- The goroutines that have `c`.
abbrev pub owners : ℕ → Crew → ℕ
owners c w = total (owns c) w.slots + reapers_of c w.pool

opening-le-owns : (c : ℕ) (s : Slot) → opening c s ≤ owns c s
opening-le-owns c s = ground arith

-- What a move of a slot does to the owners of `c`.
record Handed (c : ℕ) (p p' : Pool) (s s' : Slot) : Type 0 where
  unique : Unique p'.conns
  balance :
      registered c p' + opening c s' + owns c s + reapers_of c p
      ≡ registered c p + opening c s + owns c s' + reapers_of c p'
  made : length p.links ≤ length p'.links
  fewer : suc c ≤ length p.links → owns c s' + reapers_of c p' ≤ owns c s + reapers_of c p
  one_more : owns c s' + reapers_of c p' ≤ owns c s + reapers_of c p + 1
  unmade : length p'.links ≤ c → owns c s' + reapers_of c p' ≤ owns c s + reapers_of c p

module _ (c : ℕ) (p : Pool) (u : Unique p.conns) where
  -- Before the move, `c` is registered unless its slot is about to register it.
  abbrev Fits : Slot → Type 0
  Fits s = (registered c p + opening c s ≤ 1) × (owns c s ≤ registered c p + opening c s)

  act-Handed :
      (m : Move) (ph : Phase) (f : Bool) {p' : Pool} {s' : Slot}
      → act m ph f p ≡ some (p', s')
      → Fits (record { phase = ph; fired = f })
      → Handed c p p' (record { phase = ph; fired = f }) s'
  unfolding act fire ready_done maintainer_done register_conn deregister_conn
  act-Handed Move.registers (starting d) f h k =
      ground (arith, lookup-insert d c tt p.conns, insert-Unique d tt p.conns u)
  act-Handed Move.drops (greeting d) f h k =
      ground (arith, lookup-delete d c p.conns u, delete-Unique d p.conns u)
  act-Handed Move.drops (serving d) f h k =
      ground (arith, lookup-delete d c p.conns u, delete-Unique d p.conns u)
  act-Handed Move.connects dialing f h k =
      ground (arith, length-append p.links (new_link ∷ []), nat_beq_iff (length p.links) c)
  act-Handed m ph f h k = ground (arith, u)

-- A connection has at most one owner, and is registered exactly from registerConn until its owner
-- deregisters it; one that was never made has none.
pub record Owned (c : ℕ) (w : Crew) : Type 0 where
  pub unique : Unique w.pool.conns
  pub balance : registered c w.pool + total (opening c) w.slots ≡ owners c w
  pub single : owners c w ≤ 1
  pub known : length w.pool.links ≤ c → owners c w ≡ 0

module _ (c : ℕ) (w : Crew) (own : Owned c w) where
  slot-Fits : (i : ℕ) (s : Slot) → get_elem? w.slots i ≡ some s → Fits c w.pool own.unique s
  slot-Fits i s g =
      let gap = total-gap (opening c) (owns c) w.slots i s (opening-le-owns c) g in
      let le = opening-le-owns c s in
      let part = total-ge (opening c) w.slots i s g in
      (omega (arith, own.balance, own.single), omega (arith, own.balance, own.single))

  slot-Owned :
      (i : ℕ) (s s' : Slot) (p' : Pool)
      → get_elem? w.slots i ≡ some s
      → Handed c w.pool p' s s'
      → Owned c (record { pool = p'; slots = set w.slots i s' })
  slot-Owned i s s' p' g ch =
      let a = total-set (owns c) w.slots i s s' g in
      let b = total-set (opening c) w.slots i s s' g in
      record {
        unique = ch.unique;
        balance = omega (arith, own.balance, ch.balance);
        single = elim (dec_lt c (length w.pool.links)) [
          | yes old ↦ omega (arith, own.single, ch.fewer old)
          | no new ↦ omega (arith, own.known (omega arith), ch.one_more)
        ];
        known = λ h. omega (arith, own.known (omega (arith, ch.made)), ch.unmade h);
      }

  placed-Owned :
      (i : ℕ) (m : Move) (s : Slot) (o : Option (Pool × Slot))
      → get_elem? w.slots i ≡ some s
      → act m s.phase s.fired w.pool ≡ o
      → Each (Owned c) (placed w i o)
  placed-Owned i m s none g a = tt
  placed-Owned i m s (some (p', s')) g a =
      slot-Owned i s s' p' g (act-Handed c w.pool own.unique m s.phase s.fired a (slot-Fits i s g))

  moved-Owned :
      (i : ℕ) (m : Move) (o : Option Slot)
      → get_elem? w.slots i ≡ o
      → Each (Owned c) (moved w i m o)
  moved-Owned i m none g = tt
  moved-Owned i m (some s) g = placed-Owned i m s (act m s.phase s.fired w.pool) g refl

  linked-Owned : (d : ℕ) (o : Option Link) → Each (Owned c) (with_pool w (with_link w.pool d o))
  linked-Owned d none = tt
  linked-Owned d (some l) = record {
    unique = own.unique;
    balance = own.balance;
    single = own.single;
    known = λ h. own.known (rw (← (length-set w.pool.links d l)) h);
  }

  served-Owned :
      (d : ℕ) (e : Served) (o : Option Link) → Each (Owned c) (with_pool w (served w.pool d e o))
  served-Owned d e none = tt
  served-Owned d e (some l) = linked-Owned d (serves e l)

  reaped-Owned :
      (d : ℕ) (o : Option (List ℕ))
      → Each (λ cs. reapers_of c w.pool ≡ one_if (d == c) + total (λ d. one_if (d == c)) cs) o
      → Each (Owned c) (with_pool w (reaped d w.pool o))
  unfolding maintainer_done deregister_conn
  reaped-Owned d none t = tt
  reaped-Owned d (some cs) t = ground (
    arith,
    own.unique,
    own.balance,
    own.single,
    own.known,
    lookup-delete d c w.pool.conns own.unique,
    delete-Unique d w.pool.conns own.unique,
    total-le (opening c) (owns c) w.slots (opening-le-owns c),
  )

pub length-wake_link :
    (o : Option Link) (c : ℕ) (ls : List Link) → length (wake_link o c ls) ≡ length ls
length-wake_link none c ls = refl
length-wake_link (some l) c ls = length-set ls c _

pub length-wake : (cs : Table ℕ (Unit {0})) (ls : List Link) → length (wake cs ls) ≡ length ls
length-wake [] ls = refl
length-wake ((c, _) ∷ cs) ls =
    length-wake cs (wake_link (get_elem? ls c) c ls) ∙ length-wake_link (get_elem? ls c) c ls

pub step-Owned : (c : ℕ) (w : Crew) (e : Step) → Owned c w → Each (Owned c) (step w e)
unfolding step
step-Owned c w (moves i m) own = moved-Owned c w own i m (get_elem? w.slots i) refl
step-Owned c w (serve d e) own = served-Owned c w own d e (get_elem? w.pool.links d)
step-Owned c w (reaps d) own =
    reaped-Owned c w own d (reaper_taken d w.pool.reapers)
      (total-reaper_taken (λ d. one_if (d == c)) d w.pool.reapers)
step-Owned c w shuts own = ground (arith, own)
step-Owned c w snapshots own = ground (arith, own, length-wake w.pool.conns w.pool.links)

new_slots-owns :
    (c n : ℕ) → (total (owns c) (new_slots n) ≡ 0) × (total (opening c) (new_slots n) ≡ 0)
new_slots-owns c zero = (refl, refl)
new_slots-owns c (suc n) = ground (arith, new_slots-owns c n)

new_pool-Owned : (c n : ℕ) → Owned c (new_pool n)
unfolding new_pool lookup
new_pool-Owned c n = ground (arith, new_slots-owns c n, new_slots-owns c 1)

-- In every run of the pool's goroutines, each connection has at most one goroutine that will
-- deregister it, and it is registered exactly while it has such an owner that is past registerConn:
-- no connection stays in the set after its owner has dropped it, none is missing from the set that
-- Shutdown reads once it is registered, and none is deregistered twice.
pub run-Owned :
    (n : ℕ) (es : List Step) (w : Crew) → run es (new_pool n) ≡ some w → (c : ℕ) → Owned c w
run-Owned n es w h c =
    subst (Each (Owned c)) h
      (run_keeps (Owned c) (step-Owned c) es (new_pool n) (new_pool-Owned c n))
