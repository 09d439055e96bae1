-- ===== src/Worker/Pool/Ending.antt =====
-- Shutdown of a worker's pool ends (pool.go, connection.go).
use native.Mathlib.Decide.{dec_lt}
use reverse_http.Prelude.{
  ℕ, ap, ◌+◌, ◌≤◌, ◌≡◌, refl, subst, Bool, true, Option, none, some, List, [], ◌∷◌, length,
  get_elem?, total, total-ge, total-zero, arith, Each, get_elem?-lt, ◌==◌, nat_eq, nat_beq_iff, All,
}
use reverse_http.Worker.Pool.{
  Link, Pool, Phase, Slot, Crew, Move, Served, Step, moves, serve, reaps, snapshots, checking,
  dialing, pausing, leaving, exited, starting, greeting, serving, act, step, run, new_pool, link_is,
  moved, placed, with_pool, serves, all_gone,
}
use reverse_http.Worker.Pool.Counts.{alive, unfired, late, run-Accounted, step-Accounted, Accounted}
use reverse_http.Worker.Pool.Owners.{
  registered, owns, owners, run-Owned, step-Owned, Owned, one_if, opening,
}
use reverse_http.Worker.Pool.Runs.{run_keeps}
use reverse_http.Worker.Pool.Woken.{is_woken, Awake, IsQuiet, run-Awake, snapshots-Awake}
use reverse_http.Worker.Pool.Falling.{measure, run-falls}

-- Once the pool is shut down, every further step, of a slot, of a reaper, of a connection or of
-- Shutdown itself, uses up a part of a measure of the state, so only so many can follow: no schedule
-- keeps a slot dialing, or a goroutine going round, for ever.
pub shutdown_terminates :
    (w : Crew) (es : List Step) (w' : Crew)
    → w.pool.shut ≡ true
    → run es w ≡ some w'
    → length es + measure w' ≤ measure w
shutdown_terminates w es w' sh h =
    subst (Each (λ z. length es + measure z ≤ measure w)) h (run-falls es w sh)

-- A move that a slot can make, if its connection has ended.
abbrev next_move : Phase → Move
next_move checking = Move.checks
next_move dialing = Move.dial_fails
next_move (starting c) = Move.registers
next_move (greeting c) = Move.drops
next_move (serving c) = Move.drops
next_move pausing = Move.ticks
next_move leaving = Move.leaves
next_move exited = Move.leaves

-- The steps that come by themselves: those of the pool's own goroutines, and the end of a `serve`
-- whose connection has its read deadline set. A `serve` that waits in ReadFrame without a deadline
-- may wait for ever, and the peer need not send anything.
abbrev pub IsDue : Crew → Step → Type 0
IsDue w (serve c Served.ends) = is_woken w.pool c ≡ true
IsDue w (serve c e) = ⊥
IsDue w e = Unit

-- No step that comes by itself is possible.
abbrev pub Quiescent : Crew → Type 0
Quiescent w = (e : Step) → IsDue w e → step w e ≡ none

abbrev Ended : Crew → ℕ → Type 0
Ended w c = link_is (λ l. l.has_ended) w.pool c ≡ true

act-next :
    (ph : Phase) (f : Bool) (p : Pool)
    → ((c : ℕ)
        → 1 ≤ owns c (record { phase = ph; fired = f })
        → link_is (λ l. l.has_ended) p c ≡ true)
    → act (next_move ph) ph f p ≡ none
    → ph ≡ exited
unfolding act
act-next exited f p h n = refl
act-next (greeting c) f p h n = ground (arith, h c, nat_beq_iff c c)
act-next (serving c) f p h n = ground (arith, h c, nat_beq_iff c c)
act-next checking f p h n = ground arith
act-next ph f p h n = cc

opening-none :
    (c : ℕ) (ph : Phase) (f : Bool) (p : Pool)
    → act Move.registers ph f p ≡ none
    → opening c (record { phase = ph; fired = f }) ≡ 0
unfolding act
opening-none c (starting d) f p h = cc
opening-none c ph f p h = refl

placed-none : (w : Crew) (i : ℕ) (o : Option (Pool × Slot)) → placed w i o ≡ none → o ≡ none
placed-none w i none h = refl
placed-none w i (some (p, s)) h = cc

with_pool-none : (w : Crew) (o : Option Pool) → with_pool w o ≡ none → o ≡ none
with_pool-none w none h = refl
with_pool-none w (some p) h = cc

exited-alive : (s : Slot) → s.phase ≡ exited → alive s ≡ 0
exited-alive s e = ground arith

exited-late : (s : Slot) → s.phase ≡ exited → unfired s ≤ late s
exited-late s e = ground arith

exited-owns : (c : ℕ) (s : Slot) → s.phase ≡ exited → owns c s ≡ 0
exited-owns c s e = ground arith

abbrev reapers_of_list : ℕ → List ℕ → ℕ
reapers_of_list c ds = total (λ d. one_if (d == c)) ds

module _ (w : Crew) (own : (c : ℕ) → Owned c w) (awake : (c : ℕ) → Awake c w.pool)
    (quiet : Quiescent w) where
  link-Ended :
      (c : ℕ) (l : Link)
      → get_elem? w.pool.links c ≡ some l
      → step w (serve c Served.ends) ≡ none
      → Ended w c
  unfolding step serves
  link-Ended c l g n = ground (arith, g, n)

  refused :
      (i : ℕ) (m : Move) (s : Slot)
      → get_elem? w.slots i ≡ some s
      → step w (moves i m) ≡ none
      → act m s.phase s.fired w.pool ≡ none
  unfolding step
  refused i m s g n = placed-none w i _ (subst (λ o. moved w i m o ≡ none) g n)

  slot-registered : (c i : ℕ) (s : Slot) → get_elem? w.slots i ≡ some s → opening c s ≡ 0
  slot-registered c i s g =
      opening-none c s.phase s.fired w.pool
        (refused i Move.registers s g (quiet (moves i Move.registers) tt))

  -- Everything that an owner waits for is registered by now, so it has a deadline, and has ended.
  owned-woken : (c : ℕ) → 1 ≤ owners c w → is_woken w.pool c ≡ true
  owned-woken c h =
      ground (arith, (own c).balance, awake c, total-zero (opening c) w.slots (slot-registered c))

  owned-Ended : (c : ℕ) → 1 ≤ owners c w → Ended w c
  owned-Ended c h = elim (dec_lt c (length w.pool.links)) [
    | yes old ↦
        let (l, g) = get_elem?-lt w.pool.links c old in
        link-Ended c l g (quiet (serve c Served.ends) (owned-woken c h))
    | no new ↦ absurd (omega (arith, (own c).known (omega arith)))
  ]

  slot-exited : (i : ℕ) (s : Slot) → get_elem? w.slots i ≡ some s → s.phase ≡ exited
  slot-exited i s g =
      act-next s.phase s.fired w.pool
        (λ c h. owned-Ended c (omega (arith, total-ge (owns c) w.slots i s g)))
        (refused i (next_move s.phase) s g (quiet (moves i (next_move s.phase)) tt))

  no_reapers-of :
      (c : ℕ) (cs : List ℕ) → w.pool.reapers ≡ c ∷ cs → Ended w c → step w (reaps c) ≡ none → ⊥
  unfolding step
  no_reapers-of c cs e ended n = ground (arith, with_pool-none w _ n, nat_beq_iff c c)

  no_reapers : (ds : List ℕ) → w.pool.reapers ≡ ds → ds ≡ []
  no_reapers [] e = refl
  no_reapers (c ∷ cs) e = absurd (
      no_reapers-of c cs e (owned-Ended c (ground (arith, e, nat_beq_iff c c)))
        (quiet (reaps c) tt))

  all_over :
      Accounted w
      → (all_gone w.pool ≡ true) × (w.pool.ready ≡ 0) × ((c : ℕ) → registered c w.pool ≡ 0)
  unfolding all_gone
  all_over acc =
      let none_left = no_reapers w.pool.reapers refl in
      let gone = total-zero alive w.slots (λ i s g. exited-alive s (slot-exited i s g)) in
      let fired = total-zero unfired w.slots (λ i s g.
        omega
          (arith, acc.in_time, total-ge late w.slots i s g, exited-late s (slot-exited i s g))) in
      (
        ground (arith, acc.crew),
        omega (arith, acc.readiness),
        λ c. omega (
          arith,
          (own c).balance,
          ap (reapers_of_list c) none_left,
          total-zero (owns c) w.slots (λ i s g. exited-owns c s (slot-exited i s g)),
        ),
      )

-- Shutdown takes its snapshot in a run of the pool, and no connection is registered afterwards. Then
-- the pool does not come to rest before everything is over: in any state that follows and in which no
-- goroutine of the pool can go on and no `serve` that Shutdown has woken has still to end, Shutdown's
-- wait for the maintainers is over, the Ready waiters have been released, and no connection is
-- registered. A `serve` that was not woken is not taken to end.
pub shutdown_completes :
    (n : ℕ) (before after : List Step) (w₀ w₁ w : Crew)
    → run before (new_pool n) ≡ some w₀
    → step w₀ snapshots ≡ some w₁
    → All IsQuiet after
    → run after w₁ ≡ some w
    → Quiescent w
    → (all_gone w.pool ≡ true) × (w.pool.ready ≡ 0) × ((c : ℕ) → registered c w.pool ≡ 0)
shutdown_completes n before after w₀ w₁ w h₀ s q h quiet =
    let acc = run-Accounted n before w₀ h₀ in
    let own = run-Owned n before w₀ h₀ in
    let acc₁ = subst (Each Accounted) s (step-Accounted w₀ snapshots acc) in
    let own₁ : (c : ℕ) → Owned c w₁ =
      λ c. subst (Each (Owned c)) s (step-Owned c w₀ snapshots (own c)) in
    let awake₁ : (c : ℕ) → Awake c w₁.pool =
      λ c. subst (Each (λ v. Awake c v.pool)) s (snapshots-Awake c w₀ (own c)) in
    all_over w
      (λ c. subst (Each (Owned c)) h (run_keeps (Owned c) (step-Owned c) after w₁ (own₁ c)))
      (λ c. subst (Each (λ v. Awake c v.pool)) h (run-Awake c after w₁ q (own₁ c) (awake₁ c))) quiet
      (subst (Each Accounted) h (run_keeps Accounted step-Accounted after w₁ acc₁))
