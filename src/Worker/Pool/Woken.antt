-- ===== src/Worker/Pool/Woken.antt =====
-- The read deadlines that Shutdown sets on the connections of its snapshot (pool.go).
use native.Mathlib.Decide.{dec_lt}
use reverse_http.Prelude.{
  ℕ, suc, ◌≤◌, ◌≡◌, refl, Bool, true, Option, none, some, List, [], ◌∷◌, length, get_elem?, set,
  arith, Each, subst, ◌==◌, nat_eq, nat_beq_iff, All, get_elem?-set, get_elem?-snoc, get_elem?-lt,
  if_cases, sym,
}
use reverse_http.Prelude.Table.{Table, lookup, lookup-delete}
use reverse_http.Worker.Pool.{
  dialing, greeting, serving, Link, Pool, Phase, Slot, Crew, Move, Served, Step, moves, serve,
  reaps, shuts, snapshots, act, step, run, then_run, fire, ready_done, maintainer_done,
  deregister_conn, reaper_taken, moved, placed, with_pool, with_link, served, serves, reaped, wake,
  wake_link, holds, link_is, new_link,
}
use reverse_http.Worker.Pool.Owners.{one_if, is_in, registered, Owned, step-Owned, length-wake_link}

abbrev pub is_woken : Pool → ℕ → Bool
is_woken p c = link_is (λ l. l.woken) p c

-- The step registers no connection.
abbrev pub IsQuiet : Step → Type 0
IsQuiet (moves i Move.registers) = ⊥
IsQuiet e = Unit

-- A registered connection has its read deadline set.
abbrev pub Awake : ℕ → Pool → Type 0
Awake c p = registered c p ≤ one_if (is_woken p c)

abbrev awake_at : List Link → ℕ → ℕ
awake_at ls c = one_if (holds (λ l. l.woken) (get_elem? ls c))

awake_at-set :
    (ls : List Link) (d c : ℕ) (l l' : Link)
    → get_elem? ls d ≡ some l
    → l'.woken ≡ l.woken
    → awake_at (set ls d l') c ≡ awake_at ls c
awake_at-set ls d c l l' g e = ground (arith, get_elem?-set ls d c l l' g, nat_beq_iff d c, g)

awake_at-wake_link :
    (c d : ℕ) (ls : List Link) (o : Option Link)
    → get_elem? ls d ≡ o
    → awake_at ls c ≤ awake_at (wake_link o d ls) c
awake_at-wake_link c d ls none g = omega arith
awake_at-wake_link c d ls (some l) g =
    ground (arith, get_elem?-set ls d c l (record l { woken = true }) g)

awake_at-wake :
    (c : ℕ) (cs : Table ℕ (Unit {0})) (ls : List Link) → awake_at ls c ≤ awake_at (wake cs ls) c
awake_at-wake c [] ls = omega arith
awake_at-wake c ((d, _) ∷ cs) ls = omega (
  arith,
  awake_at-wake_link c d ls (get_elem? ls d) refl,
  awake_at-wake c cs (wake_link (get_elem? ls d) d ls),
)

wake_link_self :
    (c : ℕ) (ls : List Link) (o : Option Link)
    → get_elem? ls c ≡ o
    → suc c ≤ length ls
    → 1 ≤ awake_at (wake_link o c ls) c
wake_link_self c ls none g h =
    let (l, found) = get_elem?-lt ls c h in absurd (ground (arith, g, found))
wake_link_self c ls (some l) g h =
    ground (arith, get_elem?-set ls c c l (record l { woken = true }) g, nat_beq_iff c c)

-- The loop of Shutdown reaches every connection of the snapshot.
wake_all :
    (c : ℕ) (cs : Table ℕ (Unit {0})) (ls : List Link)
    → suc c ≤ length ls
    → is_in (lookup c cs) ≤ awake_at (wake cs ls) c
unfolding lookup
wake_all c [] ls h = omega arith
wake_all c ((d, _) ∷ cs) ls h =
    let next = wake_link (get_elem? ls d) d ls in
    if_cases (λ o. is_in o ≤ awake_at (wake cs next) c) (d == c)
      (λ e.
        let known =
          subst (λ x. 1 ≤ awake_at (wake_link (get_elem? ls x) x ls) c)
            (sym ((nat_beq_iff d c).0 e)) (wake_link_self c ls (get_elem? ls c) refl h) in
        omega (arith, known, awake_at-wake c cs next))
      λ _. wake_all c cs next (omega (arith, length-wake_link (get_elem? ls d) d ls))

-- An unregistered connection was never made, or somebody has dropped it.
made-registered : (c : ℕ) (w : Crew) → Owned c w → length w.pool.links ≤ c → registered c w.pool ≡ 0
made-registered c w own h = omega (arith, own.balance, own.known h)

module _ (c : ℕ) (w : Crew) (own : Owned c w) (awake : Awake c w.pool) where
  act-Awake :
      (m : Move) (ph : Phase) (f : Bool) {p' : Pool} {s' : Slot} (i : ℕ)
      → IsQuiet (moves i m)
      → act m ph f w.pool ≡ some (p', s')
      → Awake c p'
  unfolding act fire ready_done maintainer_done deregister_conn
  act-Awake Move.registers ph f i q h = absurd q
  act-Awake Move.drops (greeting d) f i q h =
      ground (arith, awake, lookup-delete d c w.pool.conns own.unique)
  act-Awake Move.drops (serving d) f i q h =
      ground (arith, awake, lookup-delete d c w.pool.conns own.unique)
  act-Awake Move.connects dialing f i q h = ground (
    arith,
    awake,
    get_elem?-snoc w.pool.links c new_link,
    nat_beq_iff (length w.pool.links) c,
    made-registered c w own,
  )
  act-Awake m ph f i q h = ground (arith, awake)

  placed-Awake :
      (i : ℕ) (m : Move) (s : Slot) (o : Option (Pool × Slot))
      → IsQuiet (moves i m)
      → act m s.phase s.fired w.pool ≡ o
      → Each (λ v. Awake c v.pool) (placed w i o)
  placed-Awake i m s none q a = tt
  placed-Awake i m s (some (p', s')) q a = act-Awake m s.phase s.fired i q a

  moved-Awake :
      (i : ℕ) (m : Move) (o : Option Slot)
      → IsQuiet (moves i m)
      → Each (λ v. Awake c v.pool) (moved w i m o)
  moved-Awake i m none q = tt
  moved-Awake i m (some s) q = placed-Awake i m s (act m s.phase s.fired w.pool) q refl

  served_link-Awake :
      (d : ℕ) (e : Served) (l : Link) (o : Option Link)
      → get_elem? w.pool.links d ≡ some l
      → serves e l ≡ o
      → Each (λ v. Awake c v.pool) (with_pool w (with_link w.pool d o))
  unfolding serves
  served_link-Awake d e l none g h = tt
  served_link-Awake d Served.handshakes l (some l') g h =
      omega (arith, awake, awake_at-set w.pool.links d c l l' g (ground (arith, h)))
  served_link-Awake d Served.drains l (some l') g h =
      omega (arith, awake, awake_at-set w.pool.links d c l l' g (ground (arith, h)))
  served_link-Awake d Served.ends l (some l') g h =
      omega (arith, awake, awake_at-set w.pool.links d c l l' g (ground (arith, h)))

  served-Awake :
      (d : ℕ) (e : Served) (o : Option Link)
      → get_elem? w.pool.links d ≡ o
      → Each (λ v. Awake c v.pool) (with_pool w (served w.pool d e o))
  served-Awake d e none g = tt
  served-Awake d e (some l) g = served_link-Awake d e l (serves e l) g refl

  reaped-Awake :
      (d : ℕ) (o : Option (List ℕ)) → Each (λ v. Awake c v.pool) (with_pool w (reaped d w.pool o))
  unfolding maintainer_done deregister_conn
  reaped-Awake d none = tt
  reaped-Awake d (some cs) = ground (arith, awake, lookup-delete d c w.pool.conns own.unique)

step-Awake :
    (c : ℕ) (w : Crew) (e : Step)
    → IsQuiet e
    → Owned c w
    → Awake c w.pool
    → Each (λ v. Awake c v.pool) (step w e)
unfolding step
step-Awake c w (moves i m) q own a = moved-Awake c w own a i m (get_elem? w.slots i) q
step-Awake c w (serve d e) q own a = served-Awake c w own a d e (get_elem? w.pool.links d) refl
step-Awake c w (reaps d) q own a = reaped-Awake c w own a d (reaper_taken d w.pool.reapers)
step-Awake c w shuts q own a = ground (arith, a)
step-Awake c w snapshots q own a = ground (arith, a, awake_at-wake c w.pool.conns w.pool.links)

pub snapshots-Awake : (c : ℕ) (w : Crew) → Owned c w → Each (λ v. Awake c v.pool) (step w snapshots)
unfolding step
snapshots-Awake c w own = elim (dec_lt c (length w.pool.links)) [
  | yes old ↦ ground (arith, wake_all c w.pool.conns w.pool.links old)
  | no new ↦ ground (arith, made-registered c w own (omega arith))
]

next-Awake :
    (c : ℕ) (es : List Step) (o : Option Crew)
    → ((w : Crew) → Owned c w → Awake c w.pool → Each (λ v. Awake c v.pool) (run es w))
    → Each (Owned c) o
    → Each (λ v. Awake c v.pool) o
    → Each (λ v. Awake c v.pool) (then_run (run es) o)
next-Awake c es none k own a = tt
next-Awake c es (some w) k own a = k w own a

pub run-Awake :
    (c : ℕ) (es : List Step) (w : Crew)
    → All IsQuiet es
    → Owned c w
    → Awake c w.pool
    → Each (λ v. Awake c v.pool) (run es w)
unfolding run
run-Awake c [] w q own a = a
run-Awake c (e ∷ es) w q own a =
    next-Awake c es (step w e) (λ v. run-Awake c es v q.1) (step-Owned c w e own)
      (step-Awake c w e q.0 own a)
