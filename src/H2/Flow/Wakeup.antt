-- ===== src/H2/Flow/Wakeup.antt =====
-- No lost wakeup: whatever the order in which the goroutines take `mu`, a caller of `Reserve`
-- sleeps on the condition variable only while it has nothing to send (internal/h2/flow.go).
use reverse_http.Prelude.{
  ℕ, ◌≡◌, refl, ◌∙◌, false, Option, none, some, List, [], ◌∷◌, arith, All, if◌then◌else◌, nat_beq,
  nat_beq_iff, if_cases,
}
use reverse_http.Prelude.Int.{
  ℤ, pos, ◌-ℤ◌, ◌≤ℤ◌, ◌<ℤ◌, ltb_ℤ, min_ℤ, int32, InInt32, int32-InInt32, int_laws,
}
use reverse_http.H2.Flow.{
  SendCredit, Round, parked, reserve, add_conn, add_stream, waiting, woken, is_zero,
  apply_initial_window_delta, mark_dead, default_initial_window, broadcast,
}
use reverse_http.H2.Flow.Credit.{
  Fits, spend, nonpositive_of_test, positive_of_test, granted-Fits, avail,
}

-- The credit of one connection with the send windows of its streams. A caller of `Reserve` goes
-- by the number of the stream that it writes to.
pub record Gate : Type 0 where
  pub credit : SendCredit
  pub window : ℕ → ℤ

abbrev pub update : (ℕ → ℤ) → ℕ → ℤ → ℕ → ℤ
update f k v j = if nat_beq k j then v else f j

pub data Op : Type 0 where
  reserves : ℕ → ℤ → Op
  adds_conn : ℤ → Op
  adds_stream : ℕ → ℤ → Op
  applies_initial_window : ℤ → Op
  marks_dead : Op

abbrev pub settle : Gate → ℕ → SendCredit × ℤ × Round → Gate
settle g who (sc, w, r) = record { credit = sc; window = update g.window who w }

unfoldable pub step : Gate → Op → Gate
step g (reserves who want) = settle g who (reserve g.credit (g.window who) want who)
step g (adds_conn delta) = record g { credit = add_conn g.credit delta }
step g (adds_stream s delta) =
    let (sc, w) = add_stream g.credit (g.window s) delta in
    record { credit = sc; window = update g.window s w }
step g (applies_initial_window size) =
    let (sc, adjust) = apply_initial_window_delta g.credit size in
    record { credit = sc; window = λ s. adjust (g.window s) }
step g marks_dead = record g { credit = mark_dead g.credit }

unfoldable pub run : Gate → List Op → Gate
run g [] = g
run g (op ∷ ops) = run (step g op) ops

-- What holds of a caller that sleeps.
abbrev pub Blocked : Gate → ℕ → Type 0
Blocked g who = (g.credit.dead ≡ false) × (min_ℤ (g.window who) g.credit.conn_send_window ≤ℤ pos 0)

pub record Awake (g : Gate) : Type 0 where
  pub conn_range : InInt32 g.credit.conn_send_window
  pub window_range : (s : ℕ) → InInt32 (g.window s)
  pub asleep : All (Blocked g) (waiting g.credit.cond)

min_mono : (a b a' b' : ℤ) → a' ≤ℤ a → b' ≤ℤ b → min_ℤ a b ≤ℤ pos 0 → min_ℤ a' b' ≤ℤ pos 0
unfolding min_ℤ
min_mono a b a' b' p q h = ground arith

Blocked-mono :
    (g h : Gate)
    → h.credit.dead ≡ g.credit.dead
    → h.credit.conn_send_window ≤ℤ g.credit.conn_send_window
    → ((s : ℕ) → h.window s ≤ℤ g.window s)
    → (ws : List ℕ) → All (Blocked g) ws
    → All (Blocked h) ws
Blocked-mono g h d c w [] b = tt
Blocked-mono g h d c w (s ∷ ws) b =
    ((d ∙ b.0.0, min_mono _ _ _ _ (w s) c b.0.1), Blocked-mono g h d c w ws b.1)

update_range :
    (f : ℕ → ℤ) (k : ℕ) (v : ℤ)
    → ((s : ℕ) → InInt32 (f s))
    → InInt32 v
    → (s : ℕ) → InInt32 (update f k v s)
update_range f k v h r s = ground (arith, h s)

update_le : (f : ℕ → ℤ) (k : ℕ) (v : ℤ) → v ≤ℤ f k → (s : ℕ) → update f k v s ≤ℤ f s
update_le f k v h s = ground (arith, nat_beq_iff k s)

nobody : (P : ℕ → Type 0) (o : Option (List ℕ)) → All P (waiting (woken o))
nobody P none = tt
nobody P (some ws) = tt

-- A round that takes nothing, and may leave its caller asleep.
idle-Awake :
    (g : Gate) (who : ℕ) (cond : Option (List ℕ))
    → Awake g
    → All (Blocked g) (waiting cond)
    → Awake (settle g who (record g.credit { cond = cond }, g.window who, parked))
idle-Awake g who cond a b =
    let h = settle g who (record g.credit { cond = cond }, g.window who, parked) in
    record {
      conn_range = a.conn_range;
      window_range = update_range g.window who _ a.window_range (a.window_range who);
      asleep =
          Blocked-mono g h refl (omega arith) (update_le g.window who _ (omega arith))
            (waiting cond) b;
    }

spend_le : (w got : ℤ) → InInt32 w → pos 0 <ℤ got → got ≤ℤ w → int32 (w -ℤ got) ≤ℤ w
spend_le w got r p q = rw (spend w got r p q) (omega int_laws)

-- A round that takes `got` from both windows.
granting-Awake :
    (g : Gate) (who : ℕ) (want got : ℤ)
    → Awake g
    → Fits want g.credit.conn_send_window (g.window who) got
    → Awake (
        settle g who (
          record g.credit {
            cond = some (waiting g.credit.cond);
            conn_send_window = int32 (g.credit.conn_send_window -ℤ got);
          },
          int32 (g.window who -ℤ got),
          parked,
        ))
granting-Awake g who want got a f =
    let h = settle g who (
      record g.credit {
        cond = some (waiting g.credit.cond);
        conn_send_window = int32 (g.credit.conn_send_window -ℤ got);
      },
      int32 (g.window who -ℤ got),
      parked,
    ) in
    record {
      conn_range = int32-InInt32 _;
      window_range = update_range g.window who _ a.window_range (int32-InInt32 _);
      asleep =
          Blocked-mono g h refl (spend_le _ got a.conn_range f.positive f.in_conn)
            (update_le g.window who _ (spend_le _ got (a.window_range who) f.positive f.in_window))
            (waiting g.credit.cond) a.asleep;
    }

reserve-Awake :
    (g : Gate) (who : ℕ) (want : ℤ)
    → Awake g
    → Awake (settle g who (reserve g.credit (g.window who) want who))
unfolding reserve
reserve-Awake g who want a =
    if_cases P (ltb_ℤ (pos 0) want)
      (λ p.
        if_cases P g.credit.dead (λ d. idle-Awake g who (some (waiting g.credit.cond)) a a.asleep)
          λ d.
            if_cases P (ltb_ℤ (pos 0) (avail conn window want))
              (λ v.
                granting-Awake g who want _ a
                  (granted-Fits conn window want (positive_of_test _ p) (positive_of_test _ v)))
              λ v.
                idle-Awake g who (some (who ∷ waiting g.credit.cond)) a
                  ((d, nonpositive_of_test _ v), a.asleep))
      (λ n. idle-Awake g who g.credit.cond a a.asleep)
  where
    P : SendCredit × ℤ × Round → Type 0
    P r = Awake (settle g who r)

    conn : ℤ
    conn = g.credit.conn_send_window

    window : ℤ
    window = g.window who

-- A size that changes nothing wakes nobody, and needs to wake nobody.
initial-Awake :
    (g : Gate) (size : ℤ)
    → Awake g
    → let (sc, adjust) = apply_initial_window_delta g.credit size in
      Awake (record { credit = sc; window = λ s. adjust (g.window s) })
unfolding apply_initial_window_delta broadcast
initial-Awake g size a =
    if_cases P (is_zero (int32 (size -ℤ g.credit.peer_init_window)))
      (λ _. record { conn_range = a.conn_range; window_range = a.window_range; asleep = a.asleep })
      λ _. record {
        conn_range = a.conn_range;
        window_range = λ s. int32-InInt32 _;
        asleep = nobody _ g.credit.cond;
      }
  where
    P : SendCredit × (ℤ → ℤ) → Type 0
    P (sc, adjust) = Awake (record { credit = sc; window = λ s. adjust (g.window s) })

-- Every step that runs under the mutex keeps the sleepers blocked: a step that adds credit, or
-- that kills the connection, has woken them all.
pub step-Awake : (g : Gate) (op : Op) → Awake g → Awake (step g op)
unfolding step add_conn add_stream mark_dead broadcast
step-Awake g (reserves who want) a = reserve-Awake g who want a
step-Awake g (adds_conn delta) a = record {
  conn_range = int32-InInt32 _;
  window_range = a.window_range;
  asleep = nobody _ g.credit.cond;
}
step-Awake g (adds_stream s delta) a = record {
  conn_range = a.conn_range;
  window_range = update_range g.window s _ a.window_range (int32-InInt32 _);
  asleep = nobody _ g.credit.cond;
}
step-Awake g (applies_initial_window size) a = initial-Awake g size a
step-Awake g marks_dead a = record {
  conn_range = a.conn_range;
  window_range = a.window_range;
  asleep = nobody _ g.credit.cond;
}

pub run-Awake : (g : Gate) (ops : List Op) → Awake g → Awake (run g ops)
unfolding run
run-Awake g [] a = a
run-Awake g (op ∷ ops) a = run-Awake (step g op) ops (step-Awake g op a)

-- A connection as `New` leaves it, every stream at the peer's initial window.
abbrev pub fresh : Gate
fresh = record {
  credit = record {
    cond = none;
    conn_send_window = default_initial_window;
    peer_init_window = default_initial_window;
    dead = false;
  };
  window = λ _. default_initial_window;
}

pub fresh-Awake : Awake fresh
fresh-Awake = record { conn_range = omega arith; window_range = λ s. omega arith; asleep = tt }

-- From a new connection, after any steps of writers and frame reader in any order, every caller of
-- `Reserve` that is still asleep has a live connection and a window (its stream's or the
-- connection's) at zero or below.
pub no_lost_wakeup :
    (ops : List Op) → All (Blocked (run fresh ops)) (waiting (run fresh ops).credit.cond)
no_lost_wakeup ops = (run-Awake fresh ops fresh-Awake).asleep
