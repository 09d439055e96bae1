-- ===== src/H2/Flow.antt =====
-- internal/h2/flow.go: the send side of flow control. A method that runs under `mu` is one step;
-- what `cond.Wait` does to a caller of `Reserve` is `parked`, and the caller makes another round
-- after it has been woken.
pub mod Credit
pub mod Wakeup
pub mod Budget
use reverse_http.Prelude.{
  ℕ, ◌≡◌, refl, Bool, true, false, Option, none, some, List, [], ◌∷◌, ◌++◌, map, arith, ◌^◌, ◌-◌,
  if◌then◌else◌,
}
use reverse_http.Prelude.Int.{ℤ, pos, negsuc, ◌+ℤ◌, ◌-ℤ◌, ltb_ℤ, min_ℤ, int32}

abbrev pub default_initial_window : ℤ
default_initial_window = pos 65535

-- `cond` is the lazily made condition variable: `none` is nil, and `some ws` has the callers `ws`
-- waiting on it, each named by a number.
pub record SendCredit : Type 0 where
  pub cond : Option (List ℕ)
  pub conn_send_window : ℤ
  pub peer_init_window : ℤ
  pub dead : Bool

abbrev pub waiting : Option (List ℕ) → List ℕ
waiting none = []
waiting (some ws) = ws

unfoldable pub init_cond : SendCredit → SendCredit
init_cond sc = record sc { cond = some (waiting sc.cond) }

-- `if sc.cond != nil { sc.cond.Broadcast() }`: nobody waits any longer.
abbrev pub woken : Option (List ℕ) → Option (List ℕ)
woken none = none
woken (some _) = some []

unfoldable pub broadcast : SendCredit → SendCredit
broadcast sc = record sc { cond = woken sc.cond }

-- How a round of the loop in `Reserve` ends: the pair that is returned, or the wait.
pub data Round : Type 0 where
  returned : ℤ → Bool → Round
  parked : Round

-- The body of the loop, for the caller `who`: the credit, the stream's window and the outcome.
unfoldable pub reserve_round : SendCredit → ℤ → ℤ → ℕ → SendCredit × ℤ × Round
unfolding init_cond
reserve_round sc stream_window want who =
    let sc = init_cond sc in
    if sc.dead
    then (sc, stream_window, returned (pos 0) true)
    else (let avail = min_ℤ stream_window sc.conn_send_window in
        if ltb_ℤ (pos 0) avail
        then (let avail = if ltb_ℤ want avail then want else avail in
            (
              record sc { conn_send_window = int32 (sc.conn_send_window -ℤ avail) },
              int32 (stream_window -ℤ avail),
              returned avail false,
            ))
        else (record sc { cond = some (who ∷ waiting sc.cond) }, stream_window, parked))

-- `Reserve` up to its first wait.
unfoldable pub reserve : SendCredit → ℤ → ℤ → ℕ → SendCredit × ℤ × Round
unfolding reserve_round
reserve sc stream_window want who =
    if ltb_ℤ (pos 0) want
    then reserve_round sc stream_window want who
    else (sc, stream_window, returned (pos 0) false)

unfoldable pub add_conn : SendCredit → ℤ → SendCredit
unfolding broadcast
add_conn sc delta =
    broadcast (record sc { conn_send_window = int32 (sc.conn_send_window +ℤ delta) })

unfoldable pub add_stream : SendCredit → ℤ → ℤ → SendCredit × ℤ
unfolding broadcast
add_stream sc stream_window delta = (broadcast sc, int32 (stream_window +ℤ delta))

abbrev pub is_zero : ℤ → Bool
is_zero z = if ltb_ℤ (pos 0) z then false else if ltb_ℤ z (pos 0) then false else true

-- The second component is what happens to each window in `streamWindows`.
unfoldable pub apply_initial_window_delta : SendCredit → ℤ → SendCredit × (ℤ → ℤ)
unfolding broadcast
apply_initial_window_delta sc new_size =
    let delta = int32 (new_size -ℤ sc.peer_init_window) in
    let sc = record sc { peer_init_window = new_size } in
    if is_zero delta then (sc, λ sw. sw) else (broadcast sc, λ sw. int32 (sw +ℤ delta))

unfoldable pub initial_stream_window : SendCredit → ℤ
initial_stream_window sc = sc.peer_init_window

unfoldable pub mark_dead : SendCredit → SendCredit
unfolding broadcast
mark_dead sc = broadcast (record sc { dead = true })
