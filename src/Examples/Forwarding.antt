-- ===== src/Examples/Forwarding.antt =====
-- Instances for the proxy's side: internal/proxy.
use reverse_http.Prelude.{ℕ, ◌≤◌, ◌≡◌, refl, Option, none, some, List, [], ◌∷◌, arith, length}
use reverse_http.Prelude.Int.{pos}
use reverse_http.Prelude.Table.{lookup}
use reverse_http.H2.Conn.{next_stream_id, new_conn}
use reverse_http.H2.Errors.{Err, conn_closed}
use reverse_http.Proxy.Selector.{Candidate, least_in_flight_pick}
use reverse_http.Proxy.Selector.Least.{Picked, least_in_flight_pick-Picked}
use reverse_http.Proxy.Tunnel.{Worker, new_client, open_stream}
use reverse_http.Proxy.Tunnel.Ids.{
  Op, opens, removes, deregisters, drains, run, attached, odds, ids_ascend, within_limit,
}
use reverse_http.Proxy.Tunnel.Opening.{Effect, open_stream-Effect}
use reverse_http.Proxy.Tunnel.Response.{headers, notify, outcome, first_event_decides}

-- Every HEADERS goes out, or none does.
abbrev accepts : ℕ → Option Err
accepts id = none

abbrev refuses : ℕ → Option Err
refuses id = some conn_closed

open_stream-Effect_example : Effect accepts attached (open_stream accepts (pos 65535) attached)
unfolding lookup next_stream_id
open_stream-Effect_example = open_stream-Effect accepts (pos 65535) attached (omega arith) refl refl

abbrev busy : List Op
busy =
    opens accepts (pos 65535)
    ∷ opens refuses (pos 65535)
    ∷ removes 1
    ∷ deregisters 1
    ∷ opens accepts (pos 10)
    ∷ drains
    ∷ []

ids_ascend_example : (run attached busy).announced ≡ odds (length (run attached busy).announced)
ids_ascend_example = ids_ascend busy (omega arith)

-- A peer that allows one stream at a time.
abbrev narrow : Worker
narrow = record attached { conn = record new_conn { peer_max_streams = 1 } }

within_limit_example : length (run narrow busy).streams ≤ 1
within_limit_example = within_limit 1 busy narrow (omega arith) tt refl (omega arith)

abbrev candidates : List Candidate
candidates =
    record { place = 0; in_flight = 1; registered = 1; limit = 1 }
    ∷ record { place = 1; in_flight = 3; registered = 3; limit = 100 }
    ∷ record { place = 2; in_flight = 3; registered = 3; limit = 100 }
    ∷ []

least_in_flight_pick-Picked_example : Picked candidates (least_in_flight_pick candidates)
least_in_flight_pick-Picked_example = least_in_flight_pick-Picked candidates

-- The worker sends 103 Early Hints and then the final response.
first_event_decides_example :
    notify (headers (pos 103) [] ∷ headers (pos 200) [] ∷ []) new_client
    ≡ outcome (headers (pos 103) [])
first_event_decides_example = first_event_decides (headers (pos 103) []) (headers (pos 200) [] ∷ [])
