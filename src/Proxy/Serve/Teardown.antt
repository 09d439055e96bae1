-- ===== src/Proxy/Serve/Teardown.antt =====
-- The teardown of a tunnel lets every forwarder go (internal/proxy/tunnel.go).
use reverse_http.Prelude.{
  ℕ, ◌≡◌, refl, sym, ap, ◌∙◌, Bool, true, Option, none, some, List, [], ◌∷◌, arith, ◌==◌, nat_eq,
  Bool-cases, inl, inr, Bytes, if_cases,
}
use reverse_http.Prelude.Table.{Table, lookup}
use reverse_http.Prelude.Int.{ℤ}
use reverse_http.H2.Errors.{Err, no_error, conn_closed}
use reverse_http.H2.Flow.{SendCredit, mark_dead, broadcast}
use reverse_http.H2.Conn.{
  Conn, submitted, get_stream, to_stream, each_stream, fail_all_streams, remove_stream,
  finish_drain, add_to_registry, next_stream_id,
}
use reverse_http.H2.Stream.{Stream, fail_body}
use reverse_http.H2.Writer.{Field, Intent}
use reverse_http.Proxy.Tunnel.{
  ClientStream, Worker, Opened, fail, settled, open_stream, is_saturated, deregister_stream,
}
use reverse_http.Proxy.Serve.{
  Act, opens, removes, deregisters, Late, forwards, Session, fail_responses, fail_bodies,
  fail_worker_streams, teardown,
}

abbrev failed : Err → Option ClientStream → Option ClientStream
failed err none = none
failed err (some cs) = some (fail err cs)

lookup-responses :
    (err : Err) (id : ℕ) (m : Table ℕ ClientStream)
    → lookup id (fail_responses err m) ≡ failed err (lookup id m)
unfolding lookup
lookup-responses err id [] = refl
lookup-responses err id ((j, cs) ∷ m) = elim (Bool-cases (j == id)) [
  | inl e ↦ rw e
  | inr e ↦ rw e (lookup-responses err id m)
]

each_done :
    (err : Err) (id : ℕ) (m : Table ℕ Stream) (s : Stream)
    → lookup id (each_stream (λ s. fail_body s err) m) ≡ some s
    → s.data_done ≡ true
unfolding lookup fail_body
each_done err id [] s h = cc
each_done err id ((j, t) ∷ m) s h = ground (arith, each_done err id m s)

all_done :
    (err : Err) (c : Conn) (id : ℕ) (s : Stream)
    → lookup id (fail_all_streams c err).streams ≡ some s
    → s.data_done ≡ true
unfolding fail_all_streams
all_done err c id s h = each_done err id c.streams s h

closed_by-fail : (err : Err) (cs : ClientStream) → (fail err cs).closed ≡ true
unfolding fail
closed_by-fail err cs = ground arith

response_closed :
    (err : Err) (o : Option ClientStream) (cs : ClientStream)
    → failed err o ≡ some cs
    → cs.closed ≡ true
response_closed err none cs h = cc
response_closed err (some x) cs h = ground (arith, closed_by-fail err x, h)

response-Closed :
    (w : Worker) (id : ℕ) (cs : ClientStream)
    → lookup id (fail_worker_streams conn_closed w).streams ≡ some cs
    → cs.closed ≡ true
unfolding fail_worker_streams
response-Closed w id cs h =
    response_closed conn_closed (lookup id w.streams) cs
      (sym (lookup-responses conn_closed id w.streams) ∙ h)

-- What becomes of the send side of the connection: forwarders leave it as it is.
settled-send : (w : Worker) (id : ℕ) (o : Option Err) → (settled w id o).0.conn.send ≡ w.conn.send
unfolding remove_stream finish_drain
settled-send w id none = refl
settled-send w id (some err) = ground arith

open_stream-send :
    (send : ℕ → Option Err) (window : ℤ) (w : Worker)
    → (open_stream send window w).0.conn.send ≡ w.conn.send
unfolding open_stream add_to_registry next_stream_id
open_stream-send send window w =
    if_cases (λ (r : Worker × Opened). r.0.conn.send ≡ w.conn.send) w.conn.draining (λ _. refl)
      λ _.
        if_cases (λ (r : Worker × Opened). r.0.conn.send ≡ w.conn.send) (is_saturated w) (λ _. refl)
          λ _. settled-send _ _ (send _)

remove_stream-send : (c : Conn) (id : ℕ) → (remove_stream c id).send ≡ c.send
unfolding remove_stream finish_drain
remove_stream-send c id = ground arith

forwards-send : (acts : List Act) (w : Worker) → (forwards acts w).conn.send ≡ w.conn.send
unfolding forwards deregister_stream
forwards-send [] w = refl
forwards-send (opens send window ∷ acts) w = forwards-send acts _ ∙ open_stream-send send window w
forwards-send (removes id ∷ acts) w = forwards-send acts _ ∙ remove_stream-send w.conn id
forwards-send (deregisters id ∷ acts) w = forwards-send acts _

bodies_send :
    (err : Err) (m : Table ℕ ClientStream) (c : Conn) → (fail_bodies err m c).send ≡ c.send
unfolding fail_bodies
bodies_send err [] c = refl
bodies_send err ((id, _) ∷ m) c = bodies_send err m _ ∙ to_send (get_stream c id)
  where
    to_send : (o : Option Stream) → (to_stream (λ s. fail_body s err) id c o).send ≡ c.send
    to_send none = refl
    to_send (some b) = refl

-- A tunnel that has been torn down: the send side is dead and the worker is detached. It went
-- through the state `answered`, in which every response that is awaited is settled, and then through
-- `ended`, in which every registered body has ended; in between and afterwards only forwarders acted,
-- and one GOAWAY was submitted.
pub record Released {D : Type 0} (s : Session D) : Type 0 where
  pub dead : s.worker.conn.send.dead ≡ true
  pub is_detached : s.detached ≡ true
  pub answered : Worker
  pub ended : Worker
  pub between : List Act
  pub before_goaway : List Act
  pub after_goaway : List Act
  pub responses :
      (id : ℕ) (cs : ClientStream) → lookup id answered.streams ≡ some cs → cs.closed ≡ true
  pub bodies : (id : ℕ) (b : Stream) → lookup id ended.conn.streams ≡ some b → b.data_done ≡ true
  pub bodies_failed : ended ≡ (
      let w = forwards between answered in record w { conn = fail_all_streams w.conn conn_closed })
  pub rest : s.worker ≡ (
      let w = forwards before_goaway ended in
      forwards after_goaway (record w { conn = submitted w.conn (Intent.go_away 0 no_error) }))

module _ {D : Type 0} (decode : D → Bytes → D × List Field × Bool) (late : Late)
    (s : Session D) where
  -- The tunnel after the deferred calls of MarkDead and of the two that fail streams.
  marked : Worker
  unfolding mark_dead broadcast
  marked = record s.worker { conn = record s.worker.conn { send = mark_dead s.worker.conn.send } }

  unanswered : Worker
  unfolding marked
  unanswered = forwards late.after_mark marked

  all_answered : Worker
  unfolding unanswered fail_worker_streams
  all_answered = fail_worker_streams conn_closed unanswered

  all_ended : Worker
  unfolding all_answered
  all_ended =
      let w = forwards late.after_responses all_answered in
      record w { conn = fail_all_streams w.conn conn_closed }

  answered-send : all_answered.conn.send ≡ marked.conn.send
  unfolding all_answered unanswered fail_worker_streams
  answered-send =
      bodies_send conn_closed unanswered.streams unanswered.conn
      ∙ forwards-send late.after_mark marked

  ended-send : all_ended.conn.send ≡ marked.conn.send
  unfolding all_ended fail_all_streams
  ended-send = forwards-send late.after_responses all_answered ∙ answered-send

  ended_done :
      (id : ℕ) (b : Stream) → lookup id all_ended.conn.streams ≡ some b → b.data_done ≡ true
  unfolding all_ended
  ended_done id b h = all_done conn_closed (forwards late.after_responses all_answered).conn id b h

  marked-dead : marked.conn.send.dead ≡ true
  unfolding marked mark_dead broadcast
  marked-dead = refl

  torn-dead : (teardown decode late s).worker.conn.send.dead ≡ true
  unfolding teardown submitted marked unanswered all_answered all_ended
  torn-dead =
      ap (λ (x : SendCredit). x.dead)
        (forwards-send late.after_goaway _
          ∙ (forwards-send late.after_bodies all_ended ∙ ended-send))
      ∙ marked-dead

  pub teardown-Released : Released (teardown decode late s)
  unfolding teardown submitted marked unanswered all_answered all_ended
  teardown-Released = record {
    dead = torn-dead;
    is_detached = refl;
    answered = all_answered;
    ended = all_ended;
    between = late.after_responses;
    before_goaway = late.after_bodies;
    after_goaway = late.after_goaway;
    responses = response-Closed unanswered;
    bodies = ended_done;
    bodies_failed = refl;
    rest = refl;
  }
