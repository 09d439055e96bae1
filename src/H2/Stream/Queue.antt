-- ===== src/H2/Stream/Queue.antt =====
-- The ring of chunks behind the body of a stream (internal/h2/stream.go): what lies before `qHead`
-- is spent, and compaction drops it.
use reverse_http.Prelude.{
  inl, inr, ◌+◌, ◌*◌, ◌-◌, ℕ, zero, suc, ◌*◌, ◌≤◌, ◌<◌, ◌≡◌, refl, sym, ap, subst, ◌⊎◌, inl, ◌↔◌,
  Bool, true, false, ◌&&◌, Option, none, some, List, [], ◌∷◌, length, take, drop, ltb, leb, min,
  if◌then◌else◌, if_cases, Bytes, arith, drop-get_elem?, get_elem?-lt, drop_all, length-append,
  length-drop, ◌==◌, nat_eq,
}
use reverse_http.H2.Errors.{Err}
use reverse_http.H2.Stream.{
  DataChunk, Stream, acquire, return_buf, push_data, close_data, fail_body, Reading, got, waits,
  panics, at_end, clear_chunk, compact, consume, consume_at, read, close_body, Op, step, run,
  pushes, reads, closes_data, closes_body, fails_body,
}

-- The chunks that are not consumed yet.
abbrev pub pending : Stream → List DataChunk
pending s = drop s.q_head s.queue

drop-clear_chunk : (q : List DataChunk) (i : ℕ) → drop (suc i) (clear_chunk q i) ≡ drop (suc i) q
drop-clear_chunk [] i = refl
drop-clear_chunk (c ∷ q) zero = refl
drop-clear_chunk (c ∷ q) (suc i) = drop-clear_chunk q i

length-clear_chunk : (q : List DataChunk) (i : ℕ) → length (clear_chunk q i) ≡ length q
length-clear_chunk [] i = refl
length-clear_chunk (c ∷ q) zero = refl
length-clear_chunk (c ∷ q) (suc i) = omega (arith, length-clear_chunk q i)

-- The index is in range, the spent part of a long queue is less than half of it, and a buffer is
-- held only while some of its bytes are unread.
pub record Tidy (s : Stream) : Type 0 where
  pub within : s.q_head ≤ length s.queue
  pub compacted : (s.q_head ≤ 8) ⊎ (s.q_head * 2 < length s.queue)
  pub held : length s.buf ≡ 0 → s.buf_bp ≡ none

-- What `s.queue[s.qHead] = DataChunk{}; s.qHead++` and the compaction leave.
abbrev pub advance : Stream → Stream
advance s = compact (record s { queue = clear_chunk s.queue s.q_head; q_head = suc s.q_head })

pub record Advanced (s v : Stream) : Type 0 where
  pub rest : pending v ≡ drop (suc s.q_head) s.queue
  pub head_within : v.q_head ≤ length v.queue
  pub head_compacted : (v.q_head ≤ 8) ⊎ (v.q_head * 2 < length v.queue)
  pub same_buf : v.buf ≡ s.buf
  pub same_returned : v.returned ≡ s.returned
  pub same_done : v.data_done ≡ s.data_done
  pub same_err : v.data_err ≡ s.data_err

pub advance-Advanced : (s : Stream) → s.q_head < length s.queue → Advanced s (advance s)
unfolding compact
advance-Advanced s h =
    if_cases (Advanced s)
      (ltb 8 (suc s.q_head) && leb (length (clear_chunk s.queue s.q_head)) (suc s.q_head * 2))
      (λ t. record {
        rest = drop-clear_chunk s.queue s.q_head;
        head_within = omega arith;
        head_compacted = inl (omega arith);
        same_buf = refl;
        same_returned = refl;
        same_done = refl;
        same_err = refl;
      })
      λ f. record {
        rest = drop-clear_chunk s.queue s.q_head;
        head_within = omega (arith, h, length-clear_chunk s.queue s.q_head);
        head_compacted = ground arith;
        same_buf = refl;
        same_returned = refl;
        same_done = refl;
        same_err = refl;
      }

pub length_zero {ℓ} : {A : Type ℓ} (xs : List A) → ltb 0 (length xs) ≡ false → xs ≡ []
length_zero [] h = refl
length_zero (x ∷ xs) h = absurd (ground arith)

-- The three ways in which `Read` goes on.
pub read_cases {ℓ} :
    (P : Stream × Reading → Type ℓ) (n : ℕ) (s : Stream)
    → Tidy s
    → (0 < length s.buf
        → (rest : Bytes) → rest ≡ drop n s.buf
        → P (
          (if length rest == 0
              then return_buf (record s { buf = rest })
              else record s { buf = rest }),
          got (take n s.buf),
        ))
    → (s.buf ≡ [] → pending s ≡ [] → P (s, if s.data_done then at_end s.data_err else waits))
    → ((c : DataChunk)
        → s.buf ≡ []
        → s.q_head < length s.queue
        → pending s ≡ c ∷ drop (suc s.q_head) s.queue
        → P (consume n s c))
    → P (read n s)
unfolding read
read_cases P n s t from_buf ended from_queue =
    if_cases P (ltb 0 (length s.buf)) (λ h. from_buf (ground arith) (drop n s.buf) refl)
      λ h.
        if_cases P (s.q_head == length s.queue)
          (λ e. ended (length_zero s.buf h) (drop_all s.q_head s.queue (ground arith)))
          λ e.
            let small : s.q_head < length s.queue = ground (arith, t.within) in
            let found = get_elem?-lt s.queue s.q_head small in
            subst (λ o. P (consume_at n s o)) (sym found.1)
              (from_queue found.0 (length_zero s.buf h) small
                (drop-get_elem? s.queue s.q_head found.0 found.1))

-- The two ways in which a chunk is consumed.
pub consume_cases {ℓ} :
    (P : Stream × Reading → Type ℓ) (n : ℕ) (s : Stream) (c : DataChunk)
    → s.q_head < length s.queue
    → ((v : Stream)
        → Advanced s v
        → n < length c.bytes
        → P (record v { buf_bp = c.bp; buf = drop n c.bytes }, got (take n c.bytes)))
    → ((v : Stream)
        → Advanced s v
        → length c.bytes ≤ n
        → P (return_buf (record v { buf_bp = c.bp }), got (take n c.bytes)))
    → P (consume n s c)
unfolding consume
consume_cases P n s c small partly wholly =
    if_cases P (ltb (min n (length c.bytes)) (length c.bytes))
      (λ h. partly (advance s) (advance-Advanced s small) (ground arith))
      λ h. wholly (advance s) (advance-Advanced s small) (ground arith)

read-Tidy : (n : ℕ) (s : Stream) → Tidy s → Tidy (read n s).0
unfolding return_buf
read-Tidy n s t =
    read_cases (λ r. Tidy r.0) n s t
      (λ more rest e.
        if_cases Tidy (length rest == 0)
          (λ z. record { within = t.within; compacted = t.compacted; held = λ _. refl })
          λ z. record {
            within = t.within;
            compacted = t.compacted;
            held = λ h. absurd (ground arith);
          })
      (λ _ _. t)
      λ c b small p.
        consume_cases (λ r. Tidy r.0) n s c small
          (λ v a h. record {
            within = a.head_within;
            compacted = a.head_compacted;
            held = λ z. absurd (omega (arith, h, z, length-drop n c.bytes));
          })
          λ v a h. record { within = a.head_within; compacted = a.head_compacted; held = λ _. refl }

pub fresh-Tidy : (id : ℕ) (window : _) → Tidy (acquire id window)
fresh-Tidy id window = record {
  within = omega arith;
  compacted = inl (omega arith);
  held = λ _. refl;
}

pub step-Tidy : (s : Stream) (op : Op) → Tidy s → Tidy (step s op)
unfolding step push_data close_data fail_body close_body return_buf
step-Tidy s (pushes c) t = record {
  within = omega (arith, t.within, length-append s.queue (c ∷ []));
  compacted = grind (arith, t.compacted, length-append s.queue (c ∷ []));
  held = t.held;
}
step-Tidy s (reads n) t = read-Tidy n s t
step-Tidy s closes_data t = record { within = t.within; compacted = t.compacted; held = t.held }
step-Tidy s closes_body t = record {
  within = omega arith;
  compacted = inl (omega arith);
  held = λ _. refl;
}
step-Tidy s (fails_body err) t = record {
  within = t.within;
  compacted = t.compacted;
  held = t.held;
}

run-Tidy_from : (s : Stream) (ops : List Op) → Tidy s → Tidy (run s ops)
unfolding run
run-Tidy_from s [] t = t
run-Tidy_from s (op ∷ ops) t = run-Tidy_from (step s op) ops (step-Tidy s op t)

Tidy-bounded : (s : Stream) → Tidy s → length s.queue ≤ 2 * (length s.queue - s.q_head) + 8
Tidy-bounded s t = elim t.compacted [
  | inl few ↦ omega (arith, few, t.within)
  | inr half ↦ omega (arith, half, t.within)
]

-- Whatever calls a stream has seen since Acquire, the queue index is in range, and compaction keeps
-- the backing slice at most twice the unread chunks, plus 8: at most 8 chunks at its head are read
-- ones, or fewer than half of it. A buffer of the pool is held by the reader only while some of its
-- bytes are unread.
pub run-Tidy :
    (id : ℕ) (window : _) (ops : List Op)
    → let s = run (acquire id window) ops in
      Tidy s × (length s.queue ≤ 2 * (length s.queue - s.q_head) + 8)
run-Tidy id window ops = let t = run-Tidy_from _ ops (fresh-Tidy id window) in (t, Tidy-bounded _ t)

abbrev pub is_wait : Reading → Bool
is_wait waits = true
is_wait _ = false

abbrev pub is_panic : Reading → Bool
is_panic panics = true
is_panic _ = false

-- `Read` sleeps exactly when nothing is unread and the body is not ended yet, and never panics.
pub read_waits_iff :
    (n : ℕ) (s : Stream)
    → Tidy s
    → (is_panic (read n s).1 ≡ false)
      × ((is_wait (read n s).1 ≡ true) ↔ ((s.buf ≡ []) × (pending s ≡ []) × (s.data_done ≡ false)))
read_waits_iff n s t =
    read_cases
      (λ r.
        (is_panic r.1 ≡ false)
        × ((is_wait r.1 ≡ true) ↔ ((s.buf ≡ []) × (pending s ≡ []) × (s.data_done ≡ false))))
      n s t (λ more rest e. (refl, (λ h. cc, λ h. absurd (omega (arith, more, ap length h.0)))))
      (λ b p. ended s.data_done s.data_err b p)
      λ c b small p.
        consume_cases
          (λ r.
            (is_panic r.1 ≡ false)
            × ((is_wait r.1 ≡ true) ↔ ((s.buf ≡ []) × (pending s ≡ []) × (s.data_done ≡ false))))
          n s c small (λ v a h. (refl, (λ h. cc, λ h. cc))) λ v a h. (refl, (λ h. cc, λ h. cc))
  where
    ended :
        (done : Bool) (err : Option Err)
        → s.buf ≡ []
        → pending s ≡ []
        → let r = (if done then at_end err else waits) in
          (is_panic r ≡ false)
          × ((is_wait r ≡ true) ↔ ((s.buf ≡ []) × (pending s ≡ []) × (done ≡ false)))
    ended true none b p = (refl, (λ h. cc, λ h. cc))
    ended true (some e) b p = (refl, (λ h. cc, λ h. cc))
    ended false err b p = (refl, (λ _. (b, p, refl), λ _. refl))
