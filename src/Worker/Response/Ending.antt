-- ===== src/Worker/Response/Ending.antt =====
-- The handler as a sequence of calls, and how the response ends once it has returned: `endStream` of
-- writer.go.
use reverse_http.Prelude.{
  ℕ, ◌+◌, ◌<◌, ◌^◌, subst, sym, ◌∙◌, ◌≡◌, Bool, List, [], ◌∷◌, arith, length, Bytes, All,
}
use reverse_http.H2.Writer.{Header}
use reverse_http.Worker.Link.{Link}
use reverse_http.Worker.Response.{
  ResponseWriter, Outcome, returns, blocks, out_of_fuel, Written, flush, write_header, write,
}
use reverse_http.Worker.Response.Sound.{Sound, Resting, Sound-mono}
use mathlib.Core.Bool.{true≢false}
use reverse_http.Worker.Response.Loop.{Ends}
use reverse_http.Worker.Response.Calls.{WriteDone}
use reverse_http.Worker.Response.Writes.{write-WriteDone}
use reverse_http.Worker.Response.Interim.{
  flush-Sound, flush-Resting, write_header-Sound, write_header-Resting,
}
use reverse_http.Worker.Response.Method.{Kept, write_method, flush_method, write_header_method}

-- What a handler does with its response: a change of `Header()`, or a call.
pub data Call : Type 0 where
  sets_header : Header → Call
  writes_header : ℕ → Call
  writes : Bytes → Call
  flushes : Call

module _ (link : Link) where
  open link use {State, log}

  abbrev written_so_far : Outcome (Written link) → Outcome (State × ResponseWriter)
  written_so_far (returns r) = returns (r.0, r.1)
  written_so_far blocks = blocks
  written_so_far out_of_fuel = out_of_fuel

  pub call : State × ResponseWriter → Call → Outcome (State × ResponseWriter)
  call (s, rsp) (sets_header header) = returns (s, record rsp { header = header })
  call (s, rsp) (writes_header status) = returns (write_header link s rsp status)
  call (s, rsp) (writes p) = written_so_far (write link s rsp p)
  call (s, rsp) flushes = returns (flush link s rsp)

  abbrev and_then :
      Outcome (State × ResponseWriter)
      → (State × ResponseWriter → Outcome (State × ResponseWriter))
      → Outcome (State × ResponseWriter)
  and_then (returns r) next = next r
  and_then blocks next = blocks
  and_then out_of_fuel next = out_of_fuel

  pub handle : List Call → State × ResponseWriter → Outcome (State × ResponseWriter)
  handle [] r = returns r
  handle (c ∷ cs) r = and_then (call r c) (handle cs)

-- The bytes that the calls pass to `Write`.
abbrev pub offered_by : Call → ℕ
offered_by (writes p) = length p
offered_by _ = 0

unfoldable pub offered_in : List Call → ℕ
offered_in [] = 0
offered_in (c ∷ cs) = offered_by c + offered_in cs

-- No call of `Write` has 2^31 bytes or more.
abbrev pub Short : List Call → Type 0
Short = All λ c. offered_by c < 2 ^ 31

module _ (link : Link) where
  open link use {State, log}

  -- The invariant at the calls of a handler, for a request that is a HEAD or not.
  abbrev pub SoundAt : Bool → ℕ → State × ResponseWriter → Type 0
  SoundAt is_head offered r = Sound (log r.0) offered r.1 × Resting r.1 × (r.1.is_head ≡ is_head)

  write-Ends :
      (is_head : Bool) (before : Bytes) (offered : ℕ) (p : Bytes) (o : Outcome (Written link))
      → Ends (WriteDone link before offered p) o
      → Kept link is_head o
      → Ends (SoundAt is_head offered) (written_so_far link o)
  write-Ends is_head before offered p (returns r) w k = (w.sound, w.resting, k)
  write-Ends is_head before offered p blocks w k = w
  write-Ends is_head before offered p out_of_fuel w k = w

  call-Sound :
      (is_head : Bool) (r : State × ResponseWriter) (offered : ℕ) (c : Call)
      → SoundAt is_head offered r
      → offered_by c < 2 ^ 31
      → offered + offered_by c < 2 ^ 63
      → Ends (SoundAt is_head (offered + offered_by c)) (call link r c)
  unfolding call
  call-Sound is_head (s, rsp) offered (sets_header header) f short small = (
    Sound-mono (log s) offered _ _ (omega arith) (record {
      final = f.0.final;
      resolved = f.0.resolved;
      silent = f.0.silent;
      speaking = f.0.speaking;
      counted = f.0.counted;
      within = f.0.within;
      declared = f.0.declared;
      bodyless = f.0.bodyless;
      judged = f.0.judged;
      poised = λ p b q. absurd (true≢false (sym (f.1 p b) ∙ q));
      headed = f.0.headed;
    }),
    f.1,
    f.2,
  )
  call-Sound is_head (s, rsp) offered (writes_header status) f short small = (
    Sound-mono _ offered _ _ (omega arith) (write_header-Sound link s offered rsp status f.0),
    write_header-Resting link s rsp status f.1,
    write_header_method link s rsp status ∙ f.2,
  )
  call-Sound is_head (s, rsp) offered (writes p) f short small =
      write-Ends is_head _ _ p _ (write-WriteDone link s offered rsp p f.0 f.1 short small)
        (subst (λ b. Kept link b (write link s rsp p)) f.2 (write_method link s rsp p))
  call-Sound is_head (s, rsp) offered flushes f short small = (
    Sound-mono _ offered _ _ (omega arith) (flush-Sound link s offered rsp f.0),
    flush-Resting link s offered rsp f.0 f.1,
    flush_method link s rsp ∙ f.2,
  )

  then-Sound :
      (is_head : Bool) (m n : ℕ) (o : Outcome (State × ResponseWriter))
      (next : State × ResponseWriter → Outcome (State × ResponseWriter))
      → Ends (SoundAt is_head m) o
      → ((r : State × ResponseWriter) → SoundAt is_head m r → Ends (SoundAt is_head n) (next r))
      → Ends (SoundAt is_head n) (and_then link o next)
  then-Sound is_head m n (returns r) next f k = k r f
  then-Sound is_head m n blocks next f k = f
  then-Sound is_head m n out_of_fuel next f k = f

  pub handle-Sound :
      (is_head : Bool) (cs : List Call) (r : State × ResponseWriter) (offered : ℕ)
      → SoundAt is_head offered r
      → Short cs
      → offered + offered_in cs < 2 ^ 63
      → Ends (SoundAt is_head (offered + offered_in cs)) (handle link cs r)
  unfolding handle offered_in
  handle-Sound is_head [] (s, rsp) offered f short small =
      (Sound-mono (log s) offered _ rsp (omega arith) f.0, f.1, f.2)
  handle-Sound is_head (c ∷ cs) r offered f short small =
      then-Sound is_head (offered + offered_by c) _ (call link r c) (handle link cs)
        (call-Sound is_head r offered c f short.0 (omega arith))
        λ r' f'.
          subst (λ n. Ends (SoundAt is_head n) (handle link cs r')) (omega arith)
            (handle-Sound is_head cs r' (offered + offered_by c) f' short.1 (omega arith))
