-- ===== src/Worker/Options.antt =====
-- pool.go: `NewConnectionPool` with `validateOptions`. Of the handler, the certificate and its key
-- only their presence counts. `nb_conn` is an int.
use reverse_http.Prelude.{
  Bool, not, ◌||◌, Option, none, some, Bytes, bytes_eq, ◌==◌, List, [], if◌then◌else◌, ◌≡◌, refl,
  sym, subst, if_cases, arith,
}
use reverse_http.Prelude.Int.{ℤ, pos, ltb_ℤ, pos_part, ◌≤ℤ◌}
use reverse_http.Worker.Pool.{Crew, Step, new_pool, run}
use reverse_http.Worker.Pool.Counts.{Accounted, run-Accounted}

pub record ServerOptions : Type 0 where
  pub addr : Bytes
  pub has_handler : Bool
  pub has_certificate : Bool
  pub has_private_key : Bool
  pub nb_conn : ℤ

pub data OptionsErr : Type 0 where
  addr_required handler_required mtls_required : OptionsErr

unfoldable pub validate_options : ServerOptions → Option OptionsErr
validate_options opts =
    if opts.addr == []
    then some addr_required
    else if not opts.has_handler
    then some handler_required
    else if not opts.has_certificate || not opts.has_private_key
    then some mtls_required
    else none

-- How the call ends. WaitGroup.Add panics on a count below zero.
pub data NewPool : Type 0 where
  refused : OptionsErr → NewPool
  opened : Crew → NewPool
  panics : NewPool

abbrev pub open_pool : ServerOptions → Option OptionsErr → NewPool
open_pool opts (some e) = refused e
open_pool opts none =
    if ltb_ℤ opts.nb_conn (pos 0) then panics else opened (new_pool (pos_part opts.nb_conn))

unfoldable pub new_connection_pool : ServerOptions → NewPool
unfolding validate_options
new_connection_pool opts = open_pool opts (validate_options opts)

record Started (opts : ServerOptions) (w : Crew) : Type 0 where
  valid : validate_options opts ≡ none
  counted : pos 0 ≤ℤ opts.nb_conn
  same : new_pool (pos_part opts.nb_conn) ≡ w

-- What an answer of `open_pool` says of the options.
open_pool-Started :
    (opts : ServerOptions) (w : Crew) (o : Option OptionsErr)
    → validate_options opts ≡ o
    → open_pool opts o ≡ opened w
    → Started opts w
open_pool-Started opts w (some e) v h = cc
open_pool-Started opts w none v h =
    if_cases (λ r. r ≡ opened w → Started opts w) (ltb_ℤ opts.nb_conn (pos 0)) (λ t e. cc)
      (λ f e. record { valid = v; counted = ground (arith, f); same = crew_of e }) h
  where
    crew_of : {a b : Crew} → opened a ≡ opened b → a ≡ b
    crew_of e = cc

-- A pool that NewConnectionPool returns has complete options and a count of connections that is not
-- negative, and whatever its goroutines do from there, its wait groups count what they should.
pub new_connection_pool-Accounted :
    (opts : ServerOptions) (es : List Step) (start w : Crew)
    → new_connection_pool opts ≡ opened start
    → run es start ≡ some w
    → (validate_options opts ≡ none) × (pos 0 ≤ℤ opts.nb_conn) × Accounted w
unfolding new_connection_pool
new_connection_pool-Accounted opts es start w h r =
    let s = open_pool-Started opts start (validate_options opts) refl h in
    (
      s.valid,
      s.counted,
      run-Accounted (pos_part opts.nb_conn) es w (subst (λ c. run es c ≡ some w) (sym s.same) r),
    )
