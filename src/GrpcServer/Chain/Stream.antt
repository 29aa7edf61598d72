-- ===== src/GrpcServer/Chain/Stream.antt =====
-- A streaming call through the chain of stream interceptors.
use micra.Common.{ℕ, String, List, [], ◌∷◌, ◌≡◌, refl, tally_list-append, arith, if◌then◌else◌, ◌+◌}
use micra.Core.Logger.{backed, Attrs, log, logger_from}
use micra.GrpcServer.Interceptors.{
  CallContext, Run, replied, panicked, StreamHandler, StreamInterceptor, recover_from,
  stream_recovery, log_lines,
}
use micra.GrpcServer.Chain.{with_logger, seed_stream_logger, stream_interceptors}
use micra.GrpcServer.Chain.Unary.{line_count, is_panic, answered}

-- grpc.ChainStreamInterceptor: "the first interceptor will be the outer most".
pub record IsStreamChain (chain : List StreamInterceptor → String → StreamHandler → StreamHandler)
    : Type 0 where
  pub nil :
      (method : String) (h : StreamHandler) (ctx : CallContext) → chain [] method h ctx ≡ h ctx
  pub cons :
      (i : StreamInterceptor) (is : List StreamInterceptor) (method : String) (h : StreamHandler)
      (ctx : CallContext)
      → chain (i ∷ is) method h ctx ≡ i ctx method (chain is method h)

recover_lem :
    (n : ℕ) (attrs : Attrs) (method : String) (run : Run)
    → let out = recover_from (backed n attrs) "panic in stream handler" method run in
      (out.1 ≡ answered run.1)
      × (line_count "panic in stream handler" out.0
          ≡ line_count "panic in stream handler" run.0 + (if is_panic run.1 then 1 else 0))
unfolding recover_from log_lines log
recover_lem n attrs method (effects, replied response err) = (refl, omega arith)
recover_lem n attrs method (effects, panicked value stack) = (refl, tally_list-append _ effects _)

-- For a chain that composes interceptors with the first outermost, and an App's logger that is not the
-- no-op one: the user's stream interceptors and the handler run once, in a context that carries that
-- logger; the call answers as they do, and a panic of theirs as the fixed Internal error; a panic adds
-- one line panic in stream handler, and a reply adds none.
pub streamed_lem :
    (chain : List StreamInterceptor → String → StreamHandler → StreamHandler)
    (is_chain : IsStreamChain chain) (n : ℕ) (attrs : Attrs) (user : List StreamInterceptor)
    (method : String) (h : StreamHandler) (ctx : CallContext)
    → let run = chain (stream_interceptors (backed n attrs) user) method h ctx in
      let inner = chain user method h (with_logger ctx (backed n attrs)) in
      (run.1 ≡ answered inner.1)
      × (line_count "panic in stream handler" run.0
          ≡ line_count "panic in stream handler" inner.0 + (if is_panic inner.1 then 1 else 0))
unfolding stream_interceptors seed_stream_logger stream_recovery logger_from
streamed_lem chain is_chain n attrs user method h ctx =
    let seeded = with_logger ctx (backed n attrs) in
    rw
      (
        is_chain.cons (seed_stream_logger (backed n attrs)) (stream_recovery ∷ user) method h ctx,
        is_chain.cons stream_recovery user method h seeded,
      )
      (recover_lem n attrs method (chain user method h seeded))
