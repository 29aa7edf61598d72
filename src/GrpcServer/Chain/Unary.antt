-- ===== src/GrpcServer/Chain/Unary.antt =====
-- components/grpcserver/server.go: a unary call through the whole chain, its outcome and its log lines.
use micra.Common.{
  ℕ, ◌+◌, String, Bool, true, false, Option, none, some, List, [], ◌∷◌, ◌++◌, ◌≡◌, refl, ap, ◌∙◌,
  str_eq, if◌then◌else◌, tally_list, tally_list-append, Bytes, arith,
}
use micra.Errors.{Err}
use micra.Core.Logger.{
  Logger, backed, Attrs, Level, text, level_debug, level_info, level_error, log, logger_from,
}
use micra.GrpcServer.Interceptors.{
  CallContext, Run, Reply, replied, panicked, Effect, logged, Handler, Interceptor, prepend,
  extract_or_generate, span_attributes, correlated, request_id, recover_from, recovery,
  internal_error, log_lines,
}
use micra.GrpcServer.Interceptors.RpcLog.{LogConfig, Printing, then_log, rpc_log}
use micra.GrpcServer.Chain.{with_logger, seed_logger, unary_interceptors}

abbrev pub is_line : String → Effect → Bool
is_line message (logged line) = str_eq line.message message
is_line message _ = false

-- How often a message is logged.
abbrev pub line_count : String → List Effect → ℕ
line_count message effects = tally_list (is_line message) effects

abbrev pub is_panic : Reply → Bool
is_panic (replied response err) = false
is_panic (panicked value stack) = true

-- What the caller of the chain is given for an inner reply.
abbrev pub answered : Reply → Reply
answered (replied response err) = replied response err
answered (panicked value stack) = replied none (some internal_error)

-- grpc.ChainUnaryInterceptor: "the first interceptor will be the outer most".
pub record IsChain (chain : List Interceptor → String → Handler → Handler) : Type 0 where
  pub nil :
      (method : String) (h : Handler) (ctx : CallContext) (request : ℕ)
      → chain [] method h ctx request ≡ h ctx request
  pub cons :
      (i : Interceptor) (is : List Interceptor) (method : String) (h : Handler) (ctx : CallContext)
      (request : ℕ)
      → chain (i ∷ is) method h ctx request ≡ i ctx request method (chain is method h)

-- What stands around a run: the span's attributes, the lines of rpc_log, and Recovery.
abbrev enclose :
    List Effect → Logger → String → List Effect → (Option ℕ → Option Err → List Effect) → Run → Run
enclose attributes l method started ended run =
    prepend attributes
      (recover_from l "panic in handler" method (prepend started (then_log ended run)))

-- Lines of a message: `k` of them after a reply, `j` after a panic.
line_count-enclose :
    (message : String) (attributes : List Effect) (l : Logger) (method : String)
    (started : List Effect) (ended : Option ℕ → Option Err → List Effect) (run : Run) (j k : ℕ)
    → line_count message attributes ≡ 0
    → line_count message started ≡ 0
    → ((response : Option ℕ) (err : Option Err) → line_count message (ended response err) ≡ k)
    → ((value : Attrs) → line_count message (log_lines l level_error "panic in handler" value) ≡ j)
    → line_count message (enclose attributes l method started ended run).0
      ≡ line_count message run.0 + (if is_panic run.1 then j else k)
unfolding prepend recover_from then_log
line_count-enclose message attributes l method started ended (effects, replied response err) j k ha
      hs he hp =
    omega (
      arith,
      tally_list-append (is_line message) attributes (started ++ (effects ++ ended response err)),
      tally_list-append (is_line message) started (effects ++ ended response err),
      tally_list-append (is_line message) effects (ended response err),
      he response err,
      ha,
      hs,
    )
line_count-enclose message attributes l method started ended (effects, panicked value stack) j k ha
      hs he hp =
    let panic : Attrs =
      ("method", text method) ∷ ("panic", text value) ∷ ("stack", text stack) ∷ [] in
    omega (
      arith,
      tally_list-append (is_line message) attributes
          ((started ++ effects) ++ log_lines l level_error "panic in handler" panic),
      tally_list-append (is_line message) (started ++ effects)
          (log_lines l level_error "panic in handler" panic),
      tally_list-append (is_line message) started effects,
      hp panic,
      ha,
      hs,
    )

answered-enclose :
    (attributes : List Effect) (l : Logger) (method : String) (started : List Effect)
    (ended : Option ℕ → Option Err → List Effect) (run : Run)
    → (enclose attributes l method started ended run).1 ≡ answered run.1
unfolding prepend recover_from then_log
answered-enclose attributes l method started ended (effects, replied response err) = refl
answered-enclose attributes l method started ended (effects, panicked value stack) = refl

no_line-span_attributes :
    (message : String) (ctx : CallContext) (rid : Bytes)
    → line_count message (span_attributes ctx rid) ≡ 0
unfolding span_attributes
no_line-span_attributes message ctx rid = ground arith

-- The logger is not the no-op one.
abbrev HasBackend : Logger → Type 0
HasBackend l = (n : ℕ) × (attrs : Attrs) × (l ≡ backed n attrs)

line_count-log_lines :
    (message : String) (l : Logger) (level : Level) (m : String) (values : Attrs)
    → HasBackend l
    → line_count message (log_lines l level m values) ≡ (if str_eq m message then 1 else 0)
unfolding log_lines log
line_count-log_lines message l level m values (n, attrs, e) = rw e (omega arith)

no_line-if :
    (message : String) (b : Bool) (lines : List Effect)
    → line_count message lines ≡ 0
    → line_count message (if b then lines else []) ≡ 0
no_line-if message true lines h = h
no_line-if message false lines h = refl

module _ (p : Printing) (cfg : LogConfig) (n : ℕ) (attrs : Attrs) (fresh : Bytes) (duration : ℕ)
    (user : List Interceptor) (chain : List Interceptor → String → Handler → Handler)
    (is_chain : IsChain chain) (method : String) (handler : Handler) (ctx : CallContext)
    (request : ℕ) where
  abbrev pub served : Run
  unfolding unary_interceptors
  served =
      chain (unary_interceptors p cfg (backed n attrs) fresh duration user) method handler ctx
        request

  -- The context that the user's interceptors are given.
  abbrev pub inner_context : CallContext
  unfolding correlated
  inner_context =
      correlated (with_logger ctx (backed n attrs)) (extract_or_generate fresh ctx.incoming) method

  abbrev pub inner : Run
  inner = chain user method handler inner_context request

  served_lem :
      served
      ≡ prepend
          (span_attributes
            (with_logger ctx (backed n attrs))
            (extract_or_generate fresh ctx.incoming))
          (recover_from
            (logger_from inner_context.logger)
            "panic in handler"
            method
            (rpc_log p cfg duration inner_context request method (chain user method handler)))
  unfolding unary_interceptors seed_logger request_id recovery
  served_lem =
      let rid = extract_or_generate fresh ctx.incoming in
      is_chain.cons (seed_logger (backed n attrs))
        (request_id fresh ∷ recovery ∷ rpc_log p cfg duration ∷ user) method handler ctx request
      ∙ is_chain.cons (request_id fresh) (recovery ∷ rpc_log p cfg duration ∷ user) method handler
          (with_logger ctx (backed n attrs)) request
      ∙ ap (prepend (span_attributes (with_logger ctx (backed n attrs)) rid)) (
          is_chain.cons recovery (rpc_log p cfg duration ∷ user) method handler inner_context
            request
          ∙ ap (recover_from (logger_from inner_context.logger) "panic in handler" method)
              (is_chain.cons (rpc_log p cfg duration) user method handler inner_context request))

  inner_backend : HasBackend (logger_from inner_context.logger)
  unfolding correlated
  inner_backend = (n, _, refl)

  -- The chain answers as the user's interceptors and the handler do, and a panic of theirs as the fixed
  -- Internal error. A reply adds one line "rpc.end" to theirs and no line "panic in handler", and a
  -- panic one line "panic in handler" and no line "rpc.end".
  pub served-inner :
      (served.1 ≡ answered inner.1)
      × (line_count "rpc.end" served.0
          ≡ line_count "rpc.end" inner.0 + (if is_panic inner.1 then 0 else 1))
      × (line_count "panic in handler" served.0
          ≡ line_count "panic in handler" inner.0 + (if is_panic inner.1 then 1 else 0))
  unfolding rpc_log
  served-inner =
      let rid = extract_or_generate fresh ctx.incoming in
      let ctx' = with_logger ctx (backed n attrs) in
      let l = logger_from inner_context.logger in
      (
        ap (λ (r : Run). r.1) served_lem
            ∙ answered-enclose (span_attributes ctx' rid) l method _ _ inner,
        ap (λ (r : Run). line_count "rpc.end" r.0) served_lem
            ∙ line_count-enclose "rpc.end" _ l method _ _ inner 0 1
                (no_line-span_attributes "rpc.end" ctx' rid)
                (no_line-if "rpc.end" _ _
                  (line_count-log_lines "rpc.end" l level_debug "rpc.start" _ inner_backend))
                (λ response err.
                  line_count-log_lines "rpc.end" l level_info "rpc.end" _ inner_backend)
                (λ value.
                  line_count-log_lines "rpc.end" l level_error "panic in handler" value
                    inner_backend),
        ap (λ (r : Run). line_count "panic in handler" r.0) served_lem
            ∙ line_count-enclose "panic in handler" _ l method _ _ inner 1 0
                (no_line-span_attributes "panic in handler" ctx' rid)
                (no_line-if "panic in handler" _ _ (
                  line_count-log_lines "panic in handler" l level_debug "rpc.start" _
                    inner_backend))
                (λ response err.
                  line_count-log_lines "panic in handler" l level_info "rpc.end" _ inner_backend)
                (λ value.
                  line_count-log_lines "panic in handler" l level_error "panic in handler" value
                    inner_backend),
      )
