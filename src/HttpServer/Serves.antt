-- ===== src/HttpServer/Serves.antt =====
-- The Start of the server as an instance of Serving. By net/http's documentation Serve returns
-- http.ErrServerClosed after Shutdown.
use micra.Common.{true, Option, none, ◌≡◌, refl}
use micra.Errors.{Sentinel, Err, is?}
use micra.HttpServer.{serve_returned, cancelled_first, serve_result}
use micra.Serving.{Serving}

pub closed_is_clean :
    (e : Option Err)
    → is? Sentinel.server_closed e ≡ true
    → (serve_result (serve_returned e) ≡ none) × (serve_result (cancelled_first e) ≡ none)
unfolding serve_result
closed_is_clean e h = (rw h refl, rw h refl)

abbrev pub http_serving : Serving
http_serving = record {
  on_served = λ e. serve_result (serve_returned e);
  on_cancelled = λ e. serve_result (cancelled_first e);
  after_stop = is? Sentinel.server_closed;
  ends_clean = closed_is_clean;
}
