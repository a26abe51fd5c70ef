-- ===== src/Http/Server.antt =====
-- http/server.go: the server of the REST and the Connect handlers, up to what net/http does with it. The
-- packages grpchealth and grpcreflect, and echo, give the handlers of the other patterns.
pub mod Laws
use iot_metrics.Base.{ℕ, String, List, [], ◌∷◌, ◌++◌, map, Option, none, some, min, if◌then◌else◌}
use iot_metrics.Go.Errors.{Error}
use iot_metrics.Go.Mux.{Mux, has_pattern}
use iot_metrics.Go.Outcome.{ok, panic, Call, ◌>>=◌, ◌>>◌}
use iot_metrics.Go.Strings.{trim_char}

-- `context.Context`, as it stands when it is given to a call: its error, if it is done, and the seconds to
-- its deadline.
pub record Context : Type 0 where
  pub done : Option Error
  pub seconds_left : Option ℕ

-- `context.WithTimeout`
abbrev pub with_timeout : ℕ → Context → Context
with_timeout seconds ctx = record ctx {
  seconds_left = elim ctx.seconds_left [ none ↦ some seconds | some s ↦ some (min s seconds) ];
}

-- `Server.Stop`; `shutdown` is `Shutdown` of the HTTP server.
abbrev pub stop : (Context → Option Error) → Context → Option Error
stop shutdown ctx = shutdown (with_timeout 10 ctx)

-- The middleware that `NewServer` puts around all of echo: `middleware.Recover`.
pub data EchoMiddleware : Type 0 where
  recover_middleware : EchoMiddleware

-- `Server`, with handlers of the type `H`; the routes of echo are method and path.
pub record Server (H : Type 0) : Type 0 where
  pub addr : String
  pub mux : Mux H
  pub echo_middleware : List EchoMiddleware
  pub echo_routes : List (String × String)
  pub connect_services : List String

-- `NewServer`. The handler of the HTTP server is the mux, by HTTP/1 or by HTTP/2 without TLS.
abbrev pub new_server : {H : Type 0} → String → Server H
new_server addr = record {
  addr = addr;
  mux = [];
  echo_middleware = recover_middleware ∷ [];
  echo_routes = [];
  connect_services = [];
}

-- The handlers that libraries make of names of services, each with its pattern, and `s.echo` as a handler.
pub record Library (H : Type 0) : Type 0 where
  pub health : List String → String × H
  pub health_name : String
  pub reflector : List String → String × H
  pub reflector_alpha : List String → String × H
  pub echo : H

module _ {H : Type 0} where
  -- `ServeMux.Handle`, which panics at a pattern that is there.
  unfoldable pub handle : String × H → Call (Server H) (Unit {0})
  handle entry s =
      if has_pattern entry.0 s.mux then (panic, s) else (ok tt, record s { mux = entry ∷ s.mux })

  -- `Server.RegisterEcho`, of the routes that the handler registers
  unfoldable pub register_echo : List (String × String) → Call (Server H) (Unit {0})
  register_echo routes s = (ok tt, record s { echo_routes = s.echo_routes ++ routes })

  -- `Server.RegisterConnect`
  unfoldable pub register_connect : String × H → Call (Server H) (Unit {0})
  unfolding handle
  register_connect entry = do
    handle entry
    λ s. (ok tt, record s { connect_services = s.connect_services ++ entry.0 ∷ [] })

  -- `connectSvcNames`, before the health service is added.
  unfoldable pub service_names : Server H → List String
  unfolding trim_char
  service_names s = map (trim_char "/") s.connect_services

  -- `Server.Serve`, up to `ListenAndServe`
  unfoldable pub serve : Library H → Call (Server H) (Unit {0})
  unfolding service_names handle register_echo
  serve lib s =
      let names = service_names s in
      let all_names = names ++ lib.health_name ∷ [] in
      (do
        register_echo (("GET", "/healthz") ∷ [])
        handle (lib.health names)
        handle (lib.reflector all_names)
        handle (lib.reflector_alpha all_names)
        handle ("/", lib.echo))
        s
