-- ===== src/Http/Server/Laws.antt =====
-- What the server serves, once a Connect service is registered and `Serve` has registered the rest.
use Prim.Native.Char.{code}
use Prim.Native.String.{◌++◌}
use iot_metrics.Base.{
  ℕ, String, Bool, true, false, Bool-cases, ◌≡◌, refl, sym, subst, ap, ◌∙◌, ◌↔◌, inl, inr, List, [],
  ◌∷◌, some, eq_iff, ◌||◌, ◌&&◌, In, arith,
}
use iot_metrics.Connect.{device_service_path, device_service_name}
use iot_metrics.Go.Mux.{Mux, matches, route, route-matches, has_pattern}
use iot_metrics.Go.Outcome.{Outcome, ok, ◌>>◌}
use iot_metrics.Go.Strings.{ends_in}
use iot_metrics.Http.Server.{
  Server, Library, recover_middleware, new_server, handle, register_echo, register_connect, serve,
}
use mathlib.Core.List
use text.Mathlib.Text.{◌==◌, starts_with}
use text.Mathlib.TextBridge.{IsPrefix}
use text.Mathlib.TextEquality.{starts_with_iff}
use text.Mathlib.TextLemmas.{cons-append, append_assoc}

-- The second character of a text.
second : String → ℕ
second (String.◌∷◌ a (String.◌∷◌ b s)) = code b
second _ = 0

second-append :
    (u : String) → (second ("/grpc." ++ u) ≡ 103) × (second ("/iot.v1.DeviceService/" ++ u) ≡ 105)
unfolding second
second-append u = (
  ap second (cons-append "/" "grpc." u ∙ ap (String.◌∷◌ "/") (cons-append "g" "rpc." u)),
  ap second (
      cons-append "/" "iot.v1.DeviceService/" u
      ∙ ap (String.◌∷◌ "/") (cons-append "i" "ot.v1.DeviceService/" u)),
)

-- Packages grpchealth and grpcreflect serve paths of their own, that begin with `/grpc.`.
pub record IsGrpcLibrary {H : Type 0} (lib : Library H) : Type 0 where
  pub health : (names : List String) → IsPrefix "/grpc." (lib.health names).0
  pub reflector : (names : List String) → IsPrefix "/grpc." (lib.reflector names).0
  pub reflector_alpha : (names : List String) → IsPrefix "/grpc." (lib.reflector_alpha names).0
  pub health_reflector :
      (names all_names : List String)
      → ((lib.health names).0 == (lib.reflector all_names).0) ≡ false
  pub health_alpha :
      (names all_names : List String)
      → ((lib.health names).0 == (lib.reflector_alpha all_names).0) ≡ false
  pub reflector_alpha_apart :
      (names : List String) → ((lib.reflector names).0 == (lib.reflector_alpha names).0) ≡ false

eqb-second : (s t : String) (m n : ℕ) → second s ≡ m → second t ≡ n → (m ≡ n → ⊥) → (s == t) ≡ false
eqb-second s t m n e f apart = elim (Bool-cases (s == t)) [
  | inl h ↦ absurd (apart (cc (e, f, (eq_iff s t).0 h)))
  | inr h ↦ h
]

second-grpc : (p : String) → IsPrefix "/grpc." p → second p ≡ 103
second-grpc p (u, e) = sym (ap second e) ∙ (second-append u).0

and_false : (b : Bool) → (b && false) ≡ false
and_false true = refl
and_false false = refl

or_true : (b : Bool) → (b || true) ≡ true
or_true true = refl
or_true false = refl

-- A pattern that begins with `/grpc.` does not match a path whose second character is another.
grpc-matches : (p path : String) → IsPrefix "/grpc." p → second path ≡ 105 → matches p path ≡ false
unfolding matches
grpc-matches p path (u, e) f = elim (Bool-cases (starts_with path p)) [
  | inl h ↦
      let (v, g) = (starts_with_iff path p).0 h in
      absurd (
        apart (
          sym (ap second g)
          ∙ ap (λ x. second (x ++ v)) (sym e)
          ∙ ap second (append_assoc "/grpc." u v)
          ∙ (second-append (u ++ v)).0))
  | inr h ↦
      rw (eqb-second p path 103 105 (second-grpc p (u, e)) f (λ x. omega (arith, x)), h)
        (and_false _)
]
  where
    apart : second path ≡ 103 → ⊥
    apart g = omega (arith, f, g)

abbrev device_path : String
device_path = device_service_path

second-device : (path : String) → starts_with path device_path ≡ true → second path ≡ 105
second-device path h =
    let (u, e) = (starts_with_iff path device_path).0 h in sym (ap second e) ∙ (second-append u).1

device-matches :
    (path : String) → (matches device_path path ≡ true) ↔ (starts_with path device_path ≡ true)
unfolding matches ends_in
device-matches path = (
  λ h. elim (Bool-cases (device_path == path)) [
    | inl e ↦ subst (λ x. starts_with x device_path ≡ true) ((eq_iff device_path path).0 e) refl
    | inr e ↦ rw e at h
  ],
  λ h. rw h (or_true (device_path == path)),
)

module _ {H : Type 0} (lib : Library H) (addr : String) (device : H) where
  names : List String
  names = device_service_name ∷ []

  all_names : List String
  all_names = device_service_name ∷ lib.health_name ∷ []

  -- The patterns of the server, the last registered first.
  served_mux : Mux H
  unfolding names all_names
  served_mux =
      ("/", lib.echo)
      ∷ lib.reflector_alpha all_names
      ∷ lib.reflector all_names
      ∷ lib.health names
      ∷ (device_path, device)
      ∷ []

  abbrev pub started : List (String × String) → Outcome (Unit {0}) × Server H
  started routes =
      (register_echo routes >> register_connect (device_path, device) >> serve lib)
        (new_server addr)

  fresh :
      (entry : String × H) (s : Server H)
      → has_pattern entry.0 s.mux ≡ false
      → handle entry s ≡ (ok tt, record s { mux = entry ∷ s.mux })
  unfolding handle
  fresh entry s h = rw h refl

  -- The server with the patterns `mux`, as `Serve` registers its own.
  abbrev serving : List (String × String) → Mux H → Server H
  serving routes mux = record {
    addr = addr;
    mux = mux;
    echo_middleware = recover_middleware ∷ [];
    echo_routes = List.◌++◌ routes (("GET", "/healthz") ∷ []);
    connect_services = device_path ∷ [];
  }

  module _ (grpc : IsGrpcLibrary lib) where
    apart_device : (p : String) → IsPrefix "/grpc." p → (device_path == p) ≡ false
    unfolding second
    apart_device p h =
        eqb-second device_path p 105 103 refl (second-grpc p h) (λ x. omega (arith, x))

    apart_root : (p : String) → IsPrefix "/grpc." p → (p == "/") ≡ false
    unfolding second
    apart_root p h = eqb-second p "/" 103 0 (second-grpc p h) refl (λ x. omega (arith, x))

    started-mux :
        (routes : List (String × String))
        → ((started routes).0 ≡ ok tt) × ((started routes).1.mux ≡ served_mux)
    unfolding served_mux register_connect serve has_pattern
    started-mux routes =
        rw
          (
            fresh (lib.health names) (serving routes ((device_path, device) ∷ []))
                (rw (apart_device _ (grpc.health names)) refl),
            fresh (lib.reflector all_names)
                (serving routes (lib.health names ∷ (device_path, device) ∷ []))
                (rw
                  (grpc.health_reflector names all_names, apart_device _ (grpc.reflector all_names))
                  refl),
            fresh (lib.reflector_alpha all_names)
                (serving routes
                  (lib.reflector all_names ∷ lib.health names ∷ (device_path, device) ∷ []))
                (rw
                  (
                    grpc.reflector_alpha_apart all_names,
                    grpc.health_alpha names all_names,
                    apart_device _ (grpc.reflector_alpha all_names),
                  )
                  refl),
            fresh ("/", lib.echo)
                (serving routes (
                  lib.reflector_alpha all_names
                  ∷ lib.reflector all_names
                  ∷ lib.health names
                  ∷ (device_path, device)
                  ∷ []))
                (rw
                  (
                    apart_root _ (grpc.health names),
                    apart_root _ (grpc.reflector all_names),
                    apart_root _ (grpc.reflector_alpha all_names),
                  )
                  refl),
          )
          (refl, refl)

    route-device :
        (path : String)
        → starts_with path device_path ≡ true
        → route path served_mux ≡ some (device_path, device)
    unfolding served_mux route
    route-device path h =
        let i = second-device path h in
        rw
          (
            grpc-matches _ path (grpc.health names) i,
            grpc-matches _ path (grpc.reflector all_names) i,
            grpc-matches _ path (grpc.reflector_alpha all_names) i,
            (device-matches path).1 h,
          )
          (elim (Bool-cases (matches "/" path)) [ inl e ↦ rw e refl | inr e ↦ rw e refl ])

    -- Once the device service is registered, `Serve` registers the rest without a panic, under the name of
    -- the service without its slashes, and the device service serves exactly the paths that begin with
    -- its own, if the paths of the libraries begin with `/grpc.` and differ.
    pub serve-routes :
        (routes : List (String × String))
        → ((started routes).0 ≡ ok tt)
          × In (lib.health (device_service_name ∷ [])) (started routes).1.mux
          × ((path : String)
              → (route path (started routes).1.mux ≡ some (device_path, device))
                ↔ (starts_with path device_path ≡ true))
    unfolding served_mux names
    serve-routes routes =
        rw ((started-mux routes).0, (started-mux routes).1)
          (
            refl,
            inr (inr (inr (inl refl))),
            λ path. (
              λ h. (device-matches path).0 (route-matches path served_mux (device_path, device) h),
              route-device path,
            ),
          )
