-- ===== src/Sqlite/Migrate.antt =====
-- sqlite/migrate.go: bringing the tables up to date. What the package migrate answers is a parameter.
use iot_metrics.Base.{
  ◌≡◌, refl, ◌↔◌, ◌⊎◌, inl, inr, Bool, true, false, Bool-cases, Option, none, some, if◌then◌else◌,
}
use iot_metrics.Go.Errors.{Error, wrapped, is_no_change}
use iot_metrics.Sqlite.Conn.{or_else, wrapping_error}
use iot_metrics.Sqlite.Conn.Laws.{or_else-none, wrapping_error-none}

-- What opening the migrations, making the driver and the instance, and `Up` answer; `none` is the nil error.
pub record Migrating : Type 0 where
  pub source : Option Error
  pub driver : Option Error
  pub instance_ : Option Error
  pub up : Option Error

-- The error of `m.Up()`, as it is returned.
abbrev up_error : Option Error → Option Error
up_error none = none
up_error (some e) = if is_no_change e then none else some (wrapped "migrate up" e)

-- `Migrate`: its error, and whether it has closed the source of the migrations.
unfoldable pub migrate : Migrating → Option Error × Bool
unfolding or_else wrapping_error
migrate env = elim env.source [
  | some e ↦ (some (wrapped "open migrations fs" e), false)
  | none ↦ (
    or_else (wrapping_error "create sqlite driver" env.driver)
        (or_else (wrapping_error "create migrate instance" env.instance_) (up_error env.up)),
    true,
  )
]

-- Every step succeeds, but `Up` may find nothing to do.
pub record IsMigratable (env : Migrating) : Type 0 where
  pub source : env.source ≡ none
  pub driver : env.driver ≡ none
  pub instance_ : env.instance_ ≡ none
  pub up : (env.up ≡ none) ⊎ ((e : Error) × (env.up ≡ some e) × (is_no_change e ≡ true))

up_error-none :
    (up : Option Error)
    → (up_error up ≡ none) ↔ ((up ≡ none) ⊎ ((e : Error) × (up ≡ some e) × (is_no_change e ≡ true)))
up_error-none none = (λ h. inl refl, λ h. refl)
up_error-none (some e) = elim (Bool-cases (is_no_change e)) [
  | inl k ↦ rw k (λ h. inr (e, refl, k), λ h. refl)
  | inr k ↦ rw k (λ h. cc, λ h. refused h k)
]
  where
    refused :
        {e : Error}
        → (some e ≡ none) ⊎ ((d : Error) × (some e ≡ some d) × (is_no_change d ≡ true))
        → is_no_change e ≡ false
        → some (wrapped "migrate up" e) ≡ none
    refused (inl h) k = cc
    refused (inr (d, h, c)) k = cc

-- Migrating returns no error exactly if every step of it succeeds, where `Up` may also find nothing to do;
-- and the source of the migrations is closed exactly if it was opened.
pub migrate-eq-none_iff :
    (env : Migrating)
    → (((migrate env).0 ≡ none) ↔ IsMigratable env)
      × (((migrate env).1 ≡ true) ↔ (env.source ≡ none))
unfolding migrate
migrate-eq-none_iff env = go env.source refl
  where
    go :
        (o : Option Error)
        → env.source ≡ o
        → (((migrate env).0 ≡ none) ↔ IsMigratable env)
          × (((migrate env).1 ≡ true) ↔ (env.source ≡ none))
    go (some x) e = rw e ((λ h. cc, λ h. cc (e, h.source)), (λ h. cc, λ h. cc))
    go none e = rw e (
      (
        λ h.
            let (d, rest) = driven.0 h in
            let (i, u) = made.0 rest in
            record {
              source = refl;
              driver = (wrapping_error-none "create sqlite driver" env.driver).0 d;
              instance_ = (wrapping_error-none "create migrate instance" env.instance_).0 i;
              up = (up_error-none env.up).0 u;
            },
        λ h. driven.1 (
          (wrapping_error-none "create sqlite driver" env.driver).1 h.driver,
          made.1 (
            (wrapping_error-none "create migrate instance" env.instance_).1 h.instance_,
            (up_error-none env.up).1 h.up,
          ),
        ),
      ),
      (λ h. refl, λ h. refl),
    )
      where
        driven :
            let rest =
              or_else (wrapping_error "create migrate instance" env.instance_) (up_error env.up) in
            let d = wrapping_error "create sqlite driver" env.driver in
            (or_else d rest ≡ none) ↔ ((d ≡ none) × (rest ≡ none))
        driven = or_else-none (wrapping_error "create sqlite driver" env.driver) _

        made :
            let i = wrapping_error "create migrate instance" env.instance_ in
            (or_else i (up_error env.up) ≡ none) ↔ ((i ≡ none) × (up_error env.up ≡ none))
        made =
            or_else-none (wrapping_error "create migrate instance" env.instance_) (up_error env.up)
