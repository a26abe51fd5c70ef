-- ===== src/Sqlite/Conn/Laws.antt =====
-- When the database is found healthy, and when it is opened.
use Prim.Native.String.{◌++◌}
use iot_metrics.Base.{
  ℕ, zero, suc, ◌+◌, ◌<◌, ◌≡◌, refl, ◌↔◌, ◌⊎◌, inl, inr, String, Option, none, some, Option-cases,
  Bool-cases, eq_iff, false, subst, sym, arith, if◌then◌else◌,
}
use iot_metrics.Go.Errors.{Error}
use text.Mathlib.Text.{◌==◌}
use iot_metrics.Sqlite.Conn.{
  Attempts, attempts_left, wait_healthy, Opening, or_else, wrapping_error, file_of, open_db,
}

-- One of the next `left` attempts, from `i` on, has a ping that succeeds, and the context is not done
-- before it.
abbrev pub IsHealthyWithin : Attempts → ℕ → ℕ → Type 0
IsHealthyWithin env i left =
    (n : ℕ) × (n < left) × (env.ping (i + n) ≡ none) × ((k : ℕ) → k < n → env.done (i + k) ≡ none)

add_zero : (i : ℕ) → i + 0 ≡ i
add_zero i = omega arith

shift : (i n : ℕ) → i + suc n ≡ suc i + n
shift i n = omega arith

attempts_left-eq-none :
    (env : Attempts) (left i : ℕ) (last : Option Error)
    → attempts_left env left i last ≡ none
    → IsHealthyWithin env i left
unfolding attempts_left
attempts_left-eq-none env zero i none h = cc
attempts_left-eq-none env zero i (some e) h = cc
attempts_left-eq-none env (suc left) i last h = elim (Option-cases (env.ping i)) [
  | inl e ↦ (
    0,
    omega arith,
    subst (λ m. env.ping m ≡ none) (sym (add_zero i)) e,
    λ k small. elim small [ ],
  )
  | inr (e, failed) ↦ elim (Option-cases (env.done i)) [
    | inl quiet ↦
        let (n, small, p, d) =
          attempts_left-eq-none env left (suc i) (env.ping i)
            (rw (failed, quiet, attempts_left) at h) in
        (
          suc n,
          omega arith,
          subst (λ m. env.ping m ≡ none) (sym (shift i n)) p,
          quiet_before i n quiet d,
        )
    | inr (f, over) ↦ cc (rw (failed, over, attempts_left) at h)
  ]
]
  where
    quiet_before :
        (i n : ℕ)
        → env.done i ≡ none
        → ((k : ℕ) → k < n → env.done (suc i + k) ≡ none)
        → (k : ℕ) → k < suc n
        → env.done (i + k) ≡ none
    quiet_before i n q d zero small = subst (λ m. env.done m ≡ none) (sym (add_zero i)) q
    quiet_before i n q d (suc k) small =
        subst (λ m. env.done m ≡ none) (sym (shift i k)) (d k (omega arith))

healthy_returns :
    (env : Attempts) (left i : ℕ) (last : Option Error) (n : ℕ)
    → n < left
    → env.ping (i + n) ≡ none
    → ((k : ℕ) → k < n → env.done (i + k) ≡ none)
    → attempts_left env left i last ≡ none
unfolding attempts_left
healthy_returns env zero i last n h p d = elim h [ ]
healthy_returns env (suc left) i last zero h p d =
    rw (subst (λ m. env.ping m ≡ none) (add_zero i) p, attempts_left) refl
healthy_returns env (suc left) i last (suc n) h p d = elim (Option-cases (env.ping i)) [
  | inl e ↦ rw (e, attempts_left) refl
  | inr (e, failed) ↦
      rw (failed, subst (λ m. env.done m ≡ none) (add_zero i) (d zero (omega arith)), attempts_left)
        (healthy_returns env left (suc i) (env.ping i) n (omega arith)
          (subst (λ m. env.ping m ≡ none) (shift i n) p)
          (λ k small. subst (λ m. env.done m ≡ none) (shift i k) (d (suc k) (omega arith))))
]

-- Opening a database finds it healthy exactly if one of the first five pings succeeds and the context is
-- not done before it; there are no more attempts than that.
pub wait_healthy-eq-none_iff :
    (env : Attempts) → (wait_healthy env ≡ none) ↔ IsHealthyWithin env 0 5
unfolding wait_healthy
wait_healthy-eq-none_iff env = (
  λ h. attempts_left-eq-none env 5 0 none h,
  λ (n, small, p, d). healthy_returns env 5 0 none n small p d,
)

pub or_else-none : (a b : Option Error) → (or_else a b ≡ none) ↔ ((a ≡ none) × (b ≡ none))
unfolding or_else
or_else-none none b = (λ h. (refl, h), λ h. h.1)
or_else-none (some e) b = (λ h. cc, λ h. cc h.0)

pub wrapping_error-none :
    (text : String) (a : Option Error) → (wrapping_error text a ≡ none) ↔ (a ≡ none)
unfolding wrapping_error
wrapping_error-none text none = (λ h. refl, λ h. refl)
wrapping_error-none text (some e) = (λ h. cc, λ h. cc)

made_iff :
    (env : Opening) (dir : String)
    → ((if dir == "" then none else wrapping_error "create sqlite directory" (env.make_dir dir))
        ≡ none)
      ↔ ((dir ≡ "") ⊎ (env.make_dir dir ≡ none))
made_iff env dir = elim (Bool-cases (dir == "")) [
  | inl e ↦ rw e (λ h. inl ((eq_iff dir "").0 e), λ h. refl)
  | inr e ↦
      let wraps = wrapping_error-none "create sqlite directory" (env.make_dir dir) in
      rw e (λ h. inr (wraps.0 h), λ h. made wraps.1 e h)
]
  where
    made :
        (env.make_dir dir ≡ none
          → wrapping_error "create sqlite directory" (env.make_dir dir) ≡ none)
        → (dir == "") ≡ false
        → (dir ≡ "") ⊎ (env.make_dir dir ≡ none)
        → wrapping_error "create sqlite directory" (env.make_dir dir) ≡ none
    made wraps e (inl h) = cc (e, (eq_iff dir "").1 h)
    made wraps e (inr h) = wraps h

-- The directory, where one is configured, is made, the file is opened, both pragmas run, and one of the
-- first five pings succeeds before the context is done.
abbrev pub IsOpenable : Opening → String → Type 0
IsOpenable env dir =
    ((dir ≡ "") ⊎ (env.make_dir dir ≡ none))
    × (env.open_file ("file:" ++ (file_of dir ++ "?_journal_mode=WAL&_busy_timeout=5000")) ≡ none)
    × (env.foreign_keys ≡ none)
    × (env.write_ahead ≡ none)
    × IsHealthyWithin env.attempts 0 5

-- Opening the database succeeds exactly if its directory, where one is configured, is made, the file is
-- opened, both pragmas run, and one of the first five pings succeeds before the context is done.
pub open_db-eq-none_iff :
    (env : Opening) (dir : String) → (open_db env dir ≡ none) ↔ IsOpenable env dir
unfolding open_db
open_db-eq-none_iff env dir =
    let first =
      or_else-none
        (if dir == "" then none else wrapping_error "create sqlite directory" (env.make_dir dir))
        _ in
    let second =
      or_else-none
        (env.open_file ("file:" ++ (file_of dir ++ "?_journal_mode=WAL&_busy_timeout=5000"))) _ in
    let third = or_else-none (wrapping_error "enable foreign keys" env.foreign_keys) _ in
    let fourth =
      or_else-none (wrapping_error "enable WAL mode" env.write_ahead) (wait_healthy env.attempts) in
    let keys = wrapping_error-none "enable foreign keys" env.foreign_keys in
    let wal = wrapping_error-none "enable WAL mode" env.write_ahead in
    let made = made_iff env dir in
    let healthy = wait_healthy-eq-none_iff env.attempts in
    (
      λ h.
          let (a, rest) = first.0 h in
          let (b, rest') = second.0 rest in
          let (c, rest'') = third.0 rest' in
          let (d, e) = fourth.0 rest'' in (made.0 a, b, keys.0 c, wal.0 d, healthy.0 e),
      λ (a, b, c, d, e).
          first.1 (made.1 a, second.1 (b, third.1 (keys.1 c, fourth.1 (wal.1 d, healthy.1 e)))),
    )
