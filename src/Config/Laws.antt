-- ===== src/Config/Laws.antt =====
-- Which configurations are accepted.
use iot_metrics.Base.{
  ◌≡◌, refl, sym, subst, Bool-cases, Option-cases, ◌∙◌, not, ◌&&◌, ◌↔◌, ◌⊎◌, inl, inr, String, Bool,
  true, false, List, [], ◌∷◌, Option, none, some, ℤ, pos, ◌<ℤ◌, arith, ltb_ℤ, leb_ℤ, eq_iff,
}
use iot_metrics.Config.{
  Config, RateLimit, validate, load, loaded, when, check_rate_limit, check_port, check_level,
  checked, finish, decoded_file, default_config,
}
use iot_metrics.Go.Errors.{Error}
use iot_metrics.Log.{parse_level}
use text.Mathlib.Text.{◌==◌}

-- Positive numbers of tokens and of seconds, if there is a rate limit.
abbrev pub IsRate : Option RateLimit → Type 0
IsRate none = Unit
IsRate (some r) = (pos 0 <ℤ r.tokens) × (pos 0 <ℤ r.seconds)

abbrev pub IsLevel : String → Type 0
IsLevel level = (level ≡ "debug") ⊎ ((level ≡ "info") ⊎ ((level ≡ "warn") ⊎ (level ≡ "error")))

IsLevel-iff : (level : String) → ((parse_level level).1 ≡ true) ↔ IsLevel level
unfolding parse_level
IsLevel-iff level =
    ground
      (arith, eq_iff level "debug", eq_iff level "info", eq_iff level "warn", eq_iff level "error")

when-eq-nil_iff :
    (condition : Bool) (message : String) (errs : List String)
    → (when condition message errs ≡ []) ↔ ((errs ≡ []) × (condition ≡ false))
when-eq-nil_iff true message [] = (λ h. cc, λ h. cc h.1)
when-eq-nil_iff true message (e ∷ es) = (λ h. cc, λ h. cc h.1)
when-eq-nil_iff false message errs = (λ h. (h, refl), λ h. h.0)

IsRate-iff :
    (r : Option RateLimit) (errs : List String)
    → (check_rate_limit r errs ≡ []) ↔ ((errs ≡ []) × IsRate r)
unfolding check_rate_limit
IsRate-iff none errs = (λ h. (h, tt), λ h. h.0)
IsRate-iff (some r) errs =
    let seconds =
      when-eq-nil_iff (leb_ℤ r.seconds (pos 0)) "deviceRateLimit.seconds: must be greater than 0"
        _ in
    let tokens =
      when-eq-nil_iff (leb_ℤ r.tokens (pos 0)) "deviceRateLimit.tokens: must be greater than 0"
        errs in
    (
      λ h.
          let (h', s) = seconds.0 h in
          let (h'', t) = tokens.0 h' in (h'', (positive r.tokens t, positive r.seconds s)),
      λ h. seconds.1 (tokens.1 (h.0, not_positive r.tokens h.1.0), not_positive r.seconds h.1.1),
    )
  where
    positive : (z : ℤ) → leb_ℤ z (pos 0) ≡ false → pos 0 <ℤ z
    positive z h = ground arith

    not_positive : (z : ℤ) → pos 0 <ℤ z → leb_ℤ z (pos 0) ≡ false
    not_positive z h = ground arith

-- No port is outside of the range on both sides.
check_port-eq : (c : Config) (errs : List String) → check_port c errs ≡ errs
unfolding check_port
check_port-eq c errs = rw (never c.port) refl
  where
    never : (p : ℤ) → (ltb_ℤ p (pos 1) && ltb_ℤ (pos 65535) p) ≡ false
    never p = ground arith

level_ok : (c : Config) → (check_level c [] ≡ []) ↔ IsLevel c.logger.level
unfolding check_level
level_ok c =
    let w =
      when-eq-nil_iff (not (parse_level c.logger.level).1)
        "logger.level: must be one of [debug, info, warn, error]" [] in
    (
      λ h. (IsLevel-iff c.logger.level).0 (of_not (parse_level c.logger.level).1 (w.0 h).1),
      λ h. w.1 (refl, to_not (parse_level c.logger.level).1 ((IsLevel-iff c.logger.level).1 h)),
    )
  where
    of_not : (b : Bool) → not b ≡ false → b ≡ true
    of_not b h = ground arith

    to_not : (b : Bool) → b ≡ true → not b ≡ false
    to_not b h = ground arith

-- `Validate` finds no error exactly if the logger's level is one of the four names and the numbers of a
-- rate limit are positive; the port may be any number.
pub validate-eq-nil_iff :
    (c : Config) → (validate c ≡ []) ↔ (IsLevel c.logger.level × IsRate c.device_rate_limit)
unfolding validate
validate-eq-nil_iff c =
    let rate = IsRate-iff c.device_rate_limit (check_port c (check_level c [])) in
    (
      λ h.
          let (before, r) = rate.0 h in
          ((level_ok c).0 (sym (check_port-eq c (check_level c [])) ∙ before), r),
      λ h. rate.1 (check_port-eq c (check_level c []) ∙ (level_ok c).1 h.0, h.1),
    )

checked_valid :
    (c cfg : Config) (errs : List String)
    → validate c ≡ errs
    → checked c errs ≡ loaded cfg
    → validate cfg ≡ []
checked_valid c cfg [] e h = subst (λ d. validate d ≡ []) (cc h) e
checked_valid c cfg (x ∷ xs) e h = cc

finish_valid :
    (x : Option Error × Config) (cfg : Config) → finish x ≡ loaded cfg → validate cfg ≡ []
finish_valid (none, c) cfg h = checked_valid c cfg (validate c) refl h
finish_valid (some e, c) cfg h = cc

decoded_valid :
    (open_file : String → Option Error) (decode : String → Config → Option Error × Config)
    (parse_env : Config → Option Error × Config) (path : String) (x : Option Error × Config)
    (cfg : Config)
    → decoded_file open_file decode parse_env path x ≡ loaded cfg
    → validate cfg ≡ []
decoded_valid open_file decode parse_env path (none, c) cfg h = finish_valid (parse_env c) cfg h
decoded_valid open_file decode parse_env path (some e, c) cfg h = cc

-- `Load` gives a configuration only if its logger's level is one of the four names and the numbers of
-- its rate limit are positive.
pub load_valid :
    (open_file : String → Option Error) (decode : String → Config → Option Error × Config)
    (parse_env : Config → Option Error × Config) (path : String) (cfg : Config)
    → load open_file decode parse_env path ≡ loaded cfg
    → IsLevel cfg.logger.level × IsRate cfg.device_rate_limit
unfolding load
load_valid open_file decode parse_env path cfg h =
    (validate-eq-nil_iff cfg).0 (elim (Bool-cases (path == "")) [
      | inl e ↦ finish_valid (parse_env default_config) cfg (rw e at h)
      | inr e ↦ elim (Option-cases (open_file path)) [
        | inl f ↦
            decoded_valid open_file decode parse_env path (decode path default_config) cfg
              (rw (e, f) at h)
        | inr (x, f) ↦ cc (rw (e, f) at h)
      ]
    ])
