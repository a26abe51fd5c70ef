-- ===== src/Stress/Flags.antt =====
-- cmd/stress/main.go: the flags of the stress test. `url.ParseRequestURI` is a parameter: `is_uri` says
-- whether it returns no error.
use iot_metrics.Base.{
  ◌≡◌, refl, ◌≢◌, ◌↔◌, String, Bool, true, Bool-cases, inl, inr, List, [], ◌∷◌, ◌++◌, ℤ, pos, ltb_ℤ,
  leb_ℤ, ◌≤ℤ◌, ◌<ℤ◌, arith, eq_iff, if◌then◌else◌,
}
use text.Mathlib.Text.{◌==◌}

-- `flags`
pub record Flags : Type 0 where
  pub service_url : String
  pub num_devices : ℤ
  pub interval_ms : ℤ

abbrev pub flags_of : String → ℤ → ℤ → Flags
flags_of url devices interval = record {
  service_url = url;
  num_devices = devices;
  interval_ms = interval;
}

-- How `parseFlags` ends: with the flags, or with the end of the program after the messages.
pub data Parsed : Type 0 where
  parsed : Flags → Parsed
  exited : List String → Parsed

module _ (is_uri : String → Bool) where
  check_url : String → List String
  check_url url =
      if url == ""
      then "url: cannot be empty" ∷ []
      else if is_uri url
      then []
      else "url: invalid format" ∷ []

  check_devices : ℤ → List String
  check_devices n = if leb_ℤ n (pos 0) then "devices: must be greater than zero" ∷ [] else []

  check_interval : ℤ → List String
  check_interval n = if ltb_ℤ n (pos 0) then "interval: must be non negative" ∷ [] else []

  abbrev ending : Flags → List String → Parsed
  ending f [] = parsed f
  ending f (e ∷ es) = exited (e ∷ es)

  -- `parseFlags`, for the values of the flags `url`, `devices` and `interval`
  unfoldable pub parse_flags : String → ℤ → ℤ → Parsed
  unfolding check_url check_devices check_interval
  parse_flags url devices interval =
      ending (flags_of url devices interval)
        (check_url url ++ (check_devices devices ++ check_interval interval))

  append_nil : (a b : List String) → (a ++ b ≡ []) ↔ ((a ≡ []) × (b ≡ []))
  append_nil [] b = (λ h. (refl, h), λ h. h.1)
  append_nil (x ∷ a) b = (λ h. cc, λ h. cc h.0)

  ending_parsed :
      (f g : Flags) (errs : List String) → (ending f errs ≡ parsed g) ↔ ((errs ≡ []) × (f ≡ g))
  ending_parsed f g [] = (λ h. (refl, cc), λ h. cc h.1)
  ending_parsed f g (e ∷ es) = (λ h. cc, λ h. cc h.0)

  url_ok : (url : String) → (check_url url ≡ []) ↔ ((url ≢ "") × (is_uri url ≡ true))
  unfolding check_url
  url_ok url = elim (Bool-cases (url == "")) [
    | inl e ↦ rw e (λ h. cc, λ h. absurd (h.0 ((eq_iff url "").0 e)))
    | inr e ↦ elim (Bool-cases (is_uri url)) [
      | inl u ↦ rw (e, u) (λ h. (λ g. cc (e, (eq_iff url "").1 g), refl), λ h. refl)
      | inr u ↦ rw (e, u) (λ h. cc, λ h. cc h.1)
    ]
  ]

  devices_ok : (n : ℤ) → (check_devices n ≡ []) ↔ (pos 0 <ℤ n)
  unfolding check_devices
  devices_ok n = ground arith

  interval_ok : (n : ℤ) → (check_interval n ≡ []) ↔ (pos 0 ≤ℤ n)
  unfolding check_interval
  interval_ok n = ground arith

  -- `parseFlags` gives flags, and then those that were set, exactly if the URL is not empty and parses,
  -- there is a device at least, and the interval is not negative.
  pub parse_flags-eq-parsed_iff :
      (url : String) (devices interval : ℤ) (f : Flags)
      → (parse_flags url devices interval ≡ parsed f) ↔ (
          ((url ≢ "") × (is_uri url ≡ true))
          × (pos 0 <ℤ devices)
          × (pos 0 ≤ℤ interval)
          × (flags_of url devices interval ≡ f))
  unfolding parse_flags
  parse_flags-eq-parsed_iff url devices interval f =
      let ends =
        ending_parsed (flags_of url devices interval) f
          (check_url url ++ (check_devices devices ++ check_interval interval)) in
      let first = append_nil (check_url url) (check_devices devices ++ check_interval interval) in
      let second = append_nil (check_devices devices) (check_interval interval) in
      (
        λ h.
            let (errs, same) = ends.0 h in
            let (u, rest) = first.0 errs in
            let (d, i) = second.0 rest in
            ((url_ok url).0 u, (devices_ok devices).0 d, (interval_ok interval).0 i, same),
        λ (u, d, i, same). ends.1 (
          first.1
              ((url_ok url).1 u, second.1 ((devices_ok devices).1 d, (interval_ok interval).1 i)),
          same,
        ),
      )
