-- ===== src/Go/Mux.antt =====
-- `http.ServeMux`, for patterns that are paths: a pattern that ends in a slash is one for all paths that
-- begin with it, and the longest pattern that matches serves. Paths are clean; redirects are left out.
use Prim.Native.String.{len}
use iot_metrics.Base.{
  ◌≡◌, inl, inr, String, Bool, true, false, Bool-cases, List, [], ◌∷◌, Option, none, some, ◌&&◌,
  ◌||◌, ltb, if◌then◌else◌,
}
use iot_metrics.Go.Strings.{ends_in}
use text.Mathlib.Text.{◌==◌, starts_with}

abbrev pub Mux : Type 0 → Type 0
Mux H = List (String × H)

-- A pattern matches a path.
unfoldable pub matches : String → String → Bool
matches pattern path = pattern == path || (ends_in "/" pattern && starts_with path pattern)

-- The longer pattern of two; the second may be missing.
abbrev pub longer : {H : Type 0} → String × H → Option (String × H) → Option (String × H)
longer entry none = some entry
longer entry (some other) = if ltb (len other.0) (len entry.0) then some entry else some other

-- The pattern that serves a path, with its handler.
unfoldable pub route : {H : Type 0} → String → Mux H → Option (String × H)
unfolding matches ends_in
route path [] = none
route path (entry ∷ rest) =
    let best = route path rest in if matches entry.0 path then longer entry best else best

-- A pattern is registered.
unfoldable pub has_pattern : {H : Type 0} → String → Mux H → Bool
has_pattern pattern [] = false
has_pattern pattern (entry ∷ rest) = entry.0 == pattern || has_pattern pattern rest

module _ {H : Type 0} (path : String) where
  longer-matches :
      (first : String × H) (best : Option (String × H)) (entry : String × H)
      → matches first.0 path ≡ true
      → ((other : String × H) → best ≡ some other → matches other.0 path ≡ true)
      → longer first best ≡ some entry
      → matches entry.0 path ≡ true
  longer-matches first none entry m k h = cc
  longer-matches first (some other) entry m k h =
      elim (Bool-cases (ltb (len other.0) (len first.0))) [
        | inl e ↦ cc (m, rw e at h)
        | inr e ↦ k entry (rw e at h)
      ]

  -- What serves a path matches it.
  pub route-matches :
      (mux : Mux H) (entry : String × H) → route path mux ≡ some entry → matches entry.0 path ≡ true
  unfolding route
  route-matches [] entry h = cc
  route-matches (first ∷ rest) entry h = elim (Bool-cases (matches first.0 path)) [
    | inr e ↦ route-matches rest entry (rw e at h)
    | inl e ↦
        longer-matches first (route path rest) entry e (λ other. route-matches rest other)
          (rw e at h)
  ]
