-- ===== src/Sqlite/Repository/Following.antt =====
-- A client that follows page tokens through any getter that cuts pages out of a list of rows.
use iot_metrics.Base.{
  ℕ, zero, suc, ◌<◌, ◌≡◌, sym, ap, subst, inr, In, In-append_right, ◌∙◌, List, [], ◌∷◌, ◌++◌, map,
  Option, none, some, pos, arith, length, length-append, take,
}
use iot_metrics.Device.Types.{RepositoryPageToken, RepositoryPage}
use iot_metrics.Go.Errors.{other}
use iot_metrics.Go.Outcome.{Outcome, ok, err, Call, return, next}
use iot_metrics.Sqlite.Repository.{token_of, split_peeked, paged}
use iot_metrics.Sqlite.Repository.Paging.{IsCut, last_page, more_pages, split_peeked-IsCut}
use iot_metrics.Sqlite.Tables.{Row}
use mathlib.Core.List.{append_assoc, map-append}

module _ {S A : Type 0} (get : Option RepositoryPageToken → Call S (RepositoryPage A)) where
  -- At most `fuel` pages, joined.
  unfoldable pub walk : ℕ → Option RepositoryPageToken → Call S (List A)
  walk zero token s = (err (other "out of fuel"), s)
  walk (suc fuel) token s = next (get token s) λ page. elim page.next_page_token [
    | none ↦ return page.items
    | some t ↦ λ s'. next (walk fuel (some t) s') λ rest. return (page.items ++ rest)
  ]

-- Which rows of a list are left at a token.
pub data IsLeft {V : Type 0} (l : List (Row V))
    : Option RepositoryPageToken → List (Row V) → Type 0 where
  at_start : IsLeft l none l
  after_row :
      (front : List (Row V)) (r : Row V) (rest : List (Row V))
      → l ≡ front ++ r ∷ rest
      → IsLeft l (some (token_of r)) rest

pub IsLeft-more :
    {V : Type 0} {l left : List (Row V)} {token : Option RepositoryPageToken} (front : List (Row V))
    (r : Row V) (rest : List (Row V))
    → IsLeft l token left
    → left ≡ front ++ r ∷ rest
    → IsLeft l (some (token_of r)) rest
IsLeft-more front r rest at_start e = after_row front r rest e
IsLeft-more front r rest (after_row front' r' left whole) e =
    after_row (front' ++ r' ∷ front) r rest
      (whole ∙ ap (λ l. front' ++ r' ∷ l) e ∙ sym (append_assoc front' (r' ∷ front) (r ∷ rest)))

-- What is left of a list is in the list.
pub IsLeft-In :
    {V : Type 0} {l left : List (Row V)} {token : Option RepositoryPageToken} (a : Row V)
    → IsLeft l token left
    → In a left
    → In a l
IsLeft-In a at_start h = h
IsLeft-In a (after_row front r left whole) h =
    subst (In a) (sym whole) (In-append_right a front (r ∷ left) (inr h))

-- A getter that cuts pages out of the list `l` and leaves its state alone.
abbrev pub Cuts :
    {S V A : Type 0}
    → (Row V → A)
    → ℕ
    → List (Row V)
    → (Option RepositoryPageToken → Call S (RepositoryPage A))
    → S
    → Type 0
Cuts {V} f n l get s =
    (token : Option RepositoryPageToken) (left : List (Row V))
    → IsLeft l token left
    → get token s ≡ (paged f (split_peeked (take (suc n) left) (pos (suc n))), s)

module _ {S V A : Type 0} (f : Row V → A) (n : ℕ) (n_pos : 0 < n) (l : List (Row V))
    (get : Option RepositoryPageToken → Call S (RepositoryPage A)) (s : S)
    (cuts : Cuts f n l get s) where
  unfoldable pub Walks : ℕ → Type 0
  Walks fuel =
      (token : Option RepositoryPageToken) (left : List (Row V))
      → IsLeft l token left
      → length left < fuel
      → walk get fuel token s ≡ (ok (map f left), s)

  walk_page :
      (fuel : ℕ) (token : Option RepositoryPageToken) (left : List (Row V))
      (o : Outcome (List (Row V) × Option RepositoryPageToken))
      → Walks fuel
      → IsLeft l token left
      → length left < suc fuel
      → get token s ≡ (paged f o, s)
      → IsCut n left o
      → walk get (suc fuel) token s ≡ (ok (map f left), s)
  unfolding walk Walks
  walk_page fuel token left _ ih at short e (last_page fits) = rw e
  walk_page fuel token left _ ih at short e (more_pages front r rest whole len) =
      rw (e, ih (some (token_of r)) rest (IsLeft-more front r rest at whole) shorter)
        (ap (λ items. (ok items, s))
          (sym (map-append f (front ++ r ∷ []) rest)
            ∙ ap (map f) (append_assoc front (r ∷ []) rest ∙ sym whole)))
    where
      shorter : length rest < fuel
      shorter = omega (arith, length-append {0} front (r ∷ rest), ap length whole)

  pub walk_rest : (fuel : ℕ) → Walks fuel
  unfolding Walks
  walk_rest zero token left at short = elim short [ ]
  walk_rest (suc fuel) token left at short =
      walk_page fuel token left _ (walk_rest fuel) at short (cuts token left at)
        (split_peeked-IsCut n left n_pos)
