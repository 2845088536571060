-- ===== src/Feed/Paging.antt =====
-- Pulls one after another: the pages of a feed.
use dukan_pro.Prelude.{
  take, last, ℕ, zero, suc, ◌≤◌, ◌≡◌, refl, ap, sym, ◌∙◌, inl, inr, String, Bool, true, false, not,
  Option, none, some, List, [], ◌∷◌, ◌++◌, arith, Bool-cases, Option-cases, length, length-append,
  is_some, ◌&&◌,
}
use dukan_pro.Prelude.Int.{ℤ, pos, pos_part, ltb_ℤ, max_ℤ, min_ℤ, ◌<ℤ◌}
use dukan_pro.Prelude.Text.{opt_eq, eq_refl}
use dukan_pro.Domain.Identity.{User}
use dukan_pro.Sync.Pull.{for_actor, is_empty, clamp_pull_limit, pull_limit_max}
use dukan_pro.Feed.{
  Change, after, change_at, changes_of, page, watermark_of, token_of, at_watermark, is_gone,
  pull_rows, pull, pulls,
}
use dukan_pro.Feed.Order.{
  Ascending, All-after, All-last_take, after-Ascending, after-after, page-rest, change_at-found,
  All-since,
}
use dukan_pro.Feed.Shown.{changes_of-total, changes_of-append}

not_below : (k : ℕ) → ¬ (suc k ≤ 0)
not_below k h = omega (arith, h)

suc_of : (k : ℕ) → 1 ≤ k → (n : ℕ) × (k ≡ suc n)
suc_of zero h = elim (not_below 0 h) [ ]
suc_of (suc n) h = (n, refl)

max-one_le : (a : ℤ) → 1 ≤ pos_part (max_ℤ (pos 1) a)
max-one_le a = ground arith

max-zero : (a : ℤ) → pos 0 <ℤ a → max_ℤ a (pos 0) ≡ a
max-zero a h = ground arith

clamped : (limit : ℤ) → (n : ℕ) × (pos_part (clamp_pull_limit limit) ≡ suc n)
unfolding clamp_pull_limit
clamped limit = suc_of _ (max-one_le (min_ℤ limit pull_limit_max))

-- Without a last row a page is empty, and so is what it is a page of.
page-none : (n : ℕ) (rows : List Change) → last (take (suc n) rows) ≡ none → rows ≡ []
page-none n [] e = refl
page-none zero (x ∷ rows) e = cc
page-none (suc n) (x ∷ []) e = cc
page-none (suc n) (x ∷ y ∷ rows) e = let f = page-none n (y ∷ rows) e in cc

-- The changes behind a cursor.
abbrev pub from : List Change → ℤ → List Change
from feed since = after (max_ℤ since (pos 0)) feed

from-own : (feed : List Change) (r : Change) → pos 0 <ℤ r.seq → from feed r.seq ≡ after r.seq feed
from-own feed r h = ap (λ s. after s feed) (max-zero r.seq h)

above-start : (since seq : ℤ) → max_ℤ since (pos 0) <ℤ seq → pos 0 <ℤ seq
above-start since seq h = ground arith

-- A page and what comes behind it are what comes behind the cursor, and its last row is found.
page-from :
    (feed : List Change) (since limit : ℤ) (r : Change)
    → Ascending feed
    → last (page feed since limit) ≡ some r
    → (page feed since limit ++ from feed r.seq ≡ from feed since) × (change_at r.seq feed ≡ some r)
unfolding page
page-from feed since limit r w e =
    let start = max_ℤ since (pos 0) in
    let n = pos_part (clamp_pull_limit limit) in
    let above = All-last_take (λ s. start <ℤ s.seq) n (from feed since) (All-since start feed) e in
    (
      ap (λ l. page feed since limit ++ l)
            (from-own feed r (above-start since r.seq above)
              ∙ sym (after-after start r.seq feed above))
          ∙ page-rest n (from feed since) r (after-Ascending start feed w) e,
      All-last_take (λ s. change_at s.seq feed ≡ some s) n (from feed since)
          (All-after (λ s. change_at s.seq feed ≡ some s) start feed (change_at-found feed w)) e,
    )

page-end :
    (feed : List Change) (since limit : ℤ)
    → last (page feed since limit) ≡ none
    → (from feed since ≡ []) × (page feed since limit ≡ [])
unfolding page
page-end feed since limit e =
    let (n, c) = clamped limit in
    let none_left =
      page-none n (from feed since) (ap (λ k. last (take k (from feed since))) (sym c) ∙ e) in
    (
      none_left,
      ap (λ l. take (pos_part (clamp_pull_limit limit)) l) none_left ∙ ap (λ k. take k []) c,
    )

opt_eq_refl : (o : Option String) → opt_eq o o ≡ true
opt_eq_refl none = refl
opt_eq_refl (some s) = eq_refl s

empty_of : (rows : List Change) → length rows ≤ 0 → rows ≡ []
empty_of [] h = refl
empty_of (r ∷ rows) h = elim (not_below (length rows) h) [ ]

length-last : (rows : List Change) {r : Change} → last rows ≡ some r → 1 ≤ length rows
length-last [] e = cc
length-last (x ∷ rows) e = omega arith

own_token : (o : Option String) → (is_some o && not (opt_eq o o)) ≡ false
own_token none = refl
own_token (some s) = rw (eq_refl s) refl

and_true-false : (b : Bool) → (b && true && false) ≡ false
and_true-false true = refl
and_true-false false = refl

module _ (change_token : Change → String) (scope_fingerprint : User → String) where
  -- The token of the change at the cursor is good as long as the feed holds the change.
  kept-same :
      (feed : List Change) (since : ℤ)
      → is_gone change_token scope_fingerprint feed since
          (token_of change_token scope_fingerprint (at_watermark none feed since))
        ≡ false
  unfolding is_gone
  kept-same feed since = elim (Bool-cases (ltb_ℤ (pos 0) since)) [
    | inl h ↦ rw h (own_token (token_of change_token scope_fingerprint (change_at since feed)))
    | inr h ↦ rw h refl
  ]

  kept-found :
      (feed : List Change) (r : Change)
      → change_at r.seq feed ≡ some r
      → is_gone change_token scope_fingerprint feed r.seq (some (change_token r)) ≡ false
  unfolding is_gone
  kept-found feed r h = rw (h, eq_refl (change_token r)) (and_true-false (ltb_ℤ (pos 0) r.seq))

  pull-rows :
      (feed : List Change) (actor : User) (since limit : ℤ) (token : Option String)
      → is_empty (for_actor actor) ≡ false
      → is_gone change_token scope_fingerprint feed since token ≡ false
      → pull change_token scope_fingerprint feed actor since limit token
        ≡ pull_rows change_token scope_fingerprint feed actor since limit
  unfolding pull
  pull-rows feed actor since limit token h g = rw (h, g) refl

  -- The first of several pulls shows a page, and the others go on from its last row.
  pulls-page :
      (n : ℕ) (feed : List Change) (actor : User) (since limit : ℤ) (token : Option String)
      (o : Option Change)
      → is_empty (for_actor actor) ≡ false
      → is_gone change_token scope_fingerprint feed since token ≡ false
      → last (page feed since limit) ≡ o
      → page feed since limit ++ from feed (watermark_of o since) ≡ from feed since
      → pulls change_token scope_fingerprint n feed actor
          (watermark_of o since)
          limit
          (token_of change_token scope_fingerprint (at_watermark o feed since))
        ≡ changes_of (for_actor actor) (from feed (watermark_of o since))
      → pulls change_token scope_fingerprint (suc n) feed actor since limit token
        ≡ changes_of (for_actor actor) (from feed since)
  unfolding pulls pull_rows
  pulls-page n feed actor since limit token o h g e whole later =
      let scope = for_actor actor in
      let (items, i) = changes_of-total scope (page feed since limit) in
      rw
        (
          pull-rows feed actor since limit token h g,
          i,
          e,
          later,
          ← whole,
          changes_of-append scope (page feed since limit) (from feed (watermark_of o since)),
          i,
        )
        refl

  -- From a cursor whose change the feed still holds, enough pulls, each from where the last one
  -- ended and with its token, give every change behind the cursor that the user may see, once and
  -- in order; none of them starts over. The feed is in the order of seq, which counts from 1, the
  -- user reads something, and as many pulls as there are changes behind the cursor are enough
  -- whatever limit is asked for.
  pub pulls_complete :
      (n : ℕ) (feed : List Change) (actor : User) (since limit : ℤ) (token : Option String)
      → Ascending feed
      → is_empty (for_actor actor) ≡ false
      → is_gone change_token scope_fingerprint feed since token ≡ false
      → length (from feed since) ≤ n
      → pulls change_token scope_fingerprint n feed actor since limit token
        ≡ changes_of (for_actor actor) (from feed since)
  unfolding pulls changes_of
  pulls_complete zero feed actor since limit token w h g le =
      rw (empty_of (from feed since) le) refl
  pulls_complete (suc n) feed actor since limit token w h g le =
      elim (Option-cases (last (page feed since limit))) [
        | inl e ↦
            let (left, got) = page-end feed since limit e in
            pulls-page n feed actor since limit token none h g e
              (ap (λ l. l ++ from feed since) got)
              (pulls_complete n feed actor since limit
                (token_of change_token scope_fingerprint (at_watermark none feed since)) w h
                (kept-same feed since) (omega (arith, ap length left)))
        | inr (r, e) ↦
            let (rest, found) = page-from feed since limit r w e in
            pulls-page n feed actor since limit token (some r) h g e rest (
              pulls_complete n feed actor r.seq limit (some (change_token r)) w h
                (kept-found feed r found)
                (omega (
                  arith,
                  le,
                  ap length rest,
                  length-append (page feed since limit) (from feed r.seq),
                  length-last (page feed since limit) e,
                )))
      ]
