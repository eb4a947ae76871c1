-- ===== src/Message/Make/Search.antt =====
-- Which region the inner loop of qbus/message.h takes, for a queue whose next regions are known.
use qbus.Prelude.{ℕ, suc, ◌≤◌, ◌<◌, ◌≡◌, ◌∙◌, ap, Option, none, some, done, subst, sym}
use qbus.Message.Make.{Region, Regions, next_region, region_fuel}
use qbus.Message.Make.Steps.{next_region-empty, next_region-take, next_region-skip}

module _ (regions : Regions) (prev : Option Region) (r : Region) (at : regions prev ≡ r) where
  take_on : (fuel : ℕ) → 24 < r.size → next_region (suc fuel) regions prev ≡ done (some r)
  take_on fuel h =
      next_region-take regions prev fuel (subst (λ s. 24 < s.size) (sym at) h)
      ∙ ap (λ s. done (some s)) at

  empty_on : (fuel : ℕ) → r.size ≡ 0 → next_region (suc fuel) regions prev ≡ done none
  empty_on fuel h = next_region-empty regions prev fuel (ap (λ (s : Region). s.size) at ∙ h)

  skip_on :
      (fuel : ℕ)
      → 0 < r.size
      → r.size ≤ 24
      → next_region (suc fuel) regions prev ≡ next_region fuel regions (some r)
  skip_on fuel p h =
      next_region-skip regions prev fuel (subst (λ s. 0 < s.size) (sym at) p)
        (subst (λ s. s.size ≤ 24) (sym at) h)
      ∙ ap (λ s. next_region fuel regions (some s)) at

  pub found : 24 < r.size → next_region region_fuel regions prev ≡ done (some r)
  found h = take_on 3 h

  pub none_found : r.size ≡ 0 → next_region region_fuel regions prev ≡ done none
  none_found h = empty_on 3 h

-- The first region is too small for a header and a byte.
module _ (regions : Regions) (prev : Option Region) (r s : Region) (at : regions prev ≡ r)
    (low : 0 < r.size) (small : r.size ≤ 24) (next : regions (some r) ≡ s) where
  pub found_second : 24 < s.size → next_region region_fuel regions prev ≡ done (some s)
  found_second h = skip_on regions prev r at 3 low small ∙ take_on regions (some r) s next 2 h

  pub none_second : s.size ≡ 0 → next_region region_fuel regions prev ≡ done none
  none_second h = skip_on regions prev r at 3 low small ∙ empty_on regions (some r) s next 2 h

  -- The second one is too small as well, and the third one empty.
  pub none_third :
      (t : Region)
      → 0 < s.size
      → s.size ≤ 24
      → regions (some s) ≡ t
      → t.size ≡ 0
      → next_region region_fuel regions prev ≡ done none
  none_third t p h third e =
      skip_on regions prev r at 3 low small
      ∙ skip_on regions (some r) s next 2 p h
      ∙ empty_on regions (some s) t third 1 e
