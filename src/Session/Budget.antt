-- ===== src/Session/Budget.antt =====
-- session.go (consumeStep): how many steps a budget grants.
use toolsy.Prelude.{ℕ, zero, suc, ◌^◌, ◌<◌, min, ◌≡◌, Option, none, some, arith, if◌then◌else◌, ltb}
use toolsy.Errors.{GoError}
use toolsy.Session.{SessionTrack, consume_step}

-- The steps that are granted of `n` in a row, and the track after them.
abbrev counted : SessionTrack × ℕ → Option GoError → SessionTrack × ℕ
counted (t, granted) none = (t, suc granted)
counted (t, granted) (some e) = (t, granted)

abbrev pub consume_steps : ℕ → SessionTrack → SessionTrack × ℕ
consume_steps zero t = (t, 0)
consume_steps (suc n) t =
    let (u, granted) = consume_steps n t in let (v, e) = consume_step u in counted (v, granted) e

module _ (max_steps : ℕ) (bounded : max_steps < 2 ^ 63) where
  -- A new track with a budget below 2 ^ 63 grants the first `max_steps` of the steps that are asked
  -- for and no other, and every step when the budget is 0; each of them is counted. The steps are
  -- fewer than 2 ^ 63, where the counter would turn negative.
  pub consume_steps-granted :
      (n : ℕ)
      → n < 2 ^ 63
      → let (t, granted) = consume_steps n (record { count = 0; max_steps = max_steps }) in
        (t.count ≡ n)
        × (t.max_steps ≡ max_steps)
        × (granted ≡ (if ltb 0 max_steps then min n max_steps else n))
  unfolding consume_step
  consume_steps-granted zero h = ground arith
  consume_steps-granted (suc n) h =
      let (c, m, g) = consume_steps-granted n (omega (arith, h)) in ground (arith, c, m, g)
