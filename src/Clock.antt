-- ===== src/Clock.antt =====
-- time.go and jonsontest/time.go: the provider of the time, and the times of tests. What the package
-- time makes of instants and durations is `Calendar`; a clock is read by giving what it shows.
pub mod Reference
mod Tests
use jonson.Prelude.{ℕ, List, [], ◌∷◌}

-- `Time.Add`, `Time.AddDate`, `time.Date` at the day of an instant, `Time.Sub`, and `Time.UTC`
pub record Calendar : Type 1 where
  pub Instant : Type 0
  pub Duration : Type 0
  pub add : Instant → Duration → Instant
  pub add_date : Instant → ℕ → ℕ → ℕ → Instant
  pub at_clock : Instant → ℕ → ℕ → ℕ → Instant
  pub since : Instant → Instant → Duration
  pub utc : Instant → Instant
  -- what the clock shows after `time.Sleep`
  pub slept : Instant → Duration → Instant

-- The last of some values, or the first one.
unfoldable pub last_or {ℓ} : {A : Type ℓ} → A → List A → A
last_or a [] = a
last_or a (b ∷ bs) = last_or b bs

module _ (c : Calendar) where
  -- `RealTime.Now`
  unfoldable pub real_now : c.Instant → c.Instant
  real_now clock = c.utc clock

  -- A function that sleeps takes the clock from one instant to another.
  abbrev pub Sleep : Type 0
  Sleep = c.Instant → c.Duration → c.Instant

  -- `RealTime.Sleep`
  unfoldable pub real_sleep : Sleep
  real_sleep = c.slept

  -- What a `Time` shows when the clock shows an instant.
  abbrev pub Time : Type 0
  Time = c.Instant → c.Instant

  -- `NewTimeProvider` and `NewTime`
  unfoldable pub new_time : List Time → Time
  unfolding last_or real_now
  new_time insts = last_or real_now insts

  -- `FrozenTime`
  pub record FrozenTime : Type 0 where
    pub instant : c.Instant
    pub sleep : Sleep

  unfoldable pub new_frozen_time : c.Instant → List c.Instant → FrozenTime
  unfolding last_or
  new_frozen_time clock now = record { instant = last_or clock now; sleep = c.slept }

  abbrev pub frozen_now : FrozenTime → Time
  frozen_now f clock = f.instant

  unfoldable pub frozen_add : c.Duration → FrozenTime → FrozenTime
  frozen_add d f = record f { instant = c.add f.instant d }

  unfoldable pub frozen_add_date : ℕ → ℕ → ℕ → FrozenTime → FrozenTime
  frozen_add_date years months days f = record f {
    instant = c.add_date f.instant years months days;
  }

  unfoldable pub frozen_set_time : ℕ → ℕ → ℕ → FrozenTime → FrozenTime
  frozen_set_time hour min sec f = record f { instant = c.at_clock f.instant hour min sec }

  -- `FrozenTime.Sleep`, `FrozenTime.WithSleep` and `FrozenTime.SetNow`
  abbrev pub frozen_sleep : FrozenTime → Sleep
  frozen_sleep f = f.sleep

  unfoldable pub frozen_with_sleep : Sleep → FrozenTime → FrozenTime
  frozen_with_sleep slp f = record f { sleep = slp }

  unfoldable pub frozen_set_now : c.Instant → FrozenTime → FrozenTime
  frozen_set_now t f = record f { instant = t }

  -- `ReferenceTime`
  pub record ReferenceTime : Type 0 where
    pub now : c.Instant
    pub ref : c.Instant
    pub sleep : Sleep

  unfoldable pub new_reference_time : c.Instant → List c.Instant → ReferenceTime
  unfolding last_or
  new_reference_time reference now = record {
    now = last_or reference now;
    ref = reference;
    sleep = c.slept;
  }

  unfoldable pub set_reference : c.Instant → ReferenceTime → ReferenceTime
  set_reference t m = record m { ref = t }

  unfoldable pub set_now : c.Instant → ReferenceTime → ReferenceTime
  set_now t m = record m { now = t }

  unfoldable pub reference_add : c.Duration → ReferenceTime → ReferenceTime
  reference_add d m = record m { now = c.add m.now d }

  unfoldable pub reference_add_date : ℕ → ℕ → ℕ → ReferenceTime → ReferenceTime
  reference_add_date years months days m = record m { now = c.add_date m.now years months days }

  -- `ReferenceTime.Now`
  unfoldable pub reference_now : ReferenceTime → Time
  reference_now m clock = c.add m.now (c.since clock m.ref)

  -- `ReferenceTime.Sleep` and `ReferenceTime.WithSleep`
  abbrev pub reference_sleep : ReferenceTime → Sleep
  reference_sleep m = m.sleep

  unfoldable pub reference_with_sleep : Sleep → ReferenceTime → ReferenceTime
  reference_with_sleep slp m = record m { sleep = slp }

  -- Several calls of `Add`.
  unfoldable pub reference_add_each : List c.Duration → ReferenceTime → ReferenceTime
  unfolding reference_add
  reference_add_each [] m = m
  reference_add_each (d ∷ ds) m = reference_add_each ds (reference_add d m)
