-- ===== src/Clock/Tests.antt =====
-- A calendar of whole seconds, in which a day has no name, and times in it.
use mathlib.Core.Int.{ℤ, pos, ◌+ℤ◌, ◌-ℤ◌, +ℤ_assoc, +ℤ_comm, -ℤ-+ℤ_cancel}
use jonson.Prelude.{[], ◌∷◌, ◌≡◌, refl, sym, ap, ◌∙◌}
use jonson.Clock.{
  Calendar, new_time, new_frozen_time, frozen_now, frozen_add, frozen_sleep, new_reference_time,
  reference_now, reference_sleep,
}
use jonson.Clock.Reference.{IsCalendar}

abbrev seconds : Calendar
seconds = record {
  Instant = ℤ;
  Duration = ℤ;
  add = λ t d. t +ℤ d;
  add_date = λ t years months days. t;
  at_clock = λ t hour min sec. t;
  since = λ t u. t -ℤ u;
  utc = λ t. t;
  slept = λ t d. t +ℤ d;
}

seconds-IsCalendar : IsCalendar seconds
seconds-IsCalendar = record {
  add_swap = λ t d e. +ℤ_assoc t d e ∙ ap (λ x. t +ℤ x) (+ℤ_comm d e) ∙ sym (+ℤ_assoc t e d);
  add_since = λ t u. +ℤ_comm t (u -ℤ t) ∙ -ℤ-+ℤ_cancel u t;
}

-- A frozen time stands still, also where it is provided beside the real one.
frozen_provided :
    (let frozen = frozen_add seconds (pos 5) (new_frozen_time seconds (pos 0) (pos 10 ∷ [])) in
      new_time seconds (frozen_now seconds frozen ∷ []) (pos 99))
    ≡ pos 15
unfolding new_time new_frozen_time frozen_add
frozen_provided = refl

-- Sleeping takes time, but does not move a frozen time, unless it is told to.
frozen_slept :
    (let frozen = new_frozen_time seconds (pos 0) (pos 10 ∷ []) in
      frozen_now seconds frozen (frozen_sleep seconds frozen (pos 99) (pos 7)))
    ≡ pos 10
unfolding new_frozen_time
frozen_slept = refl

reference_slept :
    (let m = new_reference_time seconds (pos 50) (pos 10 ∷ []) in
      reference_now seconds m (reference_sleep seconds m (pos 99) (pos 7)))
    ≡ pos 66
unfolding new_reference_time reference_now
reference_slept = refl
