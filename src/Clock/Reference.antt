-- ===== src/Clock/Reference.antt =====
-- What a reference time shows (`ReferenceTime` of jonsontest/time.go).
use jonson.Prelude.{List, [], ◌∷◌, ◌≡◌, refl, ap, ◌∙◌}
use jonson.Clock.{
  Calendar, ReferenceTime, new_reference_time, reference_add, reference_add_each, reference_now,
}

-- What the package time documents of `Add` and `Since`.
pub record IsCalendar (c : Calendar) : Type 0 where
  pub add_swap : (t : c.Instant) (d e : c.Duration) → c.add (c.add t d) e ≡ c.add (c.add t e) d
  pub add_since : (t u : c.Instant) → c.add t (c.since u t) ≡ u

abbrev pub add_each : (c : Calendar) → List c.Duration → c.Instant → c.Instant
add_each c [] t = t
add_each c (d ∷ ds) t = add_each c ds (c.add t d)

module _ (c : Calendar) (h : IsCalendar c) where
  moved :
      (ds : List c.Duration) (m : ReferenceTime c) (clock : c.Instant)
      → reference_now c (reference_add_each c ds m) clock ≡ add_each c ds (reference_now c m clock)
  unfolding reference_now reference_add_each
  moved [] m clock = refl
  moved (d ∷ ds) m clock =
      moved ds (reference_add c d m) clock
      ∙ ap (add_each c ds) (h.add_swap m.now d (c.since clock m.ref))

  -- A reference time that is bound to an instant and moved by some durations shows the time of the
  -- clock moved by them, whatever the clock shows.
  pub reference_now-moved :
      (ref : c.Instant) (ds : List c.Duration) (clock : c.Instant)
      → reference_now c (reference_add_each c ds (new_reference_time c ref [])) clock
        ≡ add_each c ds clock
  unfolding reference_now new_reference_time
  reference_now-moved ref ds clock =
      moved ds (new_reference_time c ref []) clock ∙ ap (add_each c ds) (h.add_since ref clock)
