-- ===== src/Domain/Window.antt =====
-- `TimeWindow` of backend/app/domain/models.py: a half-open interval of instants (microseconds).
use Prim.Native.Char.{code}
use Prim.Native.String.{String}
use athena_order_priority.Prelude.{
  ℕ, Bool, ◌&&◌, List, [], ◌∷◌, Option, none, some, min, max, ltb, leb, if◌then◌else◌,
}

abbrev pub Instant : Type 0
Instant = ℕ

-- The code points of a text.
abbrev pub Text : Type 0
Text = List ℕ

-- A literal of the source as its code points.
abbrev pub codes : String → Text
codes String.[] = []
codes (String.◌∷◌ c s) = code c ∷ codes s

pub record TimeWindow : Type 0 where
  pub start : Instant
  pub end : Instant
  pub reason : Text

-- The constructor with its `__post_init__`; `none` is the ValueError.
unfoldable pub time_window : Instant → Instant → Text → Option TimeWindow
time_window start end reason =
    if ltb end start then none else some (record { start = start; end = end; reason = reason })

unfoldable pub overlaps : TimeWindow → TimeWindow → Bool
overlaps v w = ltb v.start w.end && ltb w.start v.end

unfoldable pub contains : TimeWindow → Instant → Bool
contains w t = leb w.start t && ltb t w.end

-- `self.reason or other.reason`
abbrev pub or_text : Text → Text → Text
or_text [] b = b
or_text (c ∷ cs) b = c ∷ cs

unfoldable pub intersect : TimeWindow → TimeWindow → Option TimeWindow
unfolding time_window
intersect v w =
    let start = max v.start w.start in
    let end = min v.end w.end in
    if leb end start then none else time_window start end (or_text v.reason w.reason)
