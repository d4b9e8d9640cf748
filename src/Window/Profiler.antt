-- ===== src/Window/Profiler.antt =====
-- modules/utils/include/dls2/util/profiler.hpp: the times of named pieces of code, each with its moving
-- window. The conversion of a duration to milliseconds is an argument, and gives whole ones here; an
-- exception is `none`.
use dls.Common.{
  ℕ, ◌-◌, ◌≡◌, ◌≢◌, refl, Option, none, some, List, Text, text_eq, nat_eq, false, if◌then◌else◌,
  ◌==◌, Bool-cases, inl, inr,
}
use dls.Common.Map.{find, assign, erase, find-assign, find-assign_self, find-erase, find-erase_self}
use dls.Window.{NumericalMovingWindow, new_window, push, pos, mean, max_value, min_value}

-- g_starts, g_windows and g_last_values
pub record Profiler : Type 0 where
  pub starts : List (Text × ℕ)
  pub windows : List (Text × NumericalMovingWindow)
  pub last_values : List (Text × ℕ)

pub record DurationStats : Type 0 where
  pub last_ms : ℕ
  pub mean_ms : ℕ × ℕ
  pub min_ms : ℕ
  pub max_ms : ℕ
  pub count : ℕ

unfoldable pub no_stats : DurationStats
no_stats = record { last_ms = 0; mean_ms = (0, 1); min_ms = 0; max_ms = 0; count = 0 }

-- tic(id)
unfoldable pub tic : ℕ → Text → Profiler → Profiler
unfolding assign
tic now id p = record p { starts = assign id now p.starts }

-- the window of id, made with DEFAULT_WINDOW_SIZE where there is none
unfoldable pub window_of : Text → Profiler → NumericalMovingWindow
unfolding find new_window
window_of id p = elim (find id p.windows) [ none ↦ new_window 100 | some w ↦ w ]

-- toc(id)
unfoldable pub toc : (ℕ → ℕ) → ℕ → Text → Profiler → Option Profiler
unfolding find erase assign push window_of
toc to_ms now id p = elim (find id p.starts) [
  | none ↦ none
  | some start ↦
      let ms = to_ms (now - start) in
      some (record {
        starts = erase id p.starts;
        windows = assign id (push (pos ms) (window_of id p)) p.windows;
        last_values = assign id ms p.last_values;
      })
]

-- what getStats makes of the window and of the last value that it finds
unfoldable pub stats_of : Option NumericalMovingWindow → Option ℕ → DurationStats
unfolding mean max_value min_value no_stats
stats_of none last = no_stats
stats_of (some w) last = if w.size_ == 0 then no_stats else record {
  last_ms = elim last [ none ↦ 0 | some ms ↦ ms ];
  mean_ms = mean w;
  min_ms = min_value w;
  max_ms = max_value w;
  count = w.size_;
}

-- getStats(id)
unfoldable pub get_stats : Text → Profiler → DurationStats
unfolding find stats_of
get_stats id p = stats_of (find id p.windows) (find id p.last_values)

differ : (id other : Text) → id ≢ other → (id == other) ≡ false
differ id other apart = elim (Bool-cases (id == other)) [
  | inl same ↦ absurd (apart ((text_eq.same_iff id other).0 same))
  | inr different ↦ different
]

-- A toc after a tic of the same name is defined: the window of that name has the time between the two pushed,
-- which is also the last value, the name's start is forgotten, so that another toc throws, and
-- every other name has the statistics and the start that it had.
pub toc-tic :
    (to_ms : ℕ → ℕ) (start now later : ℕ) (id : Text) (p : Profiler)
    → (p' : Profiler) × (toc to_ms now id (tic start id p) ≡ some p')
      × (find id p'.windows ≡ some (push (pos (to_ms (now - start))) (window_of id p)))
      × (find id p'.last_values ≡ some (to_ms (now - start)))
      × (toc to_ms later id p' ≡ none)
      × ((other : Text)
          → id ≢ other
          → (get_stats other p' ≡ get_stats other p) × (find other p'.starts ≡ find other p.starts))
toc-tic to_ms start now later id p =
    let ms = to_ms (now - start) in
    let w = push (pos ms) (window_of id p) in
    let p' : Profiler = record {
      starts = erase id (assign id start p.starts);
      windows = assign id w p.windows;
      last_values = assign id ms p.last_values;
    } in
    let begun : find id (tic start id p).starts ≡ some start =
      unfold tic in find-assign_self id start p.starts in
    (
      p',
      unfold toc tic in rw (toc, tic, find-assign_self id start p.starts) refl,
      find-assign_self id w p.windows,
      find-assign_self id ms p.last_values,
      unfold toc in rw (toc, find-erase_self id (assign id start p.starts)) refl,
      λ other apart.
          let apart' = differ id other apart in
          let kept_window : find other p'.windows ≡ find other p.windows =
            rw (find-assign id other w p.windows, apart') refl in
          let kept_last : find other p'.last_values ≡ find other p.last_values =
            rw (find-assign id other ms p.last_values, apart') refl in
          (
            unfold get_stats in λ i. stats_of (kept_window i) (kept_last i),
            rw
                (
                  find-erase id other (assign id start p.starts),
                  find-assign id other start p.starts,
                  apart',
                )
                refl,
          ),
    )
