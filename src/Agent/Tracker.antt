-- ===== src/Agent/Tracker.antt =====
-- The focus tracker, agent/collector/active_window.go. A time is in nanoseconds since Go's zero
-- time, which is 0, and a duration is the difference of two times, in nanoseconds where the source
-- has a float of seconds. A map is an association list, so its order is the order of insertion.
pub mod Measure
pub mod Credit
use device_pulse.Prelude.{
  ℕ, ◌+◌, ◌-◌, Text, codes, Bool, true, false, not, ◌&&◌, ◌||◌, List, [], ◌∷◌, ◌++◌, Option, none,
  some, ltb, leb, ◌==◌, if◌then◌else◌, list_beq, nat_eq, text_eq, Map, lookup, insert, map,
}

abbrev pub active_window_sample_stale_at : ℕ
active_window_sample_stale_at = 300000000000

abbrev pub max_sample_gap : ℕ
max_sample_gap = 30000000000

abbrev pub source_none : Text
source_none = codes "none"

abbrev pub source_proc_guess : Text
source_proc_guess = codes "proc-guess"

abbrev pub focus_quality : Text → Text
focus_quality source =
    if list_beq source [] || list_beq source source_none
    then codes "unavailable"
    else if list_beq source source_proc_guess
    then codes "estimated"
    else codes "accurate"

pub record FocusSession : Type 0 where
  pub app_name : Text
  pub start_time : ℕ
  pub end_time : ℕ
  pub duration : ℕ
  pub continuation : Bool

pub record AppFocusSummary : Type 0 where
  pub app_name : Text
  pub total_focus : ℕ
  pub session_count : ℕ

pub record ActiveWindowTracker : Type 0 where
  pub current_app : Text
  pub session_start : ℕ
  pub session_counted : Bool
  pub sessions : List FocusSession
  pub cumulative : Map Text AppFocusSummary
  pub last_sample_at : ℕ
  pub focus_source : Text
  pub focus_note : Text
  pub idle : Bool

-- A new tracker, when it is started at `now`.
abbrev pub start : ℕ → ActiveWindowTracker
start now = record {
  current_app = [];
  session_start = 0;
  session_counted = false;
  sessions = [];
  cumulative = [];
  last_sample_at = now;
  focus_source = [];
  focus_note = [];
  idle = false;
}

-- The open period up to `end`, as `endSession` and `Collect` append it.
abbrev pub open_period : ℕ → ActiveWindowTracker → FocusSession
open_period end a = record {
  app_name = a.current_app;
  start_time = a.session_start;
  end_time = end;
  duration = end - a.session_start;
  continuation = a.session_counted;
}

abbrev pub with_session : ℕ → ActiveWindowTracker → List FocusSession
with_session end a = a.sessions ++ open_period end a ∷ []

unfoldable pub end_session : ℕ → ActiveWindowTracker → ActiveWindowTracker
end_session end a = if list_beq a.current_app [] then a else record a {
  sessions = if ltb a.session_start end then with_session end a else a.sessions;
  current_app = [];
  session_start = 0;
  session_counted = false;
}

-- The first statement of `observe`.
unfoldable pub end_if_silent : ℕ → ActiveWindowTracker → ActiveWindowTracker
unfolding end_session
end_if_silent t a =
    if (not (list_beq a.current_app []) && not (a.last_sample_at == 0))
      && ltb (a.last_sample_at + max_sample_gap) t
    then end_session a.last_sample_at a
    else a

-- Its last, on the app that is empty when the user is away.
unfoldable pub switch_app : ℕ → Text → ActiveWindowTracker → ActiveWindowTracker
unfolding end_session
switch_app t app a =
    if list_beq app []
    then end_session t a
    else if list_beq app a.current_app
    then a
    else record (end_session t a) { current_app = app; session_start = t; session_counted = false }

unfoldable pub observe : ℕ → Text → Text → Bool → ActiveWindowTracker → ActiveWindowTracker
unfolding end_if_silent switch_app
observe t app source idle a =
    let seen = end_if_silent t a in
    switch_app t (if idle then [] else app) (record seen {
      last_sample_at = t;
      focus_source = if list_beq source [] then seen.focus_source else source;
      idle = idle;
    })

abbrev pub fresh_summary : Text → Option AppFocusSummary → AppFocusSummary
fresh_summary app none = record { app_name = app; total_focus = 0; session_count = 0 }
fresh_summary app (some c) = c

-- What the loop of `Collect` does to `cycleTotals` and to `cumulative`.
unfoldable pub add_session : FocusSession → Map Text AppFocusSummary → Map Text AppFocusSummary
add_session s m =
    let c = fresh_summary s.app_name (lookup s.app_name m) in
    insert s.app_name
      (record c {
        total_focus = c.total_focus + s.duration;
        session_count = if s.continuation then c.session_count else c.session_count + 1;
      })
      m

unfoldable pub add_sessions :
    List FocusSession → Map Text AppFocusSummary → Map Text AppFocusSummary
unfolding add_session
add_sessions [] m = m
add_sessions (s ∷ ss) m = add_sessions ss (add_session s m)

pub record Snapshot : Type 0 where
  pub collected_at : ℕ
  pub last_sample_at : ℕ
  pub tracker_fresh : Bool
  pub focus_source : Text
  pub focus_quality : Text
  pub focus_note : Text
  pub idle : Bool
  pub current_app : Text
  pub sessions : List FocusSession
  pub app_summaries : List AppFocusSummary
  pub cumulative_summaries : List AppFocusSummary

abbrev pub is_fresh : ℕ → ActiveWindowTracker → Bool
is_fresh now a =
    not (a.last_sample_at == 0) && leb now (a.last_sample_at + active_window_sample_stale_at)

unfoldable pub soft_close : Bool → ActiveWindowTracker → ActiveWindowTracker
soft_close fresh a =
    if (not (list_beq a.current_app []) && fresh) && ltb a.session_start a.last_sample_at
    then record a {
      sessions = with_session a.last_sample_at a;
      session_start = a.last_sample_at;
      session_counted = true;
    }
    else a

abbrev pub listed : Map Text AppFocusSummary → List AppFocusSummary
listed = map (λ e. e.1)

unfoldable pub collect : ℕ → ActiveWindowTracker → Snapshot × ActiveWindowTracker
unfolding soft_close add_sessions
collect now a =
    let fresh = is_fresh now a in
    let a' = soft_close fresh a in
    let cumulative = add_sessions a'.sessions a'.cumulative in
    (
      record {
        collected_at = now;
        last_sample_at = a'.last_sample_at;
        tracker_fresh = fresh;
        focus_source = a'.focus_source;
        focus_quality = focus_quality a'.focus_source;
        focus_note = a'.focus_note;
        idle = a'.idle;
        current_app = if fresh then a'.current_app else [];
        sessions = a'.sessions;
        app_summaries = listed (add_sessions a'.sessions []);
        cumulative_summaries = listed cumulative;
      },
      record a' { cumulative = cumulative; sessions = [] },
    )

abbrev pub set_focus_note : Text → ActiveWindowTracker → ActiveWindowTracker
set_focus_note note a = record a { focus_note = note }
