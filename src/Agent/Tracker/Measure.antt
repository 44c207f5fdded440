-- ===== src/Agent/Tracker/Measure.antt =====
-- The focus time that the tracker of agent/collector/active_window.go holds for an app, in a map of
-- summaries, among buffered sessions and in the open period, and what its calls do to it.
use device_pulse.Prelude.{
  ℕ, ◌+◌, ◌-◌, ◌≤◌, ◌<◌, Text, Bool, true, false, not, ◌&&◌, List, [], ◌∷◌, ◌++◌, ltb, leb, ◌==◌,
  if◌then◌else◌, list_beq, list_beq_iff, nat_eq, text_eq, Map, lookup, lookup-insert, beq_refl,
  beq_comm, Bool-cases, ◌≡◌, refl, sym, ap, subst, ◌∙◌, arith, inl, inr,
}
use device_pulse.Agent.Tracker.{
  max_sample_gap, FocusSession, AppFocusSummary, ActiveWindowTracker, start, open_period,
  end_session, end_if_silent, switch_app, observe, fresh_summary, add_session, add_sessions,
  soft_close, is_fresh, collect,
}

-- The focus time of an app in a map of summaries, among buffered sessions, and in the open period.
abbrev pub total_of : Text → Map Text AppFocusSummary → ℕ
total_of app m = (fresh_summary app (lookup app m)).total_focus

abbrev pub buffered : Text → List FocusSession → ℕ
buffered app [] = 0
buffered app (s ∷ ss) = (if list_beq app s.app_name then s.duration else 0) + buffered app ss

abbrev pub still_open : Text → ActiveWindowTracker → ℕ
still_open app a = if list_beq app a.current_app then a.last_sample_at - a.session_start else 0

abbrev pub measured : Text → ActiveWindowTracker → ℕ
measured app a = total_of app a.cumulative + buffered app a.sessions + still_open app a

last_sample_at-end_session :
    (end : ℕ) (a : ActiveWindowTracker) → (end_session end a).last_sample_at ≡ a.last_sample_at
unfolding end_session
last_sample_at-end_session end a = ground arith

pub record IsSound (a : ActiveWindowTracker) : Type 0 where
  pub started : 0 < a.last_sample_at
  pub in_order : a.session_start ≤ a.last_sample_at

buffered-append :
    (app : Text) (ss : List FocusSession) (s : FocusSession)
    → buffered app (ss ++ s ∷ [])
      ≡ buffered app ss + (if list_beq app s.app_name then s.duration else 0)
buffered-append app [] s = omega arith
buffered-append app (x ∷ ss) s = omega (arith, buffered-append app ss s)

total_of-add_session :
    (app : Text) (s : FocusSession) (m : Map Text AppFocusSummary)
    → total_of app (add_session s m)
      ≡ total_of app m + (if list_beq app s.app_name then s.duration else 0)
unfolding add_session
total_of-add_session app s m =
    let c = fresh_summary s.app_name (lookup s.app_name m) in
    let c' : AppFocusSummary = record c {
      total_focus = c.total_focus + s.duration;
      session_count = if s.continuation then c.session_count else c.session_count + 1;
    } in
    let read = ap (λ o. (fresh_summary app o).total_focus) (lookup-insert s.app_name app c' m) in
    elim (Bool-cases (list_beq s.app_name app)) [
      | inl e ↦
          let same : s.app_name ≡ app = (list_beq_iff s.app_name app).0 e in
          read ∙ rw (e, same) (rw (beq_refl app) refl)
      | inr e ↦
          let other : list_beq app s.app_name ≡ false = beq_comm app s.app_name ∙ e in
          read ∙ rw (e, other) (omega arith)
    ]

abbrev pub banked : Text → ActiveWindowTracker → ℕ
banked app a = total_of app a.cumulative + buffered app a.sessions

-- What the app would have if the open period ended at `end`.
abbrev pub up_to : ℕ → Text → ActiveWindowTracker → ℕ
up_to end app a = banked app a + (if list_beq app a.current_app then end - a.session_start else 0)

nobody_open :
    (app : Text) (a : ActiveWindowTracker)
    → list_beq app [] ≡ false
    → list_beq a.current_app [] ≡ true
    → list_beq app a.current_app ≡ false
nobody_open app a h e =
    subst (λ c. list_beq app c ≡ false) (sym ((list_beq_iff a.current_app []).0 e)) h

banked-end_session :
    (end : ℕ) (app : Text) (a : ActiveWindowTracker)
    → list_beq app [] ≡ false
    → banked app (end_session end a) ≡ up_to end app a
unfolding end_session
banked-end_session end app a h = elim (Bool-cases (list_beq a.current_app [])) [
  | inl e ↦ rw (e, nobody_open app a h e) (omega arith)
  | inr e ↦ elim (Bool-cases (ltb a.session_start end)) [
    | inl f ↦ rw (e, f) (omega (arith, buffered-append app a.sessions))
    | inr f ↦ rw (e, f) (ground arith)
  ]
]

current_app-end_session : (end : ℕ) (a : ActiveWindowTracker) → (end_session end a).current_app ≡ []
unfolding end_session
current_app-end_session end a = elim (Bool-cases (list_beq a.current_app [])) [
  | inl e ↦ rw e ((list_beq_iff a.current_app []).0 e)
  | inr e ↦ rw e refl
]

up_to-end_session :
    (t end : ℕ) (app : Text) (a : ActiveWindowTracker)
    → list_beq app [] ≡ false
    → up_to t app (end_session end a) ≡ up_to end app a
up_to-end_session t end app a h =
    rw (current_app-end_session end a, h) (omega (arith, banked-end_session end app a h))

measured-switch_app :
    (t : ℕ) (app next : Text) (a : ActiveWindowTracker)
    → list_beq app [] ≡ false
    → a.last_sample_at ≡ t
    → measured app (switch_app t next a) ≡ up_to t app a
unfolding switch_app
measured-switch_app t app next a h l = elim (Bool-cases (list_beq next [])) [
  | inl e ↦ rw e (up_to-end_session _ t app a h)
  | inr e ↦ elim (Bool-cases (list_beq next a.current_app)) [
    | inl f ↦ rw (e, f, l) refl
    | inr f ↦
        rw (e, f) (ground (arith, last_sample_at-end_session t a, banked-end_session t app a h))
  ]
]

-- What a sample at `t` adds to an app: the time since the last one, unless there was a silence.
abbrev pub gained : Text → ℕ → ℕ → Text → ℕ
gained app t last current =
    if list_beq app current && leb t (last + max_sample_gap) then t - last else 0

up_to-end_if_silent :
    (t : ℕ) (app : Text) (a : ActiveWindowTracker)
    → list_beq app [] ≡ false
    → IsSound a
    → a.last_sample_at ≤ t
    → up_to t app (end_if_silent t a) ≡ measured app a + gained app t a.last_sample_at a.current_app
unfolding end_if_silent
up_to-end_if_silent t app a h s le =
    let some_time : (a.last_sample_at == 0) ≡ false = ground (arith, s.started) in
    elim (Bool-cases (list_beq a.current_app [])) [
      | inl e ↦ rw (e, nobody_open app a h e) (omega arith)
      | inr e ↦ elim (Bool-cases (ltb (a.last_sample_at + max_sample_gap) t)) [
        | inl f ↦
            let late : leb t (a.last_sample_at + max_sample_gap) ≡ false = ground arith in
            rw (e, some_time, f) (ground (arith, up_to-end_session t a.last_sample_at app a h))
        | inr f ↦
            let near : leb t (a.last_sample_at + max_sample_gap) ≡ true = ground arith in
            rw (e, some_time, f) (ground arith)
      ]
    ]

pub measured-observe :
    (t : ℕ) (app next source : Text) (idle : Bool) (a : ActiveWindowTracker)
    → list_beq app [] ≡ false
    → IsSound a
    → a.last_sample_at ≤ t
    → measured app (observe t next source idle a)
      ≡ measured app a + gained app t a.last_sample_at a.current_app
unfolding observe
measured-observe t app next source idle a h s le =
    measured-switch_app t app (if idle then [] else next) _ h refl
    ∙ up_to-end_if_silent t app a h s le

abbrev closes : Bool → ActiveWindowTracker → Bool
closes fresh a = (not (list_beq a.current_app []) && fresh) && ltb a.session_start a.last_sample_at

measured-soft_close :
    (app : Text) (fresh : Bool) (a : ActiveWindowTracker)
    → measured app (soft_close fresh a) ≡ measured app a
unfolding soft_close
measured-soft_close app fresh a = elim (Bool-cases (closes fresh a)) [
  | inl e ↦ rw e (ground (arith, buffered-append app a.sessions (open_period a.last_sample_at a)))
  | inr e ↦ rw e refl
]

total_of-add_sessions :
    (app : Text) (ss : List FocusSession) (m : Map Text AppFocusSummary)
    → total_of app (add_sessions ss m) ≡ total_of app m + buffered app ss
unfolding add_sessions
total_of-add_sessions app [] m = omega arith
total_of-add_sessions app (s ∷ ss) m =
    omega (arith, total_of-add_session app s m, total_of-add_sessions app ss (add_session s m))

pub measured-collect :
    (now : ℕ) (app : Text) (a : ActiveWindowTracker)
    → measured app (collect now a).1 ≡ measured app a
unfolding collect
measured-collect now app a =
    let a' = soft_close (is_fresh now a) a in
    omega (
      arith,
      total_of-add_sessions app a'.sessions a'.cumulative,
      measured-soft_close app (is_fresh now a) a,
    )

pub collect-IsSound : (now : ℕ) (a : ActiveWindowTracker) → IsSound a → IsSound (collect now a).1
unfolding collect soft_close
collect-IsSound now a s = elim (Bool-cases (closes (is_fresh now a) a)) [
  | inl e ↦ rw e (record { started = s.started; in_order = omega arith })
  | inr e ↦ rw e (record { started = s.started; in_order = s.in_order })
]

-- A fresh snapshot leaves nothing open.
pub still_open-collect :
    (now : ℕ) (app : Text) (a : ActiveWindowTracker)
    → list_beq app [] ≡ false
    → IsSound a
    → is_fresh now a ≡ true
    → still_open app (collect now a).1 ≡ 0
unfolding collect soft_close
still_open-collect now app a h s f = elim (Bool-cases (list_beq a.current_app [])) [
  | inl e ↦ rw (e, nobody_open app a h e) refl
  | inr e ↦ elim (Bool-cases (ltb a.session_start a.last_sample_at)) [
    | inl l ↦ rw (e, f, l) (ground arith)
    | inr l ↦ let order = s.in_order in rw (e, f, l) (ground arith)
  ]
]

switch_app-kept :
    (t : ℕ) (next : Text) (a : ActiveWindowTracker)
    → a.session_start ≤ t
    → a.last_sample_at ≡ t
    → ((switch_app t next a).current_app ≡ next)
      × ((switch_app t next a).last_sample_at ≡ t)
      × ((switch_app t next a).session_start ≤ t)
unfolding switch_app end_session
switch_app-kept t next a le l = elim (Bool-cases (list_beq next [])) [
  | inl e ↦ elim (Bool-cases (list_beq a.current_app [])) [
    | inl f ↦
        rw (e, f) ((list_beq_iff a.current_app []).0 f ∙ sym ((list_beq_iff next []).0 e), l, le)
    | inr f ↦ rw (e, f) (sym ((list_beq_iff next []).0 e), l, omega arith)
  ]
  | inr e ↦ elim (Bool-cases (list_beq next a.current_app)) [
    | inl f ↦ rw (e, f) (sym ((list_beq_iff next a.current_app).0 f), l, le)
    | inr f ↦ rw (e, f) (refl, last_sample_at-end_session t a ∙ l, omega arith)
  ]
]

end_if_silent-start :
    (t : ℕ) (a : ActiveWindowTracker) → a.session_start ≤ t → (end_if_silent t a).session_start ≤ t
unfolding end_if_silent end_session
end_if_silent-start t a le = ground arith

pub observe-kept :
    (t : ℕ) (next source : Text) (idle : Bool) (a : ActiveWindowTracker)
    → IsSound a
    → a.last_sample_at ≤ t
    → let a' = observe t next source idle a in
      (a'.current_app ≡ (if idle then [] else next))
      × (a'.last_sample_at ≡ t)
      × (a'.session_start ≤ t)
unfolding observe
observe-kept t next source idle a s le =
    switch_app-kept t (if idle then [] else next) _
      (end_if_silent-start t a (omega (arith, s.in_order))) refl

pub collect-kept :
    (now : ℕ) (a : ActiveWindowTracker)
    → ((collect now a).1.current_app ≡ a.current_app)
      × ((collect now a).1.last_sample_at ≡ a.last_sample_at)
unfolding collect soft_close
collect-kept now a = elim (Bool-cases (closes (is_fresh now a) a)) [
  | inl e ↦ rw e (refl, refl)
  | inr e ↦ rw e (refl, refl)
]

pub measured-start :
    (app : Text) (began : ℕ) → list_beq app [] ≡ false → measured app (start began) ≡ 0
unfolding lookup
measured-start app began h = rw h refl

pub sessions-collect :
    (now : ℕ) (app : Text) (a : ActiveWindowTracker) → buffered app (collect now a).1.sessions ≡ 0
unfolding collect
sessions-collect now app a = refl
