-- ===== src/Activity/Focus/Totals.antt =====
-- What the focus cache of api/main.go holds after any ingests, and what a snapshot lists.
use device_pulse.Prelude.{
  ℕ, ◌+◌, ◌≤◌, Text, List, [], ◌∷◌, Option, none, some, if◌then◌else◌, ◌≡◌, refl, ap, subst, arith,
  text_eq, map, Map, lookup, insert, lookup-insert, Bool-cases, inl, inr, ◌∙◌, At, here, there,
}
use device_pulse.Go.Sort.{Sorted, sort_stable-Sorted, At-sort_stable}
use device_pulse.Activity.AppNames.{display_app_name, app_key, is_visible_app_usage_name}
use device_pulse.Activity.Focus.{
  AppFocusEntry, FocusCache, FocusSummary, apply_all, apply_focus_summaries, apply_summary, apps_of,
  entry_or_new, longer, snapshot,
}

-- The time and the sessions that the cache holds for an application.
abbrev pub held : Option AppFocusEntry → ℕ × ℕ
held none = (0, 0)
held (some e) = (e.total_focus, e.session_count)

abbrev pub focus_of : Text → Text → FocusCache → ℕ × ℕ
focus_of device_id key fc = held (lookup key (apps_of (lookup device_id fc)))

-- What a summary adds to the application with the key.
unfoldable pub added : Text → Option FocusSummary → ℕ × ℕ
added key none = (0, 0)
added key (some m) =
    let name = display_app_name m.app_name in
    if is_visible_app_usage_name name
    then (if text_eq.beq (app_key name) key then (m.total_focus, m.session_count) else (0, 0))
    else (0, 0)

abbrev pub plus : ℕ × ℕ → ℕ × ℕ → ℕ × ℕ
plus (a, b) (c, d) = (a + c, b + d)

abbrev pub sum_added : Text → List (Option FocusSummary) → ℕ × ℕ
sum_added key [] = (0, 0)
sum_added key (m ∷ ms) = plus (added key m) (sum_added key ms)

plus-zero : (p : ℕ × ℕ) → p ≡ plus (0, 0) p
plus-zero (a, b) = ground arith

held-plus :
    (name : Text) (t n : ℕ) (o : Option AppFocusEntry)
    → let e = entry_or_new name o in (e.total_focus + t, e.session_count + n) ≡ plus (t, n) (held o)
held-plus name t n none = ground arith
held-plus name t n (some e) = ground arith

held-insert :
    (k key name : Text) (t n : ℕ) (apps : Map Text AppFocusEntry)
    → let e = entry_or_new name (lookup k apps) in
      held (
        lookup key (
          insert k
            (record e { total_focus = e.total_focus + t; session_count = e.session_count + n })
            apps))
      ≡ plus (if text_eq.beq k key then (t, n) else (0, 0)) (held (lookup key apps))
held-insert k key name t n apps =
    let e = entry_or_new name (lookup k apps) in
    let v : AppFocusEntry = record e {
      total_focus = e.total_focus + t;
      session_count = e.session_count + n;
    } in
    elim (Bool-cases (text_eq.beq k key)) [
      | inl h ↦
          let same : k ≡ key = (text_eq.beq_iff k key).0 h in
          let found : lookup key (insert k v apps) ≡ some v =
            rw (lookup-insert k key v apps, h) refl in
          rw (found, h)
            (subst (λ j. held (some v) ≡ plus (t, n) (held (lookup j apps))) same
              (held-plus name t n (lookup k apps)))
      | inr h ↦
          let found : lookup key (insert k v apps) ≡ lookup key apps =
            rw (lookup-insert k key v apps, h) refl in
          rw (found, h) (plus-zero (held (lookup key apps)))
    ]

held-apply_summary :
    (key : Text) (m : Option FocusSummary) (apps : Map Text AppFocusEntry)
    → held (lookup key (apply_summary m apps)) ≡ plus (added key m) (held (lookup key apps))
unfolding apply_summary added
held-apply_summary key none apps = plus-zero (held (lookup key apps))
held-apply_summary key (some m) apps =
    let name = display_app_name m.app_name in
    elim (Bool-cases (is_visible_app_usage_name name)) [
      | inl e ↦ rw e (held-insert (app_key name) key name m.total_focus m.session_count apps)
      | inr e ↦ rw e (plus-zero (held (lookup key apps)))
    ]

plus-shift : (p q r : ℕ × ℕ) → plus q (plus p r) ≡ plus (plus p q) r
plus-shift (a, b) (c, d) (e, f) = ground arith

held-apply_all :
    (key : Text) (ms : List (Option FocusSummary)) (apps : Map Text AppFocusEntry)
    → held (lookup key (apply_all ms apps)) ≡ plus (sum_added key ms) (held (lookup key apps))
unfolding apply_all
held-apply_all key [] apps = plus-zero (held (lookup key apps))
held-apply_all key (m ∷ ms) apps =
    held-apply_all key ms (apply_summary m apps)
    ∙ ap (plus (sum_added key ms)) (held-apply_summary key m apps)
    ∙ plus-shift (added key m) (sum_added key ms) (held (lookup key apps))

-- The calls of `applyFocusSummaries` that the server has made, in turn.
pub record Ingest : Type 0 where
  pub device_id : Text
  pub summaries : List (Option FocusSummary)

abbrev pub ingest_all : List Ingest → FocusCache → FocusCache
ingest_all [] fc = fc
ingest_all (i ∷ is) fc = ingest_all is (apply_focus_summaries i.device_id i.summaries fc)

-- What the calls say of the device and the application.
abbrev pub reported : Text → Text → List Ingest → ℕ × ℕ
reported device_id key [] = (0, 0)
reported device_id key (i ∷ is) =
    plus (if text_eq.beq i.device_id device_id then sum_added key i.summaries else (0, 0))
      (reported device_id key is)

focus_of-apply :
    (device_id key : Text) (i : Ingest) (fc : FocusCache)
    → focus_of device_id key (apply_focus_summaries i.device_id i.summaries fc)
      ≡ plus
          (if text_eq.beq i.device_id device_id then sum_added key i.summaries else (0, 0))
          (focus_of device_id key fc)
unfolding apply_focus_summaries
focus_of-apply device_id key i fc =
    let d = i.device_id in
    let v = apply_all i.summaries (apps_of (lookup d fc)) in
    elim (Bool-cases (text_eq.beq d device_id)) [
      | inl h ↦
          let same : d ≡ device_id = (text_eq.beq_iff d device_id).0 h in
          let found : lookup device_id (insert d v fc) ≡ some v =
            rw (lookup-insert d device_id v fc, h) refl in
          rw (found, h)
            (subst
              (λ j.
                held (lookup key v)
                ≡ plus (sum_added key i.summaries) (held (lookup key (apps_of (lookup j fc)))))
              same (held-apply_all key i.summaries (apps_of (lookup d fc))))
      | inr h ↦
          let found : lookup device_id (insert d v fc) ≡ lookup device_id fc =
            rw (lookup-insert d device_id v fc, h) refl in
          rw (found, h) (plus-zero (focus_of device_id key fc))
    ]

-- After any calls of `applyFocusSummaries`, for any devices and in any order, the cache holds for
-- each device and application exactly the focus time and the sessions that the visible summaries
-- have reported of them, on top of what it held before: nothing is lost or counted twice, and no
-- device's summaries reach another device.
pub ingest_all-focus_of :
    (device_id key : Text) (is : List Ingest) (fc : FocusCache)
    → focus_of device_id key (ingest_all is fc)
      ≡ plus (reported device_id key is) (focus_of device_id key fc)
ingest_all-focus_of device_id key [] fc = plus-zero (focus_of device_id key fc)
ingest_all-focus_of device_id key (i ∷ is) fc =
    ingest_all-focus_of device_id key is (apply_focus_summaries i.device_id i.summaries fc)
    ∙ ap (plus (reported device_id key is)) (focus_of-apply device_id key i fc)
    ∙ plus-shift (if text_eq.beq i.device_id device_id then sum_added key i.summaries else (0, 0))
        (reported device_id key is) (focus_of device_id key fc)

lookup-At :
    (key : Text) (apps : Map Text AppFocusEntry) (e : AppFocusEntry)
    → lookup key apps ≡ some e
    → At e (map (λ x. x.1) apps)
unfolding lookup
lookup-At key [] e h = absurd (ground arith)
lookup-At key ((k, a) ∷ apps) e h = elim (Bool-cases (text_eq.beq k key)) [
  | inl same ↦
      let found : some a ≡ some e = rw same at h in let is : a ≡ e = ground arith in rw (← is) here
  | inr other ↦
      let rest : lookup key apps ≡ some e = rw other at h in there (lookup-At key apps e rest)
]

-- A snapshot of a device is sorted by falling focus time, and lists the entry of each application
-- that the cache holds for the device.
pub snapshot-At :
    (device_id key : Text) (fc : FocusCache) (e : AppFocusEntry)
    → lookup key (apps_of (lookup device_id fc)) ≡ some e
    → At e (snapshot device_id fc)
      × Sorted (λ a b. b.total_focus ≤ a.total_focus) (snapshot device_id fc)
unfolding snapshot
snapshot-At device_id key fc e h =
    let entries = map (λ x. x.1) (apps_of (lookup device_id fc)) in
    (
      At-sort_stable longer entries (lookup-At key (apps_of (lookup device_id fc)) e h),
      sort_stable-Sorted longer (λ a b. b.total_focus ≤ a.total_focus) (λ a b c h k. omega arith)
          (λ a b h. ground arith) (λ a b h. ground arith) entries,
    )
