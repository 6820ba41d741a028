-- ===== src/Reconcile/Transient/Window.antt =====
-- The window of agent/reconcile/transient.go over the passes of a reconciler.
use hyperv_control_plane.Prelude.{
  ℕ, ◌+◌, ◌*◌, ◌≤◌, ◌≡◌, ◌≢◌, refl, ◌∙◌, ap, pos, ◌-ℤ◌, ltb, ltb_ℤ, true, false, Option, none, some,
  Text, text_eq, text_eq_iff, text_eq_refl, List, [], ◌∷◌, ◌⊎◌, inl, inr, arith, All, if◌then◌else◌,
  Bool-cases, Option-cases,
}
use hyperv_control_plane.Reconcile.Transient.{
  Failure, Cause, transient_signature, Tracker, observe, observe_at, clear, Outcome, Condition,
  condition, settle, settling, apply_failed, retrying, still_failing, saved_state_incompatible,
  deadline_exceeded, canceled, hyperv_unavailable, transient_window,
}

-- A condition that a reconciler reports: its type, the clock, and how the step went.
pub record Pass : Type 0 where
  pub condition_type : Text
  pub stamp : ℕ
  pub now : ℕ
  pub outcome : Outcome
  pub failure : Option Failure

abbrev pub report : Tracker → Pass → Condition × Tracker
report t p = condition t p.condition_type p.stamp p.now p.outcome p.failure

abbrev pub run : Tracker → List Pass → Tracker
run t [] = t
run t (p ∷ ps) = run (report t p).1 ps

-- An error with a known signature, and none of the sentinels.
pub record IsTransient (f : Failure) (what : Cause) : Type 0 where
  pub not_saved : f.is_error saved_state_incompatible ≡ false
  pub not_late : f.is_error deadline_exceeded ≡ false
  pub not_canceled : f.is_error canceled ≡ false
  pub answered : f.is_error hyperv_unavailable ≡ false
  pub known : transient_signature f.text ≡ some what

text_neq : (c d : Text) → c ≢ d → text_eq c d ≡ false
text_neq c d h = elim (Bool-cases (text_eq c d)) [
  | inl e ↦ absurd (h ((text_eq_iff c d).0 e))
  | inr e ↦ e
]

pub condition_transient :
    (t : Tracker) (c : Text) (stamp now : ℕ) (out : Outcome) (f : Failure) (what : Cause)
    → IsTransient f what
    → condition t c stamp now out (some f) ≡ settle t c stamp now f what
unfolding condition
condition_transient t c stamp now out f what h =
    simp (h.not_saved, h.not_late, h.not_canceled, h.answered, h.known)

-- The tracker after a pass, at another type.
pub condition-other :
    (t : Tracker) (c d : Text) (stamp now : ℕ) (out : Outcome) (f : Option Failure)
    → c ≢ d
    → (condition t c stamp now out f).1 d ≡ t d
unfolding condition settle observe observe_at clear
condition-other t c d stamp now out none h = rw (text_neq c d h) refl
condition-other t c d stamp now out (some f) h = elim (Option-cases (transient_signature f.text)) [
  | inl e ↦ ground (arith, text_neq c d h, e)
  | inr (what, e) ↦ elim (Option-cases (t c)) [
    | inl n ↦ ground (arith, text_neq c d h, e, n)
    | inr (start, n) ↦ ground (arith, e, n)
  ]
]

-- A pass that leaves a window open: of another type, or with a transient error.
abbrev pub Keeps : Text → Pass → Type 0
Keeps c p =
    (p.condition_type ≢ c)
    ⊎ ((f : Failure) × (what : Cause) × (p.condition_type ≡ c)
        × (p.failure ≡ some f)
        × IsTransient f what)

observe_first :
    (t : Tracker) (c : Text) (now : ℕ)
    → t c ≡ none
    → observe t c now ≡ (λ d. if text_eq c d then some now else t d, pos 0, true)
unfolding observe observe_at
observe_first t c now e = ap (λ o. observe_at o t c now) e

observe_open :
    (t : Tracker) (c : Text) (now start : ℕ)
    → t c ≡ some start
    → observe t c now ≡ (t, pos now -ℤ pos start, ltb_ℤ (pos now -ℤ pos start) transient_window)
unfolding observe observe_at
observe_open t c now start e = ap (λ o. observe_at o t c now) e

-- A transient error keeps the start of an open window.
transient_keeps :
    (t : Tracker) (c : Text) (stamp now start : ℕ) (out : Outcome) (f : Failure) (what : Cause)
    → IsTransient f what
    → t c ≡ some start
    → (condition t c stamp now out (some f)).1 c ≡ some start
unfolding settle
transient_keeps t c stamp now start out f what h e =
    rw (condition_transient t c stamp now out f what h) (rw (observe_open t c now start e) e)

run-Keeps :
    (ps : List Pass) (t : Tracker) (c : Text) (start : ℕ)
    → All (Keeps c) ps
    → t c ≡ some start
    → run t ps c ≡ some start
run-Keeps [] t c start h e = e
run-Keeps (p ∷ ps) t c start (inl other, hs) e =
    run-Keeps ps (report t p).1 c start hs
      (condition-other t p.condition_type c p.stamp p.now p.outcome p.failure other ∙ e)
run-Keeps (p ∷ ps) t c start (inr (f, what, same, q, h), hs) e =
    run-Keeps ps (report t p).1 c start hs (
      ap (λ d. (condition t d p.stamp p.now p.outcome p.failure).1 c) same
      ∙ ap (λ r. (condition t c p.stamp p.now p.outcome r).1 c) q
      ∙ transient_keeps t c p.stamp p.now start p.outcome f what h e)

opens :
    (t : Tracker) (c : Text) (stamp now : ℕ) (out : Outcome) (f : Failure) (what : Cause)
    → IsTransient f what
    → t c ≡ none
    → ((condition t c stamp now out (some f)).0 ≡ record {
      condition_type = c;
      last_transition_time = stamp;
      status = true;
      reason = settling;
      message = retrying what (pos 0);
    })
      × ((condition t c stamp now out (some f)).1 c ≡ some now)
unfolding settle
opens t c stamp now out f what h e =
    rw (condition_transient t c stamp now out f what h)
      (rw (observe_first t c now e) (refl, rw (text_eq_refl c) refl))

-- What is to be reported of a transient error at `now` in a window that opened at `start`.
abbrev pub verdict : Text → ℕ → Failure → Cause → ℕ → ℕ → Condition
verdict c stamp f what start now =
    let elapsed = pos now -ℤ pos start in
    if ltb now (start + 120 * 1000000000)
    then (record {
      condition_type = c;
      last_transition_time = stamp;
      status = true;
      reason = settling;
      message = retrying what elapsed;
    })
    else (record {
      condition_type = c;
      last_transition_time = stamp;
      status = false;
      reason = apply_failed;
      message = still_failing f.text elapsed;
    })

within_window :
    (now start : ℕ)
    → ltb_ℤ (pos now -ℤ pos start) transient_window ≡ ltb now (start + 120 * 1000000000)
unfolding ◌-ℤ◌
within_window now start = ground arith

settle-verdict :
    (t : Tracker) (c : Text) (stamp now start : ℕ) (f : Failure) (what : Cause)
    → t c ≡ some start
    → (settle t c stamp now f what).0 ≡ verdict c stamp f what start now
unfolding settle
settle-verdict t c stamp now start f what e =
    rw (observe_open t c now start e, within_window now start)
      (elim (Bool-cases (ltb now (start + 120 * 1000000000))) [
        | inl y ↦ rw y refl
        | inr n ↦ rw n refl
      ])

-- Whatever passes of other types and transient errors of this one stand between, a transient error
-- of a type whose window opened at `start` is reported, before `start` + two minutes, as in order and
-- settling, with its cause and the time since `start`; and from then on as a failure, with its text
-- and that time.
pub condition_escalates :
    (ps : List Pass) (t : Tracker) (c : Text) (start stamp now : ℕ) (out : Outcome) (f : Failure)
    (what : Cause)
    → All (Keeps c) ps
    → t c ≡ some start
    → IsTransient f what
    → (condition (run t ps) c stamp now out (some f)).0 ≡ verdict c stamp f what start now
condition_escalates ps t c start stamp now out f what hs e h =
    ap (λ r. r.0) (condition_transient (run t ps) c stamp now out f what h)
    ∙ settle-verdict (run t ps) c stamp now start f what (run-Keeps ps t c start hs e)

-- A pass of another type.
abbrev pub Aside : Text → Pass → Type 0
Aside c p = p.condition_type ≢ c

run-Aside : (ps : List Pass) (t : Tracker) (c : Text) → All (Aside c) ps → run t ps c ≡ t c
run-Aside [] t c h = refl
run-Aside (p ∷ ps) t c (h, hs) =
    run-Aside ps (report t p).1 c hs
    ∙ condition-other t p.condition_type c p.stamp p.now p.outcome p.failure h

-- From a tracker without a window of a type, as that of an agent that has started, and after any
-- passes of other types, the first transient error of the type is reported as in order and settling,
-- with its cause and no time passed. Whatever passes of other types and transient errors of this one
-- follow, a later one is reported as in order and settling less than two minutes after the first,
-- and from then on as a failure, each with the time since the first.
pub window_from_first :
    (t : Tracker) (before between : List Pass) (c : Text) (start stamp stamp' now : ℕ)
    (out out' : Outcome) (f g : Failure) (what what' : Cause)
    → t c ≡ none
    → All (Aside c) before
    → IsTransient f what
    → All (Keeps c) between
    → IsTransient g what'
    → let (k, t') = condition (run t before) c stamp start out (some f) in
      (k ≡ record {
        condition_type = c;
        last_transition_time = stamp;
        status = true;
        reason = settling;
        message = retrying what (pos 0);
      })
      × ((condition (run t' between) c stamp' now out' (some g)).0
          ≡ verdict c stamp' g what' start now)
window_from_first t before between c start stamp stamp' now out out' f g what what' e hs h ks k =
    let (first, opened) =
      opens (run t before) c stamp start out f what h (run-Aside before t c hs ∙ e) in
    (
      first,
      condition_escalates between (condition (run t before) c stamp start out (some f)).1 c start
          stamp' now out' g what' ks opened k,
    )

-- After a success, the next transient error of the type is reported as settling, whenever it comes.
pub condition_clears :
    (t : Tracker) (c : Text) (stamp now stamp' now' : ℕ) (out out' : Outcome) (f : Failure)
    (what : Cause)
    → IsTransient f what
    → (condition (condition t c stamp now out none).1 c stamp' now' out' (some f)).0.reason
      ≡ settling
unfolding condition clear
condition_clears t c stamp now stamp' now' out out' f what h =
    ap (λ k. k.reason) (opens (clear t c) c stamp' now' out' f what h (rw (text_eq_refl c) refl)).0

saved_keeps :
    (t : Tracker) (c : Text) (stamp now : ℕ) (out : Outcome) (f : Failure)
    → f.is_error saved_state_incompatible ≡ true
    → (condition t c stamp now out (some f)).1 ≡ t
unfolding condition
saved_keeps t c stamp now out f saved = rw saved refl

late_failure :
    (t : Tracker) (c : Text) (start stamp now : ℕ) (out : Outcome) (g : Failure) (what : Cause)
    → t c ≡ some start
    → IsTransient g what
    → start + 120 * 1000000000 ≤ now
    → (condition t c stamp now out (some g)).0.reason ≡ apply_failed
unfolding settle ◌-ℤ◌
late_failure t c start stamp now out g what e h late =
    rw (condition_transient t c stamp now out g what h)
      (rw (observe_open t c now start e) (ground arith))

-- A failure that the tracker is not told of, as one by an incompatible saved state is, leaves the
-- window open: a transient error two minutes after the window's start is reported as a failure at
-- once, although another failure stood between.
pub stale_window :
    (t : Tracker) (c : Text) (start stamp now stamp' now' : ℕ) (out out' : Outcome) (f g : Failure)
    (what : Cause)
    → t c ≡ some start
    → f.is_error saved_state_incompatible ≡ true
    → IsTransient g what
    → start + 120 * 1000000000 ≤ now'
    → (condition (condition t c stamp now out (some f)).1 c stamp' now' out' (some g)).0.reason
      ≡ apply_failed
stale_window t c start stamp now stamp' now' out out' f g what e saved h late =
    ap (λ u. (condition u c stamp' now' out' (some g)).0.reason)
      (saved_keeps t c stamp now out f saved)
    ∙ late_failure t c start stamp' now' out' g what e h late
