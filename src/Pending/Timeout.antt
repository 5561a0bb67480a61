-- ===== src/Pending/Timeout.antt =====
-- When the watch of the pending phase in job.go ends, and how.
use kubejob.Prelude.{
  ℕ, ◌-◌, ◌<◌, String, ◌≡◌, refl, sym, ◌∙◌, Bool, true, false, not, ◌&&◌, Option, none, some, inl,
  inr, List, [], ◌∷◌, ◌++◌, All, arith, Bool-cases, ap, if◌then◌else◌, ltb,
}
use kubejob.Kube.{Pod}
use kubejob.Errors.{Result, ok, err, err_pending_phase}
use kubejob.Pending.{
  started_at, Poll, is_pod_initializing, has_started, poll_loop, watch_pod_pending_phase,
}

-- A poll at which the pod was seen initializing, and one at which it had not begun to run.
abbrev pub sees_initializing : Poll → Bool
sees_initializing p = elim p.answer [
  | err e ↦ false
  | ok pod ↦ not (has_started pod.status.phase) && is_pod_initializing pod
]

abbrev pub sees_waiting : Poll → Bool
sees_waiting p = elim p.answer [ err e ↦ false | ok pod ↦ not (has_started pod.status.phase) ]

-- The time of the first poll that saw the pod initializing.
abbrev pub first_seen : List Poll → Option ℕ
first_seen [] = none
first_seen (p ∷ ps) = if sees_initializing p then some p.now else first_seen ps

-- Whether a poll, with those before it, is too late.
abbrev pub too_late : ℕ → Option ℕ → Poll → Bool
too_late timeout none p = false
too_late timeout (some first) p = sees_initializing p && ltb timeout (p.checked - first)

abbrev pub seen_from : Option ℕ → List Poll → Option ℕ
seen_from none ps = first_seen ps
seen_from (some t) ps = some t

-- Among the polls `ps`, after those that have first seen the pod initializing at `started`, is one at
-- which it still is, more than the timeout after `t`, when it was first seen so. At none of those
-- before had the pod begun to run.
pub record TimedOut (timeout : ℕ) (started : Option ℕ) (t : ℕ) (ps : List Poll) : Type 0 where
  pub before : List Poll
  pub last : Poll
  pub after : List Poll
  pub split : ps ≡ before ++ last ∷ after
  pub first : seen_from started (before ++ last ∷ []) ≡ some t
  pub initializing : sees_initializing last ≡ true
  pub late : timeout < last.checked - t
  pub waiting : All (λ p. sees_waiting p ≡ true) before

one_later :
    (timeout : ℕ) (s s' : Option ℕ) (t : ℕ) (p : Poll) (ps : List Poll)
    → sees_waiting p ≡ true
    → ((qs : List Poll) → seen_from s' qs ≡ some t → seen_from s (p ∷ qs) ≡ some t)
    → TimedOut timeout s' t ps
    → TimedOut timeout s t (p ∷ ps)
one_later timeout s s' t p ps w step r = record {
  before = p ∷ r.before;
  last = r.last;
  after = r.after;
  split = ap (λ l. p ∷ l) r.split;
  first = step (r.before ++ r.last ∷ []) r.first;
  initializing = r.initializing;
  late = r.late;
  waiting = (w, r.waiting);
}

seen_past :
    (s : Option ℕ) (p : Poll) (qs : List Poll)
    → sees_initializing p ≡ false
    → seen_from s (p ∷ qs) ≡ seen_from s qs
seen_past none p qs h = ground arith
seen_past (some t) p qs h = refl

seen_here :
    (s : Option ℕ) (p : Poll) (qs : List Poll)
    → sees_initializing p ≡ true
    → seen_from s (p ∷ qs) ≡ some (started_at s p.now)
seen_here none p qs h = ground arith
seen_here (some t) p qs h = refl

-- One poll, given the rest of the loop for every time of the first sight.
at_poll :
    (name : String) (timeout t : ℕ) (s : Option ℕ) (answer : Result Pod) (now checked : ℕ)
    (ps : List Poll)
    → ((s' : Option ℕ)
        → poll_loop name timeout s' ps ≡ some (some (err_pending_phase t timeout))
        → TimedOut timeout s' t ps)
    → poll_loop name timeout s (record { answer = answer; now = now; checked = checked } ∷ ps)
      ≡ some (some (err_pending_phase t timeout))
    → TimedOut timeout s t (record { answer = answer; now = now; checked = checked } ∷ ps)
unfolding poll_loop
at_poll name timeout t s (err e) now checked ps rest h = absurd (cc h)
at_poll name timeout t s (ok pod) now checked ps rest h =
    elim (Bool-cases (has_started pod.status.phase)) [
      | inl up ↦ absurd (ground arith)
      | inr down ↦ elim (Bool-cases (is_pod_initializing pod)) [
        | inr other ↦
            one_later timeout s s t _ ps (ground arith)
              (λ qs g.
                seen_past s (record { answer = ok pod; now = now; checked = checked }) qs
                  (ground arith)
                ∙ g)
              (rest s (ground arith))
        | inl starting ↦ elim (Bool-cases (ltb timeout (checked - started_at s now))) [
          | inl over ↦
              let same : started_at s now ≡ t = ground arith in
              record {
                before = [];
                last = record { answer = ok pod; now = now; checked = checked };
                after = ps;
                split = refl;
                first =
                    seen_here s (record { answer = ok pod; now = now; checked = checked }) []
                      (ground arith)
                    ∙ ap some same;
                initializing = ground arith;
                late = rw (sym same) (ground arith);
                waiting = tt;
              }
          | inr not_over ↦
              one_later timeout s (some (started_at s now)) t _ ps (ground arith)
                (λ qs g.
                  seen_here s (record { answer = ok pod; now = now; checked = checked }) qs
                    (ground arith)
                  ∙ g)
                (rest (some (started_at s now)) (ground arith))
        ]
      ]
    ]

poll_loop-TimedOut :
    (name : String) (timeout t : ℕ) (s : Option ℕ) (ps : List Poll)
    → poll_loop name timeout s ps ≡ some (some (err_pending_phase t timeout))
    → TimedOut timeout s t ps
unfolding poll_loop
poll_loop-TimedOut name timeout t s [] h = absurd (cc h)
poll_loop-TimedOut name timeout t s (p ∷ ps) h =
    at_poll name timeout t s p.answer p.now p.checked ps
      (λ s' g. poll_loop-TimedOut name timeout t s' ps g) h

-- When the watch of the pending phase gives up, the pod is still initializing and has been so, as
-- far as the polls tell, for longer than the timeout, and no poll has seen it run.
pub watch_pod_pending_phase-TimedOut :
    (name : String) (timeout t : ℕ) (polls : List Poll)
    → watch_pod_pending_phase (some timeout) name polls ≡ some (some (err_pending_phase t timeout))
    → TimedOut timeout none t polls
unfolding watch_pod_pending_phase
watch_pod_pending_phase-TimedOut name timeout t polls h =
    poll_loop-TimedOut name timeout t none polls h
