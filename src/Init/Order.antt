-- ===== src/Init/Order.antt =====
-- The order in which `run` of `jobInit` in executor.go uses its executors.
use kubejob.Prelude.{
  take-set, sym, ◌<◌, member, ℕ, ◌+◌, ◌≤◌, String, ◌≡◌, refl, subst, ◌∙◌, true, false, not, ◌&&◌,
  Option, none, some, List, [], ◌∷◌, map, inl, inr, arith, Bool-cases, Option-cases, All, length,
  take, drop, get_elem?, leb, str_eq, length-set, get_elem?-lt, get_elem?-ge, drop-set, drop-suc,
  All-take-set, eq_iff,
}
use kubejob.Errors.{Err}
use kubejob.Kube.{Pod, Container, ContainerStatus}
use kubejob.Cluster.{Cluster}
use kubejob.Executor.{JobExecutor, set_pod, stop}
use kubejob.Init.{
  suc, put_executor, JobInit, Signal, proceed, fail, panic, is_replaced_command, handle, placed_one,
  handled_one, stopped_one, then_go, visit_containers, visit_statuses, mark_done, run,
}

-- No name twice.
abbrev pub IsDistinct : List String → Type 0
IsDistinct [] = Unit {0}
IsDistinct (x ∷ xs) = (member xs x ≡ false) × IsDistinct xs

abbrev pub IsStopped : JobExecutor → Type 0
IsStopped e = e.stopped ≡ true

-- `executors` are those of the setup, and `marked` the names that the map held before the first run.
pub record IsInOrder {W : Type 0} (executors : List JobExecutor) (marked : ℕ) (j : JobInit W)
    : Type 0 where
  pub same_length : length j.executors ≡ length executors
  pub in_range : j.step_num ≤ length executors
  pub used_stopped : All IsStopped (take j.step_num j.executors)
  pub rest_untouched : drop j.step_num j.executors ≡ drop j.step_num executors
  pub counted : length j.executed ≡ marked + j.step_num
  pub once_each : IsDistinct j.executed
  pub finished : j.done ≡ true → length executors ≤ j.step_num

-- After an error: the executor at `step_num` is the one that failed. It is not marked and may have
-- changed; the others are as the order says.
pub record IsFailed {W : Type 0} (executors : List JobExecutor) (marked : ℕ) (j : JobInit W)
    : Type 0 where
  pub same_length : length j.executors ≡ length executors
  pub in_range : j.step_num < length executors
  pub used_stopped : All IsStopped (take j.step_num j.executors)
  pub rest_untouched : drop (suc j.step_num) j.executors ≡ drop (suc j.step_num) executors
  pub counted : length j.executed ≡ marked + j.step_num
  pub once_each : IsDistinct j.executed
  pub unfinished : j.done ≡ false

module _ {W : Type 0} (k : Cluster W) (executors : List JobExecutor) (marked : ℕ) where
  stop-IsStopped : (e : JobExecutor) (w : W) → (stop k e w).0 ≡ none → IsStopped (stop k e w).1
  unfolding stop
  stop-IsStopped e w h = ground arith

  -- After a run that proceeds the order is kept, and after one that fails it is kept but for the
  -- executor that failed; an index is out of range only if every executor was used before.
  abbrev pub KeepsOrder : Signal × JobInit W × W → Type 0
  KeepsOrder (proceed, j, w) = IsInOrder executors marked j
  KeepsOrder (fail x, j, w) = IsFailed executors marked j
  KeepsOrder (panic, j, w) = length executors ≤ j.step_num

  put_executor-IsFailed :
      (j : JobInit W) (e e' : JobExecutor)
      → get_elem? j.executors j.step_num ≡ some e
      → IsInOrder executors marked j
      → IsFailed executors marked (put_executor j e')
  put_executor-IsFailed j e e' at v = record {
    same_length = length-set j.executors j.step_num e' ∙ v.same_length;
    in_range = omega (arith, get_elem?-lt j.executors j.step_num at, v.same_length);
    used_stopped = subst (All IsStopped) (sym (take-set j.step_num j.executors e')) v.used_stopped;
    rest_untouched =
        drop-set j.step_num j.executors e'
        ∙ drop-suc j.step_num j.executors executors v.rest_untouched;
    counted = v.counted;
    once_each = v.once_each;
    unfinished = elim (Bool-cases j.done) [
      | inr unset ↦ unset
      | inl over ↦
          absurd
            (omega (arith, get_elem?-lt j.executors j.step_num at, v.same_length, v.finished over))
    ];
  }

  stopped_one-KeepsOrder :
      (j : JobInit W) (name : String) (e : JobExecutor) (r : Option Err × JobExecutor × W)
      → get_elem? j.executors j.step_num ≡ some e
      → member j.executed name ≡ false
      → IsInOrder executors marked j
      → (r.0 ≡ none → IsStopped r.1)
      → KeepsOrder (stopped_one j name r)
  unfolding stopped_one
  stopped_one-KeepsOrder j name e (some x, e', w) at new v st = put_executor-IsFailed j e e' at v
  stopped_one-KeepsOrder j name e (none, e', w) at new v st = record {
    same_length = length-set j.executors j.step_num e' ∙ v.same_length;
    in_range = omega (arith, get_elem?-lt j.executors j.step_num at, v.same_length);
    used_stopped = All-take-set IsStopped j.step_num j.executors e' v.used_stopped (st refl);
    rest_untouched =
        drop-set j.step_num j.executors e'
        ∙ drop-suc j.step_num j.executors executors v.rest_untouched;
    counted = omega (arith, v.counted);
    once_each = (new, v.once_each);
    finished = λ d. omega (arith, v.finished d);
  }

  handled_one-KeepsOrder :
      (j : JobInit W) (name : String) (e : JobExecutor) (r : Option Err × JobExecutor × W)
      → get_elem? j.executors j.step_num ≡ some e
      → member j.executed name ≡ false
      → IsInOrder executors marked j
      → KeepsOrder (handled_one k j name r)
  unfolding handled_one stopped_one
  handled_one-KeepsOrder j name e (some x, e', w) at new v = put_executor-IsFailed j e e' at v
  handled_one-KeepsOrder j name e (none, e', w) at new v =
      stopped_one-KeepsOrder j name e (stop k e' w) at new v (stop-IsStopped e' w)

  placed_one-KeepsOrder :
      (j : JobInit W) (name : String) (e : JobExecutor) (r : Option Err × JobExecutor × W)
      → get_elem? j.executors j.step_num ≡ some e
      → member j.executed name ≡ false
      → IsInOrder executors marked j
      → KeepsOrder (placed_one k j name r)
  unfolding placed_one handled_one stopped_one
  placed_one-KeepsOrder j name e (some x, e', w) at new v = put_executor-IsFailed j e e' at v
  placed_one-KeepsOrder j name e (none, e', w) at new v =
      handled_one-KeepsOrder j name e (j.handler e' w) at new v

  handle-KeepsOrder :
      (j : JobInit W) (pod : Pod) (name : String) (w : W)
      → member j.executed name ≡ false
      → IsInOrder executors marked j
      → KeepsOrder (handle k j pod name w)
  unfolding handle placed_one handled_one stopped_one
  handle-KeepsOrder j pod name w new v = elim (Option-cases (get_elem? j.executors j.step_num)) [
    | inl e ↦ rw (e, handle) (omega (arith, get_elem?-ge j.executors j.step_num e, v.same_length))
    | inr (x, e) ↦ rw (e, handle) (placed_one-KeepsOrder j name x (set_pod k x pod w) e new v)
  ]

  then_go-KeepsOrder :
      (r : Signal × JobInit W × W) (f : JobInit W → W → Signal × JobInit W × W)
      → KeepsOrder r
      → ((j : JobInit W) (w : W) → IsInOrder executors marked j → KeepsOrder (f j w))
      → KeepsOrder (then_go r f)
  then_go-KeepsOrder (proceed, j, w) f v step = step j w v
  then_go-KeepsOrder (fail x, j, w) f v step = v
  then_go-KeepsOrder (panic, j, w) f v step = v

  abbrev names : List Container → List String
  names = map λ c. c.name

  visit_others :
      (pod : Pod) (name : String) (cs : List Container) (j : JobInit W) (w : W)
      → member (names cs) name ≡ false
      → visit_containers k pod name cs j w ≡ (proceed, j, w)
  unfolding visit_containers
  visit_others pod name [] j w h = refl
  visit_others pod name (c ∷ cs) j w h = ground (arith, visit_others pod name cs j w)

  visit_containers-KeepsOrder :
      (pod : Pod) (name : String) (cs : List Container) (j : JobInit W) (w : W)
      → IsDistinct (names cs)
      → member j.executed name ≡ false
      → IsInOrder executors marked j
      → KeepsOrder (visit_containers k pod name cs j w)
  unfolding visit_containers
  visit_containers-KeepsOrder pod name [] j w d new v = v
  visit_containers-KeepsOrder pod name (c ∷ cs) j w d new v =
      elim (Bool-cases (str_eq c.name name && is_replaced_command j.agent_cfg c)) [
        | inr other ↦ rw other (visit_containers-KeepsOrder pod name cs j w d.1 new v)
        | inl mine ↦
            let same : c.name ≡ name = (eq_iff c.name name).0 (ground arith) in
            let gone = subst (λ s. member (names cs) s ≡ false) same d.0 in
            rw mine (
              then_go-KeepsOrder (handle k j pod name w) (visit_containers k pod name cs)
                (handle-KeepsOrder j pod name w new v)
                (λ j' w' v'. rw (visit_others pod name cs j' w' gone) v'))
      ]

  visit_statuses-KeepsOrder :
      (pod : Pod) (ss : List ContainerStatus) (j : JobInit W) (w : W)
      → IsDistinct (names pod.spec.init_containers)
      → IsInOrder executors marked j
      → KeepsOrder (visit_statuses k pod ss j w)
  unfolding visit_statuses
  visit_statuses-KeepsOrder pod [] j w d v = v
  visit_statuses-KeepsOrder pod (s ∷ ss) j w d v =
      elim (Bool-cases (s.state.running && not (member j.executed s.name))) [
        | inr skip ↦ rw skip (visit_statuses-KeepsOrder pod ss j w d v)
        | inl due ↦ rw due (
            then_go-KeepsOrder (visit_containers k pod s.name pod.spec.init_containers j w)
              (visit_statuses k pod ss)
              (visit_containers-KeepsOrder pod s.name pod.spec.init_containers j w d (ground arith)
                v)
              (λ j' w' v'. visit_statuses-KeepsOrder pod ss j' w' d v'))
      ]

  mark_done-KeepsOrder :
      (j : JobInit W) (w : W) → IsInOrder executors marked j → KeepsOrder (mark_done j w)
  mark_done-KeepsOrder j w v = elim (Bool-cases (leb (length j.executors) j.step_num)) [
    | inr early ↦ rw early v
    | inl all ↦ rw all (record {
      same_length = v.same_length;
      in_range = v.in_range;
      used_stopped = v.used_stopped;
      rest_untouched = v.rest_untouched;
      counted = v.counted;
      once_each = v.once_each;
      finished = λ d. ground (arith, v.same_length);
    })
  ]

  run_done : (j : JobInit W) (pod : Pod) (w : W) → j.done ≡ true → run k j pod w ≡ (proceed, j, w)
  unfolding run
  run_done j pod w h = ground arith

  run_open :
      (j : JobInit W) (pod : Pod) (w : W)
      → j.done ≡ false
      → run k j pod w
        ≡ then_go (visit_statuses k pod pod.status.init_container_statuses j w) mark_done
  unfolding run
  run_open j pod w h = simp h

  -- When the init containers of the pod have different names, a run that proceeds has used the
  -- executors in their order: those before `step_num` are stopped, those from `step_num` on are as
  -- the setup left them, one name is marked for each that was used and none twice, and `done` says
  -- that all are used. After a run that fails the same holds but for the executor at `step_num`, the
  -- one that failed: it may have changed and its container is not marked, and `done` is not set. A
  -- run that meets an index out of range had used them all.
  pub run-KeepsOrder :
      (j : JobInit W) (pod : Pod) (w : W)
      → IsDistinct (names pod.spec.init_containers)
      → IsInOrder executors marked j
      → KeepsOrder (run k j pod w)
  run-KeepsOrder j pod w d v = elim (Bool-cases j.done) [
    | inl over ↦ rw (run_done j pod w over) v
    | inr more ↦ rw (run_open j pod w more) (
        then_go-KeepsOrder (visit_statuses k pod pod.status.init_container_statuses j w) mark_done
          (visit_statuses-KeepsOrder pod pod.status.init_container_statuses j w d v)
          mark_done-KeepsOrder)
  ]
