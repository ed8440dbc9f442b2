-- ===== src/Cutover/Sequence.antt =====
-- A goroutine that runs from its launch to its end with no one in between (`execute` and
-- `runAndVerify` of internal/service/cutover.go): its steps are one function.
use touchgrass.Base.{
  ℕ, suc, ◌≡◌, refl, ap, ◌∙◌, Bool, true, false, not, if◌then◌else◌, Text, is_empty, Option, some,
  List, [], ◌∷◌, ◌++◌, map, get_elem?, get_elem-set, set-set, All, arith,
}
use touchgrass.Base.Results.{Result, ok, err}
use touchgrass.Cutover.{Host, Operation}
use touchgrass.Cutover.Engine.{
  Engine, Job, DeployOutcome, Phase, launched, running, settled, recorded, reported, gone,
  release_run,
}
use touchgrass.Cutover.Execute.{
  Health, is_healthy, emit_started, emit_line, sample_probe, settle, live_sha, record_deploy,
  finish_operation,
}
use touchgrass.Cutover.Schedule.{
  Action, begin_run, print_line, take_sample, settle_run, record_run, finish_run, leave, move,
  counted, advance, advance_job, step, run,
}
use touchgrass.Cutover.Runs.{
  Tick, printed, sampled, World, failures, work, execute, tick_action, last_actions, actions_of,
  is_possible,
}

move-move :
    (i : ℕ) (op : Operation) (p q : Phase) (e : Engine)
    → move i op q (move i op p e) ≡ move i op q e
move-move i op p q e =
    ap (λ js. record e { jobs = js })
      (set-set e.jobs i (record { op = op; phase = p }) (record { op = op; phase = q }))

-- A step of the job `i`, where it stands in its phase, in terms of the engine without it.
moved :
    (h : Host) (i : ℕ) (op : Operation) (p : Phase) (a : Action) (rest : List Action) (e t : Engine)
    {x : Job}
    → step h a (move i op p e) ≡ advance_job i a (move i op p e)
    → get_elem? e.jobs i ≡ some x
    → advance i op p a (move i op p e) ≡ some t
    → run h (a ∷ rest) (move i op p e) ≡ run h rest t
unfolding run advance_job
moved h i op p a rest e t {x} s here turned =
    ground (arith, s, turned, get_elem-set e.jobs i (record { op = op; phase = p }) {x = x} here)

sample_turn :
    (i : ℕ) (op : Operation) (started n : ℕ) (sample : Health) (now : ℕ) (fails : Bool) (e : Engine)
    → not (is_empty op.public_url) ≡ true
    → advance i op
        (running started n)
        (take_sample i sample now fails)
        (move i op (running started n) e)
      ≡ some (
          move i op
            (running started (if is_healthy sample then n else suc n))
            (sample_probe op sample now fails e))
unfolding advance sample_probe
sample_turn i op started n sample now true e w =
    let n' = if is_healthy sample then n else suc n in
    ground (arith, w, move-move i op (running started n) (running started n') e)
sample_turn i op started n sample now false e w =
    let n' = if is_healthy sample then n else suc n in
    let probed = sample_probe op sample now false e in
    ground (arith, w, move-move i op (running started n) (running started n') probed)

sample_probe-jobs :
    (op : Operation) (sample : Health) (now : ℕ) (fails : Bool) (e : Engine)
    → (sample_probe op sample now fails e).jobs ≡ e.jobs
unfolding sample_probe
sample_probe-jobs op sample now true e = refl
sample_probe-jobs op sample now false e = refl

record_deploy-move :
    (i : ℕ) (p : Phase) (get : Result (Unit {0})) (fails : Bool) (op : Operation) (sha : Text)
    (outcome : DeployOutcome) (notes : Text) (downtime : Option ℕ) (started finished : ℕ)
    (e : Engine)
    → (record_deploy get fails op sha outcome notes downtime started finished (move i op p e)).1
      ≡ move i op p (record_deploy get fails op sha outcome notes downtime started finished e).1
unfolding record_deploy
record_deploy-move i p (err x) fails op sha outcome notes downtime started finished e = refl
record_deploy-move i p (ok u) fails op sha outcome notes downtime started finished e = ground arith

record_deploy-jobs :
    (get : Result (Unit {0})) (fails : Bool) (op : Operation) (sha : Text) (outcome : DeployOutcome)
    (notes : Text) (downtime : Option ℕ) (started finished : ℕ) (e : Engine)
    → (record_deploy get fails op sha outcome notes downtime started finished e).1.jobs ≡ e.jobs
unfolding record_deploy
record_deploy-jobs (err x) fails op sha outcome notes downtime started finished e = refl
record_deploy-jobs (ok u) fails op sha outcome notes downtime started finished e = ground arith

ticks_run :
    (h : Host) (i : ℕ) (op : Operation) (started n : ℕ) (ticks : List Tick) (tail : List Action)
    (e : Engine) {x : Job}
    → All (λ t. is_possible op t ≡ true) ticks
    → get_elem? e.jobs i ≡ some x
    → run h (map (tick_action i) ticks ++ tail) (move i op (running started n) e)
      ≡ run h tail (move i op (running started (failures ticks n)) (work op ticks e))
unfolding failures work
ticks_run h i op started n [] tail e w here = refl
ticks_run h i op started n (printed line now ∷ rest) tail e {x} w here =
    moved h i op (running started n) (print_line i line now) (map (tick_action i) rest ++ tail) e
      (move i op (running started n) (emit_line op line now e)) {x = x} (unfold step in refl) here
      (unfold advance emit_line in
        ap some (move-move i op (running started n) (running started n) (emit_line op line now e)))
    ∙ ticks_run h i op started n rest tail (emit_line op line now e) {x = x} w.1
        (unfold emit_line in here)
ticks_run h i op started n (sampled sample now fails ∷ rest) tail e {x} w here =
    let n' = if is_healthy sample then n else suc n in
    moved h i op (running started n) (take_sample i sample now fails)
      (map (tick_action i) rest ++ tail) e
      (move i op (running started n') (sample_probe op sample now fails e)) {x = x}
      (unfold step in refl) here (sample_turn i op started n sample now fails e w.0)
    ∙ ticks_run h i op started n' rest tail (sample_probe op sample now fails e) {x = x} w.1
        (ap (λ js. get_elem? js i) (sample_probe-jobs op sample now fails e) ∙ here)

last_run :
    (h : Host) (i : ℕ) (op : Operation) (started n : ℕ) (w : World) (e : Engine) {x : Job}
    → get_elem? e.jobs i ≡ some x
    → run h (last_actions i w) (move i op (running started n) e)
      ≡ some (
          move i op gone (
            release_run op.def.id (
              finish_operation w.get w.notice_fails w.audit_fails op
                (settle op w.script_error w.health).0
                (settle op w.script_error w.health).1
                w.finished
                (record_deploy w.lookup w.deploy_fails op
                  (live_sha op w.containers)
                  (settle op w.script_error w.health).0
                  (settle op w.script_error w.health).1
                  (counted op n)
                  started
                  w.finished
                  e).1)))
last_run h i op started n w e {x} here =
    moved h i op (running started n) settles (records ∷ finishes ∷ leave i ∷ []) e
      (move i op phase_2 e) {x = x} (unfold step in refl) here
      (unfold advance in ap some (move-move i op (running started n) phase_2 e))
    ∙ moved h i op phase_2 records (finishes ∷ leave i ∷ []) e (move i op phase_3 e_3) {x = x}
        (unfold step in refl) here
        (unfold advance in
          ap some (
            ap (λ k. move i op phase_3 k)
              (record_deploy-move i phase_2 w.lookup w.deploy_fails op (live_sha op w.containers)
                outcome notes (counted op n) started w.finished e)
            ∙ move-move i op phase_2 phase_3 e_3))
    ∙ moved h i op phase_3 finishes (leave i ∷ []) e_3 (move i op reported e_4) {x = x}
        (unfold step in refl) here_3
        (unfold advance finish_operation in ap some (move-move i op phase_3 reported e_4))
    ∙ moved h i op reported (leave i) [] e_4 (move i op gone (release_run op.def.id e_4)) {x = x}
        (unfold step in refl) (unfold finish_operation in here_3)
        (unfold advance release_run in
          ap some (move-move i op reported gone (release_run op.def.id e_4)))
    ∙ (unfold run in refl)
  where
    outcome : DeployOutcome
    outcome = (settle op w.script_error w.health).0

    notes : Text
    notes = (settle op w.script_error w.health).1

    settles : Action
    settles = settle_run i w.script_error w.health

    records : Action
    records = record_run i w.lookup w.containers w.finished w.deploy_fails

    finishes : Action
    finishes = finish_run i w.get w.notice_fails w.audit_fails

    phase_2 : Phase
    phase_2 = settled started outcome notes (counted op n)

    phase_3 : Phase
    phase_3 = recorded outcome notes w.finished

    e_3 : Engine
    e_3 =
        (record_deploy w.lookup w.deploy_fails op (live_sha op w.containers) outcome notes
          (counted op n) started w.finished e).1

    e_4 : Engine
    e_4 = finish_operation w.get w.notice_fails w.audit_fails op outcome notes w.finished e_3

    here_3 : get_elem? e_3.jobs i ≡ some x
    here_3 =
        ap (λ js. get_elem? js i)
          (record_deploy-jobs w.lookup w.deploy_fails op (live_sha op w.containers) outcome notes
            (counted op n) started w.finished e)
        ∙ here

begun :
    (h : Host) (i : ℕ) (op : Operation) (now : ℕ) (rest : List Action) (e : Engine)
    → get_elem? e.jobs i ≡ some (record { op = op; phase = launched })
    → run h (begin_run i now ∷ rest) e
      ≡ run h rest (move i op (running now 0) (emit_started op now e))
unfolding run step advance_job advance
begun h i op now rest e here = ground (arith, here)

work-jobs : (op : Operation) (ticks : List Tick) (e : Engine) → (work op ticks e).jobs ≡ e.jobs
unfolding work
work-jobs op [] e = refl
work-jobs op (printed line now ∷ rest) e =
    work-jobs op rest (emit_line op line now e) ∙ (unfold emit_line in refl)
work-jobs op (sampled sample now fails ∷ rest) e =
    work-jobs op rest (sample_probe op sample now fails e) ∙ sample_probe-jobs op sample now fails e

-- The goroutine of an operation, run from its launch with no one in between, does to the engine what
-- `execute` does, and is gone: whatever the script prints, the probes find and the writes do.
-- (Samples are taken only where the operation has a public URL.)
actions_of-execute :
    (h : Host) (i : ℕ) (op : Operation) (w : World) (e : Engine)
    → All (λ t. is_possible op t ≡ true) w.ticks
    → get_elem? e.jobs i ≡ some (record { op = op; phase = launched })
    → run h (actions_of i w) e ≡ some (move i op gone (execute op w e))
unfolding execute
actions_of-execute h i op w e possible here =
    begun h i op w.started (map (tick_action i) w.ticks ++ last_actions i w) e here
    ∙ ticks_run h i op w.started 0 w.ticks (last_actions i w) (emit_started op w.started e)
        {x = record { op = op; phase = launched }} possible (unfold emit_started in here)
    ∙ last_run h i op w.started (failures w.ticks 0) w
        (work op w.ticks (emit_started op w.started e)) {x = record { op = op; phase = launched }}
        (ap (λ js. get_elem? js i) (work-jobs op w.ticks (emit_started op w.started e))
          ∙ (unfold emit_started in here))
