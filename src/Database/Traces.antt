-- ===== src/Database/Traces.antt =====
-- The steps of a goroutine that audits its job and then writes its status (`finishJob` of
-- internal/service/database.go), on what the trail holds.
use touchgrass.Base.{
  ℕ, ◌<◌, ◌≡◌, refl, inl, inr, true, ◌==◌, Text, text_eq-eq, text_eq_refl, some, List, [], ◌∷◌,
  ◌++◌, get_elem?, All, set-All, get_elem-All, All_mono, All_both, map-All, arith, Bool-cases,
}
use touchgrass.Audit
use touchgrass.Audit.{append_entry}
use touchgrass.Database.Jobs.{
  JobStatus, DbJob, Phase, working, worked, audited, finished, gone, Task, Jobs, stamp, finish_row,
}
use touchgrass.Database.Steps.{kind_text, audit_detail, move}
use touchgrass.Database.Audited.{is_recorded, is_accounted, is_backed, is_own, IsTraced}

recorded-append :
    (detail : Text) (trail es : List Audit.Entry)
    → is_recorded detail trail ≡ true
    → is_recorded detail (trail ++ es) ≡ true
unfolding is_recorded
recorded-append detail [] es e = ground arith
recorded-append detail (x ∷ xs) es e = ground (arith, recorded-append detail xs es)

pub recorded-last :
    (e : Audit.Entry) (trail : List Audit.Entry) → is_recorded e.detail (trail ++ e ∷ []) ≡ true
unfolding is_recorded
recorded-last e [] = ground (arith, text_eq_refl e.detail)
recorded-last e (x ∷ xs) = ground (arith, recorded-last e xs)

accounted-append :
    (trail es : List Audit.Entry) (row : DbJob)
    → is_accounted trail row ≡ true
    → is_accounted (trail ++ es) row ≡ true
unfolding is_accounted
accounted-append trail es row e =
    ground
      (arith, recorded-append (audit_detail row.kind row.target row.status row.detail) trail es)

backed-append :
    (trail es : List Audit.Entry) (t : Task) (p : Phase)
    → is_backed trail (record t { phase = p }) ≡ true
    → is_backed (trail ++ es) (record t { phase = p }) ≡ true
unfolding is_backed
backed-append trail es t working e = refl
backed-append trail es t (worked s d) e = refl
backed-append trail es t (audited s d) e =
    recorded-append (audit_detail t.kind t.target s d) trail es e
backed-append trail es t finished e = refl
backed-append trail es t gone e = refl

-- One more entry in the trail.
pub appended-IsTraced :
    (e : Audit.Entry) (j : Jobs) → IsTraced j → IsTraced (record j { trail = j.trail ++ e ∷ [] })
appended-IsTraced e j v = record {
  accounted = All_mono _ _ j.rows (λ row a. accounted-append j.trail (e ∷ []) row a) v.accounted;
  backed = All_mono _ _ j.tasks (λ t b. backed-append j.trail (e ∷ []) t t.phase b) v.backed;
  own = v.own;
  rows_given = v.rows_given;
  tasks_given = v.tasks_given;
}

-- A goroutine in its next phase.
pub moved-IsTraced :
    (i : ℕ) (t : Task) (p : Phase) (j : Jobs)
    → get_elem? j.tasks i ≡ some t
    → is_backed j.trail (record t { phase = p }) ≡ true
    → IsTraced j
    → IsTraced (move i t p j)
unfolding is_own
moved-IsTraced i t p j here b v = record {
  accounted = v.accounted;
  backed = set-All _ j.tasks i (record t { phase = p }) v.backed b;
  own =
      set-All _ j.tasks i (record t { phase = p }) v.own
        (get_elem-All (λ k. All (λ row. is_own k row ≡ true) j.rows) j.tasks i {x = t} v.own here);
  rows_given = v.rows_given;
  tasks_given =
      set-All _ j.tasks i (record t { phase = p }) v.tasks_given
        (get_elem-All (λ k. k.id < j.next_id) j.tasks i {x = t} v.tasks_given here);
}

stamp-accounted :
    (trail : List Audit.Entry) (t : Task) (s : JobStatus) (d : Text) (now : ℕ) (row : DbJob)
    → is_recorded (audit_detail t.kind t.target s d) trail ≡ true
    → is_own t row ≡ true
    → is_accounted trail row ≡ true
    → is_accounted trail (stamp t.id s d now row) ≡ true
unfolding is_accounted is_own audit_detail
stamp-accounted trail t s d now row b o a = elim (Bool-cases (row.id == t.id)) [
  | inl same ↦
      ground
        (arith, text_eq-eq (kind_text row.kind) (kind_text t.kind), text_eq-eq row.target t.target)
  | inr other ↦ ground arith
]

stamp-own :
    (k : Task) (id : ℕ) (s : JobStatus) (d : Text) (now : ℕ) (row : DbJob)
    → is_own k row ≡ true
    → is_own k (stamp id s d now row) ≡ true
unfolding is_own
stamp-own k id s d now row o = ground arith

stamp-given :
    (n id : ℕ) (s : JobStatus) (d : Text) (now : ℕ) (row : DbJob)
    → row.id < n
    → (stamp id s d now row).id < n
stamp-given n id s d now row l = ground arith

-- The terminal status of an audited job is written.
pub stamped-IsTraced :
    (t : Task) (s : JobStatus) (d : Text) (now : ℕ) (j : Jobs)
    → is_recorded (audit_detail t.kind t.target s d) j.trail ≡ true
    → All (λ row. is_own t row ≡ true) j.rows
    → IsTraced j
    → IsTraced (record j { rows = finish_row t.id s d now j.rows })
unfolding finish_row
stamped-IsTraced t s d now j b o v =
    let f = stamp t.id s d now in
    record {
      accounted = map-All _ f j.rows (
          All_both _ _ _ j.rows (λ row x a. stamp-accounted j.trail t s d now row b x a) o
            v.accounted);
      backed = v.backed;
      own =
          All_mono _ _ j.tasks
            (λ k a.
              map-All _ f j.rows (All_mono _ _ j.rows (λ row x. stamp-own k t.id s d now row x) a))
            v.own;
      rows_given =
          map-All _ f j.rows
            (All_mono _ _ j.rows (λ row l. stamp-given j.next_id t.id s d now row l) v.rows_given);
      tasks_given = v.tasks_given;
    }
