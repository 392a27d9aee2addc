-- ===== src/Workflow/Announce.antt =====
-- The events that end a run, or a stretch of it up to a suspension.
use lebro.Common.{ℕ, ◌≡◌, refl, ap, ◌∙◌, some, List, [], ◌∷◌, ◌++◌, arith, append-nil}
use lebro.Workflow.Model.{RunStatus}
use lebro.Workflow.Retry.Announcements.{announcements, announcements-append, retry-announcements}
use lebro.Workflow.Loop.Keeps.{loop-Keeps, begun}
use lebro.Workflow.Tree.{CompiledStep, task, sleep, mapping, looping, branching, Steps}
use lebro.Workflow.State.{Engine, RunState}
use lebro.Workflow.Frames.{next, enter, leave, Ended, visit, finish, Outcome, execute_frames}
use lebro.Workflow.Frames.Rule.{execute_frames_rule}

abbrev of_state : RunState → List RunStatus
of_state st = announcements st.world.events

next-announcements :
    (eng : Engine) (s : CompiledStep) (st st' : RunState)
    → visit eng s st ≡ next st'
    → of_state st' ≡ of_state st
unfolding visit
next-announcements eng (task i) st st' h =
    grind (arith, announcements-append, append-nil, retry-announcements)
next-announcements eng (sleep i wake) st st' h = ground arith
next-announcements eng (mapping i f) st st' h = grind (arith, announcements-append, append-nil)
next-announcements eng (looping i c ss) st st' h =
    grind (arith, announcements-append, append-nil, loop-Keeps)
next-announcements eng (branching i bs d) st st' h = ground arith

enter-announcements :
    (eng : Engine) (s : CompiledStep) (st : RunState) (t : Steps) (st' : RunState)
    → visit eng s st ≡ enter t st'
    → of_state st' ≡ of_state st
unfolding visit
enter-announcements eng (task i) st t st' h = ground arith
enter-announcements eng (sleep i wake) st t st' h = ground arith
enter-announcements eng (mapping i f) st t st' h = ground arith
enter-announcements eng (looping i c ss) st t st' h =
    ground (arith, loop-Keeps eng (record { steps = ss; config = c }) i.id st.current (begun i st))
enter-announcements eng (branching i bs d) st t st' h =
    grind (arith, announcements-append, append-nil)

leave-announcements :
    (eng : Engine) (s : CompiledStep) (st : RunState) (e : Ended) (st' : RunState)
    → visit eng s st ≡ leave e st'
    → of_state st' ≡ of_state st ++ e.status ∷ []
unfolding visit
leave-announcements eng (task i) st e st' h =
    grind (arith, announcements-append, append-nil, retry-announcements)
leave-announcements eng (sleep i wake) st e st' h = grind (arith, announcements-append, append-nil)
leave-announcements eng (mapping i f) st e st' h = grind (arith, announcements-append, append-nil)
leave-announcements eng (looping i c ss) st e st' h =
    grind (arith, loop-Keeps, announcements-append, append-nil)
leave-announcements eng (branching i bs d) st e st' h =
    grind (arith, announcements-append, append-nil)

finish-announcements :
    (eng : Engine) (st : RunState)
    → of_state (finish eng st).1 ≡ of_state st ++ (finish eng st).0.status ∷ []
unfolding finish
finish-announcements eng st = grind (arith, announcements-append)

-- However a run comes to its return, it announces exactly one end, the last of the statuses
-- announced, and that is the status it returns: run_suspended for a suspension, one terminal event
-- otherwise.
pub one_announcement :
    (n : ℕ) (eng : Engine) (fs : List Steps) (st : RunState) (o : Outcome)
    → execute_frames n eng fs st ≡ some o
    → announcements o.state.world.events ≡ announcements st.world.events ++ o.result.status ∷ []
one_announcement n eng fs st o =
    execute_frames_rule {Keep = λ x. of_state x ≡ of_state st}
      {Post = λ x. of_state x.state ≡ of_state st ++ x.result.status ∷ []} eng
      (record {
        on_next = λ s x x' k h. next-announcements eng s x x' h ∙ k;
        on_enter = λ s x t x' k h. enter-announcements eng s x t x' h ∙ k;
        on_leave = λ s rest fs' x e x' k h.
            leave-announcements eng s x e x' h ∙ ap (λ (l : List RunStatus). l ++ e.status ∷ []) k;
        on_finish = λ x k.
            finish-announcements eng x
            ∙ ap (λ (l : List RunStatus). l ++ (finish eng x).0.status ∷ []) k;
      })
      n fs st o refl
