-- ===== src/Examples/Schedules.antt =====
-- The state machine of schedule versions on a concrete store.
use athena_order_priority.Prelude.{
  ◌≡◌, refl, arith, List, [], ◌∷◌, some, none, true, false, Bool, filter,
}
use athena_order_priority.Domain.Window.{codes}
use athena_order_priority.Domain.Status.{
  draft, approved, published, superseded, approval, controlled_auto,
}
use athena_order_priority.Domain.Results.{ScheduleEntry}
use athena_order_priority.Services.Outcomes.{done, conflict_error, integration_error}
use athena_order_priority.Services.Writeback
use athena_order_priority.Services.Writeback.{WritebackReceipt, send, sent}
use athena_order_priority.Services.Versions.{
  ScheduleVersion, new_version, stamp, get_current, is_live, find,
}
use athena_order_priority.Services.Versions.Laws.{count}
use athena_order_priority.Services.Schedule
use athena_order_priority.Services.Schedule.{generate, approve, publish}
use athena_order_priority.Services.Schedule.Approval.{IsValid}
use athena_order_priority.Services.Schedule.Invariant.{
  Calls, no_call, and_then, generating, approving, Calls-IsValid,
}
use athena_order_priority.Services.Schedule.Progress.{publish-current, draft-current}
use athena_order_priority.Services.Schedule.Lifecycle.{Calls-Follows}
use athena_order_priority.Services.Schedule.Ways.{Follows}

abbrev first_draft : ScheduleVersion
first_draft = new_version 1 [] (some 7) 100 draft

abbrev second_draft : ScheduleVersion
second_draft = new_version 2 [] (some 7) 200 draft

abbrev first_approved : ScheduleVersion
first_approved = stamp approved (some 8) 300 first_draft

abbrev second_approved : ScheduleVersion
second_approved = stamp approved (some 8) 400 second_draft

abbrev receipt : WritebackReceipt
receipt = record {
  mode = approval;
  status = sent;
  attempted_at = 500;
  entries_published = 0;
  approved_by = some 9;
}

abbrev rules : List ScheduleEntry → Bool
rules entries = true

generate_runs :
    generate [] (some 7) 200 (generate [] (some 7) 100 []) ≡ second_draft ∷ first_draft ∷ []
unfolding generate new_version
generate_runs = refl

approve_first :
    approve 1 (some 8) (codes "good") 300 (second_draft ∷ first_draft ∷ [])
    ≡ done (second_draft ∷ first_approved ∷ [])
unfolding approve new_version Schedule.checked_version Schedule.approve_checked find
approve_first = refl

-- The first version gives way to the second.
approve_second :
    approve 2 (some 8) (codes "better") 400 (second_draft ∷ first_approved ∷ [])
    ≡ done (second_approved ∷ stamp superseded none 400 first_approved ∷ [])
unfolding approve new_version Schedule.checked_version Schedule.approve_checked find
approve_second = refl

-- A draft is not published, and a plan that the rule rejects is not either.
publish_draft :
    publish controlled_auto rules 2
      (some 9)
      (codes "go")
      false
      500
      (second_draft ∷ first_approved ∷ [])
    ≡ conflict_error
unfolding publish new_version Schedule.checked_version find
publish_draft = refl

publish_refused :
    publish controlled_auto
      (λ entries. false)
      1
      (some 9)
      (codes "go")
      true
      500
      (second_draft ∷ first_approved ∷ [])
    ≡ integration_error
unfolding publish new_version Schedule.checked_version send Writeback.mock_receipt find
publish_refused = refl

approve-Calls : Calls [] (second_approved ∷ stamp superseded none 400 first_approved ∷ [])
unfolding generate new_version
approve-Calls =
    and_then [] (second_draft ∷ first_approved ∷ [])
      (second_approved ∷ stamp superseded none 400 first_approved ∷ [])
      (and_then [] (second_draft ∷ first_draft ∷ []) (second_draft ∷ first_approved ∷ [])
        (and_then [] (first_draft ∷ []) (second_draft ∷ first_draft ∷ [])
          (and_then [] [] (first_draft ∷ []) (no_call []) (generating [] (some 7) 100 []))
          (generating [] (some 7) 200 (first_draft ∷ [])))
        (approving 1 (some 8) (codes "good") 300 (second_draft ∷ first_draft ∷ [])
          (second_draft ∷ first_approved ∷ []) approve_first))
      (approving 2 (some 8) (codes "better") 400 (second_draft ∷ first_approved ∷ [])
        (second_approved ∷ stamp superseded none 400 first_approved ∷ []) approve_second)

empty-IsValid : IsValid []
unfolding filter
empty-IsValid = (tt, omega arith, omega arith)

Calls-IsValid_example : IsValid (second_approved ∷ stamp superseded none 400 first_approved ∷ [])
Calls-IsValid_example =
    Calls-IsValid [] (second_approved ∷ stamp superseded none 400 first_approved ∷ []) empty-IsValid
      approve-Calls

Calls-Follows_example :
    Follows (find 1 []) (find 1 (second_approved ∷ stamp superseded none 400 first_approved ∷ []))
Calls-Follows_example =
    Calls-Follows [] (second_approved ∷ stamp superseded none 400 first_approved ∷ []) 1
      approve-Calls

abbrev after_publish : List ScheduleVersion
after_publish =
    stamp published (some 9) 500 (Schedule.add_receipt receipt second_approved)
    ∷ stamp superseded none 400 first_approved
    ∷ []

publish_second :
    publish controlled_auto rules 2
      (some 9)
      (codes "go")
      false
      500
      (second_approved ∷ stamp superseded none 400 first_approved ∷ [])
    ≡ done after_publish
unfolding publish new_version Schedule.checked_version send Writeback.mock_receipt
    Schedule.publish_sent find
publish_second = refl

publish-current_example :
    (v : ScheduleVersion) × (get_current after_publish ≡ some v)
    × (v.version_number ≡ 2)
    × (v.status ≡ published)
    × (count is_live after_publish ≡ 1)
publish-current_example =
    publish-current controlled_auto rules 2 (some 9) (codes "go") false 500
      (second_approved ∷ stamp superseded none 400 first_approved ∷ []) after_publish
      Calls-IsValid_example publish_second

draft_store-IsValid : IsValid (second_draft ∷ first_approved ∷ [])
unfolding filter new_version
draft_store-IsValid = (((omega arith, tt), (tt, tt)), omega arith, omega arith)

draft_found : find 2 (second_draft ∷ first_approved ∷ []) ≡ some second_draft
unfolding find new_version
draft_found = refl

draft_sent : send controlled_auto rules 500 second_draft.entries (some 9) false ≡ done receipt
unfolding send Writeback.mock_receipt new_version
draft_sent = refl

draft-current_example :
    (between after : List ScheduleVersion) × (w : ScheduleVersion) × (approve 2
        (some 9)
        (codes "go")
        400
        (second_draft ∷ first_approved ∷ [])
      ≡ done between)
    × (publish controlled_auto rules 2 (some 9) (codes "go") false 500 between ≡ done after)
    × (get_current after ≡ some w)
    × (w.version_number ≡ 2)
    × (w.status ≡ published)
unfolding new_version
draft-current_example =
    draft-current controlled_auto rules 2 (some 9) (codes "go") false 400 500
      (second_draft ∷ first_approved ∷ []) second_draft receipt draft_store-IsValid refl draft_found
      refl draft_sent
