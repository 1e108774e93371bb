-- ===== src/Lib.antt =====
-- Athena order priority: a verified model of the planning core of the backend.
--
-- The backend plans a job shop: it scores open orders (backend/app/engines/priority), decides which
-- of them may run and in what order (backend/app/engines/scheduling), and places their operations
-- on machines whose working time a calendar gives (backend/app/engines/calendar). Planners steer it
-- with locks, overrides and expedites (backend/app/services, backend/app/domain/models.py), which
-- the engines read from one snapshot (backend/app/domain/snapshot.py). A plan is stored as a version,
-- which a planner approves and publishes (backend/app/services/schedule_service.py).
--
-- The files, and what they model:
--   Prelude             shared lists, sorts, dicts, integers and tests
--   Domain              backend/app/domain: TimeWindow, Machine, Material, Tooling, Order, Operation,
--                       ScheduleLock, PriorityOverride, Expedite, CustomerRule, ScheduleEntry, the
--                       enumerations, and the queries of PlanningSnapshot (Domain.Snapshot)
--   Calendar            backend/app/engines/calendar/calendar.py: merge_segments and
--                       subtract_segments (Segments), clipping to a range (Windows), ShiftPattern
--                       (Shifts), MachineCalendar (Machine), and next_working_time,
--                       add_work_minutes and working_minutes_between (Work)
--   Priority            backend/app/engines/priority: adjustments.py (Adjustments, Overrides),
--                       PriorityEngine._evaluate and make_factor_score (Engine), ranking.py (Ranking)
--   Constraints         backend/app/engines/constraints: hard.py (Hard, Pins), eligibility.py
--                       (Eligibility), the costs of soft.py (Soft), and of readiness.py the state
--                       of blockers and the wait for a machine (Readiness)
--   Scheduling          backend/app/engines/scheduling: place_on_calendar and place_span
--                       (Placement), find_slot (Slots) and rank_machines (Assignment) of
--                       machine_assignment.py, setup.py with estimate_setup of soft.py (Setup),
--                       timeline.py (Timeline, and add_entry in State), locks.py (Locks), state.py
--                       (State, Frozen), select_candidates (Candidates) with its sequence locks
--                       (Sequences), batching.py (Batching)
--   Replanning          backend/app/engines/replanning/stability.py: the reconciliation of
--                       apply_stability (Stability)
--   Services            backend/app/services: lock_service.py (LockService), the state machine of
--                       schedule_service.py (Schedule) over the rows of
--                       backend/app/db/repositories/schedule.py (Versions), and
--                       writeback_service.py with the gateways of
--                       backend/app/integration/writeback.py (Writeback); what a call does is an
--                       Outcome (Outcomes)
--   Integration         backend/app/integration/retry.py (Retry)
--   Examples            runs on small inputs
-- A module X.Laws, or a module under X named for what it proves, holds the theorems about X.
--
-- How the state corresponds: records are records, a dict is an association list in the order of
-- insertion, a set of ids is a list, and the functions keep their names. A method that changes an
-- object returns the changed one; an exception is a constructor of the result (Found in Calendar,
-- Outcome in Services). An instant is its count of microseconds and a duration too. Quantities,
-- points and scores are numbers of a fixed unit (one point is Priority.point of them, in which the
-- points of a day's waiting are exact), so the rounding of floats is not modelled. An identifier is
-- a number, in the order in which the source compares the texts.
--
-- Bounds and fuel: the walk over the days of a calendar is on fuel, enough to reach max_search_days
-- days without working time after the last day on which work can be done; each day either consumes
-- work or is counted towards that limit. The loop of place_on_calendar has a round for each
-- reserved window and one more. All other loops are structural.
--
-- Parameters: the time zone (zoneinfo) is a function from a local date and time to an instant; what a
-- priority factor finds is given by its kind, weight and raw score; apply_stability takes its two
-- tests on the snapshot (relevant work, a machine that can run) as functions; call_with_retry takes
-- what each attempt of the called function returns, and the writeback its rule for automatic
-- publishing; the entries of a generated version are what the engines plan.
--
-- Not modelled: the loop of the scheduler over its queue, the other checks of readiness (holds,
-- quality, approval, material, tooling, dependencies), the decision to replan, simulation, analytics,
-- data quality, the import from the ERP, the rest of the database, the API, the workers and the user
-- interface; within the modelled files, texts for people (reasons, explanations, logs, warnings).
pub mod Prelude
pub mod Domain
pub mod Calendar
pub mod Priority
pub mod Replanning
pub mod Constraints
pub mod Scheduling
pub mod Services
pub mod Integration
pub mod Examples
