-- ===== src/Schedules.antt =====
-- Schedules and their history: the records of internal/runtime/schedule.go, and what the in-memory store
-- of internal/runtime/memory_storage.go does with them. Instants are nanoseconds since the zero time; raw
-- JSON is its text, and a spec the list of its bytes. The saves run in transactions, and the error of their
-- context is that of the transaction.
pub mod Saved
pub mod Pages
pub mod Whole
use lebro.Common.{
  ℕ, String, Bool, true, false, not, ◌&&◌, ◌||◌, Option, none, some, List, [], ◌∷◌, ◌++◌, str_eq,
  ltb, if◌then◌else◌,
}
use lebro.Strings.{Text}

pub record ScheduleRecord : Type 0 where
  pub id : String
  pub workflow_id : String
  pub namespace : String
  pub owner_id : String
  pub spec : Text
  pub paused : Bool
  pub concurrency : String
  pub input : String
  pub metadata : String
  pub next_fire_at : Option ℕ
  pub last_fire_at : Option ℕ
  pub wake_run_id : String
  pub wake_token : String
  pub created_at : ℕ
  pub updated_at : ℕ

pub data ScheduleExecStatus : Type 0 where
  succeeded : ScheduleExecStatus
  failed : ScheduleExecStatus
  skipped : ScheduleExecStatus
  missed : ScheduleExecStatus

pub record ScheduleExecutionRecord : Type 0 where
  pub id : String
  pub schedule_id : String
  pub run_id : String
  pub namespace : String
  pub owner_id : String
  pub status : ScheduleExecStatus
  pub scheduled_for : ℕ
  pub started_at : ℕ
  pub finished_at : Option ℕ
  pub error : String

pub record ScheduleFilter : Type 0 where
  pub workflow_id : String
  pub due_by : Option ℕ
  pub namespace : String
  pub owner_id : String

-- A field of a filter that is set to another value.
abbrev other : (wanted actual : String) → Bool
other wanted actual = not (str_eq wanted "") && not (str_eq actual wanted)

-- scheduleMatchesFilter, its part on DueBy
unfoldable pub matches_due : ScheduleRecord → Option ℕ → Bool
matches_due schedule none = true
matches_due schedule (some by) = elim schedule.next_fire_at [
  | none ↦ false
  | some at ↦ not (schedule.paused || ltb by at)
]

unfoldable pub schedule_matches_filter : ScheduleRecord → ScheduleFilter → Bool
unfolding matches_due
schedule_matches_filter schedule filter =
    if other filter.workflow_id schedule.workflow_id
    then false
    else if other filter.namespace schedule.namespace
    then false
    else if other filter.owner_id schedule.owner_id
    then false
    else matches_due schedule filter.due_by

-- The part of memoryState for schedules. The map of schedules is its list of records; executionIDs has
-- the IDs of the executions.
pub record ScheduleStore : Type 0 where
  pub schedules : List ScheduleRecord
  pub executions : String → List ScheduleExecutionRecord

pub data StoreError : Type 0 where
  ids_required : StoreError
  spec_required : StoreError
  invalid_json : StoreError
  unserializable : StoreError
  not_found : StoreError
  already_exists : StoreError
  invalid_page : StoreError
  -- the error of a cancelled context, or ErrConflict
  interrupted : String → StoreError

pub data Stored (A : Type 0) : Type 0 where
  fault : StoreError → Stored A
  stored : A → Stored A

-- encoding/json: Valid, and whether Marshal succeeds on a record.
pub record Encoding : Type 0 where
  pub valid : String → Bool
  pub schedule_json : ScheduleRecord → Bool
  pub execution_json : ScheduleExecutionRecord → Bool

unfoldable pub find_schedule : String → List ScheduleRecord → Option ScheduleRecord
find_schedule id [] = none
find_schedule id (s ∷ rest) = if str_eq s.id id then some s else find_schedule id rest

unfoldable pub put_schedule : ScheduleRecord → List ScheduleRecord → List ScheduleRecord
put_schedule v [] = v ∷ []
put_schedule v (s ∷ rest) =
    let behind = put_schedule v rest in if str_eq s.id v.id then v ∷ rest else s ∷ behind

unfoldable pub has_execution : String → List ScheduleExecutionRecord → Bool
has_execution id [] = false
has_execution id (e ∷ rest) = str_eq e.id id || has_execution id rest

-- validateJSON
abbrev validate_json : Encoding → String → Bool
validate_json enc value = str_eq value "" || enc.valid value

unfoldable pub save_schedule : Encoding → ScheduleRecord → ScheduleStore → Stored ScheduleStore
unfolding put_schedule
save_schedule enc v s =
    if str_eq v.id "" || str_eq v.workflow_id ""
    then fault ids_required
    else if (elim v.spec [ [] ↦ true | _ ∷ _ ↦ false ])
    then fault spec_required
    else if not (validate_json enc v.input && validate_json enc v.metadata)
    then fault invalid_json
    else if not (enc.schedule_json v)
    then fault unserializable
    else stored (record { schedules = put_schedule v s.schedules; executions = s.executions })

unfoldable pub get_schedule : String → ScheduleStore → Stored ScheduleRecord
unfolding find_schedule
get_schedule id s = elim (find_schedule id s.schedules) [
  | none ↦ fault not_found
  | some v ↦ stored v
]

-- s.executions[id] = append(s.executions[id], v)
abbrev pub append_execution :
    ScheduleExecutionRecord
    → (String → List ScheduleExecutionRecord)
    → String
    → List ScheduleExecutionRecord
append_execution v executions id =
    if str_eq id v.schedule_id then executions id ++ (v ∷ []) else executions id

unfoldable pub save_schedule_execution :
    Encoding → ScheduleExecutionRecord → ScheduleStore → Stored ScheduleStore
unfolding find_schedule has_execution
save_schedule_execution enc v s =
    if str_eq v.id "" || str_eq v.schedule_id ""
    then fault ids_required
    else if not (enc.execution_json v)
    then fault unserializable
    else elim (find_schedule v.schedule_id s.schedules) [
      | none ↦ fault not_found
      | some _ ↦
          if has_execution v.id (s.executions v.schedule_id)
          then fault already_exists
          else stored
              (record { schedules = s.schedules; executions = append_execution v s.executions })
    ]

-- MemoryStore.Transaction on the store and what the callback makes of its copy; `late` is the error of
-- a context that is cancelled meanwhile, or of a concurrent write.
unfoldable pub transaction :
    Option StoreError
    → (ScheduleStore → Stored ScheduleStore)
    → ScheduleStore
    → ScheduleStore × Option StoreError
transaction late body s = elim (body s) [
  | fault e ↦ (s, some e)
  | stored s' ↦ elim late [ some e ↦ (s, some e) | none ↦ (s', none) ]
]
