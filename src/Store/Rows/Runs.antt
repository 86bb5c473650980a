-- ===== src/Store/Rows/Runs.antt =====
-- A key's runs, newest first, and the rows of runs.
use mathlib.Core.List.{Perm}
use Prim.Native.Nat.{min}
use shared_compute.Common.{
  ℕ, ◌≡◌, String, some, List, ◌++◌, map, length, take, drop, select, take-append-drop, length-take,
  str_eq, if◌then◌else◌, ◌==◌, arith,
}
use shared_compute.Common.Int64.{Int64}
use shared_compute.Common.Dict.{get-put}
use shared_compute.Common.Sort.{Sorter, IsSorted, IsWeakOrder}
use shared_compute.Store.{Mem, WorkloadRun}
use shared_compute.Store.Rows.{upsert_run, get_run, list_runs, list_limit, newer}

-- A run that is stored is read back, with the clock for a zero creation time; the others stay.
pub get_run-upsert_run :
    (now : ℕ) (r : WorkloadRun) (m : Mem) (id : String)
    → get_run (upsert_run now r m) id ≡ (
        if str_eq r.id id
        then some (record r { created_at = if r.created_at == 0 then now else r.created_at })
        else get_run m id)
unfolding get_run upsert_run
get_run-upsert_run now r m id = get-put m.runs r.id id _

newer-IsWeakOrder : IsWeakOrder newer
newer-IsWeakOrder = record { asym = λ a b h. ground arith; cotrans = λ a b c h g. ground arith }

-- What ListRuns lists and what it leaves out are together the key's runs, the listed ones first,
-- none behind one that is older; the list is cut at the limit and only there.
pub list_runs_lem :
    (sorter : Sorter WorkloadRun) (key_id : String) (limit : Int64) (m : Mem)
    → let listed = list_runs sorter key_id limit m in
      (rest : List WorkloadRun) × Perm
        (listed ++ rest)
        (select (λ r. str_eq r.key_id key_id) (map (λ e. e.1) m.runs))
      × IsSorted newer (listed ++ rest)
      × (length listed ≡ min (list_limit limit) (length (listed ++ rest)))
unfolding list_runs
list_runs_lem sorter key_id limit m = (
  drop (list_limit limit) all,
  rw whole (sorter.sort-perm newer own),
  rw whole (sorter.sort-IsSorted newer newer-IsWeakOrder own),
  rw whole (length-take (list_limit limit) all),
)
  where
    own : List WorkloadRun
    own = select (λ r. str_eq r.key_id key_id) (map (λ e. e.1) m.runs)

    all : List WorkloadRun
    all = sorter.sort newer own

    whole : take (list_limit limit) all ++ drop (list_limit limit) all ≡ all
    whole = take-append-drop (list_limit limit) all
