-- ===== src/Registry/Health.antt =====
-- Layer::checkAppDataImpl (modules/application/include/dls2/application/layer.tpp): the layer's report of
-- the processes that have stopped. Whether a process runs, and the times of the notification for a
-- key, are arguments; the keys come in the order of the map's list.
use dls.Common.{
  ℕ, ◌+◌, ◌<◌, ◌≡◌, refl, Bool, true, none, some, List, [], ◌∷◌, ◌++◌, if◌then◌else◌, Text, codes,
  nat_eq, arith,
}
use dls.Common.Map.{find, find-assign_self}
use dls.Log.{RobustEventNotifier, notify_robust, process_died, error}
use dls.Registry.{Process, AppData}

-- the keys in `stopped`
unfoldable pub stopped_keys : (Process → Bool) → List (Text × AppData) → List Text
stopped_keys running [] = []
stopped_keys running ((key, data_) ∷ rest) =
    let others = stopped_keys running rest in
    elim data_.proc [
      | none ↦ others
      | some process ↦ if running process then others else key ∷ others
    ]

unfoldable pub message : Text → Text → Text
message id key = id ++ (codes ": " ++ (key ++ codes " is not running"))

-- the loop of the notifications
unfoldable pub notify_stopped :
    Text → (Text → ℕ × ℕ) → List Text → RobustEventNotifier → RobustEventNotifier
unfolding notify_robust message
notify_stopped id clock [] n = n
notify_stopped id clock (key ∷ keys) n =
    notify_stopped id clock keys
      (notify_robust process_died error (message id key) (clock key).0 (clock key).1 n)

-- checkAppData(app_data); the first argument is enable_process_died
unfoldable pub check_app_data :
    Bool
    → (Process → Bool)
    → (Text → ℕ × ℕ)
    → Text
    → List (Text × AppData)
    → RobustEventNotifier
    → RobustEventNotifier
unfolding notify_stopped stopped_keys
check_app_data enable running clock id app_data n =
    notify_stopped id clock (if enable then stopped_keys running app_data else []) n

notify_robust-quiet :
    (msg : Text) (now stamp last : ℕ) (n : RobustEventNotifier)
    → find process_died n.last_event_pub_time ≡ some last
    → now < last + n.spamming_threshold
    → 0 < n.spamming_threshold
    → notify_robust process_died error msg now stamp n ≡ n
unfolding notify_robust
notify_robust-quiet msg now stamp last n seen soon pos = ground arith

notify_robust-first :
    (msg : Text) (now stamp : ℕ) (n : RobustEventNotifier)
    → find process_died n.last_event_pub_time ≡ none
    → let n' = notify_robust process_died error msg now stamp n in
      (find process_died n'.last_event_pub_time ≡ some now)
      × (n'.spamming_threshold ≡ n.spamming_threshold)
unfolding notify_robust
notify_robust-first msg now stamp n never =
    ground (arith, find-assign_self process_died now n.last_event_pub_time)

notify_stopped-quiet :
    (id : Text) (clock : Text → ℕ × ℕ) (keys : List Text) (n : RobustEventNotifier) (last : ℕ)
    → find process_died n.last_event_pub_time ≡ some last
    → ((key : Text) → (clock key).0 < last + n.spamming_threshold)
    → 0 < n.spamming_threshold
    → notify_stopped id clock keys n ≡ n
unfolding notify_stopped
notify_stopped-quiet id clock [] n last seen soon pos = refl
notify_stopped-quiet id clock (key ∷ keys) n last seen soon pos =
    rw (notify_robust-quiet (message id key) (clock key).0 (clock key).1 last n seen (soon key) pos)
      (notify_stopped-quiet id clock keys n last seen soon pos)

-- A check by a layer that has reported no stopped process before reports the first one that it
-- finds, and no other that it finds before the threshold is over.
pub check_app_data-first :
    (running : Process → Bool) (clock : Text → ℕ × ℕ) (id key : Text) (keys : List Text)
    (app_data : List (Text × AppData)) (n : RobustEventNotifier)
    → stopped_keys running app_data ≡ key ∷ keys
    → find process_died n.last_event_pub_time ≡ none
    → ((other : Text) → (clock other).0 < (clock key).0 + n.spamming_threshold)
    → let n' = check_app_data true running clock id app_data n in
      (n' ≡ notify_robust process_died error (message id key) (clock key).0 (clock key).1 n)
      × (find process_died n'.last_event_pub_time ≡ some (clock key).0)
unfolding check_app_data
check_app_data-first running clock id key keys app_data n found never soon =
    let n1 = notify_robust process_died error (message id key) (clock key).0 (clock key).1 n in
    let (seen, same) = notify_robust-first (message id key) (clock key).0 (clock key).1 n never in
    let near : (other : Text) → (clock other).0 < (clock key).0 + n1.spamming_threshold =
      λ other. rw same (soon other) in
    let pos : 0 < n1.spamming_threshold = omega (arith, near key) in
    let quiet = notify_stopped-quiet id clock keys n1 (clock key).0 seen near pos in
    let whole : check_app_data true running clock id app_data n ≡ n1 =
      rw found (unfold notify_stopped in quiet) in
    (whole, rw whole seen)
