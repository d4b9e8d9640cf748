-- ===== src/Application/Activities.antt =====
-- The activities of an App (modules/application/src/app.cpp) and of the classes that override `run`
-- and `deactivating` (Layer, ServiceBase, PeriodicApp). Log messages, scheduling policies and the
-- resource monitor change none of the fields here and are left out; the pause of a periodic app
-- stands in the rounds of its loops.
use dls.Common.{
  ℕ, Bool, true, false, ◌||◌, Option, some, List, [], ◌∷◌, Text, codes, if◌then◌else◌, pair_eq,
}
use dls.Command.{with_args, set_enabled, set_disabled, all_states_except_zero}
use dls.CommandManager.{CommandManager, ◌>>=◌, new_manager, add_command, at_command, trigger}
use dls.StateMachine.{raise_event, is_raised, next_state, next_state_async}
use dls.Application.States.{AppEvent, AppStatus, Machine, state_eq, event_eq, new_machine}
use dls.Application.Rounds.{Round, loop, wait_asynch_event}

pub record App : Type 0 where
  pub id : Text
  pub sm : Machine
  pub command_manager : CommandManager
  pub status : AppStatus
  pub should_quit : Bool
  pub can_die : Bool
  pub is_paused : Bool

-- addCommand<>(name, doc, std::function<bool()>, level, enabled); each function returns true
unfoldable pub app_command : Text → List (ℕ × ℕ) → Bool → CommandManager → CommandManager
unfolding add_command
app_command name level enabled m = add_command with_args name 0 (λ args. true) level enabled m

-- the constructor
unfoldable pub new_app : Text → ℕ → App
unfolding new_machine new_manager app_command
new_app id now =
    let m0 = new_manager id in
    let m1 = app_command (codes "shutdown") [] true m0 in
    let m2 = app_command (codes "where") [] true m1 in
    let m3 = app_command (codes "activate") ((0, 1) ∷ []) false m2 in
    let m4 = app_command (codes "stopActivation") ((1, 0) ∷ []) false m3 in
    let m5 = app_command (codes "deactivate") ((all_states_except_zero, 0) ∷ []) false m4 in
    record {
      id = id;
      sm = new_machine now;
      command_manager = m5;
      status = AppStatus.initialising;
      should_quit = false;
      can_die = false;
      is_paused = false;
    }

-- command_manager.getCommand(name)->setEnabled(): the constructor has added every name used
unfoldable pub enable : Text → App → App
unfolding at_command
enable name a = record a { command_manager = at_command set_enabled name a.command_manager }

unfoldable pub disable : Text → App → App
unfolding at_command
disable name a = record a { command_manager = at_command set_disabled name a.command_manager }

-- command_manager.triggerLevelWatcher()
unfoldable pub trigger_level_watcher : App → App
unfolding trigger
trigger_level_watcher a = record a { command_manager = trigger a.command_manager }

-- sm.nextState(event), for a plain and an asynchronous event
unfoldable pub go : AppEvent → ℕ → App → App
unfolding next_state
go ev now a = record a { sm = next_state ev now a.sm }

unfoldable pub go_async : AppEvent → ℕ → App → App
unfolding next_state_async
go_async ev now a = record a { sm = next_state_async ev now a.sm }

-- stop(): what the command "shutdown" and eStop() call
unfoldable pub stop : ℕ → App → App
unfolding raise_event
stop now a = record a { sm = (raise_event AppEvent.quit_request now a.sm).0 }

-- the first of two requests that is raised
unfoldable pub go_first : AppEvent → AppEvent → ℕ → App → App
unfolding is_raised go_async
go_first first second now a =
    if is_raised first a.sm
    then go_async first now a
    else if is_raised second a.sm
    then go_async second now a
    else a

-- idle()
unfoldable pub idle : List (List (AppEvent × ℕ)) → ℕ → App → Option App
unfolding wait_asynch_event go_first enable trigger_level_watcher
idle rounds now a =
    let b = trigger_level_watcher (enable (codes "activate") a) in
    do
      m ← wait_asynch_event (AppEvent.activation_request ∷ AppEvent.quit_request ∷ []) rounds b.sm
      some (go_first AppEvent.activation_request AppEvent.quit_request now (record b { sm = m }))

-- the tests of the loops
unfoldable pub stop_or_quit : Machine → Bool
unfolding is_raised
stop_or_quit m = is_raised AppEvent.stop_activation m || is_raised AppEvent.quit_request m

unfoldable pub deactivate_or_quit : Machine → Bool
unfolding is_raised
deactivate_or_quit m =
    is_raised AppEvent.deactivation_request m || is_raised AppEvent.quit_request m

unfoldable pub quit_raised : Machine → Bool
unfolding is_raised
quit_raised m = is_raised AppEvent.quit_request m

-- what activation() does after its loop
unfoldable pub activation_end : ℕ → Bool → App → App
unfolding is_raised go go_async enable disable trigger_level_watcher
activation_end now true a = go AppEvent.activated now (
    trigger_level_watcher (
      enable (codes "deactivate")
        (disable (codes "stopActivation") (disable (codes "activate") a))))
activation_end now false a =
    if is_raised AppEvent.stop_activation a.sm
    then go_async AppEvent.stop_activation now
        (trigger_level_watcher (disable (codes "stopActivation") a))
    else go_async AppEvent.quit_request now a

-- activation(); the outcome of a round is that of checkActivation()
unfoldable pub activation : List Round → ℕ → App → Option App
unfolding loop stop_or_quit activation_end enable trigger_level_watcher
activation rounds now a =
    let b = trigger_level_watcher (enable (codes "stopActivation") a) in
    do
      (m, activate) ← loop stop_or_quit rounds false b.sm
      some (activation_end now activate (record b { sm = m }))

-- PeriodicApp::run(); the outcome of a round is that of checkFailure()
unfoldable pub run : List Round → ℕ → App → Option App
unfolding loop deactivate_or_quit go go_first
run rounds now a = do
  (m, failure) ← loop deactivate_or_quit rounds false a.sm
  let b = record a { sm = m }
  some (
      if failure
      then go AppEvent.failure now b
      else go_first AppEvent.deactivation_request AppEvent.quit_request now b)

-- Layer::run() and ServiceBase::run()
unfoldable pub run_layer : List (List (AppEvent × ℕ)) → ℕ → App → Option App
unfolding wait_asynch_event go_first
run_layer rounds now a = do
  m ← wait_asynch_event (AppEvent.deactivation_request ∷ AppEvent.quit_request ∷ []) rounds a.sm
  some (go_first AppEvent.deactivation_request AppEvent.quit_request now (record a { sm = m }))

-- what App::deactivation() does with the result of deactivating()
unfoldable pub deactivation_end : ℕ → Bool → App → App
unfolding is_raised go go_async disable trigger_level_watcher
deactivation_end now deactivated a =
    if is_raised AppEvent.quit_request a.sm
    then go_async AppEvent.quit_request now a
    else if deactivated
    then go AppEvent.deactivated now (trigger_level_watcher (disable (codes "deactivate") a))
    else go_async AppEvent.quit_request now a

-- deactivation() with PeriodicApp::deactivating(); the outcome of a round is that of the virtual
-- deactivation(time)
unfoldable pub deactivation : List Round → ℕ → App → Option App
unfolding loop quit_raised deactivation_end
deactivation rounds now a = do
  (m, deactivated) ← loop quit_raised rounds false a.sm
  some (deactivation_end now deactivated (record a { sm = m }))

-- deactivation() with App::deactivating(), which returns true
unfoldable pub deactivation_app : ℕ → App → App
unfolding deactivation_end
deactivation_app now a = deactivation_end now true a

-- fail()
unfoldable pub fail : List (List (AppEvent × ℕ)) → ℕ → App → Option App
unfolding wait_asynch_event go_first
fail rounds now a = do
  m ← wait_asynch_event (AppEvent.deactivation_request ∷ AppEvent.quit_request ∷ []) rounds a.sm
  some (go_first AppEvent.deactivation_request AppEvent.quit_request now (record a { sm = m }))
