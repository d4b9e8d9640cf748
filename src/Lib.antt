-- ===== src/Lib.antt =====
-- Verification library of dls2, the software framework of the legged robots of the Dynamic Legged
-- Systems lab: applications with a state machine each, commands that one process calls in another
-- over DDS, events that are logged and orchestrated, and layers that launch child processes.
--
-- How the parts interact. An App (modules/application) owns a state machine
-- (modules/state_machine) whose activities are its own methods, a command manager
-- (modules/command) whose commands raise the machine's events, and a thread that monitors it.
-- Commands are found and called over DDS by name and owner. A StateMachineWatcher listens to the
-- states that the machines publish. Layers (modules/supervisor, modules/core_framework) are
-- applications that launch and stop other processes, by the command "shutdown" and, after two
-- seconds, by a signal. Anomalies are published as events (modules/log), at most one of a kind in a
-- while, and an orchestrator collects them in a priority queue. The control layer is such a layer: a
-- thread of it reads the control signals of its controllers and sends one signal to the robot, while
-- its commands load and unload them. A plugin (modules/plugin) is a periodic application that also
-- watches the topics of its inputs.
--
-- Which file models what:
--   StateMachine       class StateMachine (modules/state_machine/src/state_machine.cpp): raise_event,
--                      next_state, init, start, stop and the notifications.
--   Command            CommandBase, Command and CommandWithoutArgs (modules/command); Command/Wire
--                      the text of a call; Command/Levels the rules of levels.
--   CommandManager     modules/command/src/command_manager.cpp: the search, the level watcher, the
--                      operations on commands, calls (Calls, and Foreign for another owner's
--                      command) and their reception, the waits, getOwnersList and the destructor
--                      (Offers).
--   Application        App, ServiceBase and PeriodicApp: States the transition table, Rounds the
--                      waiting loops, Activities the activities, Monitor monitorApp and quit,
--                      Lifecycle execute and the loop of start, Graph and Arrows the moves of the
--                      activities; Shutdown, Stopping, Asked, Ends and Stale are about the
--                      requests to stop, and Inherited has the commands that every App has.
--   Waiting            utils::wait of modules/utils/src/utils.cpp.in.
--   Scheduler          executeEndLoopTask and the choice of the policy
--                      (modules/application/src/sched_utils.cpp); Scheduler/Attributes its
--                      configuration and the attributes of a policy.
--   Watcher            modules/state_machine/src/state_machine_watcher.cpp.
--   Log                the notifiers, the listener and the order of events
--                      (modules/log/src/event_logger.cpp); Log/Orchestrator the event queue of
--                      modules/supervisor/src/orchestrator_base.cpp, Log/Telemetry its thread.
--   AppLog             modules/log/src/app_logger.cpp with the loggers to the terminal and to a file.
--   Parameters         modules/parameter_server/src/parameter_server.cpp; Parameters/Client the service
--                      client and server of modules/service and parameter_client.cpp.
--   Registry           the loads and unloads of modules/supervisor/src/supervisor.cpp and
--                      modules/core_framework/src/estimation_layer.cpp; Registry/Requests the call of
--                      a layer's command, Registry/Estimators the commands of the estimation layer
--                      (Registry/Handling is about their calls, Registry/Ending about its close),
--                      Registry/Health the check of
--                      modules/application/include/dls2/application/layer.tpp.
--   Services           modules/core_framework/src/service_layer.cpp.
--   Control            the gathering thread of modules/core_framework/src/control_layer.cpp.in, with the
--                      control modes of modules/controller; Torques, Sharing, Turns, Shared, Setpoint,
--                      Fault and Period are about it. Control/Layer the maps of controllers and
--                      motion generators and the commands on them; Kept, Answers, Settled, Levels,
--                      Closed, Ending and Handling are about those, Inherited about the calls
--                      after a close.
--   Supervisor         the monitor of modules/supervisor/src/supervisor.cpp and what it knows of
--                      layers; Supervisor/Commands the commands of its constructor, over Registry,
--                      Supervisor/Procedure one of them, Supervisor/Registered and Supervisor/Ending
--                      what they keep.
--   PeriodicApp        modules/application/src/periodic_app.cpp beside its activities, and the time
--                      factor of modules/time/src/time.cpp; PeriodicApp/Timing its frequency check
--                      and the search of the scheduler file.
--   Window             modules/utils/include/dls2/util/numerical_moving_window.tpp; Window/Ring and
--                      Window/Extrema the lists behind it, Window/Refinement its invariant,
--                      Window/Statistics runs of pushes and clears, Window/Deviation the
--                      standard deviation, Window/Profiler
--                      modules/utils/include/dls2/util/profiler.hpp.
--   Resources          modules/utils/src/system_resource_monitor.cpp; Resources/Process
--                      process_resource_monitor.cpp, Resources/Process/Stat the stat line.
--   Topics             modules/plugin/src/topic_monitor.cpp.
--   Plugin             modules/plugin/src/periodic_app_plugin.cpp, over Topics and PeriodicApp;
--                      Plugin/Reports and Plugin/Monitor are about what a round reports.
--   Postures           modules/motion_generator/src/motion_generator.cpp.
--   Shutdown           OwnedProcess and shutdownProcesses of
--                      modules/utils/include/dls2/util/owned_process.hpp; Shutdown/Signals the thread of
--                      shutdown_signal.hpp beside it, Shutdown/Install its installation.
--   Rotations          the quaternions and the Euler angles of
--                      modules/math/include/dls2/math/rotations.hpp, the skew matrices of algebra.hpp
--                      there, over the numbers of Rotations/Numbers; Rotations/Conversions the other
--                      conversions, Rotations/Omega the angular velocity, Rotations/Algebra the
--                      pseudo-inverses of algebra.hpp.
--   Pose               modules/utils/src/pose.cpp; Pose/Locks its mutexes, Pose/Laws the operators.
--   Screw              modules/utils/src/screw.cpp and modules/math/include/dls2/math/ramp.tpp.
--   Common             tests, lists and maps over native numbers; Examples runs at fixed inputs.
--
-- Conventions. A text is the list of its bytes. A std::map is an association list, and no
-- definition depends on the order of its keys but Registry.close, Control.Layer.close and
-- Registry.Health.stopped_keys, which take them as they stand, as Control.gather takes the
-- controllers. The clock, what DDS discovers, what other threads raise, and whether a process runs
-- are arguments. A null pointer, an iterator past the end and an exception are `none`. Messages
-- sent are kept in a list. Usages and frequencies are quotients of whole numbers, a numerator and a
-- denominator; how the code rounds a quotient into a double is a parameter, and sums of a window
-- are exact.
--
-- Loops and their bounds. An activity's loop, utils::wait, quit's wait and the loop of start run on the
-- list of what they meet (rounds, polls, rounds of the monitor, activities), and `none` means that
-- they still run at its end. Such a list is as long as the caller likes: polls whose sleeps add up to
-- the timeout are enough for utils::wait, and three activities for the loop of start after stop(),
-- if the app is not paused: the pause of a periodic app is a list of the tests of its wait, and
-- nothing but unpausing ends it.
-- The waits of shutdownProcesses run on fuel: a poll for each 20 ms of the longest wait, and one more,
-- is enough where a sleep takes 20 ms at least.
-- The circular buffer of boost is an interface with the laws that its documentation states; the one
-- of the gathering thread is the function that adds to it. A write past the end of a vector is `none`,
-- and so is a lock that its own thread holds.
--
-- Not modelled. DDS and its quality of service; the mutexes and condition variables, whose critical
-- sections are single steps, but for the mutexes of poses; floating-point values (the spamming
-- threshold and the effective period are whole nanoseconds, frequencies and variances quotients of
-- whole numbers, the root of a variance an argument); the log messages of the components, and
-- what where() and "ls" print; the scheduler's system calls, whose answers are arguments; Eigen's
-- decompositions and the C library's functions, which are arguments of the geometry; the Python
-- bindings, the console and hardware layers, the generated plugins and the start-up of processes.
-- The indices of EventListener are unbounded here, and 63-bit in the code. The calls of a layer's
-- commands are those that its constructor adds; those that it has as an App are modelled with the
-- supervisor and with a closed control layer, and change the level only: the events that they raise
-- belong to the state machine, which these models leave out.

pub mod Common
pub mod StateMachine
pub mod Command
pub mod CommandManager
pub mod Control
pub mod Application
pub mod Waiting
pub mod Rotations
pub mod Scheduler
pub mod Topics
pub mod Watcher
pub mod Window
pub mod Log
pub mod AppLog
pub mod Parameters
pub mod Pose
pub mod PeriodicApp
pub mod Plugin
pub mod Postures
pub mod Registry
pub mod Resources
pub mod Screw
pub mod Services
pub mod Shutdown
pub mod Supervisor
pub mod Examples
