-- ===== src/Control/Inherited.antt =====
-- The commands of a control layer after its close: those of its constructor
-- (modules/core_framework/src/control_layer.cpp.in) and those that it has as an App.
use dls.Common.{
  ℕ, ◌≡◌, refl, ap, sym, ◌∙◌, Bool, false, Option, some, List, [], ◌∷◌, Text, nat_eq, arith,
  if◌then◌else◌, Bool-cases, inl, inr,
}
use dls.Common.Map.{find}
use dls.Command.{get_next_level, test_level}
use dls.CommandManager.{CommandManager, ◌>>=◌, change_level}
use dls.Application.Inherited.{
  AppRequest, inherited, is_deactivate, moved_level, inherited_level, inherited_hidden,
}
use dls.Control.Layer.{ControlLayer, close, Request, answer, settle, handle}
use dls.Control.Answers.{level-change_level}
use dls.Control.Closed.{AllStopped, IsClosed, close-IsClosed, is_python}

-- a call of an inherited command, at a level where it is offered
unfoldable pub handle_inherited : AppRequest → ControlLayer → Option ControlLayer
unfolding test_level get_next_level inherited change_level
handle_inherited r s =
    if test_level (inherited r) s.command_manager.level
    then (do
      next ← get_next_level (inherited r) s.command_manager.level
      some (record s { command_manager = change_level next s.command_manager }))
    else some s

-- a call of any command of the layer
pub data LayerCall : Type 0 where
  own_call : Request → LayerCall
  inherited_call : AppRequest → LayerCall

unfoldable pub handle_call :
    Text → List (Text × Text) → LayerCall → ControlLayer → Option ControlLayer
unfolding handle handle_inherited
handle_call dir cmds (own_call r) s = handle dir cmds r s
handle_call dir cmds (inherited_call r) s = handle_inherited r s

unfoldable pub handle_calls :
    Text → List (Text × Text) → List LayerCall → ControlLayer → Option ControlLayer
unfolding handle_call
handle_calls dir cmds [] s = some s
handle_calls dir cmds (c ∷ cs) s = do s' ← handle_call dir cmds c s; handle_calls dir cmds cs s'

-- no call of loadPythonController, nor of deactivate
abbrev pub is_calm : LayerCall → Bool
is_calm (own_call r) = is_python r
is_calm (inherited_call r) = is_deactivate r

abbrev pub AllCalm : List LayerCall → Type 0
AllCalm [] = Unit
AllCalm (c ∷ cs) = (is_calm c ≡ false) × AllCalm cs

-- the level after calls of which only the inherited ones move it
abbrev pub level_after : List LayerCall → ℕ → ℕ
level_after [] level = level
level_after (own_call r ∷ cs) level = level_after cs level
level_after (inherited_call r ∷ cs) level = level_after cs (moved_level r level)

-- On a closed layer each of the other commands answers false and changes nothing.
answer-closed :
    (dir : Text) (cmds : List (Text × Text)) (r : Request) (s : ControlLayer)
    → is_python r ≡ false
    → IsClosed s
    → answer dir cmds r s ≡ some (s, false)
unfolding answer find
answer-closed dir cmds r s no_ ok = ground (arith, ok.closing, ok.controllers, ok.generators)

handle-closed :
    (dir : Text) (cmds : List (Text × Text)) (r : Request) (s : ControlLayer)
    → is_python r ≡ false
    → IsClosed s
    → handle dir cmds r s ≡ some s
unfolding handle settle
handle-closed dir cmds r s no_ ok = ground (arith, answer-closed dir cmds r s no_ ok)

-- what calls leave of a closed layer
record IsMoved (reached : ℕ) (s s' : ControlLayer) : Type 0 where
  closed : IsClosed s'
  same : s' ≡ record s { command_manager = s'.command_manager }
  level : s'.command_manager.level ≡ reached
  sent : s'.command_manager.sent ≡ s.command_manager.sent

sent-change_level : (level : ℕ) (m : CommandManager) → (change_level level m).sent ≡ m.sent
unfolding change_level
sent-change_level level m = ground arith

IsMoved-refl : (s : ControlLayer) → IsClosed s → IsMoved s.command_manager.level s s
IsMoved-refl s ok = record { closed = ok; same = refl; level = refl; sent = refl }

handle_inherited-IsMoved :
    (r : AppRequest) (s : ControlLayer)
    → is_deactivate r ≡ false
    → IsClosed s
    → (s' : ControlLayer) × (handle_inherited r s ≡ some s')
      × IsMoved (moved_level r s.command_manager.level) s s'
unfolding handle_inherited
handle_inherited-IsMoved r s no_ ok =
    let level = s.command_manager.level in
    elim (Bool-cases (test_level (inherited r) level)) [
      | inl shown ↦
          let next = moved_level r level in
          (
            record s { command_manager = change_level next s.command_manager },
            rw (shown, inherited_level r level no_ shown) refl,
            record {
              closed = record {
                controllers = ok.controllers;
                generators = ok.generators;
                closing = ok.closing;
              };
              same = refl;
              level = (level-change_level next s.command_manager).0;
              sent = sent-change_level next s.command_manager;
            },
          )
      | inr hidden ↦ (s, rw hidden refl, rw (inherited_hidden r level hidden) (IsMoved-refl s ok))
    ]

handle_call-IsMoved :
    (dir : Text) (cmds : List (Text × Text)) (c : LayerCall) (s : ControlLayer)
    → is_calm c ≡ false
    → IsClosed s
    → (s' : ControlLayer) × (handle_call dir cmds c s ≡ some s')
      × IsMoved (level_after (c ∷ []) s.command_manager.level) s s'
unfolding handle_call
handle_call-IsMoved dir cmds (own_call r) s no_ ok =
    (s, handle-closed dir cmds r s no_ ok, IsMoved-refl s ok)
handle_call-IsMoved dir cmds (inherited_call r) s no_ ok = handle_inherited-IsMoved r s no_ ok

level_after-∷ :
    (c : LayerCall) (cs : List LayerCall) (level : ℕ)
    → level_after (c ∷ cs) level ≡ level_after cs (level_after (c ∷ []) level)
level_after-∷ (own_call r) cs level = refl
level_after-∷ (inherited_call r) cs level = refl

handle_calls-IsMoved :
    (dir : Text) (cmds : List (Text × Text)) (cs : List LayerCall) (s : ControlLayer)
    → AllCalm cs
    → IsClosed s
    → (s' : ControlLayer) × (handle_calls dir cmds cs s ≡ some s')
      × IsMoved (level_after cs s.command_manager.level) s s'
unfolding handle_calls
handle_calls-IsMoved dir cmds [] s calm ok = (s, refl, IsMoved-refl s ok)
handle_calls-IsMoved dir cmds (c ∷ cs) s (no_, calm) ok =
    let (t, first, one) = handle_call-IsMoved dir cmds c s no_ ok in
    let (u, rest, last) = handle_calls-IsMoved dir cmds cs t calm one.closed in
    (
      u,
      ground (arith, first, rest),
      record {
        closed = last.closed;
        same =
            last.same
            ∙ ap {A = ControlLayer} {B = ControlLayer}
                (λ l. record l { command_manager = u.command_manager }) one.same;
        level =
            last.level
            ∙ ap (level_after cs) one.level
            ∙ sym (level_after-∷ c cs s.command_manager.level);
        sent = last.sent ∙ one.sent;
      },
    )

-- A close of the control layer that is over has stopped each process of both maps (a poll made
-- within 2 s saw it ended, or it is killed) and emptied the maps. Any sequence of calls after it, of
-- the seven loads and unloads of its constructor and of the commands that every App has, in which
-- neither loadPythonController nor deactivate occurs, ends and changes nothing of the layer but its
-- command manager: no message is sent, and only activate, from 0 to 1, and stopActivation, from
-- 1 to 0, move the level.
pub closed_lasts :
    (dir : Text) (cmds later : List (Text × Text)) (polls : Text → List (Bool × ℕ))
    (cs : List LayerCall) (s t : ControlLayer)
    → close cmds polls s ≡ some t
    → AllCalm cs
    → AllStopped polls t.killed s.motion_generators
      × AllStopped polls t.killed s.controllers
      × (t.motion_generators ≡ [])
      × (t.controllers ≡ [])
      × ((u : ControlLayer) × (handle_calls dir later cs t ≡ some u)
          × (u ≡ record t { command_manager = u.command_manager })
          × (u.command_manager.sent ≡ t.command_manager.sent)
          × (u.command_manager.level ≡ level_after cs t.command_manager.level))
closed_lasts dir cmds later polls cs s t closed calm =
    let (ok, generators, controllers) = close-IsClosed cmds polls s t closed in
    let (u, over, moved) = handle_calls-IsMoved dir later cs t calm ok in
    (
      generators,
      controllers,
      ok.generators,
      ok.controllers,
      (u, over, moved.same, moved.sent, moved.level),
    )
