-- ===== src/Control/Answers.antt =====
-- What a request that the control layer answers leaves of its maps and its level.
use dls.Common.{
  ℕ, ◌+◌, ◌≡◌, refl, Bool, true, false, Option, none, some, List, [], ◌∷◌, if◌then◌else◌, Text,
  text_eq, text_beq_iff, nat_eq, arith,
}
use dls.Common.Map.{find, contains, emplace, erase, find-erase, find-emplace_new}
use dls.CommandManager.{CommandManager, change_level}
use dls.Registry.{Process, AppData}
use dls.Control.Layer.{ControlLayer, add_controller, is_empty, Request, transitions}
use dls.Control.Kept.{IsKept}

-- 1 where there are motion generators, and 2 more where there are controllers
abbrev pub level_of : ControlLayer → ℕ
level_of s =
    (if is_empty s.motion_generators then 0 else 1) + (if is_empty s.controllers then 0 else 2)

abbrev pub IsNamed : List (Text × AppData) → Type 0
IsNamed m = (name : Text) (d : AppData) → find name m ≡ some d → d.id ≡ name

pub record IsLevelled (s : ControlLayer) : Type 0 where
  pub level : s.command_manager.level ≡ level_of s
  pub named_controllers : IsNamed s.controllers
  pub named_generators : IsNamed s.motion_generators

pub level-change_level :
    (l : ℕ) (m : CommandManager)
    → ((change_level l m).level ≡ l) × ((change_level l m).owner ≡ m.owner)
unfolding change_level
level-change_level l m = ground arith

-- what a request that is over leaves, by what it answers
pub record IsAnswered (r : Request) (s s' : ControlLayer) (ok : Bool) : Type 0 where
  pub same_level : s'.command_manager.level ≡ s.command_manager.level
  pub same_owner : s'.command_manager.owner ≡ s.command_manager.owner
  pub named_controllers : IsNamed s'.controllers
  pub named_generators : IsNamed s'.motion_generators
  pub moved : ok ≡ true → find (level_of s) (transitions r) ≡ some (level_of s')
  pub stayed : ok ≡ false → level_of s' ≡ level_of s

find-is_empty :
    (name : Text) (m : List (Text × AppData)) (d : AppData)
    → find name m ≡ some d
    → is_empty m ≡ false
unfolding find
find-is_empty name [] d h = ground arith
find-is_empty name (e ∷ m) d h = refl

pub contains-none :
    (name : Text) (m : List (Text × AppData)) → contains name m ≡ false → find name m ≡ none
contains-none name m h = ground arith

emplace-is_empty :
    (name : Text) (d : AppData) (m : List (Text × AppData))
    → find name m ≡ none
    → is_empty (emplace name d m) ≡ false
unfolding emplace find
emplace-is_empty name d [] h = refl
emplace-is_empty name d (e ∷ m) h = ground arith

pub emplace-IsNamed :
    (name : Text) (proc : Option Process) (m : List (Text × AppData))
    → find name m ≡ none
    → IsNamed m
    → IsNamed (emplace name (record { id = name; proc = proc }) m)
emplace-IsNamed name proc m new ok other d h = ground (
  arith,
  find-emplace_new name other (record { id = name; proc = proc }) m new,
  ok other d,
  text_beq_iff name other,
)

pub erase-IsNamed : (name : Text) (m : List (Text × AppData)) → IsNamed m → IsNamed (erase name m)
erase-IsNamed name m ok other d h = ground (arith, find-erase name other m, ok other d)

-- a request that leaves the layer as it was
pub refused-IsAnswered : (r : Request) (s : ControlLayer) → IsLevelled s → IsAnswered r s s false
refused-IsAnswered r s ok = record {
  same_level = refl;
  same_owner = refl;
  named_controllers = ok.named_controllers;
  named_generators = ok.named_generators;
  moved = λ e. cc;
  stayed = λ e. refl;
}

pub loaded_generator-IsAnswered :
    (r : Request) (name : Text) (proc : Option Process) (s : ControlLayer)
    → transitions r ≡ (0, 1) ∷ (1, 1) ∷ (2, 3) ∷ (3, 3) ∷ []
    → find name s.motion_generators ≡ none
    → IsLevelled s
    → IsAnswered r s
        (record s {
          motion_generators = emplace name (record { id = name; proc = proc }) s.motion_generators;
        })
        true
loaded_generator-IsAnswered r name proc s table new ok =
    let full = emplace-is_empty name (record { id = name; proc = proc }) s.motion_generators new in
    record {
      same_level = refl;
      same_owner = refl;
      named_controllers = ok.named_controllers;
      named_generators = emplace-IsNamed name proc s.motion_generators new ok.named_generators;
      moved = λ e. unfold find in rw (table, full) (ground arith);
      stayed = λ e. cc;
    }

pub loaded_controller-IsAnswered :
    (r : Request) (name : Text) (proc : Option Process) (s : ControlLayer)
    → transitions r ≡ (0, 2) ∷ (1, 3) ∷ (2, 2) ∷ (3, 3) ∷ []
    → find name s.controllers ≡ none
    → IsLevelled s
    → IsAnswered r s (add_controller proc name s) true
unfolding add_controller
loaded_controller-IsAnswered r name proc s table new ok =
    let full = emplace-is_empty name (record { id = name; proc = proc }) s.controllers new in
    record {
      same_level = refl;
      same_owner = refl;
      named_controllers = emplace-IsNamed name proc s.controllers new ok.named_controllers;
      named_generators = ok.named_generators;
      moved = λ e. unfold find in rw (table, full) (ground arith);
      stayed = λ e. cc;
    }

pub unloaded_generator-IsAnswered :
    (r : Request) (name : Text) (d : AppData) (s s' : ControlLayer)
    → transitions r ≡ (1, 0) ∷ (3, 2) ∷ []
    → find name s.motion_generators ≡ some d
    → IsLevelled s
    → IsKept (record s { motion_generators = erase name s.motion_generators }) s'
    → IsAnswered r s s' (is_empty s'.motion_generators)
unloaded_generator-IsAnswered r name d s s' table there ok kept =
    let full = find-is_empty name s.motion_generators d there in
    record {
      same_level = kept.level;
      same_owner = kept.owner;
      named_controllers = rw kept.controllers ok.named_controllers;
      named_generators =
          rw kept.generators (erase-IsNamed name s.motion_generators ok.named_generators);
      moved = λ e. unfold find in rw (table, full, kept.controllers, e) (ground arith);
      stayed = λ e. rw (full, kept.controllers, e) refl;
    }

pub unloaded_controller-IsAnswered :
    (r : Request) (name : Text) (d : AppData) (s s' : ControlLayer)
    → transitions r ≡ (2, 0) ∷ (3, 1) ∷ []
    → find name s.controllers ≡ some d
    → IsLevelled s
    → IsKept (record s { controllers = erase name s.controllers }) s'
    → IsAnswered r s s' (is_empty s'.controllers)
unloaded_controller-IsAnswered r name d s s' table there ok kept =
    let full = find-is_empty name s.controllers d there in
    record {
      same_level = kept.level;
      same_owner = kept.owner;
      named_controllers =
          rw kept.controllers (erase-IsNamed name s.controllers ok.named_controllers);
      named_generators = rw kept.generators ok.named_generators;
      moved = λ e. unfold find in rw (table, full, kept.generators, e) (ground arith);
      stayed = λ e. rw (full, kept.generators, e) refl;
    }
