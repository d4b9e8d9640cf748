-- ===== src/Registry/Closing.antt =====
-- What EstimationLayer::close leaves of the map.
use dls.Common.{
  ℕ, ◌≡◌, refl, Bool, false, ◌||◌, none, some, List, [], ◌∷◌, if◌then◌else◌, Text, text_eq,
  text_beq_iff, ◌==◌, arith, Option-cases, inl, inr,
}
use dls.Common.Map.{find}
use dls.Registry.{AppData, Layer, unload, unload_estimator, keys_of, unload_keys, close}
use dls.Registry.Laws.{IsRegistry, unload_lem}

abbrev pub listed : Text → List Text → Bool
listed name [] = false
listed name (key ∷ keys) = key == name || listed name keys

find-listed :
    (name : Text) (plugins : List (Text × AppData))
    → listed name (keys_of plugins) ≡ false
    → find name plugins ≡ none
unfolding keys_of find
find-listed name [] h = refl
find-listed name ((key, d) ∷ plugins) h = ground (arith, find-listed name plugins)

-- What an unload that is over leaves of the map, whether the name was there or not.
pub unload_forgets :
    (cmds : List (Text × Text)) (polls : List (Bool × ℕ)) (name : Text) (s s' : Layer) (done : Bool)
    → IsRegistry s
    → unload cmds polls name s ≡ some (s', done)
    → IsRegistry s'
      × ((other : Text)
          → find other s'.plugins ≡ (if name == other then none else find other s.plugins))
unload_forgets cmds polls name s s' done ok h = elim (Option-cases (find name s.plugins)) [
  | inl absent ↦
      let same : s' ≡ s = unfold unload in ground arith in
      (ground (arith, same, ok), λ other. ground (arith, same, absent, text_beq_iff name other))
  | inr (d, present) ↦ elim (Option-cases d.proc) [
    | inl gone ↦ absurd (ok.started name d present gone)
    | inr (p, has) ↦
        let (answered, ok', forgets, killed) =
          unload_lem cmds polls name s s' done d p ok present has h in
        (ok', forgets)
  ]
]

unload_keys-forgets :
    (cmds : List (Text × Text)) (polls : Text → List (Bool × ℕ)) (keys : List Text) (s s' : Layer)
    (name : Text)
    → IsRegistry s
    → unload_keys cmds polls keys s ≡ some s'
    → find name s'.plugins ≡ (if listed name keys then none else find name s.plugins)
unfolding unload_keys unload_estimator
unload_keys-forgets cmds polls [] s s' name ok h = ground arith
unload_keys-forgets cmds polls (key ∷ keys) s s' name ok h =
    elim (Option-cases (unload cmds (polls key) key s)) [
      | inl waiting ↦ ground arith
      | inr ((t, done), over) ↦
          let (ok', forgets) = unload_forgets cmds (polls key) key s t done ok over in
          ground (arith, forgets name, unload_keys-forgets cmds polls keys t s' name ok')
    ]

-- A close of a well-formed layer, once it is over, leaves no process in the map.
pub close_empties :
    (cmds : List (Text × Text)) (polls : Text → List (Bool × ℕ)) (s s' : Layer) (name : Text)
    → IsRegistry s
    → close cmds polls s ≡ some s'
    → find name s'.plugins ≡ none
unfolding close
close_empties cmds polls s s' name ok h = ground (
  arith,
  unload_keys-forgets cmds polls (keys_of s.plugins) s s' name ok h,
  find-listed name s.plugins,
)
