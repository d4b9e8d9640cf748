-- ===== src/CommandManager/Find.antt =====
-- The search for commands: what find, findByName and findByOwner return, and which commands the
-- list of discovered readers holds.
use dls.Common.{
  ◌≡◌, ◌≢◌, refl, ◌⊎◌, inl, inr, Bool, true, false, ◌&&◌, some, List, [], ◌∷◌, ◌++◌, map, Text,
  nat_eq, text_eq, ◌==◌, length, select, if◌then◌else◌, arith, Option-cases, Bool-cases, ◌∙◌, subst,
  drop, take, ◌+◌, ℕ,
}
use dls.Command.Wire.{find_colons, participant_entry, participant_entry_lem, NoColon}
use dls.CommandManager.{
  entries_of, get_commands_list, find_by_owner, find_by_name, swap_entry, find,
}

abbrev pub named : Text → Text → Text × Text → Bool
named owner name c = c.0 == name && c.1 == owner

select-swap :
    (owner name : Text) (cmds : List (Text × Text))
    → map swap_entry (select (λ c. c.0 == owner) (map swap_entry (select (λ c. c.0 == name) cmds)))
      ≡ select (named owner name) cmds
select-swap owner name [] = refl
select-swap owner name (c ∷ cmds) = ground (arith, select-swap owner name cmds)

empty_test {ℓ κ} :
    {A : Type ℓ} {B : Type κ} (f : A → B) (xs : List A)
    → (if length xs == 0 then [] else map f xs) ≡ map f xs
empty_test f [] = refl
empty_test f (x ∷ xs) = ground arith

empty_tests {ℓ κ} :
    {A : Type ℓ} {B : Type κ} (p : A → Bool) (f : A → B) (xs : List A)
    → (if length xs == 0 then [] else if length (select p xs) == 0 then [] else map f (select p xs))
      ≡ map f (select p xs)
empty_tests p f [] = refl
empty_tests p f (x ∷ xs) = ground (arith, empty_test f (select p (x ∷ xs)))

empty_list {ℓ} : {A : Type ℓ} (xs : List A) → (if length xs == 0 then [] else xs) ≡ xs
empty_list [] = refl
empty_list (x ∷ xs) = ground arith

-- find returns the entries with the owner and the name, each as often and in the order in which
-- they stand in the list.
pub find_lem :
    (owner name : Text) (cmds : List (Text × Text))
    → find owner name cmds ≡ select (named owner name) cmds
unfolding find
find_lem owner name cmds =
    empty_tests (λ c. c.0 == owner) swap_entry (map swap_entry (select (λ c. c.0 == name) cmds))
    ∙ select-swap owner name cmds

-- findByName returns the entries with the name; findByOwner returns the whole list, whatever
-- the owner.
pub find_by_lem :
    (owner name : Text) (cmds : List (Text × Text))
    → (find_by_name name cmds ≡ select (λ c. c.0 == name) cmds) × (find_by_owner owner cmds ≡ cmds)
unfolding find_by_name find_by_owner
find_by_lem owner name cmds = (empty_list (select (λ c. c.0 == name) cmds), empty_list cmds)

-- An entry of a list.
abbrev pub In : Text × Text → List (Text × Text) → Type 0
In a [] = ⊥
In a (x ∷ xs) = (x ≡ a) ⊎ In a xs

In-append_left : (a : Text × Text) (xs ys : List (Text × Text)) → In a xs → In a (xs ++ ys)
In-append_left a [] ys i = elim i [ ]
In-append_left a (x ∷ xs) ys (inl e) = inl e
In-append_left a (x ∷ xs) ys (inr i) = inr (In-append_left a xs ys i)

In-append_right : (a : Text × Text) (xs ys : List (Text × Text)) → In a ys → In a (xs ++ ys)
In-append_right a [] ys i = i
In-append_right a (x ∷ xs) ys i = inr (In-append_right a xs ys i)

-- No discovered participant has the empty name.
abbrev pub AllNamed : List (Text × ℕ) → Type 0
AllNamed [] = Unit {0}
AllNamed (p ∷ ps) = (p.0 ≢ []) × AllNamed ps

participant_entry_total :
    (name : Text) → name ≢ [] → (e : Text × Text) × (participant_entry name ≡ some e)
unfolding participant_entry
participant_entry_total name h = elim (Option-cases (find_colons name)) [
  | inl absent ↦ ((drop 1 name, name), ground (arith, no_length name))
  | inr (i, found) ↦ ((drop (i + 2) name, take i name), ground arith)
]
  where
    no_length : (t : Text) → length t ≡ 0 → t ≡ []
    no_length [] e = refl
    no_length (c ∷ t) e = absurd (omega arith)

entries_of_total :
    (prefix : ℕ) (discovered : List (Text × ℕ))
    → AllNamed discovered
    → (es : List (Text × Text)) × (entries_of prefix discovered ≡ some es)
unfolding entries_of
entries_of_total prefix [] h = ([], refl)
entries_of_total prefix ((name, guid) ∷ rest) h =
    let (e, named) = participant_entry_total name h.0 in
    let (es, others) = entries_of_total prefix rest h.1 in
    (if guid == prefix then e ∷ es else es, ground arith)

-- The participant of a reader is among those that DDS discovered.
abbrev pub Discovered : Text → ℕ → List (Text × ℕ) → Type 0
Discovered name guid [] = ⊥
Discovered name guid (p ∷ ps) = (p ≡ (name, guid)) ⊎ Discovered name guid ps

In-entries_of :
    (name : Text) (guid : ℕ) (e : Text × Text) (discovered : List (Text × ℕ))
    (es : List (Text × Text))
    → participant_entry name ≡ some e
    → Discovered name guid discovered
    → entries_of guid discovered ≡ some es
    → In e es
unfolding entries_of
In-entries_of name guid e [] es parsed i found = elim i [ ]
In-entries_of name guid e ((n, g) ∷ rest) es parsed (inl here) found =
    elim (Option-cases (entries_of guid rest)) [
      | inl absent ↦ ground arith
      | inr (others, eq) ↦ subst (In e) (the_list others eq) (inl refl)
    ]
  where
    the_list : (others : List (Text × Text)) → entries_of guid rest ≡ some others → e ∷ others ≡ es
    the_list others eq = ground arith
In-entries_of name guid e ((n, g) ∷ rest) es parsed (inr there) found =
    elim (Option-cases (entries_of guid rest)) [
      | inl absent ↦ ground arith
      | inr (others, eq) ↦ elim (Bool-cases (g == guid)) [
        | inl same ↦ elim (Option-cases (participant_entry n)) [
          | inl bad ↦ ground arith
          | inr (d, good) ↦
              subst (In e) (with_head others d eq same good)
                (inr (In-entries_of name guid e rest others parsed there eq))
        ]
        | inr differs ↦
            subst (In e) (without_head others eq differs)
              (In-entries_of name guid e rest others parsed there eq)
      ]
    ]
  where
    with_head :
        (others : List (Text × Text)) (d : Text × Text)
        → entries_of guid rest ≡ some others
        → (g == guid) ≡ true
        → participant_entry n ≡ some d
        → d ∷ others ≡ es
    with_head others d eq same good = ground arith

    without_head :
        (others : List (Text × Text))
        → entries_of guid rest ≡ some others
        → (g == guid) ≡ false
        → others ≡ es
    without_head others eq differs = ground arith

abbrev pub Matched : ℕ → List ℕ → Type 0
Matched guid [] = ⊥
Matched guid (g ∷ gs) = (g ≡ guid) ⊎ Matched guid gs

get_commands_list_total :
    (discovered : List (Text × ℕ)) (matched : List ℕ)
    → AllNamed discovered
    → (es : List (Text × Text)) × (get_commands_list true discovered matched ≡ some es)
unfolding get_commands_list
get_commands_list_total discovered [] h = ([], refl)
get_commands_list_total discovered (g ∷ gs) h =
    let (es, eq) = entries_of_total g discovered h in
    let (others, eqs) = get_commands_list_total discovered gs h in (es ++ others, ground arith)

-- If no participant has the empty name, getCommandsList returns a list, and the list holds the name
-- and the owner of every discovered participant `owner::name` whose reader is matched, where the
-- owner's name has no colon.
pub get_commands_list_complete :
    (owner name : Text) (guid : ℕ) (discovered : List (Text × ℕ)) (matched : List ℕ)
    → AllNamed discovered
    → NoColon owner
    → Discovered (owner ++ (b':' ∷ b':' ∷ name)) guid discovered
    → Matched guid matched
    → (es : List (Text × Text)) × (get_commands_list true discovered matched ≡ some es)
      × In (name, owner) es
unfolding get_commands_list
get_commands_list_complete owner name guid discovered [] h clean d i = elim i [ ]
get_commands_list_complete owner name guid discovered (g ∷ gs) h clean d (inl e) =
    let (es, eq) = entries_of_total g discovered h in
    let (others, eqs) = get_commands_list_total discovered gs h in
    (
      es ++ others,
      ground arith,
      In-append_left (name, owner) es others
          (In-entries_of (owner ++ (b':' ∷ b':' ∷ name)) guid (name, owner) discovered es
            (participant_entry_lem owner name clean) d
            (subst (λ x. entries_of x discovered ≡ some es) e eq)),
    )
get_commands_list_complete owner name guid discovered (g ∷ gs) h clean d (inr i) =
    let (es, eq) = entries_of_total g discovered h in
    let (others, eqs, here) =
      get_commands_list_complete owner name guid discovered gs h clean d i in
    (es ++ others, ground arith, In-append_right (name, owner) es others here)
