-- ===== src/Command/Wire.antt =====
-- The wire format of a command call: sendMessage joins the arguments, the reader of a command splits
-- them, and getCommandsList splits the name of a participant.
use mathlib.Core.Option
use mathlib.Core.List.{append-nil, append_assoc}
use dls.Common.{
  ℕ, suc, ◌≡◌, ◌≢◌, refl, ◌&&◌, Option, none, some, List, [], ◌∷◌, ◌++◌, arith, Text, text_eq,
  nat_eq, ◌==◌, if◌then◌else◌, length, drop, take, ◌+◌,
}

-- the arguments of `CommandCall`, each followed by a comma; one space for no argument
unfoldable pub join_args : List Text → Text
join_args [] = []
join_args (a ∷ as_) = a ++ (b',' ∷ join_args as_)

unfoldable pub out_string : List Text → Text
unfolding join_args
out_string [] = b' ' ∷ []
out_string (a ∷ as_) = join_args (a ∷ as_)

-- `while ((pos = args.find(",")) != npos) { push_back(substr(0, pos)); erase(0, pos + 1); }`,
-- one byte at a time: `word` holds the bytes since the last comma
unfoldable pub split_args : Text → Text → List Text
split_args word [] = []
split_args word (c ∷ rest) =
    let next = split_args [] rest in
    let more = split_args (word ++ c ∷ []) rest in if c == b',' then word ∷ next else more

unfoldable pub parse_args : Text → List Text
unfolding split_args
parse_args args = split_args [] args

-- No comma in a text.
abbrev pub NoComma : Text → Type 0
NoComma [] = Unit {0}
NoComma (c ∷ rest) = (c ≢ b',') × NoComma rest

abbrev pub AllNoComma : List Text → Type 0
AllNoComma [] = Unit {0}
AllNoComma (a ∷ as_) = NoComma a × AllNoComma as_

split_args-word :
    (word a rest : Text)
    → NoComma a
    → split_args word (a ++ (b',' ∷ rest)) ≡ (word ++ a) ∷ split_args [] rest
unfolding split_args
split_args-word word [] rest h = rw append-nil
split_args-word word (c ∷ a) rest h =
    ground (arith, split_args-word (word ++ c ∷ []) a rest h.1, append_assoc word (c ∷ []) a)

split_args-join_args : (args : List Text) → AllNoComma args → split_args [] (join_args args) ≡ args
unfolding join_args split_args
split_args-join_args [] h = refl
split_args-join_args (a ∷ as_) h =
    rw (split_args-word [] a (join_args as_) h.0, split_args-join_args as_ h.1)

-- What a command's reader takes out of a sent call is what went in, if no argument holds a comma.
pub parse_args-out_string :
    (args : List Text) → AllNoComma args → parse_args (out_string args) ≡ args
unfolding parse_args out_string
parse_args-out_string [] h = refl
parse_args-out_string (a ∷ as_) h = split_args-join_args (a ∷ as_) h

-- The commas in a text.
abbrev pub commas : Text → ℕ
commas [] = 0
commas (c ∷ rest) = if c == b',' then suc (commas rest) else commas rest

abbrev pub commas_of : List Text → ℕ
commas_of [] = 0
commas_of (a ∷ as_) = commas a + commas_of as_

length-split_args : (word t : Text) → length (split_args word t) ≡ commas t
unfolding split_args
length-split_args word [] = refl
length-split_args word (c ∷ rest) =
    ground (arith, length-split_args [] rest, length-split_args (word ++ c ∷ []) rest)

commas-append : (s t : Text) → commas (s ++ t) ≡ commas s + commas t
commas-append [] t = omega arith
commas-append (c ∷ s) t = ground (arith, commas-append s t)

commas-join_args : (args : List Text) → commas (join_args args) ≡ length args + commas_of args
unfolding join_args
commas-join_args [] = refl
commas-join_args (a ∷ as_) =
    omega (arith, commas-append a (b',' ∷ join_args as_), commas-join_args as_)

-- The reader takes out as many arguments as went in and one more for each comma in them, so a call
-- whose arguments hold a comma arrives with too many of them.
pub length-parse_args :
    (args : List Text) → length (parse_args (out_string args)) ≡ length args + commas_of args
unfolding parse_args out_string
length-parse_args [] = refl
length-parse_args (a ∷ as_) =
    omega (arith, length-split_args [] (join_args (a ∷ as_)), commas-join_args (a ∷ as_))

-- participant_name.find("::")
unfoldable pub find_colons : Text → Option ℕ
find_colons [] = none
find_colons (c ∷ []) = none
find_colons (c ∷ d ∷ rest) =
    let later = Option.map suc (find_colons (d ∷ rest)) in
    if c == b':' && d == b':' then some 0 else later

-- The entry {command name, owner} of a participant. Without "::" the index is npos: `npos + 2` is 1
-- and substr(0, npos) the whole name. `none` is the exception of substr on an empty name.
unfoldable pub participant_entry : Text → Option (Text × Text)
unfolding find_colons
participant_entry name = elim (find_colons name) [
  | some idx ↦ some (drop (idx + 2) name, take idx name)
  | none ↦ if length name == 0 then none else some (drop 1 name, name)
]

abbrev pub NoColon : Text → Type 0
NoColon [] = Unit {0}
NoColon (c ∷ rest) = (c ≢ b':') × NoColon rest

find_colons-owner :
    (owner name : Text)
    → NoColon owner
    → find_colons (owner ++ (b':' ∷ b':' ∷ name)) ≡ some (length owner)
unfolding find_colons
find_colons-owner [] name h = refl
find_colons-owner (c ∷ []) name h = ground arith
find_colons-owner (c ∷ d ∷ owner) name h = ground (arith, find_colons-owner (d ∷ owner) name h.1)

drop-owner : (owner name : Text) → drop (length owner + 2) (owner ++ (b':' ∷ b':' ∷ name)) ≡ name
drop-owner [] name = refl
drop-owner (c ∷ owner) name =
    let e : suc (length owner) + 2 ≡ suc (length owner + 2) = omega arith in
    rw e (drop-owner owner name)

take-owner : (owner rest : Text) → take (length owner) (owner ++ rest) ≡ owner
take-owner [] rest = refl
take-owner (c ∷ owner) rest = rw (take-owner owner rest)

-- The participant `owner::name` of a command is read back as its name and owner, if the owner's
-- name holds no colon; the name may.
pub participant_entry_lem :
    (owner name : Text)
    → NoColon owner
    → participant_entry (owner ++ (b':' ∷ b':' ∷ name)) ≡ some (name, owner)
unfolding participant_entry
participant_entry_lem owner name h =
    rw (find_colons-owner owner name h, participant_entry)
      (rw (drop-owner owner name, take-owner owner (b':' ∷ b':' ∷ name)))
