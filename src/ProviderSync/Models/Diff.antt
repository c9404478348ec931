-- ===== src/ProviderSync/Models/Diff.antt =====
-- packages/opencode-provider-sync/src/model-normalization.ts: `diffModels` against a description of
-- each id by itself.
use lightbridge_opencode_too.Common.{
  ◌≡◌, refl, ap, sym, ◌∙◌, inl, inr, Bool, true, false, not, ◌&&◌, ◌||◌, Option, none, some, List,
  [], ◌∷◌, arith, Bool-cases, if◌then◌else◌, or_else,
}
use lightbridge_opencode_too.Common.Text.{Text, text_eq, text_eq_iff}
use lightbridge_opencode_too.Common.Maps.{Map, lookup, set, lookup-set, Text_eq}
use lightbridge_opencode_too.ProviderSync.{NormalizedModel, Renamed}
use lightbridge_opencode_too.ProviderSync.Models.{
  names_from, has, ids_beyond, is_renamed, renaming, renamed_in, diff_models,
}

abbrev pub is_known : Option Text → Bool
is_known none = false
is_known (some name) = true

unfoldable pub contains : Text → List Text → Bool
contains id [] = false
contains id (x ∷ xs) = text_eq x id || contains id xs

-- The entry of a renamed model.
unfoldable pub find_renamed : Text → List Renamed → Option (Text × Text)
find_renamed id [] = none
find_renamed id (r ∷ rs) =
    let rest = find_renamed id rs in if text_eq r.id id then some (r.before, r.after) else rest

-- What the change of one name amounts to: from a name that is not empty to another one.
abbrev pub change_of : Option Text → Option Text → Option (Text × Text)
change_of (some (c ∷ s)) (some after) = if text_eq (c ∷ s) after then none else some (c ∷ s, after)
change_of _ _ = none

-- The last name that a list of models gives an id.
unfoldable pub last_name : Text → List NormalizedModel → Option Text → Option Text
last_name id [] o = o
last_name id (n ∷ ns) o = last_name id ns (if text_eq n.id id then some n.display_name else o)

lookup-names_from :
    (id : Text) (ns : List NormalizedModel) (m : Map Text Text)
    → lookup id (names_from ns m) ≡ last_name id ns (lookup id m)
unfolding names_from last_name
lookup-names_from id [] m = refl
lookup-names_from id (n ∷ ns) m =
    lookup-names_from id ns (set n.id n.display_name m)
    ∙ ap (last_name id ns) (lookup-set n.id id n.display_name m)

has_lem : (id : Text) (m : Map Text Text) → has id m ≡ is_known (lookup id m)
unfolding has
has_lem id m = refl

contains-ids_beyond :
    (id : Text) (m other : Map Text Text)
    → contains id (ids_beyond m other)
      ≡ (is_known (lookup id m) && not (is_known (lookup id other)))
unfolding contains ids_beyond lookup
contains-ids_beyond id [] other = refl
contains-ids_beyond id ((k, name) ∷ m) other =
    ground (arith, contains-ids_beyond id m other, has_lem k other, text_eq_iff k id)

-- No key stands twice.
abbrev IsDistinct : Map Text Text → Type 0
IsDistinct [] = Unit
IsDistinct ((k, v) ∷ m) = (lookup k m ≡ none) × IsDistinct m

set-IsDistinct : (k v : Text) (m : Map Text Text) → IsDistinct m → IsDistinct (set k v m)
unfolding set lookup
set-IsDistinct k v [] d = (refl, tt)
set-IsDistinct k v ((j, w) ∷ m) d = elim (Bool-cases (text_eq j k)) [
  | inl e ↦ rw e d
  | inr e ↦ rw e (
    ground (arith, lookup-set k j v m, text_eq_iff j k, text_eq_iff k j, d.0),
    set-IsDistinct k v m d.1,
  )
]

names_from-IsDistinct :
    (ns : List NormalizedModel) (m : Map Text Text) → IsDistinct m → IsDistinct (names_from ns m)
unfolding names_from
names_from-IsDistinct [] m d = d
names_from-IsDistinct (n ∷ ns) m d =
    names_from-IsDistinct ns (set n.id n.display_name m) (set-IsDistinct n.id n.display_name m d)

find_renamed-absent :
    (id : Text) (m previous : Map Text Text)
    → lookup id m ≡ none
    → find_renamed id (renamed_in m previous) ≡ none
unfolding find_renamed renamed_in lookup
find_renamed-absent id [] previous h = refl
find_renamed-absent id ((k, name) ∷ m) previous h =
    ground (arith, find_renamed-absent id m previous)

rename_entry :
    (before : Option Text) (after : Text)
    → change_of before (some after)
      ≡ (if is_renamed before after then some (or_else before [], after) else none)
unfolding is_renamed
rename_entry none after = refl
rename_entry (some []) after = refl
rename_entry (some (c ∷ s)) after = ground arith

change_of-none : (before : Option Text) → change_of before none ≡ none
change_of-none none = refl
change_of-none (some []) = refl
change_of-none (some (c ∷ s)) = refl

find_renamed-cons :
    (id k name : Text) (o : Option Text) (rest : List Renamed)
    → find_renamed id (if is_renamed o name then renaming k o name ∷ rest else rest) ≡ (
        if text_eq k id
        then (if is_renamed o name then some (or_else o [], name) else find_renamed id rest)
        else find_renamed id rest)
unfolding find_renamed
find_renamed-cons id k name o rest = elim (Bool-cases (is_renamed o name)) [
  | inl e ↦ rw e refl
  | inr e ↦ rw e (ground arith)
]

find-renamed_in :
    (id : Text) (m previous : Map Text Text)
    → IsDistinct m
    → find_renamed id (renamed_in m previous) ≡ change_of (lookup id previous) (lookup id m)
unfolding renamed_in lookup
find-renamed_in id [] previous d = unfold find_renamed in sym (change_of-none (lookup id previous))
find-renamed_in id ((k, name) ∷ m) previous d =
    find_renamed-cons id k name (lookup k previous) (renamed_in m previous)
    ∙ elim (Bool-cases (text_eq k id)) [
      | inl e ↦
          let same : k ≡ id = (text_eq_iff k id).0 e in
          rw e (
            rw same (
              rw (find_renamed-absent id m previous (rw (← same) d.0))
                (sym (rename_entry (lookup id previous) name))))
      | inr e ↦ rw e (find-renamed_in id m previous d.1)
    ]

-- `diffModels`, id by id. An id is added where the next models have it and the previous ones have not,
-- removed where it is the other way round, and renamed where both have it with different names and
-- the name before was not empty; a renamed id is reported with both names. Where a list gives an id
-- twice, its last name counts.
pub diff_models_lem :
    (previous next : List NormalizedModel) (id : Text)
    → (contains id (diff_models previous next).added
        ≡ (is_known (last_name id next none) && not (is_known (last_name id previous none))))
      × (contains id (diff_models previous next).removed
          ≡ (is_known (last_name id previous none) && not (is_known (last_name id next none))))
      × (find_renamed id (diff_models previous next).renamed
          ≡ change_of (last_name id previous none) (last_name id next none))
unfolding diff_models lookup
diff_models_lem previous next id =
    let before : lookup id (names_from previous []) ≡ last_name id previous none =
      lookup-names_from id previous [] in
    let after : lookup id (names_from next []) ≡ last_name id next none =
      lookup-names_from id next [] in
    (
      rw (← before, ← after) (contains-ids_beyond id (names_from next []) (names_from previous [])),
      rw (← before, ← after) (contains-ids_beyond id (names_from previous []) (names_from next [])),
      rw (← before, ← after)
          (find-renamed_in id (names_from next []) (names_from previous [])
            (names_from-IsDistinct next [] tt)),
    )
