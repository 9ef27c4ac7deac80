-- ===== src/Config/Load.antt =====
-- config.rs: the choice of the file, and `load`. The file system, the home directory and the JSON
-- parser are parameters.
use docsis_monitor.Result.{Result, ok, ◌>>=◌, bail, with_context}
use docsis_monitor.Base.{
  if◌then◌else◌, All, Text, codes, join, ◌==◌, ◌≡◌, Bool, true, false, Option, none, some, List, [],
  ◌∷◌, ◌++◌, map,
}
use docsis_monitor.Float.{Floats}
use docsis_monitor.Config.Settings.{Config}
use docsis_monitor.Config.Check.{check, IsSound}

abbrev pub file_name : Text
file_name = codes "docsis_monitor.json"

-- `Path::join` of a relative name.
unfoldable pub path_join : Text → Text → Text
path_join [] name = name
path_join (a ∷ []) name = if a == b'/' then a ∷ name else a ∷ b'/' ∷ name
path_join (a ∷ b ∷ d) name = a ∷ path_join (b ∷ d) name

-- `search_paths`.
unfoldable pub search_paths : Option Text → List Text
unfolding path_join
search_paths home =
    map (λ (d : Text). path_join d file_name)
      ((elim home [ none ↦ [] | some h ↦ path_join h (codes "config") ∷ [] ]) ++ codes "/etc" ∷ [])

-- `iter().find`.
unfoldable pub find_first {ℓ} : {A : Type ℓ} → (A → Bool) → List A → Option A
find_first p [] = none
find_first p (a ∷ as_) = let rest = find_first p as_ in if p a then some a else rest

module _ (f : Floats) (home : Option Text) (exists : Text → Bool) (read : Text → Result Text)
    (parse : Text → Result (Config f)) where
  -- The file that `load` chooses, or its error.
  unfoldable pub choose : Option Text → Result Text
  unfolding search_paths find_first join
  choose (some p) = ok p
  choose none =
      let tried = search_paths home in
      elim (find_first exists tried) [
        | some found ↦ ok found
        | none ↦ bail (
            codes "no "
            ++ (file_name
                ++ (codes " found. Tried, in order: "
                    ++ (join (codes ", ") tried
                        ++ codes ". Every setting this program has lives in that file."))))
      ]

  -- `load`, from the chosen path on.
  unfoldable pub load_from : Text → Result (Config f × Text)
  load_from path = do
    text ← with_context (codes "reading " ++ path) (read path)
    cfg ← with_context (codes "parsing " ++ path) (parse text)
    checked ← with_context (codes "in " ++ path) (check f cfg)
    ok (cfg, path)

  unfoldable pub load : Option Text → Result (Config f × Text)
  unfolding choose load_from
  load explicit = do path ← choose explicit; load_from path

  -- The path is the one that was asked for, or the first candidate that is there.
  abbrev pub IsChosen : Option Text → Text → Type 0
  IsChosen (some p) path = p ≡ path
  IsChosen none path =
      (before : List Text) × (after : List Text) × (search_paths home ≡ before ++ path ∷ after)
      × All (λ (p : Text). exists p ≡ false) before
      × (exists path ≡ true)

  -- A configuration that was loaded: its file was chosen so, was read and parsed, and is sound.
  pub record IsLoaded (explicit : Option Text) (cfg : Config f) (path : Text) : Type 0 where
    pub chosen : IsChosen explicit path
    pub text : Text
    pub was_read : read path ≡ ok text
    pub parsed : parse text ≡ ok cfg
    pub sound : IsSound f cfg
