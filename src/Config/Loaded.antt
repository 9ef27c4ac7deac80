-- ===== src/Config/Loaded.antt =====
-- What `load` of config.rs answers.
use docsis_monitor.Result.{Result, ok, chain_lem, with_context, with_context-ok}
use docsis_monitor.Base.{
  Bool-cases, Option-cases, All, Text, ◌≡◌, ap, inl, inr, Bool, true, false, Option, none, some,
  List, [], ◌∷◌, ◌++◌, arith,
}
use docsis_monitor.Config.Load.{
  find_first, choose, load_from, IsChosen, search_paths, load, IsLoaded,
}
use docsis_monitor.Float.{Floats}
use docsis_monitor.Config.Settings.{Config}
use docsis_monitor.Config.Check.{check}
use docsis_monitor.Config.Sound.{check-iff-IsSound}

find_first-some {ℓ} :
    {A : Type ℓ} (p : A → Bool) (xs : List A) {a : A}
    → find_first p xs ≡ some a
    → (before : List A) × (after : List A) × (xs ≡ before ++ a ∷ after)
      × All (λ (x : A). p x ≡ false) before
      × (p a ≡ true)
unfolding find_first
find_first-some p [] h = cc
find_first-some p (x ∷ xs) {a} h = elim (Bool-cases (p x)) [
  | inl yes_ ↦
      let same : x ≡ a = ground arith in ([], xs, ap (λ y. y ∷ xs) same, tt, rw (← same) yes_)
  | inr no_ ↦
      let (before, after, split, none_before, here) = find_first-some p xs {a = a} (ground arith) in
      (x ∷ before, after, ap (◌∷◌ x) split, (no_, none_before), here)
]

module _ (f : Floats) (home : Option Text) (exists : Text → Bool) (read : Text → Result Text)
    (parse : Text → Result (Config f)) where
  choose-IsChosen :
      (explicit : Option Text) {path : Text}
      → choose f home exists read parse explicit ≡ ok path
      → IsChosen f home exists read parse explicit path
  unfolding choose
  choose-IsChosen (some p) h = ground arith
  choose-IsChosen none {path} h = elim (Option-cases (find_first exists (search_paths home))) [
    | inl nothing ↦ absurd (ground arith)
    | inr (found, here) ↦ find_first-some exists (search_paths home) {a = path} (ground arith)
  ]

  load_from-ok :
      (chosen_path : Text) {cfg : Config f} {path : Text}
      → load_from f home exists read parse chosen_path ≡ ok (cfg, path)
      → (text : Text) × (chosen_path ≡ path)
        × (read path ≡ ok text)
        × (parse text ≡ ok cfg)
        × (check f cfg ≡ ok tt)
  unfolding load_from
  load_from-ok chosen_path {cfg} {path} h =
      let (text, was_read, h') = chain_lem (with_context _ (read chosen_path)) _ h in
      let (cfg', parsed, h'') = chain_lem (with_context _ (parse text)) _ h' in
      let (u, checked, last) = chain_lem (with_context _ (check f cfg')) _ h'' in
      let same_path : chosen_path ≡ path = ground (arith, last) in
      let same_cfg : cfg' ≡ cfg = ground (arith, last) in
      (
        text,
        same_path,
        rw (← same_path) (with_context-ok _ (read chosen_path) was_read),
        rw (← same_cfg) (with_context-ok _ (parse text) parsed),
        rw (← same_cfg) (with_context-ok _ (check f cfg') checked),
      )

  -- A configuration that `load` answers is sound, and was read from the file that was asked for or
  -- else from the first of the two places that holds one.
  pub load-IsLoaded :
      (explicit : Option Text) {cfg : Config f} {path : Text}
      → load f home exists read parse explicit ≡ ok (cfg, path)
      → IsLoaded f home exists read parse explicit cfg path
  unfolding load
  load-IsLoaded explicit {cfg} {path} h =
      let (chosen_path, chosen, h') =
        chain_lem (choose f home exists read parse explicit) (load_from f home exists read parse)
          h in
      let (text, same, was_read, parsed, checked) = load_from-ok chosen_path h' in
      record {
        chosen = rw (← same) (choose-IsChosen explicit chosen);
        text = text;
        was_read = was_read;
        parsed = parsed;
        sound = (check-iff-IsSound f cfg).0 checked;
      }
