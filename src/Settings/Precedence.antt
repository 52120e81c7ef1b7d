-- ===== src/Settings/Precedence.antt =====
-- Which values `Settings::new` of src/settings.rs takes: the command line's, else the file's, else
-- the default.
use keyserver_rust.Prelude.{
  ◌≡◌, refl, sym, ap, subst, fun_ext, ◌∙◌, ◌⊎◌, inl, inr, Option, none, some, Option-cases,
  Result-cases, List, [], ◌∷◌, Outcome, done, fail, panic, err, ok, arith, true, All, try,
  if◌then◌else◌,
}
use keyserver_rust.Prelude.Bytes.{Bytes, text, bytes_eq}
use keyserver_rust.Crates.Environment.{
  ConfigValue, ConfigCrate, Matches, Dirs, or_else, is_plain, effective, HasFields, ConfigLaws,
}
use keyserver_rust.Settings.{Settings}
use keyserver_rust.Settings.Load.{
  arguments, defaults, default_config, unwrap_or, set_defaults, set_given, new_settings,
}

-- The last entry of a key.
abbrev pub default_of : Bytes → List (Bytes × ConfigValue) → Option ConfigValue
default_of j [] = none
default_of j ((k, v) ∷ rest) = or_else (default_of j rest) (if bytes_eq k j then some v else none)

abbrev pub given_of : Bytes → List (Bytes × Option ConfigValue) → Option ConfigValue
given_of j [] = none
given_of j ((k, o) ∷ rest) = or_else (given_of j rest) (if bytes_eq k j then o else none)

or_else_step :
    (a b : Option ConfigValue) (k j : Bytes) (v : ConfigValue)
    → or_else a (if bytes_eq k j then some v else b)
      ≡ or_else (or_else a (if bytes_eq k j then some v else none)) b
or_else_step a b k j v = ground arith

or_else-none :
    (a b : Option ConfigValue) (k j : Bytes)
    → or_else a b ≡ or_else (or_else a (if bytes_eq k j then none else none)) b
or_else-none a b k j = ground arith

module _ (c : ConfigCrate) (laws : ConfigLaws c) where
  open laws use {overrides, sources, default, set_default_lem, set_lem}

  set_defaults_lem :
      (s : c.Config) (l : List (Bytes × ConfigValue))
      → All (λ e. is_plain e.0 ≡ true) l
      → (s' : c.Config) × (set_defaults c s l ≡ done s')
        × ((j : Bytes) → overrides s' j ≡ overrides s j)
        × ((j : Bytes) → sources s' j ≡ sources s j)
        × ((j : Bytes) → default s' j ≡ or_else (default_of j l) (default s j))
  unfolding set_defaults
  set_defaults_lem s [] plain = (s, refl, λ j. refl, λ j. refl, λ j. refl)
  set_defaults_lem s ((k, v) ∷ l) plain =
      let (s₁, set, over, src, dflt) = set_default_lem s k v plain.0 in
      let (s₂, rest, over₂, src₂, dflt₂) = set_defaults_lem s₁ l plain.1 in
      (
        s₂,
        rw set rest,
        λ j. over₂ j ∙ over j,
        λ j. src₂ j ∙ src j,
        λ j.
            dflt₂ j
            ∙ ap (or_else (default_of j l)) (dflt j)
            ∙ or_else_step (default_of j l) (default s j) k j v,
      )

  set_given_lem :
      (s : c.Config) (l : List (Bytes × Option ConfigValue))
      → All (λ e. is_plain e.0 ≡ true) l
      → (s' : c.Config) × (set_given c s l ≡ done s')
        × ((j : Bytes) → overrides s' j ≡ or_else (given_of j l) (overrides s j))
        × ((j : Bytes) → sources s' j ≡ sources s j)
        × ((j : Bytes) → default s' j ≡ default s j)
  unfolding set_given
  set_given_lem s [] plain = (s, refl, λ j. refl, λ j. refl, λ j. refl)
  set_given_lem s ((k, none) ∷ l) plain =
      let (s₂, rest, over₂, src₂, dflt₂) = set_given_lem s l plain.1 in
      (s₂, rest, λ j. over₂ j ∙ or_else-none (given_of j l) (overrides s j) k j, src₂, dflt₂)
  set_given_lem s ((k, some v) ∷ l) plain =
      let (s₁, set, over, src, dflt) = set_lem s k v plain.0 in
      let (s₂, rest, over₂, src₂, dflt₂) = set_given_lem s₁ l plain.1 in
      (
        s₂,
        rw set rest,
        λ j.
            over₂ j
            ∙ ap (or_else (given_of j l)) (over j)
            ∙ or_else_step (given_of j l) (overrides s j) k j v,
        λ j. src₂ j ∙ src j,
        λ j. dflt₂ j ∙ dflt j,
      )

arguments_plain : (m : Matches) → All (λ e. is_plain e.0 ≡ true) (arguments m)
unfolding is_plain text
arguments_plain m = (refl, (refl, (refl, (refl, (refl, (refl, (refl, (refl, (refl, tt)))))))))

defaults_plain :
    (dirs : Dirs) (home : dirs.PathBuf) → All (λ e. is_plain e.0 ≡ true) (defaults dirs home)
unfolding is_plain text
defaults_plain dirs home =
    (refl, (refl, (refl, (refl, (refl, (refl, (refl, (refl, (refl, tt)))))))))

or_else_nothing : (a b : Option ConfigValue) → b ≡ none → or_else a b ≡ a
or_else_nothing none b e = e
or_else_nothing (some v) b e = refl

module _ (c : ConfigCrate) (laws : ConfigLaws c) (m : Matches) (dirs : Dirs) where
  open laws use {file, as_string, as_port, overrides, sources, default}

  -- The value that is taken for a key.
  abbrev pub chosen : dirs.PathBuf → Bytes → Bytes → Option ConfigValue
  chosen home path =
      effective (λ j. given_of j (arguments m)) (file path) (λ j. default_of j (defaults dirs home))

  -- The file that is read: the one of the command line, else the default one.
  abbrev pub path_of : Bytes → Bytes
  path_of default_path = unwrap_or (m.value_of (text "config")) default_path

  -- How `Settings::new` ends.
  abbrev pub IsNew : Outcome c.ConfigError Settings → Type 0
  IsNew (done r) =
      (home : dirs.PathBuf) × (default_path : Bytes) × (dirs.home_dir ≡ some home)
      × (default_config dirs home ≡ some default_path)
      × HasFields as_string as_port (chosen home (path_of default_path)) r
  IsNew (fail e) =
      ((dirs.home_dir ≡ none) × (e ≡ c.message (text "no home directory")))
      ⊎ ((home : dirs.PathBuf) × (default_path : Bytes) × (dirs.home_dir ≡ some home)
          × (default_config dirs home ≡ some default_path)
          × (((s : c.Config) × (c.merge s (path_of default_path) ≡ err e))
              ⊎ ((s : c.Config) × (effective (overrides s) (sources s) (default s)
                    ≡ chosen home (path_of default_path))
                  × (c.try_into s ≡ err e))))
  IsNew panic =
      (home : dirs.PathBuf) × (dirs.home_dir ≡ some home) × (default_config dirs home ≡ none)

  converted :
      (home : dirs.PathBuf) (default_path : Bytes) (s : c.Config)
      → dirs.home_dir ≡ some home
      → default_config dirs home ≡ some default_path
      → effective (overrides s) (sources s) (default s) ≡ chosen home (path_of default_path)
      → IsNew (try (λ e. e) (c.try_into s))
  converted home default_path s at_home has layers = elim (Result-cases (c.try_into s)) [
    | inl (r, e) ↦ rw e (
      home,
      default_path,
      at_home,
      has,
      subst (λ v. HasFields as_string as_port v r) layers (laws.try_into_lem s r e),
    )
    | inr (e, failed) ↦ rw failed (inr (home, default_path, at_home, has, inr (s, layers, failed)))
  ]

  layered :
      (home : dirs.PathBuf) (path : Bytes) (s₁ s₂ s₃ : c.Config)
      → ((j : Bytes) → overrides s₁ j ≡ overrides c.new j)
      → ((j : Bytes) → sources s₁ j ≡ sources c.new j)
      → ((j : Bytes) → default s₁ j ≡ or_else (default_of j (defaults dirs home)) (default c.new j))
      → c.merge s₁ path ≡ ok s₂
      → ((j : Bytes) → overrides s₃ j ≡ or_else (given_of j (arguments m)) (overrides s₂ j))
      → ((j : Bytes) → sources s₃ j ≡ sources s₂ j)
      → ((j : Bytes) → default s₃ j ≡ default s₂ j)
      → effective (overrides s₃) (sources s₃) (default s₃) ≡ chosen home path
  layered home path s₁ s₂ s₃ over₁ src₁ dflt₁ merged over₃ src₃ dflt₃ = fun_ext λ j.
      let (over₂, src₂, dflt₂) = laws.merge_lem s₁ s₂ path j merged in
      let over : overrides s₃ j ≡ given_of j (arguments m) =
        over₃ j
        ∙ or_else_nothing (given_of j (arguments m)) (overrides s₂ j)
            (over₂ ∙ over₁ j ∙ laws.overrides-new j) in
      let src : sources s₃ j ≡ file path j =
        src₃ j
        ∙ src₂
        ∙ or_else_nothing (file path j) (sources s₁ j) (src₁ j ∙ laws.sources-new j) in
      let dflt : default s₃ j ≡ default_of j (defaults dirs home) =
        dflt₃ j
        ∙ dflt₂
        ∙ dflt₁ j
        ∙ or_else_nothing (default_of j (defaults dirs home)) (default c.new j)
            (laws.default-new j) in
      λ i. or_else (over i) (or_else (src i) (dflt i))

  -- `Settings::new` ends in one of these ways. It gives settings each of whose fields is read from
  -- the command line where that gives a value, else from the file where that has the key, else from
  -- the default, the file being that of `--config` if given; it fails without a home directory, if
  -- the file cannot be merged, or if the values so chosen cannot be converted; and it panics if the
  -- path of the default file is not a string, also where `--config` names another file.
  pub new_settings-IsNew : IsNew (new_settings c m dirs)
  unfolding new_settings
  new_settings-IsNew = elim (Option-cases dirs.home_dir) [
    | inl homeless ↦
        let e : new_settings c m dirs ≡ fail (c.message (text "no home directory")) =
          simp homeless in
        subst IsNew (sym e) (inl (homeless, refl))
    | inr (home, at_home) ↦
        let (s₁, set, over₁, src₁, dflt₁) =
          set_defaults_lem c laws c.new (defaults dirs home) (defaults_plain dirs home) in
        elim (Option-cases (default_config dirs home)) [
          | inl bad ↦
              let e : new_settings c m dirs ≡ panic = simp (at_home, set, bad) in
              subst IsNew (sym e) (home, at_home, bad)
          | inr (path, has) ↦ elim (Result-cases (c.merge s₁ (path_of path))) [
            | inr (e, failed) ↦
                let e₁ : new_settings c m dirs ≡ fail e = simp (at_home, set, has, failed) in
                subst IsNew (sym e₁) (inr (home, path, at_home, has, inl (s₁, failed)))
            | inl (s₂, merged) ↦
                let (s₃, given, over₃, src₃, dflt₃) =
                  set_given_lem c laws s₂ (arguments m) (arguments_plain m) in
                let e : new_settings c m dirs ≡ try (λ e. e) (c.try_into s₃) =
                  simp (at_home, set, has, merged, given) in
                subst IsNew (sym e) (
                  converted home path s₃ at_home has
                    (layered home (path_of path) s₁ s₂ s₃ over₁ src₁ dflt₁ merged over₃ src₃ dflt₃))
          ]
        ]
  ]
