-- ===== src/Daemon/Config/Files.antt =====
-- How the configuration is written: `write_config_atomically`, which daemon/src/config.rs and
-- cli/src/main.rs both have, and `init_config_file` of daemon/src/config.rs. A disk maps paths to
-- contents. Whether an operation of the system succeeds, and how much of a content a failed write
-- leaves behind, are parameters; a rename either replaces the whole file or changes nothing.
use brewmble.Prelude.{
  Bool, Option, Result, Text, [], eq_text, err, false, if◌then◌else◌, lit, none, not, ok, some,
  true, ◌&&◌, ◌++◌, ◌∷◌, ◌≡◌, arith, eq_text_refl, ◌⊎◌,
}
use brewmble.Prelude.Dict.{Dict, get, insert, remove, get-insert, get-remove, contains_key}
use brewmble.Prelude.Exec.{Exec, ◌>>◌, pure, fail}
use brewmble.Daemon.Config.Template.{default_config_template}

abbrev pub Disk : Type 0
Disk = Dict Text

-- How the operations of the system end.
pub record System : Type 0 where
  pub create_dir_all : Text → Result Text (Unit {0})
  pub open_file : Text → Result Text (Unit {0})
  pub partial : Text → Text
  pub write_all : Text → Result Text (Unit {0})
  pub sync_all : Text → Result Text (Unit {0})
  pub rename : Text → Text → Result Text (Unit {0})

abbrev attempt : Result Text (Unit {0}) → (Disk → Disk) → (Disk → Disk) → Exec Disk (Unit {0})
attempt (ok _) done undone d = (ok tt, done d)
attempt (err e) done undone d = (err e, undone d)

abbrev same : Disk → Disk
same d = d

abbrev move : Text → Text → Option Text → Disk → Disk
move from to none d = d
move from to (some content) d = insert to content (remove from d)

module _ (system : System) (with_extension_tmp : Text → Text) where
  abbrev open_truncated : Text → Exec Disk (Unit {0})
  open_truncated path = attempt (system.open_file path) (insert path []) same

  abbrev write_all : Text → Text → Exec Disk (Unit {0})
  write_all path content =
      attempt (system.write_all content) (insert path content)
        (insert path (system.partial content))

  abbrev rename : Text → Text → Exec Disk (Unit {0})
  rename from to d = attempt (system.rename from to) (move from to (get from d)) same d

  unfoldable pub write_config_atomically : Text → Text → Exec Disk (Unit {0})
  write_config_atomically path content =
      let tmp = with_extension_tmp path in
      (do
        open_truncated tmp
        write_all tmp content
        attempt (system.sync_all tmp) same same
        rename tmp path)

  -- The parent directory is made if the path has one that is not empty.
  abbrev create_parent : Option Text → Exec Disk (Unit {0})
  create_parent none = pure tt
  create_parent (some []) = pure tt
  create_parent (some (c ∷ cs)) = attempt (system.create_dir_all (c ∷ cs)) same same

  abbrev save_serialized : Text → Result Text Text → Exec Disk (Unit {0})
  save_serialized path (ok content) d = write_config_atomically path content d
  save_serialized path (err e) d = fail e d

  -- `save_config`, with the configuration as `serde_yaml_ng::to_string` gives it.
  unfoldable pub save_config : (Text → Option Text) → Text → Result Text Text → Exec Disk (Unit {0})
  save_config parent path serialized =
      create_parent (parent path) >> save_serialized path serialized

  unfoldable pub init_config_file : (Text → Option Text) → Text → Bool → Exec Disk (Unit {0})
  init_config_file parent path force d =
      if contains_key path d && not force
      then fail
          (lit "Configuration file already exists at '"
            ++ (path ++ lit "'; use --force to overwrite"))
          d
      else (create_parent (parent path) >> write_config_atomically path default_config_template) d

  -- Either the write succeeds and the path holds the new content whole, or it fails and the path
  -- holds what it held before, provided that the path is not itself the temporary file.
  pub write_config_atomically-get :
      (path content : Text) (d : Disk)
      → eq_text (with_extension_tmp path) path ≡ false
      → let (r, d') = write_config_atomically path content d in
        ((r ≡ ok tt) × (get path d' ≡ some content)) ⊎ (¬ (r ≡ ok tt) × (get path d' ≡ get path d))
  unfolding write_config_atomically
  write_config_atomically-get path content d h = grind (arith, get-insert, get-remove, eq_text_refl)

  -- The files other than the path and the temporary one are kept.
  pub write_config_atomically-others :
      (path content other : Text) (d : Disk)
      → eq_text path other ≡ false
      → eq_text (with_extension_tmp path) other ≡ false
      → get other (write_config_atomically path content d).1 ≡ get other d
  unfolding write_config_atomically
  write_config_atomically-others path content other d h k =
      grind (arith, get-insert, get-remove, eq_text_refl)

  -- Either the configuration is saved and the path holds it as it was serialized, or the call fails
  -- and the path holds what it held before, provided that the path is not the temporary file.
  pub save_config-get :
      (parent : Text → Option Text) (path : Text) (serialized : Result Text Text) (d : Disk)
      → eq_text (with_extension_tmp path) path ≡ false
      → let (r, d') = save_config parent path serialized d in
        ((content : Text) × (serialized ≡ ok content) × (r ≡ ok tt) × (get path d' ≡ some content))
        ⊎ (¬ (r ≡ ok tt) × (get path d' ≡ get path d))
  unfolding save_config
  save_config-get parent path (ok content) d h =
      let w = write_config_atomically-get path content d h in ground arith
  save_config-get parent path (err e) d h = ground arith

  -- Provided that the path is not the temporary file, either the call succeeds, the file is the
  -- template, and no file was there before or overwriting was forced; or it fails, and the file is
  -- what it was.
  pub init_config_file-get :
      (parent : Text → Option Text) (path : Text) (force : Bool) (d : Disk)
      → eq_text (with_extension_tmp path) path ≡ false
      → let (r, d') = init_config_file parent path force d in
        ((r ≡ ok tt)
          × (get path d' ≡ some default_config_template)
          × ((contains_key path d ≡ false) ⊎ (force ≡ true)))
        ⊎ (¬ (r ≡ ok tt) × (get path d' ≡ get path d))
  unfolding init_config_file
  init_config_file-get parent path force d h =
      let w = write_config_atomically-get path default_config_template d h in ground arith
